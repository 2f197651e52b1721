-- ===== src/Timers/Registry.antt =====
-- Which timers are given out, and for how many ticks.
use project_sensor.Prelude.{
  ℕ, zero, suc, ◌+◌, ◌*◌, ◌≤◌, ◌<◌, ◌≡◌, ◌≢◌, refl, arith, Bool, true, false, leb, ◌==◌,
  if◌then◌else◌, Bool-cases, inl, inr,
}
use project_sensor.Timers.{
  Flag, Kernel, tick_mod, timer_count, half_tick_max, timer_init, tick_from_millisecond,
}
use project_sensor.Timers.Manager.{find_free, timer_register}

-- The first bit that is clear, from bit `i` on; the end if there is none.
pub record IsFirst (i left : ℕ) (used : ℕ → Bool) (r : ℕ) : Type 0 where
  pub from : i ≤ r
  pub until : r ≤ i + left
  pub free : r < i + left → used r ≡ false
  pub taken : (j : ℕ) → i ≤ j → j < r → used j ≡ true

pub find_free-IsFirst : (left i : ℕ) (used : ℕ → Bool) → IsFirst i left used (find_free left i used)
unfolding find_free
find_free-IsFirst zero i used = record {
  from = omega arith;
  until = omega arith;
  free = λ h. absurd (omega arith);
  taken = λ j a b. absurd (omega arith);
}
find_free-IsFirst (suc left) i used = elim (Bool-cases (used i)) [
  | inl taken ↦
      let r = find_free-IsFirst left (i + 1) used in
      rw taken (record {
        from = omega (arith, r.from);
        until = omega (arith, r.until);
        free = λ h. r.free (omega arith);
        taken = λ j a b. ground (arith, r.taken j);
      })
  | inr free ↦ rw free (record {
    from = omega arith;
    until = omega arith;
    free = λ h. free;
    taken = λ j a b. absurd (omega arith);
  })
]

-- The ticks are the milliseconds in tens, rounded up, up to 42949662 ms; from there on the product
-- wraps around, and the ticks fall short of the time that was asked for.
pub tick_from_millisecond_lem :
    (ms : ℕ)
    → ms < tick_mod
    → (ms ≤ 42949662
        → (ms ≤ tick_from_millisecond ms * 10) × (tick_from_millisecond ms * 10 < ms + 10))
      × (42949662 < ms → tick_from_millisecond ms * 10 < ms)
unfolding tick_from_millisecond
tick_from_millisecond_lem ms h = (λ small. omega arith, λ big. omega arith)

-- What the answer of `timer_register` says: the lowest timer that was free is given out, idle and with
-- its time, and only that one is marked; or all were in use, and nothing changes.
pub data Registered (ms : ℕ) (flag : Flag) (k : Kernel) : ℕ × Kernel → Type 0 where
  given :
      {i : ℕ} {k' : Kernel}
      → i < timer_count
      → k.used i ≡ false
      → ((j : ℕ) → j < i → k.used j ≡ true)
      → ((j : ℕ) → k'.used j ≡ (if j == i then true else k.used j))
      → (k'.timer i).flag.activated ≡ false
      → (k'.timer i).init_tick ≡ tick_from_millisecond ms
      → ((j : ℕ) → j ≢ i → k'.timer j ≡ k.timer j)
      → Registered ms flag k (i, k')
  none_left : ((j : ℕ) → j < timer_count → k.used j ≡ true) → Registered ms flag k (255, k)

tick_from_millisecond-lt : (ms : ℕ) → leb half_tick_max (tick_from_millisecond ms) ≡ false
unfolding tick_from_millisecond
tick_from_millisecond-lt ms = ground arith

-- `timer_register` gives out the lowest free timer, never one that is in use, and answers -1 only if
-- all six are in use; it never answers -2.
pub timer_register-Registered :
    (ms : ℕ) (flag : Flag) (func parameter : ℕ) (k : Kernel)
    → Registered ms flag k (timer_register ms flag func parameter k)
unfolding timer_register timer_init
timer_register-Registered ms flag func parameter k =
    let i = find_free timer_count 0 k.used in
    let f = find_free-IsFirst timer_count 0 k.used in
    rw (tick_from_millisecond-lt ms) (elim (Bool-cases (leb timer_count i)) [
      | inl full ↦ rw full (none_left (λ j h. f.taken j (omega arith) (ground arith)))
      | inr room ↦ rw room (
          given (ground arith) (f.free (ground arith)) (λ j h. f.taken j (omega arith) h)
            (λ j. refl) (ground arith) (ground arith) (λ j n. ground arith))
    ])
