-- ===== src/Timers/Order.antt =====
-- The timer lists are in the order of expiry, also where the tick wraps around.
use project_sensor.Prelude.{
  ℕ, suc, ◌+◌, ◌-◌, ◌%◌, ◌≤◌, ◌<◌, ◌≡◌, ◌≢◌, ◌↔◌, refl, sym, arith, true, false, List, [], ◌∷◌,
  length, Bool-cases, inl, inr,
}
use project_sensor.Links.Seg.{Fresh}
use project_sensor.Links.Ring.{IsRing}
use project_sensor.Timers.{
  Kernel, list_of, not_after, timer_count, tick_mod, half_tick_max, sv_timer_start,
}
use project_sensor.Timers.Start.{timeouts, insert, insert_ext, new_timeout, sv_timer_start-insert}

-- The ticks from `b` on until `t`, on unsigned words.
abbrev pub since : ℕ → ℕ → ℕ
since b t = (t + tick_mod - b) % tick_mod

-- From the tick `b` on the timers expire in the order of the list, none before `lo` ticks, and all
-- within half the range of the tick.
abbrev pub Ascending : (ℕ → ℕ) → ℕ → ℕ → List ℕ → Type 0
Ascending times b lo [] = Unit
Ascending times b lo (x ∷ xs) =
    (times x < tick_mod)
    × (lo ≤ since b (times x))
    × (since b (times x) < half_tick_max)
    × Ascending times b (since b (times x)) xs

-- The comparison of the loop is that of the ticks from `b` on.
not_after-since :
    (b s t : ℕ)
    → b < tick_mod
    → s < tick_mod
    → t < tick_mod
    → since b s < half_tick_max
    → since b t < half_tick_max
    → (not_after s t ≡ true) ↔ (since b s ≤ since b t)
unfolding not_after
not_after-since b s t hb hs ht ss st = ground arith

insert-Ascending :
    (times : ℕ → ℕ) (b lo i : ℕ) (xs : List ℕ)
    → b < tick_mod
    → times i < tick_mod
    → lo ≤ since b (times i)
    → since b (times i) < half_tick_max
    → Ascending times b lo xs
    → Ascending times b lo (insert times i (times i) xs)
unfolding insert
insert-Ascending times b lo i [] hb hi above near h = (hi, above, near, tt)
insert-Ascending times b lo i (x ∷ xs) hb hi above near h =
    let e = not_after-since b (times i) (times x) hb hi h.0 near h.2 in
    elim (Bool-cases (not_after (times i) (times x))) [
      | inl here ↦ rw here (hi, above, near, (h.0, e.0 here, h.2, h.3))
      | inr on ↦ rw on (
        h.0,
        h.1,
        h.2,
        insert-Ascending times b (since b (times x)) i xs hb hi (ground (arith, e.1)) near h.3,
      )
    ]

Ascending-ext :
    (s t : ℕ → ℕ) (i b lo : ℕ) (xs : List ℕ)
    → ((j : ℕ) → j ≢ i → s j ≡ t j)
    → Fresh i xs
    → Ascending s b lo xs
    → Ascending t b lo xs
Ascending-ext s t i b lo [] e f h = tt
Ascending-ext s t i b lo (x ∷ xs) e f h =
    let q = e x (λ p. f.0 (sym p)) in
    rw (sym q) (h.0, h.1, h.2, Ascending-ext s t i b (since b (s x)) xs e f.1 h.3)

-- The list `head` holds the timers `xs` in the order in which they expire from the tick `b` on.
pub record IsOrdered (k : Kernel) (b head : ℕ) (xs : List ℕ) : Type 0 where
  pub ring : IsRing k.links head xs
  pub few : length xs ≤ timer_count
  pub order : Ascending (timeouts k) b 0 xs

pub length-insert :
    (times : ℕ → ℕ) (i timeout : ℕ) (xs : List ℕ)
    → length (insert times i timeout xs) ≡ suc (length xs)
unfolding insert
length-insert times i timeout [] = refl
length-insert times i timeout (x ∷ xs) = ground (arith, length-insert times i timeout xs)

pub start-timeouts :
    (i : ℕ) (k : Kernel)
    → (k.timer i).flag.activated ≡ false
    → (timeouts (sv_timer_start i k).1 i ≡ new_timeout i k)
      × ((j : ℕ) → j ≢ i → timeouts k j ≡ timeouts (sv_timer_start i k).1 j)
unfolding sv_timer_start
start-timeouts i k idle = rw idle (ground arith, λ j n. ground arith)

-- Starting an idle timer keeps its list in the order of expiry. The tick `b` is any from which on
-- the timers of the list and the new one expire within half the range of the tick.
pub sv_timer_start-IsOrdered :
    (i : ℕ) (k : Kernel) (b : ℕ) (xs : List ℕ)
    → (k.timer i).flag.activated ≡ false
    → b < tick_mod
    → since b (new_timeout i k) < half_tick_max
    → Fresh i (list_of (k.timer i).flag ∷ xs)
    → length xs < timer_count
    → IsOrdered k b (list_of (k.timer i).flag) xs
    → IsOrdered
        (sv_timer_start i k).1
        b
        (list_of (k.timer i).flag)
        (insert (timeouts k) i (new_timeout i k) xs)
sv_timer_start-IsOrdered i k b xs idle hb near off room o =
    let (same, others) = start-timeouts i k idle in
    let k' = (sv_timer_start i k).1 in
    let e : insert (timeouts k) i (new_timeout i k) xs ≡ insert (timeouts k') i (timeouts k' i) xs =
      rw same (insert_ext (timeouts k) (timeouts k') i (new_timeout i k) xs others off.1) in
    record {
      ring = (sv_timer_start-insert i k idle xs o.ring o.few off).1;
      few = rw length-insert room;
      order = rw e (
          insert-Ascending (timeouts k') b 0 i xs hb (rw same (omega arith)) (omega arith)
            (rw same near)
            (Ascending-ext (timeouts k) (timeouts k') i b 0 xs others off.1 o.order));
    }
