-- ===== src/Timers/Clock.antt =====
-- The ticks count the time, and a soft timer that is due wakes the event loop.
use project_sensor.Prelude.{
  ℕ, zero, suc, ◌+◌, ◌*◌, ◌/◌, ◌%◌, ◌^◌, ◌<◌, ◌≡◌, refl, ap, ap₂, ◌∙◌, arith, Bool, true, false,
  ◌&&◌, ◌==◌, if◌then◌else◌, Bool-cases, inl, inr,
}
use project_sensor.Links.{is_empty, del}
use project_sensor.Timers.{
  Kernel, tick_mod, tick_per_second, timer_list, soft_timer_list, list_next_timeout, sv_timer_start,
  set_flag,
}
use project_sensor.Timers.Manager.{
  settle, call_timeout, fire, is_due, timer_handle, wake_soft, timer_check, soft_timer_handle,
  advance, sv_tick_increase, gettimeofday,
}

-- What the timers' own steps leave alone.
pub record Outside : Type 0 where
  pub tick : ℕ
  pub tick_for_xtime : ℕ
  pub xtime : ℕ
  pub soft_handling : Bool
  pub device_time : ℕ

abbrev pub outside : Kernel → Outside
outside k = record {
  tick = k.tick;
  tick_for_xtime = k.tick_for_xtime;
  xtime = k.xtime;
  soft_handling = k.soft_handling;
  device_time = k.device_time;
}

start-outside : (i : ℕ) (k : Kernel) → outside (sv_timer_start i k).1 ≡ outside k
unfolding sv_timer_start
start-outside i k = elim (Bool-cases (k.timer i).flag.activated) [
  | inl on ↦ rw on refl
  | inr off ↦ rw off refl
]

settle-outside : (head i : ℕ) (k : Kernel) → outside (settle head i k) ≡ outside k
unfolding settle
settle-outside head i k =
    let flag = (k.timer i).flag in
    elim (Bool-cases (flag.periodic && flag.activated)) [
      | inl again ↦ rw again (start-outside i (set_flag i (record flag { activated = false }) k))
      | inr over ↦
          rw over
            (elim (Bool-cases (head == soft_timer_list)) [ inl e ↦ rw e refl | inr e ↦ rw e refl ])
    ]

-- The clock after `n` ticks: the tick wraps around, the wall time counts seconds.
pub record IsInTime (n : ℕ) (o : Outside) : Type 0 where
  pub tick : o.tick ≡ n % tick_mod
  pub part : o.tick_for_xtime ≡ n % tick_per_second
  pub seconds : o.xtime ≡ n / tick_per_second % 2 ^ 64

-- The timer device is readable, with 1 in its counter, while the loop has to handle soft timers.
abbrev pub IsSignalled : Outside → Type 0
IsSignalled o = o.device_time ≡ (if o.soft_handling then 1 else 0)

-- What is decided on the soft timers.
record Woken (k k' : Kernel) : Type 0 where
  tick : k'.tick ≡ k.tick
  part : k'.tick_for_xtime ≡ k.tick_for_xtime
  seconds : k'.xtime ≡ k.xtime
  signalled : IsSignalled (outside k')
  awake : is_due soft_timer_list k' ≡ true → k'.device_time ≡ 1

wake_soft-Woken : (k : Kernel) → IsSignalled (outside k) → Woken k (wake_soft k)
unfolding wake_soft is_due list_next_timeout
wake_soft-Woken k s = record {
  tick = ground arith;
  part = ground arith;
  seconds = ground arith;
  signalled = ground arith;
  awake = λ d. ground arith;
}

advance-IsInTime :
    (n : ℕ) (k : Kernel) → IsInTime n (outside k) → IsInTime (n + 1) (outside (advance k))
unfolding advance
advance-IsInTime n k t = record {
  tick = ground (arith, t.tick);
  part = ground (arith, t.part);
  seconds = ground (arith, t.part, t.seconds);
}

module _ {W : Type 0} (call : ℕ → ℕ → Kernel × W → Kernel × W)
    (keeps : (f p : ℕ) (s : Kernel × W) → outside (call f p s).0 ≡ outside s.0) where
  call_timeout-outside : (i : ℕ) (s : Kernel × W) → outside (call_timeout call i s).0 ≡ outside s.0
  unfolding call_timeout
  call_timeout-outside i (k, w) =
      let t = k.timer i in
      elim (Bool-cases (t.func == 0)) [
        | inl null ↦ rw null refl
        | inr there ↦
            rw there
              (keeps t.func t.parameter (set_flag i (record t.flag { handling = true }) k, w))
      ]

  timer_handle-outside :
      (fuel head : ℕ) (s : Kernel × W) → outside (timer_handle call fuel head s).0 ≡ outside s.0
  unfolding timer_handle fire
  timer_handle-outside zero head (k, w) = refl
  timer_handle-outside (suc fuel) head (k, w) = elim (Bool-cases (is_due head k)) [
    | inl now ↦
        let i = k.links.next head in
        rw now (
          timer_handle-outside fuel head (fire call head i (k, w))
          ∙ settle-outside head i (call_timeout call i (record k { links = del i k.links }, w)).0
          ∙ call_timeout-outside i (record k { links = del i k.links }, w))
    | inr later ↦ rw later refl
  ]

  -- The state in which `timer_check` decides on the soft timers.
  checked : ℕ → Kernel × W → Kernel × W
  checked fuel (k, w) =
      let handled = timer_handle call fuel timer_list (k, w) in
      if is_empty timer_list k.links then (k, w) else handled

  checked-outside : (fuel : ℕ) (s : Kernel × W) → outside (checked fuel s).0 ≡ outside s.0
  unfolding checked
  checked-outside fuel (k, w) = elim (Bool-cases (is_empty timer_list k.links)) [
    | inl none ↦ rw none refl
    | inr timers ↦ rw timers (timer_handle-outside fuel timer_list (k, w))
  ]

  -- After each `timer_check` a soft timer that is due has made the timer device readable, so the
  -- event loop will come to it, and the counter of the device is right again, from any state in
  -- which it was.
  pub timer_check-awake :
      (fuel : ℕ) (k : Kernel) (w : W)
      → IsSignalled (outside k)
      → let k' = (timer_check call fuel (k, w)).0 in
        IsSignalled (outside k') × (is_due soft_timer_list k' ≡ true → k'.device_time ≡ 1)
  unfolding timer_check checked
  timer_check-awake fuel k w s =
      let c = (checked fuel (k, w)).0 in
      let wk = wake_soft-Woken c (rw (checked-outside fuel (k, w)) s) in (wk.signalled, wk.awake)

  -- Each tick moves the clock on by one, whatever the timers do that expire at it.
  pub sv_tick_increase-IsInTime :
      (fuel n : ℕ) (k : Kernel) (w : W)
      → IsSignalled (outside k)
      → IsInTime n (outside k)
      → IsInTime (n + 1) (outside (sv_tick_increase call fuel (k, w)).0)
  unfolding sv_tick_increase timer_check checked
  sv_tick_increase-IsInTime fuel n k w s t =
      let c = (checked fuel (advance k, w)).0 in
      let e = checked-outside fuel (advance k, w) in
      let wk = wake_soft-Woken c (rw e (unfold advance in ground arith)) in
      let v = advance-IsInTime n k t in
      record {
        tick = wk.tick ∙ ap (λ (o : Outside). o.tick) e ∙ v.tick;
        part = wk.part ∙ ap (λ (o : Outside). o.tick_for_xtime) e ∙ v.part;
        seconds = wk.seconds ∙ ap (λ (o : Outside). o.xtime) e ∙ v.seconds;
      }

  pub soft_timer_handle-IsSignalled :
      (fuel : ℕ) (s : Kernel × W) → IsSignalled (outside (soft_timer_handle call fuel s).0)
  unfolding soft_timer_handle
  soft_timer_handle-IsSignalled fuel s = refl

-- The time of day after `n` ticks, up to the wrap-around of the tick.
pub gettimeofday_lem :
    (n : ℕ) (k : Kernel)
    → IsInTime n (outside k)
    → n < tick_mod
    → gettimeofday k ≡ (n / 100, n % 100 * 10)
unfolding gettimeofday
gettimeofday_lem n k t h =
    ap₂ (λ (a b : ℕ). (a, b)) (omega (arith, t.seconds)) (omega (arith, t.tick))
