-- ===== src/Timers/Queue.antt =====
-- The timers of the event loop, reactor/timer_queue.cpp, and `run_after` and `run_every` of
-- reactor/event_loop.cpp, over `timer_manage`.
use project_sensor.Prelude.{
  ℕ, ◌*◌, ◌%◌, ◌^◌, Option, none, some, ◌<◌, ◌≡◌, refl, arith, Bool, true, false, not, ◌==◌,
  if◌then◌else◌,
}
use project_sensor.Prelude.Int.{ℤ, pos}
use project_sensor.Calendar.{Tm, mktime}
use project_sensor.Timers.{Flag, Kernel, timer_count}
use project_sensor.Timers.Manager.{
  soft_timer_register, timer_start, timer_stop, timer_unregister, timer_timeout, timer_restart,
  timer_restart_with, timer_register,
}
use project_sensor.Timers.Registry.{Registered, given, none_left, timer_register-Registered}

pub data TimerIoc : Type 0 where
  ioc_restart ioc_restart_with_time ioc_timeout ioc_stop ioc_unregister : TimerIoc

-- A timer that was registered is started; the answer of the start is not looked at.
unfoldable pub timer_add : ℕ → Flag → ℕ → ℕ → Kernel → ℕ × Kernel
unfolding soft_timer_register timer_start
timer_add ms flag cb param k =
    let (handle, k') = soft_timer_register ms flag cb param k in
    if handle == 255 then (handle, k') else (handle, (timer_start handle k').1)

unfoldable pub timer_cancel : ℕ → Kernel → ℤ × Kernel
unfolding timer_stop
timer_cancel i k = timer_stop i k

-- `pparam` as a number; `timer_unregister` answers TRUE where the others answer 0.
unfoldable pub timer_ioctl : ℕ → TimerIoc → ℕ → Kernel → ℤ × Kernel
unfolding timer_restart timer_restart_with timer_timeout timer_stop timer_unregister
timer_ioctl i ioc_restart param k = timer_restart i k
timer_ioctl i ioc_restart_with_time param k = timer_restart_with i param k
timer_ioctl i ioc_timeout param k = timer_timeout i param k
timer_ioctl i ioc_stop param k = timer_stop i k
timer_ioctl i ioc_unregister param k =
    let (done, k') = timer_unregister i k in ((if done then pos 1 else pos 0), k')

-- SV_TIMER_FLAG_SOFT_TIMER with SV_TIMER_FLAG_ONE_SHOT, and with SV_TIMER_FLAG_PERIODIC.
abbrev pub once : Flag
once = record {
  activated = false;
  periodic = false;
  soft = true;
  timed_out = false;
  handling = false;
}

abbrev pub each_time : Flag
each_time = record once { periodic = true }

unfoldable pub run_after : ℕ → ℕ → ℕ → Kernel → Bool × Kernel
unfolding timer_add
run_after ms cb param k =
    let (handle, k') = timer_add ms once cb param k in (not (handle == 255), k')

unfoldable pub run_every : ℕ → ℕ → ℕ → Kernel → ℕ × Kernel
unfolding timer_add
run_every ms cb param k = timer_add ms each_time cb param k

-- `mktime(&tm)*1000` in 32 bits, for the two calls with a `struct tm`; nothing where `mktime` reads
-- past its table.
abbrev pub milliseconds : ℕ → ℕ
milliseconds seconds = seconds * 1000 % 2 ^ 32

abbrev pub with_time {ℓ} : {A : Type ℓ} → (ℕ → A) → Option (Tm × ℕ) → Option (Tm × A)
with_time run none = none
with_time run (some (tm, seconds)) = some (tm, run (milliseconds seconds))

unfoldable pub run_after_tm : Tm → ℕ → ℕ → Kernel → Option (Tm × (Bool × Kernel))
run_after_tm tm cb param k = with_time (λ ms. run_after ms cb param k) (mktime tm)

unfoldable pub run_every_tm : Tm → ℕ → ℕ → Kernel → Option (Tm × (ℕ × Kernel))
run_every_tm tm cb param k = with_time (λ ms. run_every ms cb param k) (mktime tm)

record Answer (k : Kernel) (r : ℕ × Kernel) : Type 0 where
  accepted : (j : ℕ) → j < timer_count → k.used j ≡ false → (r.0 == 255) ≡ false
  refused : ((j : ℕ) → j < timer_count → k.used j ≡ true) → r ≡ (255, k)

answer : (ms : ℕ) (flag : Flag) (k : Kernel) (r : ℕ × Kernel) → Registered ms flag k r → Answer k r
answer ms flag k _ (given {i} low free lowest marked idle time others) = record {
  accepted = λ j b u. ground (arith, low);
  refused = λ full. absurd (ground (arith, full i low, free));
}
answer ms flag k _ (none_left full) = record {
  accepted = λ j b u. absurd (ground (arith, full j b, u));
  refused = λ all. refl;
}

-- `run_after` answers true if a timer is free, and false, with nothing changed, if all are in use.
pub run_after_lem :
    (ms cb param : ℕ) (k : Kernel)
    → ((j : ℕ) → j < timer_count → k.used j ≡ false → (run_after ms cb param k).0 ≡ true)
      × (((j : ℕ) → j < timer_count → k.used j ≡ true) → run_after ms cb param k ≡ (false, k))
unfolding run_after timer_add soft_timer_register
run_after_lem ms cb param k =
    let a =
      answer ms once k (timer_register ms once cb param k)
        (timer_register-Registered ms once cb param k) in
    (λ j b u. rw (a.accepted j b u) (rw (a.accepted j b u) refl), λ full. rw (a.refused full) refl)
