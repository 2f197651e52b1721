-- ===== src/Timers/Tests.antt =====
-- Timers at concrete ticks, shortly before the tick wraps around.
use project_sensor.Prelude.{
  ℕ, ◌+◌, ◌*◌, ◌/◌, ◌%◌, ◌≤◌, ◌<◌, ◌≡◌, refl, arith, true, false, [], ◌∷◌, ◌==◌, if◌then◌else◌, inr,
}
use project_sensor.Prelude.Int.{pos}
use project_sensor.Links.Ring.{IsRing}
use project_sensor.Timers.{
  Timer, Kernel, sv_timer_start, timer_list, soft_timer_list, tick_from_millisecond, list_of,
  not_after,
}
use project_sensor.Timers.Manager.{
  find_free, eparam, soft_timer_register, timer_stop, timer_unregister, timer_register,
  timer_handle, timer_check, is_due,
}
use project_sensor.Timers.Start.{insert, timeouts, new_timeout, sv_timer_start-insert}
use project_sensor.Timers.Order.{IsOrdered, sv_timer_start-IsOrdered}
use project_sensor.Timers.Live.{due}
use project_sensor.Timers.Handle.{Handled, timer_handle_end}
use project_sensor.Timers.Queue.{
  timer_add, timer_cancel, timer_ioctl, ioc_stop, ioc_unregister, run_every,
}
use project_sensor.Timers.Registry.{tick_from_millisecond_lem}
use project_sensor.Timers.Clock.{outside, IsSignalled, timer_check-awake}

abbrev other_end : ℕ → ℕ
other_end x = if x == 6 then 0 else if x == 0 then 6 else x

-- Timer 0 runs with a period of 20 ticks and expires at the tick 15; the others rest.
abbrev timers : ℕ → Timer
timers i = record {
  flag = record {
    activated = i == 0;
    periodic = i == 0;
    soft = false;
    timed_out = false;
    handling = false;
  };
  func = 0;
  parameter = 0;
  init_tick = if i == 0 then 20 else 10;
  timeout_tick = if i == 0 then 15 else 0;
}

abbrev at_tick : ℕ → Kernel
at_tick n = record {
  tick = n;
  tick_for_xtime = n % 100;
  xtime = n / 100;
  links = record { next = other_end; prev = other_end };
  timer = timers;
  used = λ i. i == 0;
  soft_handling = false;
  device_time = 0;
}

-- Five ticks before the wrap-around.
abbrev late : ℕ
late = 4294967291

ring : (n : ℕ) → IsRing (at_tick n).links timer_list (0 ∷ [])
ring n = record { seg = (refl, refl, (refl, refl)); distinct = ((omega arith, tt), (tt, tt)) }

sv_timer_start-insert_example :
    let (rt, k') = sv_timer_start 1 (at_tick late) in
    (rt ≡ pos 0) × IsRing k'.links timer_list (1 ∷ 0 ∷ [])
unfolding insert not_after list_of
sv_timer_start-insert_example =
    sv_timer_start-insert 1 (at_tick late) refl (0 ∷ []) (ring late) (omega arith)
      (omega arith, (omega arith, tt))

sv_timer_start-IsOrdered_example :
    IsOrdered
      (sv_timer_start 1 (at_tick late)).1
      late
      timer_list
      (insert (timeouts (at_tick late)) 1 (new_timeout 1 (at_tick late)) (0 ∷ []))
unfolding list_of
sv_timer_start-IsOrdered_example =
    sv_timer_start-IsOrdered 1 (at_tick late) late (0 ∷ []) refl (omega arith) (omega arith)
      (omega arith, (omega arith, tt)) (omega arith)
      (record {
        ring = ring late;
        few = omega arith;
        order = (omega arith, omega arith, omega arith, tt);
      })

-- Callbacks that do nothing but count.
abbrev count : ℕ → ℕ → Kernel × ℕ → Kernel × ℕ
count f p (k, w) = (k, w + 1)

timer_handle_end_example :
    Handled count (λ f p k w. refl) timer_list (timer_handle count 2 timer_list (at_tick 15, 0)).0
timer_handle_end_example =
    timer_handle_end count (λ f p k w. refl) 2 timer_list (0 ∷ []) (at_tick 15) 0
      (record {
        ring = ring 15;
        few = omega arith;
        live = (
          record {
            active = refl;
            place = unfold list_of in refl;
            period = inr (omega arith, omega arith);
          },
          tt,
        );
        now = omega arith;
      })
      (unfold due not_after in omega arith)

tick_from_millisecond_lem_example :
    let ticks = tick_from_millisecond 43200000 in
    (43200000 ≤ 42949662 → (43200000 ≤ ticks * 10) × (ticks * 10 < 43200010))
    × (42949662 < 43200000 → ticks * 10 < 43200000)
tick_from_millisecond_lem_example = tick_from_millisecond_lem 43200000 (omega arith)

timer_check-awake_example :
    let k' = (timer_check count 2 (at_tick 15, 0)).0 in
    IsSignalled (outside k') × (is_due soft_timer_list k' ≡ true → k'.device_time ≡ 1)
timer_check-awake_example = timer_check-awake count (λ f p s. refl) 2 (at_tick 15) 0 refl

-- The second timer is the first that is free; there is no timer 9.
queue_test :
    ((run_every 1000 5 0 (at_tick 0)).0 ≡ 1)
    × ((timer_cancel 9 (at_tick 0)).0 ≡ eparam)
    × ((timer_ioctl 9 ioc_stop 0 (at_tick 0)).0 ≡ eparam)
    × ((timer_ioctl 1 ioc_unregister 0 (at_tick 0)).0 ≡ pos 1)
unfolding run_every timer_add timer_register find_free tick_from_millisecond timer_cancel
    timer_ioctl timer_stop timer_unregister soft_timer_register
queue_test = (refl, refl, refl, refl)
