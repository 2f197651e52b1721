-- ===== src/Timers/Manager.antt =====
-- The class `timer_manage` and the tick, over the timers of the parent.
use project_sensor.Prelude.{
  ℕ, zero, suc, ◌+◌, ◌*◌, ◌/◌, ◌%◌, ◌^◌, Bool, true, false, not, ◌&&◌, ◌||◌, leb, ◌==◌,
  if◌then◌else◌,
}
use project_sensor.Prelude.Int.{ℤ, pos, negsuc}
use project_sensor.Links.{init, del, is_empty}
use project_sensor.Timers.{
  Flag, Kernel, timer_list, soft_timer_list, set_timer, set_flag, not_after, tick_mod,
  half_tick_max, tick_per_second, timer_count, timer_init, list_next_timeout, sv_timer_start,
  sv_timer_stop, tick_from_millisecond,
}

-- The answers -SV_EPARAM and -SV_EIO.
abbrev pub eparam : ℤ
eparam = negsuc 8

abbrev pub eio : ℤ
eio = negsuc 7

-- The part of `timer_manage::init` before the device is opened.
unfoldable pub manage_init : Kernel → Kernel
manage_init k = record k {
  links = init soft_timer_list (init timer_list k.links);
  soft_handling = false;
}

-- The loop of `timer_register` over the bit map, from bit `i` with `left` bits to go.
unfoldable pub find_free : ℕ → ℕ → (ℕ → Bool) → ℕ
find_free zero i used = i
find_free (suc left) i used = let later = find_free left (i + 1) used in if used i then later else i

-- A handle is a `char`: the answers -1 and -2 are 255 and 254.
unfoldable pub timer_register : ℕ → Flag → ℕ → ℕ → Kernel → ℕ × Kernel
unfolding find_free
timer_register ms flag func parameter k =
    let tick = tick_from_millisecond ms in
    let i = find_free timer_count 0 k.used in
    let k1 = record k { used = λ j. if j == i then true else k.used j } in
    if leb half_tick_max tick
    then (254, k)
    else if leb timer_count i
    then (255, k)
    else (i, timer_init i flag func parameter tick k1)

-- The mask `~SV_TIMER_FLAG_HARD_TIMER|SV_TIMER_FLAG_SOFT_TIMER` has every bit set.
unfoldable pub hard_timer_register : ℕ → Flag → ℕ → ℕ → Kernel → ℕ × Kernel
hard_timer_register ms flag func parameter k = timer_register ms flag func parameter k

unfoldable pub soft_timer_register : ℕ → Flag → ℕ → ℕ → Kernel → ℕ × Kernel
soft_timer_register ms flag func parameter k =
    timer_register ms (record flag { soft = true }) func parameter k

abbrev release : ℕ → Kernel → Kernel
release i k = record k { used = λ j. if j == i then false else k.used j }

unfoldable pub timer_unregister : ℕ → Kernel → Bool × Kernel
timer_unregister i k =
    if leb timer_count i
    then (false, k)
    else (true, set_flag i (record (k.timer i).flag { activated = false }) (release i k))

unfoldable pub timer_start : ℕ → Kernel → ℤ × Kernel
timer_start i k = if leb timer_count i then (eparam, k) else sv_timer_start i k

unfoldable pub timer_stop : ℕ → Kernel → ℤ × Kernel
timer_stop i k = if leb timer_count i then (eparam, k) else sv_timer_stop i k

unfoldable pub timer_timeout : ℕ → ℕ → Kernel → ℤ × Kernel
timer_timeout i ms k =
    let tick = tick_from_millisecond ms in
    if leb timer_count i || leb half_tick_max tick
    then (eparam, k)
    else (pos 0, set_timer i (record (k.timer i) { init_tick = tick }) k)

-- A later step runs if the one before it answered 0.
abbrev pub and_then : ℤ × Kernel → (Kernel → ℤ × Kernel) → ℤ × Kernel
and_then (pos zero, k) f = f k
and_then (pos (suc n), k) f = (pos (suc n), k)
and_then (negsuc n, k) f = (negsuc n, k)

unfoldable pub timer_start_with : ℕ → ℕ → Kernel → ℤ × Kernel
timer_start_with i ms k = and_then (timer_timeout i ms k) (timer_start i)

-- The flags are read before the handle is compared with the size of the table.
unfoldable pub timer_restart : ℕ → Kernel → ℤ × Kernel
timer_restart i k =
    let flag = (k.timer i).flag in
    if flag.handling || flag.periodic
    then (eio, k)
    else if leb timer_count i
    then (eparam, k)
    else and_then (sv_timer_stop i k) (sv_timer_start i)

unfoldable pub timer_restart_with : ℕ → ℕ → Kernel → ℤ × Kernel
timer_restart_with i ms k = and_then (timer_timeout i ms k) (timer_restart i)

-- -1, or the flag SV_TIMER_FLAG_TIMEOUT, which is 0x10.
unfoldable pub timer_expired : ℕ → Kernel → ℤ
timer_expired i k =
    if leb timer_count i then negsuc 0 else if (k.timer i).flag.timed_out then pos 16 else pos 0

unfoldable pub timer_started : ℕ → Kernel → ℤ
timer_started i k =
    if leb timer_count i then negsuc 0 else if (k.timer i).flag.activated then pos 1 else pos 0

-- A periodic timer is started again; another is marked, and a soft one gives its place back.
unfoldable pub settle : ℕ → ℕ → Kernel → Kernel
settle head i k =
    let flag = (k.timer i).flag in
    let stopped = set_flag i (record flag { activated = false }) k in
    let over = set_flag i (record flag { activated = false; timed_out = true }) k in
    if flag.periodic && flag.activated
    then (sv_timer_start i stopped).1
    else if head == soft_timer_list
    then release i over
    else over

-- The head of the list is due.
unfoldable pub is_due : ℕ → Kernel → Bool
is_due head k =
    not (is_empty head k.links) && not_after (k.timer (k.links.next head)).timeout_tick k.tick

-- The second half of `timer_check`.
unfoldable pub wake_soft : Kernel → Kernel
wake_soft k =
    let awake = record k { soft_handling = true; device_time = (k.device_time + 1) % tick_mod } in
    if not k.soft_handling && not (is_empty soft_timer_list k.links)
    then (if not_after (list_next_timeout soft_timer_list k) k.tick then awake else k)
    else k

-- The counters of `sv_tick_increase`.
unfoldable pub advance : Kernel → Kernel
advance k =
    let k1 = record k { tick = (k.tick + 1) % tick_mod; tick_for_xtime = k.tick_for_xtime + 1 } in
    let second = record k1 { tick_for_xtime = 0; xtime = (k.xtime + 1) % 2 ^ 64 } in
    if leb tick_per_second k1.tick_for_xtime then second else k1

-- `call f p` is the callback at address `f` with its parameter; it may use the timers and whatever
-- else the program keeps, `W`.
module _ {W : Type 0} (call : ℕ → ℕ → Kernel × W → Kernel × W) where
  unfoldable pub call_timeout : ℕ → Kernel × W → Kernel × W
  call_timeout i (k, w) =
      let t = k.timer i in
      let ready = set_flag i (record t.flag { handling = true }) k in
      let (k', w') = call t.func t.parameter (ready, w) in
      if t.func == 0
      then (k, w)
      else (set_flag i (record (k'.timer i).flag { handling = false }) k', w')

  unfoldable pub fire : ℕ → ℕ → Kernel × W → Kernel × W
  unfolding call_timeout settle
  fire head i (k, w) =
      let (k', w') = call_timeout i (record k { links = del i k.links }, w) in
      (settle head i k', w')

  unfoldable pub timer_handle : ℕ → ℕ → Kernel × W → Kernel × W
  unfolding is_due fire
  timer_handle zero head (k, w) = (k, w)
  timer_handle (suc fuel) head (k, w) =
      let later = timer_handle fuel head (fire head (k.links.next head) (k, w)) in
      if is_due head k then later else (k, w)

  -- The device is read, which resets its counter.
  unfoldable pub soft_timer_handle : ℕ → Kernel × W → Kernel × W
  unfolding timer_handle
  soft_timer_handle fuel s =
      let (k, w) = timer_handle fuel soft_timer_list s in
      (record k { soft_handling = false; device_time = 0 }, w)

  unfoldable pub timer_check : ℕ → Kernel × W → Kernel × W
  unfolding timer_handle wake_soft
  timer_check fuel (k, w) =
      let handled = timer_handle fuel timer_list (k, w) in
      let (k', w') = if is_empty timer_list k.links then (k, w) else handled in (wake_soft k', w')

  unfoldable pub sv_tick_increase : ℕ → Kernel × W → Kernel × W
  unfolding timer_check
  sv_tick_increase fuel (k, w) = timer_check fuel (advance k, w)

-- `sv_tick_init`, `sv_tick_set` and `sv_xtime_set`.
unfoldable pub tick_init : Kernel → Kernel
tick_init k = record k { tick = 0; tick_for_xtime = 0; xtime = 0 }

unfoldable pub tick_set : ℕ → Kernel → Kernel
tick_set n k = record k { tick = n }

unfoldable pub xtime_set : ℕ → Kernel → Kernel
xtime_set n k = record k { xtime = n }

-- Seconds, and milliseconds within the second.
unfoldable pub gettimeofday : Kernel → ℕ × ℕ
gettimeofday k = (k.xtime, k.tick % tick_per_second * 1000 / tick_per_second)
