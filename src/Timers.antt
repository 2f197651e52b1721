-- ===== src/Timers.antt =====
-- The timer service of includes/service.cpp: `struct sv_timer`, `sv_timer_*` with the ticks that drive
-- it; `timer_manage` stands in Manager. Masking of interrupts is not represented: each operation is one step.
pub mod Clock
pub mod Manager
pub mod Order
pub mod Start
pub mod Live
pub mod Serve
pub mod Handle
pub mod Registry
pub mod Queue
mod Tests
use project_sensor.Prelude.{
  ℕ, zero, suc, ◌+◌, ◌-◌, ◌*◌, ◌/◌, ◌%◌, ◌^◌, Bool, true, false, not, ◌&&◌, ◌||◌, Option, none,
  some, ltb, leb, ◌==◌, if◌then◌else◌,
}
use project_sensor.Prelude.Int.{ℤ, pos, negsuc}
use project_sensor.Links.{Links, init, insert_before, del, is_empty}

abbrev pub tick_mod : ℕ
tick_mod = 2 ^ 32

-- `TICK_MAX / 2`.
abbrev pub half_tick_max : ℕ
half_tick_max = 2147483647

abbrev pub tick_per_second : ℕ
tick_per_second = 100

-- `def_MONITOR_TIME_NR`, the size of `m_timer`.
abbrev pub timer_count : ℕ
timer_count = 6

-- The bits of the flag byte.
pub record Flag : Type 0 where
  pub activated : Bool
  pub periodic : Bool
  pub soft : Bool
  pub timed_out : Bool
  pub handling : Bool

-- `func` is the address of the callback, 0 for NULL.
pub record Timer : Type 0 where
  pub flag : Flag
  pub func : ℕ
  pub parameter : ℕ
  pub init_tick : ℕ
  pub timeout_tick : ℕ

-- The node of `m_timer[i]` has the address `i`; the two list heads come after.
abbrev pub timer_list : ℕ
timer_list = 6

abbrev pub soft_timer_list : ℕ
soft_timer_list = 7

-- The static data of the file, and the counter `s_time` of the timer device (drv_timer.cpp).
pub record Kernel : Type 0 where
  pub tick : ℕ
  pub tick_for_xtime : ℕ
  pub xtime : ℕ
  pub links : Links
  pub timer : ℕ → Timer
  pub used : ℕ → Bool
  pub soft_handling : Bool
  pub device_time : ℕ

abbrev pub set_timer : ℕ → Timer → Kernel → Kernel
set_timer i t k = record k { timer = λ j. if j == i then t else k.timer j }

abbrev pub set_flag : ℕ → Flag → Kernel → Kernel
set_flag i f k = set_timer i (record (k.timer i) { flag = f }) k

-- `(a - b) < TICK_MAX / 2` on unsigned words: `b` is not after `a`.
unfoldable pub not_after : ℕ → ℕ → Bool
not_after b a = ltb ((a + tick_mod - b) % tick_mod) half_tick_max

-- `_sv_timer_init`.
unfoldable pub timer_init : ℕ → Flag → ℕ → ℕ → ℕ → Kernel → Kernel
timer_init i flag func parameter tick k =
    record (set_timer i
      (record {
        flag = record flag { activated = false; timed_out = false; handling = false };
        func = func;
        parameter = parameter;
        init_tick = tick;
        timeout_tick = 0;
      })
      k) { links = init i k.links }

unfoldable pub list_next_timeout : ℕ → Kernel → ℕ
list_next_timeout head k =
    if is_empty head k.links then tick_mod - 1 else (k.timer (k.links.next head)).timeout_tick

unfoldable pub list_of : Flag → ℕ
list_of flag = if flag.soft then soft_timer_list else timer_list

-- The loop of `sv_timer_start` from the node `n`: where it stops.
unfoldable pub find_place : ℕ → ℕ → ℕ → ℕ → Kernel → ℕ
find_place zero head timeout n k = head
find_place (suc fuel) head timeout n k =
    let later = find_place fuel head timeout (k.links.next n) k in
    if n == head then n else if not_after timeout (k.timer n).timeout_tick then n else later

-- No list holds more nodes than there are timers.
unfoldable pub sv_timer_start : ℕ → Kernel → ℤ × Kernel
unfolding find_place list_of
sv_timer_start i k0 =
    let t = k0.timer i in
    let timeout = (k0.tick + t.init_tick) % tick_mod in
    let k1 = set_timer i (record t { timeout_tick = timeout }) k0 in
    let head = list_of t.flag in
    let place = find_place (timer_count + 1) head timeout (k1.links.next head) k1 in
    let k2 = record k1 { links = insert_before place i k1.links } in
    let flag = record t.flag { activated = true; timed_out = false; handling = false } in
    if t.flag.activated then (negsuc 0, k0) else (pos 0, set_flag i flag k2)

unfoldable pub sv_timer_stop : ℕ → Kernel → ℤ × Kernel
sv_timer_stop i k =
    let flag = (k.timer i).flag in
    let k1 = record k { links = del i k.links } in
    if flag.activated
    then (pos 0, set_flag i (record flag { activated = false; timed_out = false }) k1)
    else (negsuc 0, k)

unfoldable pub sv_timer_detach : ℕ → Kernel → ℤ × Kernel
sv_timer_detach i k = (pos 0, record k { links = del i k.links })

unfoldable pub tick_from_millisecond : ℕ → ℕ
tick_from_millisecond ms = (tick_per_second * ms + 999) % tick_mod / 1000
