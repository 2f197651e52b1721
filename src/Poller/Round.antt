-- ===== src/Poller/Round.antt =====
-- One round of the event loop: `poller::poll` of reactor/poller.cpp, `channel::handleEvent` of
-- reactor/channel.cpp and the body of `eventloop::loop` of reactor/event_loop.cpp. The devices and the
-- handlers of the channels are parameters.
pub mod Scanned
pub mod Served
use project_sensor.Prelude.{
  ℕ, zero, suc, ◌+◌, ◌-◌, ◌/◌, ◌%◌, Bool, true, false, not, ◌&&◌, ◌||◌, Option, none, some, List,
  ◌==◌, blit, if◌then◌else◌,
}
use project_sensor.Prelude.Int.{ℤ, pos, negsuc}
use project_sensor.Links.{Links, init, insert_after}
use project_sensor.Hal.{has_flag}
use project_sensor.Buffer.{Buffer, over}
use project_sensor.Timers.{Kernel}
use project_sensor.Timers.Manager.{timer_start_with, timer_expired}
use project_sensor.Poller.{Poller, channels, pollin, pollout}

-- `m_active_channels`, the head of the list of the channels to serve.
abbrev pub active_channels : ℕ
active_channels = 7

abbrev pub device_pollin : ℕ
device_pollin = 2

abbrev pub device_pollout : ℕ
device_pollout = 4

-- `kPollTimeMs`.
abbrev pub poll_time_ms : ℕ
poll_time_ms = 2000

-- What interrupts and handlers work on: the channels, the timers and all else.
pub record Program (W : Type 0) : Type 0 where
  pub poller : Poller
  pub kernel : Kernel
  pub world : W

-- The program with `revents_` and `m_active_node` of each channel, a memory of its own.
pub record Reactor (W : Type 0) : Type 0 where
  pub program : Program W
  pub revents : ℕ → ℕ
  pub active : Links
  pub handle_timer : ℕ

-- The event that the answer of a device means to a channel: to read goes before to write.
abbrev pub occurred : ℤ → ℕ → Option ℕ
occurred (negsuc n) events = none
occurred (pos rt) events =
    if rt == 0
    then none
    else if has_flag device_pollin rt && has_flag pollin events
    then some pollin
    else if has_flag device_pollout rt && has_flag pollout events
    then some pollout
    else none

abbrev pub is_zero : ℤ → Bool
is_zero (pos n) = n == 0
is_zero (negsuc n) = false

-- The number that `hasWritten` gets is taken as unsigned, so that a failed read moves back.
abbrev pub has_written : ℤ → Buffer → Buffer
has_written (pos n) b = record b { writer_index = b.writer_index + n }
has_written (negsuc n) b = record b { writer_index = b.writer_index - (n + 1) }

-- `poll_device` is `device::poll` of a channel's device, `read_device` its `read`, with the answer and
-- the bytes, `callback` the registered handler, and `array` the local array of `handleEvent`.
module _ {W : Type 0} (poll_device : ℕ → Program W → ℤ)
    (read_device : ℕ → Program W → (ℤ × List ℕ) × Program W)
    (callback : ℕ → Option (ℕ → Buffer → Program W → Buffer × Program W)) (array : List ℕ) where
  -- The event of a channel, if there is one.
  abbrev pub event_of : Program W → ℕ → Option ℕ
  event_of p c = occurred (poll_device c p) (p.poller.events c)

  abbrev pub mark : ℕ → Option ℕ → Bool × Reactor W → Bool × Reactor W
  mark c none s = s
  mark c (some e) (exit, r) = (
    true,
    record r {
      revents = λ d. if d == c then e else r.revents d;
      active = insert_after active_channels c r.active;
    },
  )

  -- The body of the loop over the channels.
  abbrev pub visit : ℕ → Bool × Reactor W → Bool × Reactor W
  visit c s = mark c (event_of s.1.program c) s

  -- `list_for_each` over the channels, from `it`; `fuel` bounds the channels.
  unfoldable pub scan : ℕ → ℕ → Bool × Reactor W → Bool × Reactor W
  scan zero it s = s
  scan (suc fuel) it s =
      let s' = visit it s in
      let rest = scan fuel (s'.1.program.poller.links.next it) s' in
      if it == channels then s else rest

  abbrev pub is_expired : Reactor W → Bool
  is_expired r = not (is_zero (timer_expired r.handle_timer r.program.kernel))

  -- The loop of `poll`, with what the interrupts do before each scan; nothing where the counted rounds
  -- do not end it.
  unfoldable pub poll_loop :
      ℕ → ℕ → (ℕ → Program W → Program W) → Bool → Reactor W → Option (Reactor W)
  poll_loop fuel zero meanwhile exit r = none
  poll_loop fuel (suc rounds) meanwhile exit r =
      let p = meanwhile 0 r.program in
      let (exit', r') = scan fuel (p.poller.links.next channels) (exit, record r { program = p }) in
      let later = poll_loop fuel rounds (λ n. meanwhile (suc n)) exit' r' in
      if exit || is_expired r then some r else later

  abbrev pub started : Reactor W → Reactor W
  started r =
      let k = (timer_start_with r.handle_timer poll_time_ms r.program.kernel).1 in
      record r { program = record r.program { kernel = k } }

  unfoldable pub poll : ℕ → ℕ → (ℕ → Program W → Program W) → Reactor W → Option (Reactor W)
  unfolding poll_loop
  poll fuel rounds meanwhile r = poll_loop fuel rounds meanwhile false (started r)

  abbrev pub call_if :
      Bool → (Buffer → Program W → Buffer × Program W) → Buffer × Program W → Buffer × Program W
  call_if true f (b, p) = f b p
  call_if false f s = s

  abbrev pub read_in : ℕ → Buffer → Program W → Buffer × Program W
  read_in c b p =
      let ((rt, bytes), p') = read_device c p in
      (has_written rt (record b { bytes = blit b.bytes b.reader_index bytes }), p')

  abbrev pub handle_with :
      ℕ → ℕ → Option (ℕ → Buffer → Program W → Buffer × Program W) → Program W → Program W
  handle_with c revents none p = p
  handle_with c revents (some cb) p =
      let got = call_if (has_flag pollin revents) (read_in c) (over array 4, p) in
      let read = call_if (has_flag pollin revents) (cb pollin) got in
      (call_if (has_flag pollout revents) (cb pollout) read).1

  -- `handleEvent`.
  unfoldable pub handle_event : ℕ → ℕ → Program W → Program W
  handle_event c revents p = handle_with c revents (callback c) p

  -- `list_for_each` over the active channels, from `it`.
  unfoldable pub serve_from : ℕ → ℕ → Reactor W → Reactor W
  serve_from zero it r = r
  serve_from (suc fuel) it r =
      let r' = record r { program = handle_event it (r.revents it) r.program } in
      let rest = serve_from fuel (r'.active.next it) r' in if it == active_channels then r else rest

  -- The loop over the active channels, after `poll`.
  abbrev pub serve_all : ℕ → Option (Reactor W) → Option (Reactor W)
  serve_all fuel none = none
  serve_all fuel (some r) = some (serve_from fuel (r.active.next active_channels) r)

  -- One round of `loop`.
  unfoldable pub loop_round : ℕ → ℕ → (ℕ → Program W → Program W) → Reactor W → Option (Reactor W)
  unfolding poll serve_from
  loop_round fuel rounds meanwhile r =
      serve_all fuel
        (poll fuel rounds meanwhile (record r { active = init active_channels r.active }))
