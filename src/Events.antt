-- ===== src/Events.antt =====
-- Events of the loop: the pool `event_manage` of includes/service.cpp, and `run_inloop` and
-- `event_handle` of reactor/event_loop.cpp, with the event device of bsp/driver/event/drv_event.cpp.
pub mod Pool
pub mod Drain
mod Tests
use project_sensor.Prelude.{
  ℕ, zero, suc, ◌+◌, ◌%◌, ◌^◌, Bool, true, false, List, [], ◌∷◌, leb, ◌==◌, if◌then◌else◌,
}
use project_sensor.Prelude.Int.{ℤ, pos, negsuc}
use project_sensor.Links.{Links, init, insert_after, splice_init}
use project_sensor.Buffer.{Buffer, assign, retrieve_all}
use project_sensor.Timers.Manager.{find_free}

-- `def_EVENT_NR`, the size of `m_event`.
abbrev pub event_count : ℕ
event_count = 6

-- `handler` is the address of the handler, 0 for NULL; the parameters stand in the buffer.
pub record Event : Type 0 where
  pub priority : ℕ
  pub index : ℕ
  pub buffer : Buffer
  pub handler : ℕ
  pub object : ℕ

-- The node of `m_event[i]` has the address `i`; then come the head `m_list_event` of the loop and the
-- local head of `event_handle`.
abbrev pub list_event : ℕ
list_event = 6

abbrev pub local_head : ℕ
local_head = 7

-- The pool, the list of the loop and the counter `s_event` of the event device.
pub record EventLoop : Type 0 where
  pub links : Links
  pub event : ℕ → Event
  pub used : ℕ → Bool
  pub device_event : ℕ

abbrev pub set_event : ℕ → Event → EventLoop → EventLoop
set_event i e s = record s { event = λ j. if j == i then e else s.event j }

-- `event::operator=`: the array of the parameters and then every member but the list node.
unfoldable pub copy : Event → Event → Event
copy e other = record other {
  buffer = assign (record e.buffer { bytes = other.buffer.bytes }) other.buffer;
}

-- 6 stands for NULL.
unfoldable pub event_malloc : EventLoop → ℕ × EventLoop
event_malloc s =
    let i = find_free event_count 0 s.used in
    let e = record (s.event i) { index = i; buffer = retrieve_all (s.event i).buffer } in
    if leb event_count i
    then (event_count, s)
    else (i, set_event i e (record s { used = λ j. if j == i then true else s.used j }))

-- The bit that is cleared is the index of the event.
unfoldable pub event_free : ℕ → EventLoop → EventLoop
event_free i s = record s { used = λ j. if j == (s.event i).index then false else s.used j }

unfoldable pub run_inloop : Event → EventLoop → ℤ × EventLoop
run_inloop e s =
    let (i, s1) = event_malloc s in
    let s2 = set_event i (copy (s1.event i) e) s1 in
    if leb event_count i then (negsuc 0, s) else (
      pos 0,
      record s2 {
        links = insert_after list_event i s2.links;
        device_event = (s.device_event + 1) % 2 ^ 32;
      },
    )

-- `call f o` is the handler at address `f` on the object at address `o`, with the event at hand; it may
-- use the loop and whatever else the program keeps, `W`.
module _ {W : Type 0} (call : ℕ → ℕ → ℕ → EventLoop × W → EventLoop × W) where
  unfoldable pub call_event : ℕ → EventLoop × W → EventLoop × W
  call_event i (s, w) =
      let e = s.event i in if e.handler == 0 then (s, w) else call e.handler e.object i (s, w)

  unfoldable pub serve : ℕ → EventLoop × W → EventLoop × W
  unfolding call_event
  serve i (s, w) = let (s', w') = call_event i (s, w) in (event_free i s', w')

  -- The loop over the local list from `i` on.
  unfoldable pub serve_from : ℕ → ℕ → EventLoop × W → EventLoop × W
  serve_from zero i (s, w) = (s, w)
  serve_from (suc fuel) i (s, w) =
      let (s', w') = serve i (s, w) in
      let later = serve_from fuel (s'.links.next i) (s', w') in
      if i == local_head then (s, w) else later

  -- `event_handle` on POLLIN.
  unfoldable pub event_handle : ℕ → EventLoop × W → EventLoop × W
  event_handle fuel (s, w) =
      let links = splice_init list_event local_head (init local_head s.links) in
      let s1 = record s { links = links; device_event = 0 } in
      serve_from fuel (links.next local_head) (s1, w)
