-- ===== src/Storage/Handler.antt =====
-- `application::datum_save` of app/main.cpp as the handler of an event of the loop: the register and
-- their number come from the buffer of the event.
use project_sensor.Prelude.{ℕ}
use project_sensor.Buffer.{Buffer, read_int16}
use project_sensor.Events.{Event, EventLoop, set_event}
use project_sensor.Storage.{Device, Saved, datum_save}

-- The two calls of `readInt16`: the register, the number and the buffer after them.
abbrev pub two_words : Buffer → ℕ × ℕ × Buffer
two_words b = let (reg, b1) = read_int16 b in let (reg_no, b2) = read_int16 b1 in (reg, reg_no, b2)

abbrev pub left : Event → Buffer
left e = (two_words e.buffer).2

module _ {D : Type 0} (storage : Device D) where
  -- The save with the parameters of an event, after what the save before it left.
  abbrev pub save : Event → Saved D → Saved D
  save e w =
      let (reg, reg_no, b) = two_words e.buffer in
      datum_save storage reg reg_no w.modbus w.model w.dev

  -- The handler that `package_event_handler` puts into its event; `f` and `o` are its address and the
  -- application.
  abbrev pub handle_save : ℕ → ℕ → ℕ → EventLoop × Saved D → EventLoop × Saved D
  handle_save f o i (s, w) =
      let e = s.event i in (set_event i (record e { buffer = left e }) s, save e w)
