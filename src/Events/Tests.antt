-- ===== src/Events/Tests.antt =====
-- The event loop at concrete events.
use project_sensor.Prelude.{
  List, none, length, ℕ, refl, arith, true, [], ◌∷◌, ◌==◌, if◌then◌else◌, replicate,
}
use project_sensor.Buffer.{over, append_int16}
use project_sensor.Events.{Event, EventLoop, event_handle}
use project_sensor.Events.Pool.{IsPending}
use project_sensor.Prelude.Int.{pos}
use project_sensor.Storage.{Device, Saved}
use project_sensor.Storage.Handler.{handle_save, left, save}
use project_sensor.Events.Drain.{Emptied, event_handle-Emptied}

abbrev other_end : ℕ → ℕ
other_end x = if x == 6 then 1 else if x == 1 then 6 else x

-- An event with handler 5, index 0 and the registers 0 and 1, as `package_event_handler` makes them.
abbrev save_event : Event
save_event = record {
  priority = 0;
  index = 0;
  buffer = append_int16 (append_int16 (over (replicate 15 0) 0) 0) 2;
  handler = 5;
  object = 9;
}

-- Slots 0 and 1 are in use, and slot 1 waits with a copy of the event.
abbrev one_pending : EventLoop
one_pending = record {
  links = record { next = other_end; prev = other_end };
  event = λ i. save_event;
  used = λ i. if i == 0 then true else i == 1;
  device_event = 1;
}

one_pending-IsPending : IsPending one_pending (1 ∷ [])
one_pending-IsPending = record {
  ring = record { seg = (refl, refl, (refl, refl)); distinct = ((omega arith, tt), (tt, tt)) };
  held = ((omega arith, refl), tt);
}

-- A storage device that keeps the last write.
abbrev page : Device (List ℕ)
page = record {
  read = λ dev addr old. (pos (length dev), dev);
  write = λ dev addr bs. (pos (length bs), bs);
}

-- Nothing has been saved.
abbrev unsaved : Saved (List ℕ)
unsaved = record {
  rt = pos 0;
  model = record {
    para = record {
      chksum = 0;
      uc = replicate 7 0;
      pad_1 = 0;
      us = replicate 24 0;
      pad_2 = 0;
      ul = replicate 13 0;
    };
    sensor = record { words = replicate 12 0; floats = replicate 3 0 };
  };
  dev = [];
  modbus = record { slave = 1; input_reg_max_no = 18; hold_reg_max_no = 57 };
  baud = none;
}

event_handle-Emptied_example :
    Emptied
      (handle_save page)
      left
      (save page)
      (λ i s w. refl)
      one_pending
      unsaved
      (1 ∷ [])
      (event_handle (handle_save page) 2 (one_pending, unsaved))
event_handle-Emptied_example =
    event_handle-Emptied (handle_save page) left (save page) (λ i s w. refl) 2 (1 ∷ []) one_pending
      unsaved one_pending-IsPending (omega arith)
