-- ===== src/Buffer/Tests.antt =====
-- A buffer over the 15 bytes that an event has.
use project_sensor.Prelude.{ℕ, refl, List, arith, replicate}
use project_sensor.Buffer.{Buffer}
use project_sensor.Buffer.Queue.{IsValid}

abbrev event_memory : List ℕ
event_memory = replicate 15 0

abbrev fifteen : Buffer
fifteen = record {
  bytes = event_memory;
  len = 15;
  cheap_prepend = 4;
  reader_index = 4;
  writer_index = 4;
}

fifteen-IsValid : IsValid fifteen
fifteen-IsValid = record {
  array = refl;
  cheap_in = omega arith;
  reader_in = omega arith;
  writer_in = omega arith;
}

abbrev two_held : Buffer
two_held = record fifteen { writer_index = 6 }

two_held-IsValid : IsValid two_held
two_held-IsValid = record {
  array = refl;
  cheap_in = omega arith;
  reader_in = omega arith;
  writer_in = omega arith;
}
