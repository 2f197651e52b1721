-- ===== src/Iic/Tests.antt =====
-- Three bytes, at an address of two bytes and of one.
use project_sensor.Prelude.{ℕ, List, ◌≡◌, refl, arith, true, false, some, [], ◌∷◌, inr}
use project_sensor.Prelude.Int.{pos}
use project_sensor.Timers.{
  Timer, Kernel, sv_timer_start, find_place, list_of, tick_from_millisecond, timer_init,
}
use project_sensor.Timers.Manager.{
  timer_expired, timer_start, timer_register, hard_timer_register, find_free,
}
use project_sensor.Iic.{
  Iic, i2c_read, i2c_write, unfinished, transfer_start, prepared, cpu_iic_transfer,
}
use project_sensor.Iic.Writing.{requests}
use project_sensor.Iic.Reading.{receive, read_starts, receive-stored}
use project_sensor.Iic.Whole.{outcome, in_time, cpu_iic_transfer-sent}

abbrev three : Iic
three = record {
  sub_addr = 258;
  timeout = 800;
  sla_addr = 160;
  access_numb_bytes = 3;
  index = 0;
  lock = false;
  access_finished = unfinished;
  access_ctrl = i2c_write;
  sub_addr_cnt = 2;
  access_addr = 7 ∷ 8 ∷ 9 ∷ [];
  calls = [];
  tx_enabled = true;
}

abbrev to_read : Iic
to_read = record three { access_ctrl = i2c_read; sub_addr_cnt = 1 }

-- Three bytes, with a request after the first and two after the second.
abbrev arriving : List (ℕ × ℕ)
arriving = (4, 1) ∷ (5, 2) ∷ (6, 0) ∷ []

receive-stored_example :
    let u = receive arriving (requests 2 0 (transfer_start to_read)) in
    (read_starts u.calls ≡ 1) × (u.access_addr ≡ 4 ∷ 5 ∷ 6 ∷ [])
receive-stored_example = receive-stored 1 0 arriving to_read refl (omega arith) refl refl

abbrev timer : Timer
timer = record {
  flag = record {
    activated = false;
    periodic = false;
    soft = false;
    timed_out = false;
    handling = false;
  };
  func = 0;
  parameter = 0;
  init_tick = 1;
  timeout_tick = 0;
}

abbrev resting : Kernel
resting = record {
  tick = 0;
  tick_for_xtime = 0;
  xtime = 0;
  links = record { next = λ n. n; prev = λ n. n };
  timer = λ i. timer;
  used = λ i. false;
  soft_handling = false;
  device_time = 0;
}

-- Two requests while a tick passes, a round with none, and the rest.
abbrev later : Kernel
later = record resting { tick = 1 }

abbrev gaps : List (ℕ × Kernel)
gaps = (2, later) ∷ (0, later) ∷ []

cpu_iic_transfer-sent_example :
    outcome (cpu_iic_transfer 3 (in_time gaps 3) (record { iic = three; kernel = resting }))
    ≡ some (pos 3, 1 ∷ 2 ∷ 7 ∷ 8 ∷ 9 ∷ [])
unfolding prepared timer_expired hard_timer_register timer_register timer_start sv_timer_start
    find_place list_of tick_from_millisecond timer_init find_free
cpu_iic_transfer-sent_example =
    cpu_iic_transfer-sent gaps 3 3 (record { iic = three; kernel = resting }) refl
      (refl, (refl, tt)) (omega arith) refl refl (inr refl) (omega arith) refl (omega arith)
