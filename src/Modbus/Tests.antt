-- ===== src/Modbus/Tests.antt =====
-- Frames on the line.
use project_sensor.Prelude.{ℕ, ◌/◌, ◌%◌, ◌^◌, ◌≡◌, refl, inl, List, [], ◌∷◌, ◌++◌, arith}
use project_sensor.Prelude.Int.{negsuc}
use project_sensor.Crc.{crc16}
use project_sensor.Modbus.{Modbus, unpack}
use project_sensor.Modbus.Frame.{unpack_burst}

abbrev one : Modbus
one = record { slave = 1; input_reg_max_no = 18; hold_reg_max_no = 57 }

abbrev head : List ℕ
head = 1 ∷ 3 ∷ 0 ∷ []

abbrev tail : List ℕ
tail = 0 ∷ 3 ∷ []

-- A request whose register number 0x0a00 arrived as 0x0b01, with the check sum that it was sent with.
abbrev spoilt : List ℕ
spoilt =
    let crc = crc16 (head ++ (10 ∷ 0 ∷ tail)) in
    (head ++ (11 ∷ 1 ∷ tail)) ++ (crc / 2 ^ 8 ∷ crc % 2 ^ 8 ∷ [])

unpack_burst_example : unpack one spoilt 9 ≡ negsuc 1
unpack_burst_example =
    unpack_burst one spoilt head tail 10 0 11 1 9 (omega arith) (omega arith) (omega arith)
      (omega arith) (inl (λ e. absurd (omega arith))) (omega arith) refl refl (omega arith) refl
