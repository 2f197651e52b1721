-- ===== src/Modbus/Server/Tests.antt =====
-- Requests to a sensor with the factory settings.
use project_sensor.Prelude.{
  ℕ, zero, suc, ◌+◌, ◌*◌, ◌^◌, ◌≤◌, ◌≡◌, refl, true, inl, some, List, [], ◌∷◌, ◌++◌, arith, take,
  replicate,
}
use project_sensor.Prelude.Int.{pos}
use project_sensor.Crc.Bitwise.{IsByteList, crc16-lt}
use project_sensor.Datum.{ModelDatum, hold_reg_def_init, hold_reg_get}
use project_sensor.Datum.Cell.{IsValid, hold_reg_def_init-IsValid}
use project_sensor.Datum.Hold.{accepts, lowest, highest}
use project_sensor.Modbus.{Rtu, modbus_rtu, modbus_reply, unpack}
use project_sensor.Modbus.Frame.{frame, unpack-frame}
use project_sensor.Modbus.Server.Commu.{
  Commu, bytes, package_recv_handle, package_recv_handle-answer,
}
use project_sensor.Modbus.Server.{Application, package_event_handler}
use project_sensor.Modbus.Server.Answer.{answer, word_at}
use project_sensor.Modbus.Server.Refine.{Implements, IsServing, modbus_reply-answer}
use project_sensor.Modbus.Server.Line.{modbus_reply-unpack}
use project_sensor.Modbus.Server.Effect.{modbus_reply-IsValid, write-read_reply}
use project_sensor.Modbus.Server.Errors.{
  exception, served, reg_count, modbus_reply-outside, write_multiple_shifted,
}

abbrev memory : ModelDatum
memory = record {
  para = record {
    chksum = 0;
    uc = replicate 7 0;
    pad_1 = 0;
    us = replicate 24 0;
    pad_2 = 0;
    ul = replicate 13 0;
  };
  sensor = record { words = replicate 12 300; floats = replicate 3 0 };
}

abbrev sensor_app : Application
sensor_app = record { m_modelinfo = hold_reg_def_init memory; saves = [] }

app-IsValid : IsValid sensor_app.m_modelinfo.para
app-IsValid = hold_reg_def_init-IsValid memory

-- The slave as `application::init` sets it up.
abbrev slave_1 : Rtu
slave_1 = record {
  m_modbus = record { slave = 1; input_reg_max_no = 18; hold_reg_max_no = 57 };
  m_info = record {
    m_type = modbus_rtu;
    m_len = 0;
    m_reg = 0;
    m_reg_no = 0;
    m_param_len = 0;
    m_pparam = 0;
    m_function = 0;
  };
}

slave-IsServing : IsServing slave_1
slave-IsServing = omega arith

abbrev room_bytes : List ℕ
room_bytes = replicate 260 0

zeros-IsByteList : (h : List ℕ) (n : ℕ) → IsByteList h → IsByteList (h ++ replicate n 0)
zeros-IsByteList [] zero p = tt
zeros-IsByteList [] (suc n) p = (omega arith, zeros-IsByteList [] n tt)
zeros-IsByteList (x ∷ h) n p = (p.0, zeros-IsByteList h n p.1)

-- A write of 17 to register 0, a read of it, a read of the last register, a function that the slave
-- does not know, a write of 248 to register 0, and a write of 1234 to register 10 as one of several.
abbrev write_address : List ℕ
write_address = 1 ∷ 6 ∷ 0 ∷ 0 ∷ 0 ∷ 17 ∷ 0x48 ∷ 0x06 ∷ room_bytes

abbrev read_address : List ℕ
read_address = 1 ∷ 3 ∷ 0 ∷ 0 ∷ 0 ∷ 1 ∷ 0x84 ∷ 0x0a ∷ room_bytes

abbrev read_last : List ℕ
read_last = 1 ∷ 3 ∷ 0 ∷ 56 ∷ 0 ∷ 1 ∷ 0 ∷ 0 ∷ room_bytes

abbrev write_several : List ℕ
write_several = 1 ∷ 16 ∷ 0 ∷ 10 ∷ 0 ∷ 1 ∷ 2 ∷ 4 ∷ 210 ∷ 0 ∷ 0 ∷ room_bytes

write_address-IsByteList : IsByteList write_address
write_address-IsByteList =
    zeros-IsByteList (1 ∷ 6 ∷ 0 ∷ 0 ∷ 0 ∷ 17 ∷ 0x48 ∷ 0x06 ∷ []) 260 (omega arith)

read_address-IsByteList : IsByteList read_address
read_address-IsByteList =
    zeros-IsByteList (1 ∷ 3 ∷ 0 ∷ 0 ∷ 0 ∷ 1 ∷ 0x84 ∷ 0x0a ∷ []) 260 (omega arith)

modbus_reply-answer_example :
    Implements
      (modbus_reply (some (package_event_handler 5)) sensor_app slave_1 read_address 8)
      (answer 5 slave_1.m_modbus sensor_app read_address 8)
modbus_reply-answer_example =
    modbus_reply-answer 5 sensor_app slave_1 read_address 8 read_address-IsByteList (omega arith)
      (omega arith) slave-IsServing

modbus_reply-unpack_example :
    let r = modbus_reply (some (package_event_handler 5)) sensor_app slave_1 read_address 8 in
    (r.rsp_length ≤ 260) × (unpack slave_1.m_modbus r.rsp r.rsp_length ≡ pos 0)
modbus_reply-unpack_example =
    modbus_reply-unpack 5 sensor_app slave_1 read_address 8 read_address-IsByteList (omega arith)
      (omega arith) slave-IsServing (inl refl)

modbus_reply-IsValid_example :
    let r = modbus_reply (some (package_event_handler 5)) sensor_app slave_1 write_address 8 in
    IsValid r.model.m_modelinfo.para
modbus_reply-IsValid_example =
    modbus_reply-IsValid 5 sensor_app slave_1 write_address 8 write_address-IsByteList (omega arith)
      slave-IsServing app-IsValid

write-read_reply_example :
    let after =
      (modbus_reply (some (package_event_handler 5)) sensor_app slave_1 write_address 8).model in
    let r = modbus_reply (some (package_event_handler 5)) after slave_1 read_address 8 in
    take r.rsp_length r.rsp ≡ frame (1 ∷ 3 ∷ 2 ∷ 0 ∷ 17 ∷ [])
unfolding accepts lowest highest word_at
write-read_reply_example =
    write-read_reply 5 sensor_app slave_1 slave_1 write_address read_address 8 8
      (write_address-IsByteList, read_address-IsByteList) (omega arith) (omega arith)
      (slave-IsServing, slave-IsServing) app-IsValid (refl, refl) (refl, refl) (omega arith)
      (omega arith, refl)

modbus_reply-outside_example :
    let r = modbus_reply (some (package_event_handler 5)) sensor_app slave_1 read_last 8 in
    (take r.rsp_length r.rsp ≡ exception read_last 2) × (r.model ≡ sensor_app)
unfolding word_at served reg_count
modbus_reply-outside_example =
    modbus_reply-outside 5 sensor_app slave_1 read_last 8
      (zeros-IsByteList (1 ∷ 3 ∷ 0 ∷ 56 ∷ 0 ∷ 1 ∷ 0 ∷ 0 ∷ []) 260 (omega arith)) (omega arith)
      slave-IsServing (inl refl) (omega arith)

write_multiple_shifted_example :
    let after =
      (modbus_reply (some (package_event_handler 5)) sensor_app slave_1 write_several 11).model in
    hold_reg_get after.m_modelinfo 5 10 ≡ 2 * 2 ^ 8 + 4
unfolding word_at
write_multiple_shifted_example =
    write_multiple_shifted 5 sensor_app slave_1 write_several 11
      (zeros-IsByteList (1 ∷ 16 ∷ 0 ∷ 10 ∷ 0 ∷ 1 ∷ 2 ∷ 4 ∷ 210 ∷ 0 ∷ 0 ∷ []) 260 (omega arith))
      (omega arith) slave-IsServing app-IsValid (refl, refl) (omega arith) (omega arith)

abbrev read_body : List ℕ
read_body = 1 ∷ 3 ∷ 0 ∷ 0 ∷ 0 ∷ 1 ∷ []

abbrev heard : List ℕ
heard = frame read_body ++ room_bytes

heard-IsByteList : IsByteList heard
heard-IsByteList =
    let sum = crc16-lt read_body (omega arith) in
    zeros-IsByteList (frame read_body) 260 (omega (arith, sum))

heard_accepted : unpack slave_1.m_modbus heard 8 ≡ pos 0
heard_accepted =
    unpack-frame slave_1.m_modbus heard read_body 8 (omega arith) refl (omega arith) refl (inl refl)

abbrev station : Commu
station = record {
  opened = true;
  offline_cnt = 2;
  sent = [];
  rx_enters = 0;
  rtu = slave_1;
  app = sensor_app;
}

package_recv_handle-answer_example :
    let (rt, to_continue, c') = package_recv_handle 5 station (bytes 8) heard in
    let a = answer 5 slave_1.m_modbus sensor_app heard 8 in
    (rt ≡ pos 0) × (c'.sent ≡ frame a.body ∷ []) × (c'.app.m_modelinfo ≡ a.app.m_modelinfo)
package_recv_handle-answer_example =
    package_recv_handle-answer 5 station heard 8 refl heard-IsByteList (omega arith) (omega arith)
      slave-IsServing heard_accepted
