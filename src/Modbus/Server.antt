-- ===== src/Modbus/Server.antt =====
-- The application's answer to a Modbus request, `application::package_event_handler` of app/main.cpp.
pub mod Answer
pub mod Loops
pub mod Regs
pub mod Writes
pub mod Refine
pub mod Line
pub mod Effect
pub mod Errors
pub mod Commu
mod Tests
use project_sensor.Prelude.{
  ℕ, zero, suc, ◌+◌, ◌-◌, ◌*◌, ◌/◌, ◌%◌, ◌^◌, Bool, true, false, ◌||◌, Option, none, some, List, [],
  ◌∷◌, ◌==◌, if◌then◌else◌, get_or, set,
}
use project_sensor.Prelude.Int.{ℤ, pos, negsuc}
use project_sensor.Datum.{RegType, input, hold, ModelDatum, modbus_reg_get, modbus_reg_set}
use project_sensor.Modbus.{
  ProtocolType, raw_mac, modbus_rtu, ProtocolPhase, prepare, done, Info, Handled, is_zero,
  fc_read_holding_registers, fc_read_input_registers, fc_write_single_register,
  fc_write_multiple_registers,
}

-- What the handler touches of `class application`: the model, and the parameters of the `datum_save`
-- events that it hands to `run_inloop`, the latest first.
pub record Application : Type 0 where
  pub m_modelinfo : ModelDatum
  pub saves : List (ℕ × ℕ)

-- The loop that reads: each register goes out high byte first. `junk` is what the uninitialised
-- local of `hold_reg_get` or `input_reg_get` holds.
pub read_loop : ℕ → ModelDatum → RegType → ℕ → ℕ → ℕ → ℕ → List ℕ → List ℕ
read_loop junk m type reg i zero buffer buf = buf
read_loop junk m type reg i (suc n) buffer buf =
    let value = modbus_reg_get m junk type ((reg + i) % 2 ^ 16) in
    read_loop junk m type reg (i + 1) n (buffer + 2)
      (set (set buf (buffer + 1) (value % 2 ^ 8)) buffer (value / 2 ^ 8 % 2 ^ 8))

-- The loop that writes, until a register refuses its value.
pub write_loop : ModelDatum → ℕ → ℕ → ℕ → ℕ → List ℕ → ℤ × ModelDatum
write_loop m reg i zero buffer buf = (pos 0, m)
write_loop m reg i (suc n) buffer buf =
    let value = get_or buf (buffer + 1) 0 + get_or buf buffer 0 * 2 ^ 8 in
    let r = modbus_reg_set m (pos 0) hold ((reg + i) % 2 ^ 16) value in
    let rest = write_loop (r.1) reg (i + 1) n (buffer + 2) buf in if is_zero (r.0) then rest else r

pub package_event_handler : ℕ → ProtocolPhase → Application → Info → List ℕ → Handled Application
unfolding read_loop write_loop
package_event_handler junk phase app pinfo buf =
    let function = pinfo.m_function in
    let reg = pinfo.m_reg in
    let reg_no = pinfo.m_reg_no in
    let buffer = pinfo.m_pparam in
    let reads = function == fc_read_holding_registers || function == fc_read_input_registers in
    let writes = function == fc_write_single_register || function == fc_write_multiple_registers in
    let type = if function == fc_read_holding_registers then hold else input in
    let idle : Handled Application = record { rt = pos 0; model = app; info = pinfo; buf = buf } in
    elim pinfo.m_type [
      | raw_mac ↦ record idle { rt = negsuc 0 }
      | modbus_rtu ↦ elim phase [
        | prepare ↦
            if reads
            then record idle {
              info = record pinfo { m_param_len = reg_no * 2 % 2 ^ 16 };
              buf = read_loop junk app.m_modelinfo type reg 0 reg_no buffer buf;
            }
            else if writes
            then (let r = write_loop app.m_modelinfo reg 0 reg_no buffer buf in
                record idle { rt = r.0; model = record app { m_modelinfo = r.1 } })
            else idle
        | done ↦
            if writes
            then record idle { model = record app { saves = (reg, reg_no) ∷ app.saves } }
            else idle
      ]
    ]
