-- ===== src/Modbus.antt =====
-- The Modbus RTU slave of app/modbus.h and app/modbus.cpp. `device_commu::process_command` of
-- app/commu.cpp passes one buffer as request and as reply, so there is one buffer here.
pub mod Frame
pub mod Server
mod Tests
use project_sensor.Prelude.{
  ℕ, zero, suc, ◌+◌, ◌-◌, ◌*◌, ◌/◌, ◌%◌, ◌^◌, Bool, true, false, ◌||◌, ◌&&◌, not, Option, none,
  some, List, [], ◌∷◌, ltb, leb, ◌==◌, if◌then◌else◌, length, get_or, set, take, drop, blit,
}
use project_sensor.Prelude.Int.{ℤ, pos, negsuc}
use project_sensor.Crc.{crc16}

-- `enum protocol_type` and `enum protocol_phase` of app/protocol.h.
pub data ProtocolType : Type 0 where
  raw_mac modbus_rtu : ProtocolType

pub data ProtocolPhase : Type 0 where
  prepare done : ProtocolPhase

-- `struct _modbus`, less `debug`, which nothing reads.
pub record Modbus : Type 0 where
  pub slave : ℕ
  pub input_reg_max_no : ℕ
  pub hold_reg_max_no : ℕ

-- `modbus_rtu_info` with its base `protocol_info`; `m_pparam` is an index of the buffer.
pub record Info : Type 0 where
  pub m_type : ProtocolType
  pub m_len : ℕ
  pub m_reg : ℕ
  pub m_reg_no : ℕ
  pub m_param_len : ℕ
  pub m_pparam : ℕ
  pub m_function : ℕ

-- `protocol_modbus_rtu`; its constructor sets `m_type` to `enum_MODBUS_RTU` for good.
pub record Rtu : Type 0 where
  pub m_modbus : Modbus
  pub m_info : Info

-- The function codes and the exception codes that the slave uses.
abbrev pub fc_read_holding_registers : ℕ
fc_read_holding_registers = 0x03

abbrev pub fc_read_input_registers : ℕ
fc_read_input_registers = 0x04

abbrev pub fc_write_single_register : ℕ
fc_write_single_register = 0x06

abbrev pub fc_write_multiple_registers : ℕ
fc_write_multiple_registers = 0x10

abbrev pub fc_report_slave_id : ℕ
fc_report_slave_id = 0x11

abbrev pub illegal_function : ℕ
illegal_function = 1

abbrev pub illegal_data_address : ℕ
illegal_data_address = 2

abbrev pub max_message_length : ℕ
max_message_length = 260

-- `"LMB" LIBMODBUS_VERSION_STRING`, that is `LMBmodbus-1.0`.
abbrev pub version : List ℕ
version = 76 ∷ 77 ∷ 66 ∷ 109 ∷ 111 ∷ 100 ∷ 98 ∷ 117 ∷ 115 ∷ 45 ∷ 49 ∷ 46 ∷ 48 ∷ []

abbrev pub is_zero : ℤ → Bool
is_zero (pos zero) = true
is_zero _ = false

-- `_modbus_set_slave`, for `slave_set`, whose argument is not negative.
pub slave_set : Modbus → ℕ → ℤ × Modbus
slave_set ctx addr = if leb addr 247 then (pos 0, record ctx { slave = addr }) else (negsuc 0, ctx)

-- `sft_t`, less the unused `t_id`.
pub record Sft : Type 0 where
  pub slave : ℕ
  pub function : ℕ

-- `_modbus_rtu_build_response_basis`; the length that it returns is 2.
pub build_response_basis : Sft → List ℕ → List ℕ
build_response_basis sft rsp = set (set rsp 0 (sft.slave % 2 ^ 8)) 1 (sft.function % 2 ^ 8)

-- What a routine that builds a message leaves: its length, and the buffer.
pub record Message : Type 0 where
  pub rsp_length : ℕ
  pub rsp : List ℕ

-- `response_exception`.
pub response_exception : Sft → ℕ → List ℕ → Message
response_exception sft exception_code rsp =
    let sft' = record sft { function = sft.function + 0x80 } in
    record { rsp_length = 3; rsp = set (build_response_basis sft' rsp) 2 exception_code }

-- `_modbus_rtu_send_msg_pre`: the check sum follows the message, high byte first.
pub send_msg_pre : Message → Message
send_msg_pre req =
    let crc = crc16 (take req.rsp_length req.rsp) in
    record {
      rsp_length = req.rsp_length + 2;
      rsp = set (set req.rsp req.rsp_length (crc / 2 ^ 8)) (req.rsp_length + 1) (crc % 2 ^ 8);
    }

-- `protocol_modbus_rtu::info`.
pub info : List ℕ → ℕ → Info → Info
info req len pinfo =
    let function = get_or req 1 0 in
    let word = λ (i : ℕ). (get_or req i 0 * 2 ^ 8 + get_or req (i + 1) 0) % 2 ^ 16 in
    let single = function == fc_write_single_register in
    if function == fc_read_holding_registers
      || function == fc_read_input_registers
      || single
      || function == fc_write_multiple_registers
    then record pinfo {
      m_type = modbus_rtu;
      m_function = function;
      m_reg = word 2;
      m_reg_no = if single then 1 else word 4;
      m_pparam = if single then 4 else 6;
      m_len = len;
    }
    else record pinfo {
      m_type = modbus_rtu;
      m_function = function;
      m_reg = 2 ^ 16 - 1;
      m_reg_no = 2 ^ 16 - 1;
    }

-- The `_FC_REPORT_SLAVE_ID` branch of `modbus_reply`.
pub reply_slave_id : Sft → List ℕ → Message
reply_slave_id sft rsp =
    let basis = build_response_basis sft rsp in
    let status = set (set basis 3 180) 4 0xff in
    let text = blit status 5 version in
    let rsp_length = 5 + length version in
    record { rsp_length = rsp_length; rsp = set text 2 ((rsp_length - 2 - 1) % 2 ^ 8) }

-- What an `fp_protocol_handle` leaves: its return code, the object behind `pvoid`, the info, and the
-- buffer that the info points into.
pub record Handled {ℓ} (M : Type ℓ) : Type ℓ where
  pub rt : ℤ
  pub model : M
  pub info : Info
  pub buf : List ℕ

abbrev pub Handler {ℓ} : Type ℓ → Type ℓ
Handler M = ProtocolPhase → M → Info → List ℕ → Handled M

-- What `modbus_reply` leaves.
pub record Replied {ℓ} (M : Type ℓ) : Type ℓ where
  pub rsp_length : ℕ
  pub rsp : List ℕ
  pub rtu : Rtu
  pub model : M

module _ {ℓ} {M : Type ℓ} (fp_handle : Option (Handler M)) where
  -- `protocol_modbus_rtu::handle`.
  pub handle : ProtocolPhase → M → Info → List ℕ → Handled M
  handle phase model pinfo buf = elim fp_handle [
    | none ↦ record { rt = negsuc 0; model = model; info = pinfo; buf = buf }
    | some fp ↦
        let r = fp phase model pinfo buf in
        record r { rt = if is_zero r.rt then pos 0 else negsuc 0 }
  ]

  -- The branch of `modbus_reply` for the four register functions.
  pub reply_registers : M → Rtu → List ℕ → Sft → ℕ → Replied M
  reply_registers model rtu req sft req_length =
      let function = sft.function in
      let pinfo = info req req_length rtu.m_info in
      let read_operation =
        function == fc_read_holding_registers || function == fc_read_input_registers in
      let basis = build_response_basis sft req in
      let rsp = if read_operation then set basis 2 (pinfo.m_reg_no * 2 % 2 ^ 8) else basis in
      let rsp_length = if read_operation then 3 else 2 in
      let pinfo' = if read_operation then record pinfo { m_pparam = 3 } else pinfo in
      let max_reg_no =
        if function == fc_read_input_registers
        then rtu.m_modbus.input_reg_max_no
        else rtu.m_modbus.hold_reg_max_no in
      let failed : M → Info → List ℕ → Replied M = λ m i buf.
        let e = response_exception sft illegal_data_address buf in
        record {
          rsp_length = e.rsp_length;
          rsp = e.rsp;
          rtu = record rtu { m_info = i };
          model = m;
        } in
      if ltb (pinfo'.m_reg + pinfo'.m_reg_no) max_reg_no
      then (let h = handle prepare model pinfo' rsp in
          if is_zero h.rt
          then (if read_operation
              then record {
                rsp_length = rsp_length + h.info.m_param_len;
                rsp = h.buf;
                rtu = record rtu { m_info = h.info };
                model = h.model;
              }
              else if function == fc_write_single_register
              then record {
                rsp_length = req_length;
                rsp = blit h.buf 0 (take req_length h.buf);
                rtu = record rtu { m_info = h.info };
                model = h.model;
              }
              else let again = build_response_basis sft h.buf in
                record {
                  rsp_length = 6;
                  rsp = blit again 2 (take 4 (drop 2 again));
                  rtu = record rtu { m_info = h.info };
                  model = h.model;
                })
          else failed h.model h.info h.buf)
      else failed model pinfo' rsp

  -- `modbus_reply` up to the check sum.
  pub reply_body : M → Rtu → List ℕ → ℕ → Replied M
  reply_body model rtu req req_length =
      let function = get_or req 1 0 in
      let sft : Sft = record { slave = get_or req 0 0; function = function } in
      let plain : Message → Replied M =
        λ msg. record { rsp_length = msg.rsp_length; rsp = msg.rsp; rtu = rtu; model = model } in
      if function == fc_read_holding_registers
        || function == fc_read_input_registers
        || function == fc_write_single_register
        || function == fc_write_multiple_registers
      then reply_registers model rtu req sft (req_length - 2)
      else if function == fc_report_slave_id
      then plain (reply_slave_id sft req)
      else plain (response_exception sft illegal_function req)

  -- `modbus_reply` on a request of at least the 2 bytes of its check sum.
  pub modbus_reply : M → Rtu → List ℕ → ℕ → Replied M
  modbus_reply model rtu req req_length =
      let r = reply_body model rtu req req_length in
      let msg = send_msg_pre (record { rsp_length = r.rsp_length; rsp = r.rsp }) in
      record r { rsp_length = msg.rsp_length; rsp = msg.rsp }

-- `protocol_modbus_rtu::unpack`; a frame shorter than its check sum has a negative length in the
-- source, and none here.
pub unpack : Modbus → List ℕ → ℕ → ℤ
unpack m_modbus pbuf len =
    let slave = get_or pbuf 0 0 in
    let crc_calculated = crc16 (take (len - 2) pbuf) in
    let crc_received = get_or pbuf (len - 2) 0 * 2 ^ 8 + get_or pbuf (len - 1) 0 in
    if ltb max_message_length len
    then negsuc 2
    else if not (slave == m_modbus.slave) && not (slave == 0)
    then negsuc 0
    else if crc_calculated == crc_received
    then pos 0
    else negsuc 1
