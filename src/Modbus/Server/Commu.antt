-- ===== src/Modbus/Server/Commu.antt =====
-- The cycle of the communication device: `device::read` and `device::write` of app/devices.cpp with
-- the `process_command` of `device_commu`, and `package_recv_handle` for a command, app/commu.cpp.
use project_sensor.Prelude.{
  ℕ, ◌+◌, ◌%◌, ◌^◌, ◌≤◌, ◌≡◌, refl, ap, Bool-cases, inl, inr, ◌∙◌, Bool, true, false, not, Option,
  none, some, List, ◌∷◌, ◌||◌, ◌==◌, if◌then◌else◌, length, take, arith,
}
use project_sensor.Prelude.Int.{ℤ, pos, negsuc}
use project_sensor.Crc.Bitwise.{IsByteList}
use project_sensor.Modbus.{
  ProtocolType, raw_mac, modbus_rtu, fc_write_single_register, fc_write_multiple_registers, is_zero,
  Rtu, Info, handle, done, modbus_reply, unpack,
}
use project_sensor.Modbus.Frame.{frame}
use project_sensor.Modbus.Server.{Application, package_event_handler}
use project_sensor.Modbus.Server.Answer.{answer}
use project_sensor.Modbus.Server.Refine.{IsServing, modbus_reply-answer}

-- The device with what it serves: `sent` are the frames handed to `API_DeviceWrite`, the latest first,
-- `rx_enters` counts the `COMMU_IOC_RX_ENTER` calls.
pub record Commu : Type 0 where
  pub opened : Bool
  pub offline_cnt : ℕ
  pub sent : List (List ℕ)
  pub rx_enters : ℕ
  pub rtu : Rtu
  pub app : Application

-- What `API_DeviceRead` gives: nothing, after a timeout or another error, or a number of bytes.
pub data Received : Type 0 where
  timeout failure : Received
  bytes : ℕ → Received

-- `device::read` into the bytes of `buf`; the result is nothing for -1.
pub receive : Commu → Received → List ℕ → Option ℕ × Commu
receive c got buf = if not c.opened then (none, c) else elim got [
  | timeout ↦ (none, record c { offline_cnt = (c.offline_cnt + 1) % 2 ^ 8 })
  | failure ↦ (none, record c { offline_cnt = 0 })
  | bytes n ↦
      if is_zero (unpack c.rtu.m_modbus buf n)
      then (some n, record c { offline_cnt = 0 })
      else (none, record c { offline_cnt = 0; rx_enters = c.rx_enters + 1 })
]

-- `device::write` of the request in `buf`, which becomes the reply.
pub transmit : ℕ → Commu → List ℕ → ℕ → Commu × List ℕ
transmit junk c buf size =
    let r = modbus_reply (some (package_event_handler junk)) c.app c.rtu buf size in
    if not c.opened || (size == 0) then (c, buf) else (
      record c {
        sent = take r.rsp_length r.rsp ∷ c.sent;
        rx_enters = c.rx_enters + 1;
        rtu = r.rtu;
        app = r.model;
      },
      r.rsp,
    )

-- `package_recv_handle` of `EVENT_CMD` from what it read on: its return code, `to_continue`, and the
-- device.
pub respond : ℕ → Option ℕ → Commu → List ℕ → ℤ × Bool × Commu
respond junk none heard buf = (negsuc 0, false, heard)
respond junk (some n) heard buf =
    let (said, reply) = transmit junk heard buf n in
    let h = handle (some (package_event_handler junk)) done said.app said.rtu.m_info reply in
    (pos 0, true, record said { app = h.model; rtu = record said.rtu { m_info = h.info } })

pub package_recv_handle : ℕ → Commu → Received → List ℕ → ℤ × Bool × Commu
package_recv_handle junk c got buf =
    let (size, heard) = receive c got buf in respond junk size heard buf

-- The phase after the reply leaves the registers alone.
done-keeps :
    (junk : ℕ) (app : Application) (i : Info) (buf : List ℕ)
    → (handle (some (package_event_handler junk)) done app i buf).model.m_modelinfo
      ≡ app.m_modelinfo
unfolding handle package_event_handler
done-keeps junk app i buf = type_cases i.m_type refl
  where
    type_cases :
        (t : ProtocolType)
        → i.m_type ≡ t
        → (handle (some (package_event_handler junk)) done app i buf).model.m_modelinfo
          ≡ app.m_modelinfo
    type_cases raw_mac e = rw e
    type_cases modbus_rtu e =
        let writes =
          i.m_function == fc_write_single_register || i.m_function == fc_write_multiple_registers in
        elim (Bool-cases writes) [ inl w ↦ rw (e, w) | inr w ↦ rw (e, w) ]

receive-accepted :
    (c : Commu) (buf : List ℕ) (n : ℕ)
    → c.opened ≡ true
    → unpack c.rtu.m_modbus buf n ≡ pos 0
    → receive c (bytes n) buf ≡ (some n, record c { offline_cnt = 0 })
unfolding receive
receive-accepted c buf n is_open ok = rw (is_open, ok)

transmit-reply :
    (junk : ℕ) (c : Commu) (buf : List ℕ) (n : ℕ)
    → c.opened ≡ true
    → 1 ≤ n
    → let r = modbus_reply (some (package_event_handler junk)) c.app c.rtu buf n in
      transmit junk c buf n ≡ (
        record c {
          sent = take r.rsp_length r.rsp ∷ c.sent;
          rx_enters = c.rx_enters + 1;
          rtu = r.rtu;
          app = r.model;
        },
        r.rsp,
      )
unfolding transmit
transmit-reply junk c buf n is_open some_bytes =
    let e : (n == 0) ≡ false = ground arith in rw (is_open, e)

-- On an open device, a received frame that `unpack` accepts is answered by exactly one frame, that of
-- the abstract answer, and the registers afterwards are those of that answer.
pub package_recv_handle-answer :
    (junk : ℕ) (c : Commu) (buf : List ℕ) (n : ℕ)
    → c.opened ≡ true
    → IsByteList buf
    → 260 ≤ length buf
    → (1 ≤ n) × (n ≤ length buf)
    → IsServing c.rtu
    → unpack c.rtu.m_modbus buf n ≡ pos 0
    → let (rt, to_continue, c') = package_recv_handle junk c (bytes n) buf in
      let a = answer junk c.rtu.m_modbus c.app buf n in
      (rt ≡ pos 0) × (c'.sent ≡ frame a.body ∷ c.sent) × (c'.app.m_modelinfo ≡ a.app.m_modelinfo)
unfolding package_recv_handle respond
package_recv_handle-answer junk c buf n is_open bs room within serving ok =
    let i = modbus_reply-answer junk c.app c.rtu buf n bs room (within.1) serving in
    let t = transmit-reply junk (record c { offline_cnt = 0 }) buf n is_open (within.0) in
    rw (receive-accepted c buf n is_open ok) (
      rw t (
        refl,
        ap (λ (f : List ℕ). f ∷ c.sent) i.sent,
        done-keeps junk _ _ _ ∙ ap (λ (m : Application). m.m_modelinfo) i.left,
      ))
