-- ===== src/Modbus/Server/Line.antt =====
-- What the implementation theorem gives the master on the line.
use project_sensor.Prelude.{
  ℕ, ◌+◌, ◌-◌, ◌≤◌, ◌≡◌, ◌⊎◌, refl, some, List, arith, ltb, length, get_or, take, inl, inr,
  Bool-cases, length-take, get_or-take,
}
use project_sensor.Prelude.Int.{pos}
use project_sensor.Crc.Bitwise.{IsByteList}
use project_sensor.Datum.{RegType, input, hold}
use project_sensor.Modbus.{is_zero, Modbus, Rtu, modbus_reply, unpack}
use project_sensor.Modbus.Frame.{unpack-frame}
use project_sensor.Modbus.Server.{Application, package_event_handler}
use project_sensor.Modbus.Server.Answer.{answer, answer_read, answer_write, refuse, word_at, assign}
use project_sensor.Modbus.Server.Refine.{
  IsServing, answer_fits, modbus_reply-answer, function_cases,
}

abbrev Starts : List ℕ → ℕ → Type 0
Starts xs a = (1 ≤ length xs) × (get_or xs 0 0 ≡ a)

module _ (junk : ℕ) (m : Modbus) (app : Application) (req : List ℕ) where
  read-Starts :
      (type : RegType) (max : ℕ)
      → Starts ((answer_read junk type max app req).body) (get_or req 0 0)
  unfolding answer_read refuse
  read-Starts type max = elim (Bool-cases (ltb (word_at req 2 + word_at req 4) max)) [
    | inl e ↦ rw e (omega arith, refl)
    | inr e ↦ rw e (omega arith, refl)
  ]

  write-Starts :
      (max n : ℕ) (values echo : List ℕ)
      → Starts echo (get_or req 0 0)
      → Starts ((answer_write max n values echo app req).body) (get_or req 0 0)
  unfolding answer_write refuse
  write-Starts max n values echo h = elim (Bool-cases (ltb (word_at req 2 + n) max)) [
    | inl e ↦
        rw e (elim (Bool-cases (is_zero ((assign app.m_modelinfo (word_at req 2) values).0))) [
          | inl z ↦ rw z h
          | inr z ↦ rw z (omega arith, refl)
        ])
    | inr e ↦ rw e (omega arith, refl)
  ]

  take-Starts : (n : ℕ) → 1 ≤ n → n ≤ length req → Starts (take n req) (get_or req 0 0)
  take-Starts n some_byte within =
      (omega (arith, length-take n req), get_or-take n req 0 0 (omega arith))

  -- An answer starts with the address of the request.
  answer-Starts :
      (len : ℕ)
      → 4 ≤ len
      → len ≤ length req
      → 6 ≤ length req
      → Starts ((answer junk m app req len).body) (get_or req 0 0)
  unfolding answer refuse
  answer-Starts len long within room = elim (function_cases (get_or req 1 0)) [
    | inl f ↦ rw f (read-Starts hold m.hold_reg_max_no)
    | inr (inl f) ↦ rw f (read-Starts input m.input_reg_max_no)
    | inr (inr (inl f)) ↦
        rw f (write-Starts _ 1 _ _ (take-Starts (len - 2) (omega arith) (omega arith)))
    | inr (inr (inr (inl f))) ↦ rw f (write-Starts _ _ _ _ (take-Starts 6 (omega arith) room))
    | inr (inr (inr (inr (inl f)))) ↦ rw f (omega arith, refl)
    | inr (inr (inr (inr (inr (f3, f4, f6, f16, f17))))) ↦
        rw (f3, f4, f6, f16, f17) (omega arith, refl)
  ]

-- The reply to any request of 4 to 260 bytes that is addressed to the slave or to all, in a buffer of
-- at least 260 bytes, has at most 260 bytes and is a frame that `unpack` accepts.
pub modbus_reply-unpack :
    (junk : ℕ) (app : Application) (rtu : Rtu) (req : List ℕ) (len : ℕ)
    → IsByteList req
    → 260 ≤ length req
    → (4 ≤ len) × (len ≤ 260)
    → IsServing rtu
    → (get_or req 0 0 ≡ rtu.m_modbus.slave) ⊎ (get_or req 0 0 ≡ 0)
    → let r = modbus_reply (some (package_event_handler junk)) app rtu req len in
      (r.rsp_length ≤ 260) × (unpack rtu.m_modbus r.rsp r.rsp_length ≡ pos 0)
modbus_reply-unpack junk app rtu req len bytes room size serving to_us =
    let i = modbus_reply-answer junk app rtu req len bytes room (omega arith) serving in
    let fits = answer_fits junk app rtu req len 260 (omega arith) (size.1) serving in
    let starts = answer-Starts junk rtu.m_modbus app req len (size.0) (omega arith) (omega arith) in
    let r = modbus_reply (some (package_event_handler junk)) app rtu req len in
    let short : r.rsp_length ≤ 260 = omega (arith, fits, i.long) in
    (
      short,
      unpack-frame rtu.m_modbus _ ((answer junk rtu.m_modbus app req len).body) _ (starts.0) i.long
          short i.sent (ground (arith, starts.1, to_us)),
    )
