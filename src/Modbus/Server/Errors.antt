-- ===== src/Modbus/Server/Errors.antt =====
-- The exception replies, and the register that a multiple write really takes its first byte from.
use project_sensor.Prelude.{
  ℕ, ◌+◌, ◌*◌, ◌%◌, ◌≤◌, ◌<◌, ◌^◌, ◌≡◌, ◌⊎◌, ap, ◌∙◌, true, false, some, List, [], ◌∷◌, arith, ltb,
  ◌==◌, if◌then◌else◌, length, get_or, take, inl, inr, Bool-cases,
}
use project_sensor.Prelude.Int.{pos, negsuc}
use project_sensor.Crc.Bitwise.{IsByteList}
use project_sensor.Datum.{ModelDatum, hold_reg_set, hold_reg_get}
use project_sensor.Datum.Cell.{IsValid}
use project_sensor.Datum.Hold.{accepts, lowest, highest}
use project_sensor.Datum.Write.{hold_reg_set-get, hold_reg_set-rejected, modbus_reg_set-hold}
use project_sensor.Modbus.{Modbus, Rtu, modbus_reply}
use project_sensor.Modbus.Frame.{frame}
use project_sensor.Modbus.Server.{Application, package_event_handler}
use project_sensor.Modbus.Server.Answer.{
  Answer, answer, answer_read, answer_write, refuse, word_at, words_at, assign,
}
use project_sensor.Modbus.Server.Effect.{word_at-lt, same_below}
use project_sensor.Modbus.Server.Refine.{IsServing, modbus_reply-answer}

-- How many registers a request names, and how many the slave serves.
unfoldable pub reg_count : List ℕ → ℕ
reg_count req = if get_or req 1 0 == 6 then 1 else word_at req 4

unfoldable pub served : Modbus → List ℕ → ℕ
served m req = if get_or req 1 0 == 4 then m.input_reg_max_no else m.hold_reg_max_no

-- The frame of an exception.
abbrev pub exception : List ℕ → ℕ → List ℕ
exception req code = frame (get_or req 0 0 ∷ (get_or req 1 0 + 128) % 2 ^ 8 ∷ code ∷ [])

module _ (junk : ℕ) (m : Modbus) (app : Application) (req : List ℕ) (len : ℕ) where
  answer-outside :
      (get_or req 1 0 ≡ 3) ⊎ (get_or req 1 0 ≡ 4) ⊎ (get_or req 1 0 ≡ 6) ⊎ (get_or req 1 0 ≡ 16)
      → served m req ≤ word_at req 2 + reg_count req
      → answer junk m app req len ≡ refuse req 2 app
  unfolding answer answer_read answer_write served reg_count
  answer-outside which h =
      let past : (k max : ℕ) → max ≤ k → ltb k max ≡ false = λ k max p. ground arith in
      elim which [
        | inl f ↦ let h' = rw f at h in let e = past _ _ h' in rw (f, e)
        | inr (inl f) ↦ let h' = rw f at h in let e = past _ _ h' in rw (f, e)
        | inr (inr (inl f)) ↦ let h' = rw f at h in let e = past _ _ h' in rw (f, e)
        | inr (inr (inr f)) ↦ let h' = rw f at h in let e = past _ _ h' in rw (f, e)
      ]

  answer-unknown :
      ((get_or req 1 0 == 3) ≡ false)
        × ((get_or req 1 0 == 4) ≡ false)
        × ((get_or req 1 0 == 6) ≡ false)
        × ((get_or req 1 0 == 16) ≡ false)
        × ((get_or req 1 0 == 17) ≡ false)
      → answer junk m app req len ≡ refuse req 1 app
  unfolding answer
  answer-unknown (f3, f4, f6, f16, f17) = rw (f3, f4, f6, f16, f17)

  answer-rejected :
      get_or req 1 0 ≡ 6
      → hold_reg_set app.m_modelinfo (word_at req 2) (word_at req 4) ≡ (negsuc 0, app.m_modelinfo)
      → answer junk m app req len ≡ refuse req 2 app
  unfolding answer answer_write assign
  answer-rejected f r = elim (Bool-cases (ltb (word_at req 2 + 1) m.hold_reg_max_no)) [
    | inl e ↦
        rw (f, e, modbus_reg_set-hold app.m_modelinfo (pos 0) (word_at req 2) (word_at req 4), r)
    | inr e ↦ rw (f, e)
  ]

module _ (junk : ℕ) (app : Application) (rtu : Rtu) (req : List ℕ) (len : ℕ)
    (bytes : IsByteList req) (room : (260 ≤ length req) × (len ≤ length req))
    (serving : IsServing rtu) where
  refuses :
      (code : ℕ)
      → answer junk rtu.m_modbus app req len ≡ refuse req code app
      → let r = modbus_reply (some (package_event_handler junk)) app rtu req len in
        (take r.rsp_length r.rsp ≡ exception req code) × (r.model ≡ app)
  unfolding refuse
  refuses code e =
      let i = modbus_reply-answer junk app rtu req len bytes (room.0) (room.1) serving in
      (i.sent ∙ ap (λ (a : Answer). frame a.body) e, i.left ∙ ap (λ (a : Answer). a.app) e)

  -- A request to read or write registers of which the last one is not below the number served less
  -- one is answered by exception 2, and changes nothing.
  pub modbus_reply-outside :
      (get_or req 1 0 ≡ 3) ⊎ (get_or req 1 0 ≡ 4) ⊎ (get_or req 1 0 ≡ 6) ⊎ (get_or req 1 0 ≡ 16)
      → served rtu.m_modbus req ≤ word_at req 2 + reg_count req
      → let r = modbus_reply (some (package_event_handler junk)) app rtu req len in
        (take r.rsp_length r.rsp ≡ exception req 2) × (r.model ≡ app)
  modbus_reply-outside which h = refuses 2 (answer-outside junk rtu.m_modbus app req len which h)

  -- A request with a function code that the slave does not know is answered by exception 1, and
  -- changes nothing.
  pub modbus_reply-unknown :
      ((get_or req 1 0 == 3) ≡ false)
        × ((get_or req 1 0 == 4) ≡ false)
        × ((get_or req 1 0 == 6) ≡ false)
        × ((get_or req 1 0 == 16) ≡ false)
        × ((get_or req 1 0 == 17) ≡ false)
      → let r = modbus_reply (some (package_event_handler junk)) app rtu req len in
        (take r.rsp_length r.rsp ≡ exception req 1) × (r.model ≡ app)
  modbus_reply-unknown h = refuses 1 (answer-unknown junk rtu.m_modbus app req len h)

  -- A write of one register with a value that the register does not accept is answered by exception
  -- 2, and changes nothing.
  pub modbus_reply-rejected :
      IsValid app.m_modelinfo.para
      → get_or req 1 0 ≡ 6
      → accepts (word_at req 2) (word_at req 4) ≡ false
      → let r = modbus_reply (some (package_event_handler junk)) app rtu req len in
        (take r.rsp_length r.rsp ≡ exception req 2) × (r.model ≡ app)
  modbus_reply-rejected v f bad =
      let small = word_at-lt req 4 bytes in
      refuses 2 (
        answer-rejected junk rtu.m_modbus app req len f
          (hold_reg_set-rejected app.m_modelinfo (word_at req 2) (word_at req 4) v small bad))

free : (reg value : ℕ) → 7 ≤ reg → value < 2 ^ 16 → accepts reg value ≡ true
unfolding accepts lowest highest
free reg value h small = ground arith

write_many :
    (junk : ℕ) (m : Modbus) (app : Application) (req : List ℕ) (len : ℕ)
    → get_or req 1 0 ≡ 16
    → word_at req 4 ≡ 1
    → word_at req 2 + 1 < m.hold_reg_max_no
    → (hold_reg_set app.m_modelinfo (word_at req 2) (word_at req 6)).0 ≡ pos 0
    → (answer junk m app req len).app.m_modelinfo
      ≡ (hold_reg_set app.m_modelinfo (word_at req 2) (word_at req 6)).1
unfolding answer answer_write assign words_at
write_many junk m app req len f one below ok =
    let e : ltb (word_at req 2 + 1) m.hold_reg_max_no ≡ true = ground arith in
    rw (f, one, e, modbus_reg_set-hold app.m_modelinfo (pos 0) (word_at req 2) (word_at req 6), ok)

-- A write of one register by the function for several, to a register from 7 to 56 that the slave
-- serves: the register then reads as byte 6 of the request, which in a Modbus frame is the byte count,
-- followed by byte 7, the first data byte.
pub write_multiple_shifted :
    (junk : ℕ) (app : Application) (rtu : Rtu) (req : List ℕ) (len : ℕ)
    → IsByteList req
    → (260 ≤ length req) × (len ≤ length req)
    → IsServing rtu
    → IsValid app.m_modelinfo.para
    → (get_or req 1 0 ≡ 16) × (word_at req 4 ≡ 1)
    → (7 ≤ word_at req 2) × (word_at req 2 < 57)
    → word_at req 2 + 1 < rtu.m_modbus.hold_reg_max_no
    → let after = (modbus_reply (some (package_event_handler junk)) app rtu req len).model in
      hold_reg_get after.m_modelinfo junk (word_at req 2) ≡ get_or req 6 0 * 2 ^ 8 + get_or req 7 0
unfolding word_at
write_multiple_shifted junk app rtu req len bytes room serving v f range below =
    let reg = word_at req 2 in
    let small = word_at-lt req 6 bytes in
    let w =
      hold_reg_set-get app.m_modelinfo reg (word_at req 6) reg junk v small
        (free reg (word_at req 6) (range.0) small) in
    let i = modbus_reply-answer junk app rtu req len bytes (room.0) (room.1) serving in
    ap (λ (a : Application). hold_reg_get a.m_modelinfo junk reg) i.left
    ∙ ap (λ (d : ModelDatum). hold_reg_get d junk reg)
        (write_many junk rtu.m_modbus app req len (f.0) (f.1) below (w.0))
    ∙ w.1
    ∙ rw (same_below reg (range.1))
