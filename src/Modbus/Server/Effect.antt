-- ===== src/Modbus/Server/Effect.antt =====
-- What the implementation theorem says of the registers: validity, and a write that a read sees.
use project_sensor.Prelude.{
  ℕ, zero, suc, ◌+◌, ◌/◌, ◌%◌, ◌≤◌, ◌<◌, ◌^◌, ◌≡◌, ap, ◌∙◌, true, ◌&&◌, some, List, [], ◌∷◌, arith,
  ltb, ◌==◌, length, get_or, take, inl, inr, Bool-cases,
}
use project_sensor.Prelude.Int.{pos}
use project_sensor.Crc.Bitwise.{IsByteList}
use project_sensor.Datum.{RegType, input, hold, ModelDatum, hold_reg_set, hold_reg_get}
use project_sensor.Datum.Cell.{IsValid}
use project_sensor.Datum.Hold.{accepts}
use project_sensor.Datum.Write.{
  hold_reg_set-get, hold_reg_set-IsValid, modbus_reg_set-hold, modbus_reg_get-hold,
}
use project_sensor.Modbus.{is_zero, Modbus, Rtu, modbus_reply}
use project_sensor.Modbus.Frame.{frame}
use project_sensor.Modbus.Server.{Application, package_event_handler}
use project_sensor.Modbus.Server.Answer.{
  answer, answer_read, answer_write, refuse, word_at, words_at, show_regs, assign,
}
use project_sensor.Modbus.Server.Regs.{get_or-IsByteList}
use project_sensor.Modbus.Server.Refine.{IsServing, modbus_reply-answer, function_cases}

-- Assigning words to holding registers keeps the parameters valid.
assign-IsValid :
    (m : ModelDatum) (reg n i : ℕ) (req : List ℕ)
    → IsByteList req
    → IsValid m.para
    → IsValid (((assign m reg (words_at req i n)).1).para)
unfolding assign words_at word_at
assign-IsValid m reg zero i req bytes v = v
assign-IsValid m reg (suc n) i req bytes v =
    let value = word_at req i in
    let small : value < 2 ^ 16 =
      omega (arith, get_or-IsByteList req i bytes, get_or-IsByteList req (i + 1) bytes) in
    let w = hold_reg_set-IsValid m reg value v small in
    let rest = assign-IsValid ((hold_reg_set m reg value).1) (reg + 1) n (i + 2) req bytes w in
    rw (modbus_reg_set-hold m (pos 0) reg value)
      (elim (Bool-cases (is_zero ((hold_reg_set m reg value).0))) [
        | inl z ↦ rw z rest
        | inr z ↦ rw z w
      ])

module _ (junk : ℕ) (m : Modbus) (app : Application) (req : List ℕ) (bytes : IsByteList req)
    (v : IsValid app.m_modelinfo.para) where
  read-IsValid :
      (type : RegType) (max : ℕ)
      → IsValid ((answer_read junk type max app req).app.m_modelinfo.para)
  unfolding answer_read refuse
  read-IsValid type max = elim (Bool-cases (ltb (word_at req 2 + word_at req 4) max)) [
    | inl e ↦ rw e v
    | inr e ↦ rw e v
  ]

  write-IsValid :
      (max n i k : ℕ) (echo : List ℕ)
      → IsValid ((answer_write max n (words_at req i k) echo app req).app.m_modelinfo.para)
  unfolding answer_write refuse
  write-IsValid max n i k echo =
      let w = assign-IsValid app.m_modelinfo (word_at req 2) k i req bytes v in
      elim (Bool-cases (ltb (word_at req 2 + n) max)) [
        | inl e ↦
            rw e
              (elim (Bool-cases
                (is_zero ((assign app.m_modelinfo (word_at req 2) (words_at req i k)).0))) [
                  | inl z ↦ rw z w
                  | inr z ↦ rw z w
                ])
        | inr e ↦ rw e v
      ]

  answer-IsValid : (len : ℕ) → IsValid ((answer junk m app req len).app.m_modelinfo.para)
  unfolding answer refuse words_at
  answer-IsValid len = elim (function_cases (get_or req 1 0)) [
    | inl f ↦ rw f (read-IsValid hold m.hold_reg_max_no)
    | inr (inl f) ↦ rw f (read-IsValid input m.input_reg_max_no)
    | inr (inr (inl f)) ↦ rw f (write-IsValid _ 1 4 1 _)
    | inr (inr (inr (inl f))) ↦ rw f (write-IsValid _ _ 6 _ _)
    | inr (inr (inr (inr (inl f)))) ↦ rw f v
    | inr (inr (inr (inr (inr (f3, f4, f6, f16, f17))))) ↦ rw (f3, f4, f6, f16, f17) v
  ]

-- Any request, from any bytes, leaves valid parameters valid.
pub modbus_reply-IsValid :
    (junk : ℕ) (app : Application) (rtu : Rtu) (req : List ℕ) (len : ℕ)
    → IsByteList req
    → (260 ≤ length req) × (len ≤ length req)
    → IsServing rtu
    → IsValid app.m_modelinfo.para
    → let r = modbus_reply (some (package_event_handler junk)) app rtu req len in
      IsValid r.model.m_modelinfo.para
modbus_reply-IsValid junk app rtu req len bytes room serving v =
    let i = modbus_reply-answer junk app rtu req len bytes (room.0) (room.1) serving in
    rw i.left (answer-IsValid junk rtu.m_modbus app req bytes v len)

-- What a read of one holding register answers.
read_one :
    (junk : ℕ) (m : Modbus) (app : Application) (req : List ℕ) (len : ℕ)
    → get_or req 1 0 ≡ 3
    → word_at req 4 ≡ 1
    → word_at req 2 + 1 < m.hold_reg_max_no
    → (answer junk m app req len).body ≡ (
        let value = hold_reg_get app.m_modelinfo junk (word_at req 2) in
        get_or req 0 0 ∷ 3 ∷ 2 ∷ value / 2 ^ 8 % 2 ^ 8 ∷ value % 2 ^ 8 ∷ [])
unfolding answer answer_read show_regs
read_one junk m app req len f one below =
    let e : ltb (word_at req 2 + 1) m.hold_reg_max_no ≡ true = ground arith in
    rw (f, one, e, modbus_reg_get-hold app.m_modelinfo junk (word_at req 2))

-- What a write of one accepted register does.
write_one :
    (junk : ℕ) (m : Modbus) (app : Application) (req : List ℕ) (len : ℕ)
    → get_or req 1 0 ≡ 6
    → word_at req 2 + 1 < m.hold_reg_max_no
    → (hold_reg_set app.m_modelinfo (word_at req 2) (word_at req 4)).0 ≡ pos 0
    → (answer junk m app req len).app.m_modelinfo
      ≡ (hold_reg_set app.m_modelinfo (word_at req 2) (word_at req 4)).1
unfolding answer answer_write assign
write_one junk m app req len f below ok =
    let e : ltb (word_at req 2 + 1) m.hold_reg_max_no ≡ true = ground arith in
    rw (f, e, modbus_reg_set-hold app.m_modelinfo (pos 0) (word_at req 2) (word_at req 4), ok)

pub same_below : (reg : ℕ) → reg < 57 → ((reg == reg) && ltb reg 57) ≡ true
same_below reg h = ground arith

-- The two bytes of a word of the request.
split_word :
    (req : List ℕ) (i : ℕ)
    → IsByteList req
    → (word_at req i / 2 ^ 8 % 2 ^ 8 ≡ get_or req i 0)
      × (word_at req i % 2 ^ 8 ≡ get_or req (i + 1) 0)
unfolding word_at
split_word req i bytes =
    let hi = get_or-IsByteList req i bytes in
    let lo = get_or-IsByteList req (i + 1) bytes in (omega arith, omega arith)

pub word_at-lt : (req : List ℕ) (i : ℕ) → IsByteList req → word_at req i < 2 ^ 16
unfolding word_at
word_at-lt req i bytes =
    omega (arith, get_or-IsByteList req i bytes, get_or-IsByteList req (i + 1) bytes)

-- A write of one holding register whose value the register accepts, then a read of the same register
-- with any request frame and any state of the protocol object: the second reply is the frame of the
-- register's two bytes, high byte first, and they are the value that was written.
pub write-read_reply :
    (junk : ℕ) (app : Application) (rtu rtu' : Rtu) (req req' : List ℕ) (len len' : ℕ)
    → IsByteList req × IsByteList req'
    → (260 ≤ length req) × (len ≤ length req)
    → (260 ≤ length req') × (len' ≤ length req')
    → IsServing rtu × IsServing rtu'
    → IsValid app.m_modelinfo.para
    → (get_or req 1 0 ≡ 6) × (get_or req' 1 0 ≡ 3)
    → (word_at req' 2 ≡ word_at req 2) × (word_at req' 4 ≡ 1)
    → (word_at req 2 + 1 < rtu.m_modbus.hold_reg_max_no)
      × (word_at req 2 + 1 < rtu'.m_modbus.hold_reg_max_no)
    → (word_at req 2 < 57) × (accepts (word_at req 2) (word_at req 4) ≡ true)
    → let after = (modbus_reply (some (package_event_handler junk)) app rtu req len).model in
      let r = modbus_reply (some (package_event_handler junk)) after rtu' req' len' in
      take r.rsp_length r.rsp
      ≡ frame (get_or req' 0 0 ∷ 3 ∷ 2 ∷ get_or req 4 0 ∷ get_or req 5 0 ∷ [])
write-read_reply junk app rtu rtu' req req' len len' bytes room room' serving v f at below ok =
    let value = word_at req 4 in
    let reg = word_at req 2 in
    let small = word_at-lt req 4 (bytes.0) in
    let halves = split_word req 4 (bytes.0) in
    let w = hold_reg_set-get app.m_modelinfo reg value reg junk v small (ok.1) in
    let i = modbus_reply-answer junk app rtu req len (bytes.0) (room.0) (room.1) (serving.0) in
    let after = (modbus_reply (some (package_event_handler junk)) app rtu req len).model in
    let i' =
      modbus_reply-answer junk after rtu' req' len' (bytes.1) (room'.0) (room'.1) (serving.1) in
    let m : after.m_modelinfo ≡ (hold_reg_set app.m_modelinfo reg value).1 =
      ap (λ (a : Application). a.m_modelinfo) i.left
      ∙ write_one junk rtu.m_modbus app req len (f.0) (below.0) (w.0) in
    let shown : hold_reg_get after.m_modelinfo junk (word_at req' 2) ≡ value =
      ap (λ (d : ModelDatum). hold_reg_get d junk (word_at req' 2)) m
      ∙ ap (hold_reg_get ((hold_reg_set app.m_modelinfo reg value).1) junk) (at.0)
      ∙ w.1
      ∙ rw (same_below reg (ok.0)) in
    let body : (answer junk rtu'.m_modbus after req' len').body
        ≡ get_or req' 0 0 ∷ 3 ∷ 2 ∷ get_or req 4 0 ∷ get_or req 5 0 ∷ [] =
      read_one junk rtu'.m_modbus after req' len' (f.1) (at.1) (omega (arith, at.0, below.1))
      ∙ rw (shown, halves.0, halves.1) in
    i'.sent ∙ ap frame body
