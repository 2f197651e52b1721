-- ===== src/Modbus/Server/Answer.antt =====
-- What the slave answers to a request and does to the application, without its buffer: the abstract
-- description of app/modbus.cpp with the handler of app/main.cpp.
use project_sensor.Prelude.{
  ℕ, zero, suc, ◌+◌, ◌-◌, ◌*◌, ◌/◌, ◌%◌, ◌^◌, List, [], ◌∷◌, ltb, ◌==◌, if◌then◌else◌, get_or, take,
}
use project_sensor.Prelude.Int.{ℤ, pos}
use project_sensor.Datum.{RegType, input, hold, ModelDatum, modbus_reg_get, modbus_reg_set}
use project_sensor.Modbus.{Modbus, is_zero, version}
use project_sensor.Modbus.Server.{Application}

-- The big-endian word at an index of the request.
unfoldable pub word_at : List ℕ → ℕ → ℕ
word_at req i = get_or req i 0 * 2 ^ 8 + get_or req (i + 1) 0

-- The words from an index on, `n` of them.
unfoldable pub words_at : List ℕ → ℕ → ℕ → List ℕ
words_at req i zero = []
words_at req i (suc n) = word_at req i ∷ words_at req (i + 2) n

-- The low 16 bits of each register from `reg` on, high byte first.
unfoldable pub show_regs : ℕ → ModelDatum → RegType → ℕ → ℕ → List ℕ
show_regs junk m type reg zero = []
show_regs junk m type reg (suc n) =
    let value = modbus_reg_get m junk type reg in
    value / 2 ^ 8 % 2 ^ 8 ∷ value % 2 ^ 8 ∷ show_regs junk m type (reg + 1) n

-- The values go to the holding registers from `reg` on, up to the first refusal.
unfoldable pub assign : ModelDatum → ℕ → List ℕ → ℤ × ModelDatum
assign m reg [] = (pos 0, m)
assign m reg (value ∷ values) =
    let r = modbus_reg_set m (pos 0) hold reg value in
    let rest = assign (r.1) (reg + 1) values in if is_zero (r.0) then rest else r

-- An answer: its bytes before the check sum, and the application after it.
pub record Answer : Type 0 where
  pub body : List ℕ
  pub app : Application

unfoldable pub refuse : List ℕ → ℕ → Application → Answer
refuse req code app = record {
  body = get_or req 0 0 ∷ (get_or req 1 0 + 128) % 2 ^ 8 ∷ code ∷ [];
  app = app;
}

unfoldable pub answer_read : ℕ → RegType → ℕ → Application → List ℕ → Answer
answer_read junk type max app req =
    let n = word_at req 4 in
    if ltb (word_at req 2 + n) max
    then record {
      body =
          get_or req 0 0
          ∷ get_or req 1 0
          ∷ n * 2 % 2 ^ 8
          ∷ show_regs junk app.m_modelinfo type (word_at req 2) n;
      app = app;
    }
    else refuse req 2 app

-- A write of `values`, answered by `echo` when every register takes its value.
unfoldable pub answer_write : ℕ → ℕ → List ℕ → List ℕ → Application → List ℕ → Answer
answer_write max n values echo app req =
    if ltb (word_at req 2 + n) max
    then (let r = assign app.m_modelinfo (word_at req 2) values in
        let app' = record app { m_modelinfo = r.1 } in
        if is_zero (r.0) then record { body = echo; app = app' } else refuse req 2 app')
    else refuse req 2 app

-- The whole answer, by the function code; `len` counts the check sum of the request.
unfoldable pub answer : ℕ → Modbus → Application → List ℕ → ℕ → Answer
answer junk m app req len =
    let function = get_or req 1 0 in
    if function == 3
    then answer_read junk hold m.hold_reg_max_no app req
    else if function == 4
    then answer_read junk input m.input_reg_max_no app req
    else if function == 6
    then answer_write m.hold_reg_max_no 1 (word_at req 4 ∷ []) (take (len - 2) req) app req
    else if function == 16
    then answer_write m.hold_reg_max_no (word_at req 4) (words_at req 6 (word_at req 4))
        (take 6 req) app req
    else if function == 17
    then record { body = get_or req 0 0 ∷ get_or req 1 0 ∷ 15 ∷ 180 ∷ 255 ∷ version; app = app }
    else refuse req 1 app
