-- ===== src/Modbus/Server/Refine.antt =====
-- `modbus_reply` with the application's handler implements the abstract answer, and what follows for
-- the master on the line.
use project_sensor.Prelude.{
  ℕ, suc, ◌+◌, ◌-◌, ◌%◌, ◌≤◌, ◌<◌, ◌≡◌, ◌⊎◌, refl, ap, ◌∙◌, false, some, List, [], ◌∷◌, arith, ltb,
  ◌==◌, length, get_or, take, blit, inl, inr, Bool-cases, length-blit, length-take,
}
use project_sensor.Crc.Bitwise.{IsByteList}
use project_sensor.Datum.{RegType, input, hold}
use project_sensor.Modbus.{
  is_zero, Rtu, Replied, version, response_exception, build_response_basis, send_msg_pre,
  reply_slave_id, reply_body, modbus_reply,
}
use project_sensor.Modbus.Frame.{frame, take-blit, send_msg_pre-frame}
use project_sensor.Modbus.Server.{Application, package_event_handler}
use project_sensor.Modbus.Server.Answer.{
  Answer, answer, answer_read, answer_write, refuse, word_at, assign,
}
use project_sensor.Modbus.Server.Loops.{length-show_regs}
use project_sensor.Modbus.Server.Writes.{write_single_lem, write_multiple_lem}
use project_sensor.Modbus.Server.Regs.{Carries, read_lem, refused}

-- A reply is the frame of an answer, and leaves its application.
pub record Implements (r : Replied Application) (a : Answer) : Type 0 where
  pub long : r.rsp_length ≡ length a.body + 2
  pub sent : take r.rsp_length r.rsp ≡ frame a.body
  pub left : r.model ≡ a.app

-- The two lists of registers that the slave serves are short enough for one frame.
abbrev pub IsServing : Rtu → Type 0
IsServing rtu = (rtu.m_modbus.input_reg_max_no ≤ 126) × (rtu.m_modbus.hold_reg_max_no ≤ 126)

seal :
    (size : ℕ) (r : Replied Application) (a : Answer)
    → Carries size r a
    → length a.body + 2 ≤ size
    → Implements
        (record r {
          rsp_length =
              (send_msg_pre (record { rsp_length = r.rsp_length; rsp = r.rsp })).rsp_length;
          rsp = (send_msg_pre (record { rsp_length = r.rsp_length; rsp = r.rsp })).rsp;
        })
        a
seal size r a c fits =
    let e = c.long in
    let f =
      send_msg_pre-frame (record { rsp_length = r.rsp_length; rsp = r.rsp })
        (omega (arith, c.room)) in
    record {
      long = f.0 ∙ ap (λ (n : ℕ). n + 2) e;
      sent =
          ap
            (λ (n : ℕ).
              take n (send_msg_pre (record { rsp_length = r.rsp_length; rsp = r.rsp })).rsp)
            (f.0)
          ∙ f.1
          ∙ ap frame c.bytes;
      left = c.left;
    }

slave_id :
    (req : List ℕ) (rtu : Rtu) (app : Application)
    → IsByteList req
    → 260 ≤ length req
    → get_or req 1 0 ≡ 17
    → let m = reply_slave_id (record { slave = get_or req 0 0; function = 17 }) req in
      Carries
        (length req)
        (record { rsp_length = m.rsp_length; rsp = m.rsp; rtu = rtu; model = app })
        (record { body = get_or req 0 0 ∷ 17 ∷ 15 ∷ 180 ∷ 255 ∷ version; app = app })
unfolding reply_slave_id build_response_basis blit
slave_id [] rtu app bytes room f = absurd (omega arith)
slave_id (a ∷ []) rtu app bytes room f = absurd (omega arith)
slave_id (a ∷ b ∷ []) rtu app bytes room f = absurd (omega arith)
slave_id (a ∷ b ∷ c ∷ []) rtu app bytes room f = absurd (omega arith)
slave_id (a ∷ b ∷ c ∷ d ∷ []) rtu app bytes room f = absurd (omega arith)
slave_id (a ∷ b ∷ c ∷ d ∷ e ∷ rest) rtu app bytes room f =
    let slave : a % 256 ≡ a = omega (arith, bytes.0) in
    rw slave (record {
      long = refl;
      bytes = ap (λ r. a ∷ 17 ∷ 15 ∷ 180 ∷ 255 ∷ r) (take-blit rest 0 version (omega arith));
      left = refl;
      room = ap (λ (n : ℕ). suc (suc (suc (suc (suc n))))) (length-blit rest 0 version);
    })

-- The functions that the slave tells apart.
pub function_cases :
    (n : ℕ)
    → (n ≡ 3)
      ⊎ (n ≡ 4)
      ⊎ (n ≡ 6)
      ⊎ (n ≡ 16)
      ⊎ (n ≡ 17)
      ⊎ (((n == 3) ≡ false)
          × ((n == 4) ≡ false)
          × ((n == 6) ≡ false)
          × ((n == 16) ≡ false)
          × ((n == 17) ≡ false))
function_cases n = ground arith

module _ (junk : ℕ) (app : Application) (rtu : Rtu) (req : List ℕ) (len size : ℕ)
    (room : 260 ≤ size) (within : len ≤ size) (serving : IsServing rtu) where
  read_fits :
      (type : RegType) (max : ℕ)
      → max ≤ 126
      → length ((answer_read junk type max app req).body) + 2 ≤ size
  unfolding answer_read refuse
  read_fits type max small =
      let n = length-show_regs junk app.m_modelinfo type (word_at req 2) (word_at req 4) in
      elim (Bool-cases (ltb (word_at req 2 + word_at req 4) max)) [
        | inl e ↦
            let under : word_at req 2 + word_at req 4 < max = ground (arith, e) in
            rw e (omega arith)
        | inr e ↦ rw e (omega arith)
      ]

  write_fits :
      (max n : ℕ) (values echo : List ℕ)
      → length echo + 2 ≤ size
      → length ((answer_write max n values echo app req).body) + 2 ≤ size
  unfolding answer_write refuse
  write_fits max n values echo fits = elim (Bool-cases (ltb (word_at req 2 + n) max)) [
    | inl e ↦
        rw e (elim (Bool-cases (is_zero ((assign app.m_modelinfo (word_at req 2) values).0))) [
          | inl z ↦ rw z fits
          | inr z ↦ rw z (omega arith)
        ])
    | inr e ↦ rw e (omega arith)
  ]

  pub answer_fits : length ((answer junk rtu.m_modbus app req len).body) + 2 ≤ size
  unfolding answer refuse
  answer_fits =
      let echo : length (take (len - 2) req) + 2 ≤ size =
        omega (arith, length-take (len - 2) req) in
      let front : length (take 6 req) + 2 ≤ size = omega (arith, length-take 6 req) in
      elim (function_cases (get_or req 1 0)) [
        | inl f ↦ rw f (read_fits hold rtu.m_modbus.hold_reg_max_no (serving.1))
        | inr (inl f) ↦ rw f (read_fits input rtu.m_modbus.input_reg_max_no (serving.0))
        | inr (inr (inl f)) ↦ rw f (write_fits _ 1 _ _ echo)
        | inr (inr (inr (inl f))) ↦ rw f (write_fits _ _ _ _ front)
        | inr (inr (inr (inr (inl f)))) ↦ rw f (omega arith)
        | inr (inr (inr (inr (inr (f3, f4, f6, f16, f17))))) ↦
            rw (f3, f4, f6, f16, f17) (omega arith)
      ]

module _ (junk : ℕ) (app : Application) (rtu : Rtu) (req : List ℕ) (len : ℕ)
    (bytes : IsByteList req) (room : 260 ≤ length req) (within : len ≤ length req)
    (serving : IsServing rtu) where
  reply_body-answer :
      Carries
        (length req)
        (reply_body (some (package_event_handler junk)) app rtu req len)
        (answer junk rtu.m_modbus app req len)
  unfolding reply_body answer refuse response_exception
  reply_body-answer = elim (function_cases (get_or req 1 0)) [
    | inl f ↦ rw f (
        read_lem junk app rtu req (len - 2) bytes room hold 3 rtu.m_modbus.hold_reg_max_no f
          (serving.1) (inl (refl, refl, refl)))
    | inr (inl f) ↦ rw f (
        read_lem junk app rtu req (len - 2) bytes room input 4 rtu.m_modbus.input_reg_max_no f
          (serving.0) (inr (refl, refl, refl)))
    | inr (inr (inl f)) ↦
        rw f (write_single_lem junk app rtu req (len - 2) bytes room f (serving.1) (omega arith))
    | inr (inr (inr (inl f))) ↦
        rw f (write_multiple_lem junk app rtu req (len - 2) bytes room f (serving.1))
    | inr (inr (inr (inr (inl f)))) ↦ rw f (slave_id req rtu app bytes room f)
    | inr (inr (inr (inr (inr (f3, f4, f6, f16, f17))))) ↦
        rw (f3, f4, f6, f16, f17)
          (refused junk app rtu req (len - 2) bytes room (get_or req 1 0) 1 req rtu app refl)
  ]

  -- For a request of any bytes and any length, in a buffer of at least 260 bytes that it fits, and a
  -- slave that serves at most 126 registers of each kind, `modbus_reply` with the handler of the
  -- application builds the frame of the abstract answer, bytes, length and check sum, and leaves the
  -- application as that answer does.
  pub modbus_reply-answer :
      Implements
        (modbus_reply (some (package_event_handler junk)) app rtu req len)
        (answer junk rtu.m_modbus app req len)
  unfolding modbus_reply
  modbus_reply-answer =
      seal (length req) _ _ reply_body-answer
        (answer_fits junk app rtu req len (length req) room within serving)
