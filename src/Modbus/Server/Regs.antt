-- ===== src/Modbus/Server/Regs.antt =====
-- A reply before the check sum, and the functions of `modbus_reply` that read registers, against the
-- abstract answer.
use project_sensor.Prelude.{
  ℕ, zero, suc, ◌+◌, ◌*◌, ◌%◌, ◌≤◌, ◌<◌, ◌^◌, ◌≡◌, ◌⊎◌, refl, ap, ◌∙◌, some, List, [], ◌∷◌, ◌++◌,
  arith, ltb, length, get_or, set, take, blit, Bool-cases, inl, inr, length-set, length-blit,
}
use project_sensor.Crc.Bitwise.{IsByteList}
use project_sensor.Datum.{RegType, input, hold}
use project_sensor.Modbus.{
  Rtu, Replied, info, handle, build_response_basis, response_exception, reply_registers,
}
use project_sensor.Modbus.Frame.{take-blit}
use project_sensor.Modbus.Server.{Application, package_event_handler, read_loop}
use project_sensor.Modbus.Server.Answer.{word_at, show_regs, Answer, refuse, answer_read}
use project_sensor.Modbus.Server.Loops.{read_loop-blit, length-show_regs}

pub get_or-IsByteList : (buf : List ℕ) (i : ℕ) → IsByteList buf → get_or buf i 0 < 256
get_or-IsByteList [] i h = omega arith
get_or-IsByteList (x ∷ buf) zero h = h.0
get_or-IsByteList (x ∷ buf) (suc i) h = get_or-IsByteList buf i h.1

-- The header of a reply stands in the request already.
pub basis_self :
    (buf : List ℕ) (function : ℕ)
    → IsByteList buf
    → get_or buf 1 0 ≡ function
    → build_response_basis (record { slave = get_or buf 0 0; function = function }) buf ≡ buf
unfolding build_response_basis
basis_self [] function h e = refl
basis_self (x ∷ []) function h e = let r : x % 256 ≡ x = omega (arith, h.0) in rw r
basis_self (x ∷ y ∷ buf) function h e =
    let r : x % 256 ≡ x = omega (arith, h.0) in
    let r' : function % 256 ≡ y = omega (arith, h.1.0, e) in rw (r, r')

-- A reply before its check sum that carries an answer.
pub record Carries (size : ℕ) (r : Replied Application) (a : Answer) : Type 0 where
  pub long : r.rsp_length ≡ length a.body
  pub bytes : take r.rsp_length r.rsp ≡ a.body
  pub left : r.model ≡ a.app
  pub room : length r.rsp ≡ size

-- The first bytes of a long enough buffer.
take-three :
    (buf : List ℕ)
    → 3 ≤ length buf
    → take 3 buf ≡ get_or buf 0 0 ∷ get_or buf 1 0 ∷ get_or buf 2 0 ∷ []
take-three [] h = absurd (omega arith)
take-three (x ∷ []) h = absurd (omega arith)
take-three (x ∷ y ∷ []) h = absurd (omega arith)
take-three (x ∷ y ∷ z ∷ buf) h = refl

-- What the header, its byte and an exception code leave at the front.
three_set :
    (buf : List ℕ) (a b c : ℕ)
    → 3 ≤ length buf
    → take 3 (set (set (set buf 0 a) 1 b) 2 c) ≡ a ∷ b ∷ c ∷ []
three_set [] a b c h = absurd (omega arith)
three_set (x ∷ []) a b c h = absurd (omega arith)
three_set (x ∷ y ∷ []) a b c h = absurd (omega arith)
three_set (x ∷ y ∷ z ∷ buf) a b c h = refl

set-front :
    (buf : List ℕ) (v : ℕ)
    → 3 ≤ length buf
    → take 3 (set buf 2 v) ≡ get_or buf 0 0 ∷ get_or buf 1 0 ∷ v ∷ []
set-front [] v h = absurd (omega arith)
set-front (x ∷ []) v h = absurd (omega arith)
set-front (x ∷ y ∷ []) v h = absurd (omega arith)
set-front (x ∷ y ∷ z ∷ buf) v h = refl

module _ (junk : ℕ) (app : Application) (rtu : Rtu) (req : List ℕ) (len : ℕ)
    (bytes : IsByteList req) (room : 260 ≤ length req) where
  pub word_small : (i : ℕ) → word_at req i < 2 ^ 16
  unfolding word_at
  word_small i = omega (arith, get_or-IsByteList req i bytes, get_or-IsByteList req (i + 1) bytes)

  -- An exception reply, built over whatever stands in the buffer.
  pub refused :
      (function code : ℕ) (rsp : List ℕ) (rtu' : Rtu) (app' : Application)
      → length rsp ≡ length req
      → Carries
          (length req)
          (record {
            rsp_length = 3;
            rsp =
                (response_exception
                  (record { slave = get_or req 0 0; function = function })
                  code
                  rsp).rsp;
            rtu = rtu';
            model = app';
          })
          (record { body = get_or req 0 0 ∷ (function + 128) % 2 ^ 8 ∷ code ∷ []; app = app' })
  unfolding response_exception build_response_basis
  refused function code rsp rtu' app' same =
      let slave : get_or req 0 0 % 256 ≡ get_or req 0 0 =
        omega (arith, get_or-IsByteList req 0 bytes) in
      (record {
        long = refl;
        bytes =
            three_set rsp (get_or req 0 0 % 256) ((function + 128) % 256) code (omega arith)
            ∙ rw slave;
        left = refl;
        room = omega (
          arith,
          length-set (set (set rsp 0 (get_or req 0 0 % 256)) 1 ((function + 128) % 256)) 2 code,
          length-set (set rsp 0 (get_or req 0 0 % 256)) 1 ((function + 128) % 256),
          length-set rsp 0 (get_or req 0 0 % 256),
        );
      })

  -- The registers that a read copies behind the header and the byte count.
  shown_regs :
      (type : RegType) (function reg n : ℕ) (rtu' : Rtu)
      → get_or req 1 0 ≡ function
      → reg + n < 126
      → Carries
          (length req)
          (record {
            rsp_length = 3 + n * 2 % 2 ^ 16;
            rsp = read_loop junk app.m_modelinfo type reg 0 n 3 (set req 2 (n * 2 % 2 ^ 8));
            rtu = rtu';
            model = app;
          })
          (record {
            body =
                get_or req 0 0
                ∷ function
                ∷ n * 2 % 2 ^ 8
                ∷ show_regs junk app.m_modelinfo type reg n;
            app = app;
          })
  shown_regs type function reg n rtu' f small =
      let zero_right : reg + 0 ≡ reg = omega arith in
      let whole : n * 2 % 65536 ≡ 2 * n = omega arith in
      let values = show_regs junk app.m_modelinfo type reg n in
      let start = set req 2 (n * 2 % 256) in
      let size = length-set req 2 (n * 2 % 256) in
      let values_size = length-show_regs junk app.m_modelinfo type reg n in
      let at : 3 + 2 * n ≡ 3 + length values = omega arith in
      rw (read_loop-blit junk app.m_modelinfo type reg 0 n 3 start (omega arith), zero_right, whole)
        (record {
          long = omega arith;
          bytes =
              ap (λ (k : ℕ). take k (blit start 3 values)) at
              ∙ take-blit start 3 values (omega arith)
              ∙ ap (λ r. r ++ values) (set-front req (n * 2 % 256) (omega arith))
              ∙ rw f;
          left = refl;
          room = length-blit start 3 values ∙ size;
        })

  pub read_lem :
      (type : RegType) (function max : ℕ)
      → get_or req 1 0 ≡ function
      → max ≤ 126
      → (function ≡ 3 × type ≡ hold × rtu.m_modbus.hold_reg_max_no ≡ max)
        ⊎ (function ≡ 4 × type ≡ input × rtu.m_modbus.input_reg_max_no ≡ max)
      → Carries
          (length req)
          (reply_registers
            (some (package_event_handler junk))
            app
            rtu
            req
            (record { slave = get_or req 0 0; function = function })
            len)
          (answer_read junk type max app req)
  unfolding reply_registers response_exception build_response_basis info handle
      package_event_handler answer_read word_at refuse
  read_lem type function max f small which =
      let at : word_at req 2 % 65536 ≡ word_at req 2 = omega (arith, word_small 2) in
      let n : word_at req 4 % 65536 ≡ word_at req 4 = omega (arith, word_small 4) in
      let size = length-set req 2 (word_at req 4 * 2 % 256) in
      elim which [
        | inl (three, is_hold, limit) ↦
            rw (f, three, basis_self req 3 bytes (f ∙ three), at, n, is_hold, limit)
              elim (Bool-cases (ltb (word_at req 2 + word_at req 4) max)) [
                | inl e ↦ rw e (
                    shown_regs hold 3 (word_at req 2) (word_at req 4) _ (f ∙ three)
                      (ground (arith, e)))
                | inr e ↦ rw e (refused 3 2 _ _ app size)
              ]
        | inr (four, is_input, limit) ↦
            rw (f, four, basis_self req 4 bytes (f ∙ four), at, n, is_input, limit)
              elim (Bool-cases (ltb (word_at req 2 + word_at req 4) max)) [
                | inl e ↦ rw e (
                    shown_regs input 4 (word_at req 2) (word_at req 4) _ (f ∙ four)
                      (ground (arith, e)))
                | inr e ↦ rw e (refused 4 2 _ _ app size)
              ]
      ]
