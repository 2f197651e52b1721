-- ===== src/Modbus/Server/Writes.antt =====
-- The functions of `modbus_reply` that write registers, before the check sum, against the abstract
-- answer.
use project_sensor.Prelude.{
  ℕ, ◌+◌, ◌%◌, ◌≤◌, ◌≡◌, refl, some, List, [], ◌∷◌, arith, ltb, length, get_or, take, Bool-cases,
  inl, inr, length-take,
}
use project_sensor.Crc.Bitwise.{IsByteList}
use project_sensor.Modbus.{
  Rtu, is_zero, info, handle, build_response_basis, response_exception, reply_registers,
}
use project_sensor.Modbus.Server.{Application, package_event_handler}
use project_sensor.Modbus.Server.Answer.{word_at, words_at, assign, refuse, answer_write}
use project_sensor.Modbus.Server.Loops.{write_loop-assign, blit_self}
use project_sensor.Modbus.Server.Regs.{basis_self, Carries, word_small, refused}

module _ (junk : ℕ) (app : Application) (rtu : Rtu) (req : List ℕ) (len : ℕ)
    (bytes : IsByteList req) (room : 260 ≤ length req) where
  -- The front of the request, sent back.
  copied :
      (n : ℕ)
      → n ≤ length req
      → (rtu' : Rtu) (app' : Application)
      → Carries
          (length req)
          (record { rsp_length = n; rsp = req; rtu = rtu'; model = app' })
          (record { body = take n req; app = app' })
  copied n within rtu' app' = record {
    long = omega (arith, length-take n req);
    bytes = refl;
    left = refl;
    room = refl;
  }

  pub write_single_lem :
      get_or req 1 0 ≡ 6
      → rtu.m_modbus.hold_reg_max_no ≤ 126
      → len ≤ length req
      → Carries
          (length req)
          (reply_registers
            (some (package_event_handler junk))
            app
            rtu
            req
            (record { slave = get_or req 0 0; function = 6 })
            len)
          (answer_write rtu.m_modbus.hold_reg_max_no 1 (word_at req 4 ∷ []) (take len req) app req)
  unfolding reply_registers response_exception build_response_basis info handle
      package_event_handler answer_write word_at refuse words_at
  write_single_lem f small within =
      let at : word_at req 2 % 65536 ≡ word_at req 2 =
        omega (arith, word_small junk app rtu req len bytes room 2) in
      let zero_right : word_at req 2 + 0 ≡ word_at req 2 = omega arith in
      let max = rtu.m_modbus.hold_reg_max_no in
      rw (f, basis_self req 6 bytes f, at)
        elim (Bool-cases (ltb (word_at req 2 + 1) max)) [
          | inl e ↦
              let loop =
                write_loop-assign app.m_modelinfo (word_at req 2) 0 1 4 req (ground (arith, e)) in
              rw (e, loop, zero_right)
                elim (Bool-cases
                  (is_zero ((assign app.m_modelinfo (word_at req 2) (word_at req 4 ∷ [])).0))) [
                    | inl z ↦ rw z (rw (blit_self req 0 len (omega arith)) (copied len within _ _))
                    | inr z ↦ rw z (refused junk app rtu req len bytes room 6 2 _ _ _ refl)
                  ]
          | inr e ↦ rw e (refused junk app rtu req len bytes room 6 2 _ _ app refl)
        ]

  pub write_multiple_lem :
      get_or req 1 0 ≡ 16
      → rtu.m_modbus.hold_reg_max_no ≤ 126
      → Carries
          (length req)
          (reply_registers
            (some (package_event_handler junk))
            app
            rtu
            req
            (record { slave = get_or req 0 0; function = 16 })
            len)
          (answer_write rtu.m_modbus.hold_reg_max_no
            (word_at req 4)
            (words_at req 6 (word_at req 4))
            (take 6 req)
            app
            req)
  unfolding reply_registers response_exception build_response_basis info handle
      package_event_handler answer_write word_at refuse
  write_multiple_lem f small =
      let at : word_at req 2 % 65536 ≡ word_at req 2 =
        omega (arith, word_small junk app rtu req len bytes room 2) in
      let n : word_at req 4 % 65536 ≡ word_at req 4 =
        omega (arith, word_small junk app rtu req len bytes room 4) in
      let zero_right : word_at req 2 + 0 ≡ word_at req 2 = omega arith in
      let max = rtu.m_modbus.hold_reg_max_no in
      rw (f, basis_self req 16 bytes f, at, n)
        elim (Bool-cases (ltb (word_at req 2 + word_at req 4) max)) [
          | inl e ↦
              let loop =
                write_loop-assign app.m_modelinfo (word_at req 2) 0 (word_at req 4) 6 req
                  (ground (arith, e)) in
              rw (e, loop, zero_right)
                elim (Bool-cases (
                  is_zero (
                    (assign app.m_modelinfo (word_at req 2) (words_at req 6 (word_at req 4))).0))) [
                      | inl z ↦ rw z (
                          rw (basis_self req 16 bytes f, blit_self req 2 4 (omega arith))
                            (copied 6 (omega arith) _ _))
                      | inr z ↦ rw z (refused junk app rtu req len bytes room 16 2 _ _ _ refl)
                    ]
          | inr e ↦ rw e (refused junk app rtu req len bytes room 16 2 _ _ app refl)
        ]
