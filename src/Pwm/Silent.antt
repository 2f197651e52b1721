-- ===== src/Pwm/Silent.antt =====
-- The driver after a reset of the chip.
use project_sensor.Prelude.{
  ℕ, ◌%◌, ◌^◌, ◌≡◌, refl, arith, true, false, List, [], ◌∷◌, ◌==◌, ltb, Bool-cases, inl, inr,
}
use project_sensor.Pwm.{
  PwmIoc, rhref_force_h, rhref_force_l, heat_force_h, heat_force_l, measure_on, measure_off,
  rhref_freq, rhref_duty_cycle, heat_freq, heat_duty_cycle, PwmOutput, enum_rhref, enum_heat, Pair,
  Regs, Pwm, pair_of, param_get, IsPwmTime, pwm_freq, pwm_duty_cycle, pwm_ioctl, pwm_ioctls,
}

abbrev pub reset_pair : Pair
reset_pair = record { len = 0; com1 = 0 }

-- The registers after a reset.
abbrev pub reset : Regs
reset = record { rhref = reset_pair; heat = reset_pair }

module _ (pwm_time : ℕ → ℕ → ℕ → ℕ → Regs → Regs) (time : IsPwmTime pwm_time) where
  param_get-reset : (out : PwmOutput) → param_get out reset ≡ reset_pair
  param_get-reset enum_rhref = refl
  param_get-reset enum_heat = refl

  pwm_freq-reset :
      (out : PwmOutput) (freq : ℕ) (p : Pwm)
      → p.regs ≡ reset
      → (pwm_freq pwm_time out freq p).regs ≡ reset
  unfolding pwm_freq
  pwm_freq-reset out freq p h =
      let low : ltb freq 0 ≡ false = ground arith in
      let failed = time.refused (pair_of out) freq 0 1 reset (omega arith) in
      rw h (
        rw (param_get-reset out) (elim (Bool-cases (freq == 0)) [
          | inl same ↦ rw same refl
          | inr other ↦ rw other (rw low failed)
        ]))

  pwm_duty_cycle-reset :
      (out : PwmOutput) (duty_cycle : ℕ) (p : Pwm)
      → p.regs ≡ reset
      → (pwm_duty_cycle pwm_time out duty_cycle p).regs ≡ reset
  unfolding pwm_duty_cycle
  pwm_duty_cycle-reset out duty_cycle p h =
      let failed = time.refused (pair_of out) 0 0 1 reset (omega arith) in
      rw h (
        rw (param_get-reset out) (elim (Bool-cases (duty_cycle == 0)) [
          | inl same ↦ rw same refl
          | inr other ↦
              let high : ltb 0 duty_cycle ≡ true = ground (arith, other) in
              rw other (rw high failed)
        ]))

  pwm_ioctl-reset :
      (ioc : PwmIoc) (p : Pwm) → p.regs ≡ reset → (pwm_ioctl pwm_time ioc p).regs ≡ reset
  unfolding pwm_ioctl
  pwm_ioctl-reset rhref_force_h p h = h
  pwm_ioctl-reset rhref_force_l p h = h
  pwm_ioctl-reset heat_force_h p h = h
  pwm_ioctl-reset heat_force_l p h = h
  pwm_ioctl-reset measure_on p h = h
  pwm_ioctl-reset measure_off p h = h
  pwm_ioctl-reset (rhref_freq n) p h =
      pwm_freq-reset enum_rhref (n % 2 ^ 16) (record p { rhref_is_pwm = true }) h
  pwm_ioctl-reset (rhref_duty_cycle n) p h =
      pwm_duty_cycle-reset enum_rhref (n % 2 ^ 16) (record p { rhref_is_pwm = true }) h
  pwm_ioctl-reset (heat_freq n) p h =
      pwm_freq-reset enum_heat (n % 2 ^ 16) (record p { heat_is_pwm = true }) h
  pwm_ioctl-reset (heat_duty_cycle n) p h =
      pwm_duty_cycle-reset enum_heat (n % 2 ^ 16) (record p { heat_is_pwm = true }) h

  -- With a `PwmTime` as documented, from registers that are 0 no sequence of commands sets a period or a duty cycle: a period alone
  -- is refused since the high side would be on for less than the low side, and a duty cycle is cut to
  -- the period of 0.
  pub pwm_ioctls-reset :
      (iocs : List PwmIoc) (p : Pwm) → p.regs ≡ reset → (pwm_ioctls pwm_time iocs p).regs ≡ reset
  pwm_ioctls-reset [] p h = h
  pwm_ioctls-reset (ioc ∷ iocs) p h =
      pwm_ioctls-reset iocs (pwm_ioctl pwm_time ioc p) (pwm_ioctl-reset ioc p h)
