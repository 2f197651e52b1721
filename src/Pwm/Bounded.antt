-- ===== src/Pwm/Bounded.antt =====
-- The duty cycle against the period.
use project_sensor.Prelude.{
  ℕ, zero, suc, ◌%◌, ◌^◌, ◌≤◌, arith, true, List, [], ◌∷◌, ◌==◌, Bool-cases, inl, inr,
}
use project_sensor.Pwm.{
  PwmIoc, rhref_force_h, rhref_force_l, heat_force_h, heat_force_l, measure_on, measure_off,
  rhref_freq, rhref_duty_cycle, heat_freq, heat_duty_cycle, PwmOutput, enum_rhref, enum_heat, Regs,
  Pwm, pair_of, param_get, IsPwmTime, at_most, pwm_freq, pwm_duty_cycle, pwm_ioctl, pwm_ioctls,
}

-- No high side is on for longer than its period.
pub record IsBounded (r : Regs) : Type 0 where
  pub rhref : r.rhref.com1 ≤ r.rhref.len
  pub heat : r.heat.com1 ≤ r.heat.len

at_most_lem : (limit n : ℕ) → at_most limit n ≤ limit
at_most_lem limit n = ground arith

module _ (pwm_time : ℕ → ℕ → ℕ → ℕ → Regs → Regs) (time : IsPwmTime pwm_time) where
  pwm_time-IsBounded :
      (out : PwmOutput) (f h : ℕ) (r : Regs)
      → h ≤ f
      → IsBounded r
      → IsBounded (pwm_time (pair_of out) f h 1 r)
  pwm_time-IsBounded out f zero r fit b = rw (time.refused (pair_of out) f 0 1 r (omega arith)) b
  pwm_time-IsBounded enum_rhref f (suc h) r fit b =
      rw (time.pair_0 f (suc h) 1 r (omega arith)) (record { rhref = fit; heat = b.heat })
  pwm_time-IsBounded enum_heat f (suc h) r fit b =
      rw (time.pair_1 f (suc h) 1 r (omega arith)) (record { rhref = b.rhref; heat = fit })

  pwm_freq-IsBounded :
      (out : PwmOutput) (freq : ℕ) (p : Pwm)
      → IsBounded p.regs
      → IsBounded (pwm_freq pwm_time out freq p).regs
  unfolding pwm_freq
  pwm_freq-IsBounded out freq p b =
      let old = param_get out p.regs in
      elim (Bool-cases (freq == old.len)) [
        | inl same ↦ rw same b
        | inr other ↦ rw other (
            pwm_time-IsBounded out freq (at_most freq old.com1) p.regs (at_most_lem freq old.com1)
              b)
      ]

  pwm_duty_cycle-IsBounded :
      (out : PwmOutput) (duty_cycle : ℕ) (p : Pwm)
      → IsBounded p.regs
      → IsBounded (pwm_duty_cycle pwm_time out duty_cycle p).regs
  unfolding pwm_duty_cycle
  pwm_duty_cycle-IsBounded out duty_cycle p b =
      let old = param_get out p.regs in
      elim (Bool-cases (duty_cycle == old.com1)) [
        | inl same ↦ rw same b
        | inr other ↦ rw other (
            pwm_time-IsBounded out old.len (at_most old.len duty_cycle) p.regs
              (at_most_lem old.len duty_cycle) b)
      ]

  pwm_ioctl-IsBounded :
      (ioc : PwmIoc) (p : Pwm) → IsBounded p.regs → IsBounded (pwm_ioctl pwm_time ioc p).regs
  unfolding pwm_ioctl
  pwm_ioctl-IsBounded rhref_force_h p b = b
  pwm_ioctl-IsBounded rhref_force_l p b = b
  pwm_ioctl-IsBounded heat_force_h p b = b
  pwm_ioctl-IsBounded heat_force_l p b = b
  pwm_ioctl-IsBounded measure_on p b = b
  pwm_ioctl-IsBounded measure_off p b = b
  pwm_ioctl-IsBounded (rhref_freq n) p b =
      pwm_freq-IsBounded enum_rhref (n % 2 ^ 16) (record p { rhref_is_pwm = true }) b
  pwm_ioctl-IsBounded (rhref_duty_cycle n) p b =
      pwm_duty_cycle-IsBounded enum_rhref (n % 2 ^ 16) (record p { rhref_is_pwm = true }) b
  pwm_ioctl-IsBounded (heat_freq n) p b =
      pwm_freq-IsBounded enum_heat (n % 2 ^ 16) (record p { heat_is_pwm = true }) b
  pwm_ioctl-IsBounded (heat_duty_cycle n) p b =
      pwm_duty_cycle-IsBounded enum_heat (n % 2 ^ 16) (record p { heat_is_pwm = true }) b

  -- Where no duty cycle is beyond its period, and `PwmTime` does what it documents, none gets there,
  -- whatever commands come.
  pub pwm_ioctls-IsBounded :
      (iocs : List PwmIoc) (p : Pwm)
      → IsBounded p.regs
      → IsBounded (pwm_ioctls pwm_time iocs p).regs
  pwm_ioctls-IsBounded [] p b = b
  pwm_ioctls-IsBounded (ioc ∷ iocs) p b =
      pwm_ioctls-IsBounded iocs (pwm_ioctl pwm_time ioc p) (pwm_ioctl-IsBounded ioc p b)
