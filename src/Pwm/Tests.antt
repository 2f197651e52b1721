-- ===== src/Pwm/Tests.antt =====
-- A library that does what it documents, and the commands of a calibration.
use project_sensor.Prelude.{
  ℕ, ◌≡◌, refl, arith, true, false, List, [], ◌∷◌, ◌==◌, if◌then◌else◌, ltb,
}
use project_sensor.Pwm.{
  PwmIoc, measure_off, heat_freq, heat_duty_cycle, Regs, Pwm, IsPwmTime, pwm_freq, pwm_ioctl,
  pwm_open, pwm_ioctls,
}
use project_sensor.Pwm.Silent.{reset, pwm_ioctls-reset}
use project_sensor.Pwm.Bounded.{IsBounded, pwm_ioctls-IsBounded}

abbrev library : ℕ → ℕ → ℕ → ℕ → Regs → Regs
library i f h l r =
    if ltb h l
    then r
    else if i == 0
    then record r { rhref = record { len = f; com1 = h } }
    else record r { heat = record { len = f; com1 = h } }

library-IsPwmTime : IsPwmTime library
library-IsPwmTime = record {
  refused = λ i f h l r low. let e : ltb h l ≡ true = ground (arith, low) in rw e refl;
  pair_0 = λ f h l r high. let e : ltb h l ≡ false = ground (arith, high) in rw e refl;
  pair_1 = λ f h l r high. let e : ltb h l ≡ false = ground (arith, high) in rw e refl;
}

abbrev heating : List PwmIoc
heating = measure_off ∷ heat_freq 100 ∷ heat_duty_cycle 25 ∷ []

abbrev after_reset : Pwm
after_reset = record {
  regs = reset;
  rhref_is_pwm = false;
  heat_is_pwm = false;
  rhref_level = false;
  heat_level = false;
  measuring = false;
  enabled = false;
}

pwm_ioctls-reset_example : (pwm_ioctls library heating (pwm_open library after_reset)).regs ≡ reset
pwm_ioctls-reset_example =
    pwm_ioctls-reset library library-IsPwmTime heating (pwm_open library after_reset)
      (unfold pwm_open pwm_ioctl in refl)

abbrev warm : Pwm
warm = record after_reset {
  regs = record { rhref = record { len = 50; com1 = 20 }; heat = record { len = 80; com1 = 60 } };
}

pwm_ioctls-IsBounded_example : IsBounded (pwm_ioctls library (heat_freq 40 ∷ []) warm).regs
pwm_ioctls-IsBounded_example =
    pwm_ioctls-IsBounded library library-IsPwmTime (heat_freq 40 ∷ []) warm
      (record { rhref = omega arith; heat = omega arith })

heat_test : (pwm_ioctls library (heat_freq 40 ∷ []) warm).regs.heat ≡ record { len = 40; com1 = 40 }
unfolding pwm_ioctl pwm_freq
heat_test = refl
