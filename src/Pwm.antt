-- ===== src/Pwm.antt =====
-- The driver of the heater and of the reference voltage, bsp/driver/pwm/drv_pwm.cpp: two outputs,
-- each a pin that is driven by level or by a pulse. `PwmTime` of the vendor's library is a parameter.
mod Bounded
mod Silent
mod Tests
use project_sensor.Prelude.{
  ℕ, ◌%◌, ◌^◌, ◌<◌, ◌≤◌, ◌≡◌, Bool, true, false, List, [], ◌∷◌, ◌==◌, if◌then◌else◌, ltb,
}

-- The commands, with their argument.
pub data PwmIoc : Type 0 where
  rhref_force_h rhref_force_l heat_force_h heat_force_l measure_on measure_off : PwmIoc
  rhref_freq rhref_duty_cycle heat_freq heat_duty_cycle : ℕ → PwmIoc

pub data PwmOutput : Type 0 where
  enum_rhref enum_heat : PwmOutput

-- The registers `PWMxLEN` and `PWMxCOM1` of a pair.
pub record Pair : Type 0 where
  pub len : ℕ
  pub com1 : ℕ

pub record Regs : Type 0 where
  pub rhref : Pair
  pub heat : Pair

-- The registers, whether each pin is in pulse mode, its level otherwise, the pin that switches the
-- measurement, and whether the outputs are enabled.
pub record Pwm : Type 0 where
  pub regs : Regs
  pub rhref_is_pwm : Bool
  pub heat_is_pwm : Bool
  pub rhref_level : Bool
  pub heat_level : Bool
  pub measuring : Bool
  pub enabled : Bool

-- `PWM0_1` and `PWM2_3`.
abbrev pub pair_of : PwmOutput → ℕ
pair_of enum_rhref = 0
pair_of enum_heat = 1

-- `PWM_ParamGet`: the registers of an output.
abbrev pub param_get : PwmOutput → Regs → Pair
param_get enum_rhref r = r.rhref
param_get enum_heat r = r.heat

-- What the library documents of `PwmTime`, with the number of the pair, the period, and the time
-- that the high and the low side are on: it fails, with nothing changed, if the high side is on for
-- less than the low side, and sets the registers of the pair otherwise.
pub record IsPwmTime (pwm_time : ℕ → ℕ → ℕ → ℕ → Regs → Regs) : Type 0 where
  pub refused : (i f h l : ℕ) (r : Regs) → h < l → pwm_time i f h l r ≡ r
  pub pair_0 :
      (f h l : ℕ) (r : Regs)
      → l ≤ h
      → pwm_time 0 f h l r ≡ record r { rhref = record { len = f; com1 = h } }
  pub pair_1 :
      (f h l : ℕ) (r : Regs)
      → l ≤ h
      → pwm_time 1 f h l r ≡ record r { heat = record { len = f; com1 = h } }

abbrev pub at_most : ℕ → ℕ → ℕ
at_most limit n = if ltb limit n then limit else n

module _ (pwm_time : ℕ → ℕ → ℕ → ℕ → Regs → Regs) where
  -- `PWM_Freq`.
  unfoldable pub pwm_freq : PwmOutput → ℕ → Pwm → Pwm
  pwm_freq out freq p =
      let old = param_get out p.regs in
      if freq == old.len then p else record p {
        regs = pwm_time (pair_of out) freq (at_most freq old.com1) 1 p.regs;
        enabled = true;
      }

  -- `PWM_DutyCycle`.
  unfoldable pub pwm_duty_cycle : PwmOutput → ℕ → Pwm → Pwm
  pwm_duty_cycle out duty_cycle p =
      let old = param_get out p.regs in
      if duty_cycle == old.com1
      then p
      else record p { regs = pwm_time (pair_of out) old.len (at_most old.len duty_cycle) 1 p.regs }

  -- `_drv_ioctl`; an argument is cut to 16 bits.
  unfoldable pub pwm_ioctl : PwmIoc → Pwm → Pwm
  unfolding pwm_freq pwm_duty_cycle
  pwm_ioctl rhref_force_h p = record p { rhref_is_pwm = false; rhref_level = true }
  pwm_ioctl rhref_force_l p = record p { rhref_is_pwm = false; rhref_level = false }
  pwm_ioctl heat_force_h p = record p { heat_is_pwm = false; heat_level = true }
  pwm_ioctl heat_force_l p = record p { heat_is_pwm = false; heat_level = false }
  pwm_ioctl (rhref_freq n) p = pwm_freq enum_rhref (n % 2 ^ 16) (record p { rhref_is_pwm = true })
  pwm_ioctl (rhref_duty_cycle n) p =
      pwm_duty_cycle enum_rhref (n % 2 ^ 16) (record p { rhref_is_pwm = true })
  pwm_ioctl (heat_freq n) p = pwm_freq enum_heat (n % 2 ^ 16) (record p { heat_is_pwm = true })
  pwm_ioctl (heat_duty_cycle n) p =
      pwm_duty_cycle enum_heat (n % 2 ^ 16) (record p { heat_is_pwm = true })
  pwm_ioctl measure_on p = record p { measuring = true }
  pwm_ioctl measure_off p = record p { measuring = false }

  -- `_drv_devinit`: both pins by level.
  unfoldable pub pwm_init : Pwm → Pwm
  pwm_init p = record p { rhref_is_pwm = false; heat_is_pwm = false }

  -- `_drv_devopen`.
  unfoldable pub pwm_open : Pwm → Pwm
  unfolding pwm_ioctl
  pwm_open p =
      pwm_ioctl measure_on
        (pwm_ioctl heat_force_h (pwm_ioctl rhref_force_h (record p { enabled = true })))

  -- Some commands, one after the other.
  abbrev pub pwm_ioctls : List PwmIoc → Pwm → Pwm
  pwm_ioctls [] p = p
  pwm_ioctls (ioc ∷ iocs) p = pwm_ioctls iocs (pwm_ioctl ioc p)
