-- ===== src/Datum/Hold/Access.antt =====
-- The holding registers by `hold_reg_operate`: what a read shows and what a write stores.
use project_sensor.Prelude.{
  ℕ, ◌-◌, ◌/◌, ◌%◌, ◌≤◌, ◌<◌, ◌^◌, ◌≡◌, ◌⊎◌, ap, true, false, ◌&&◌, Bool-cases, inl, inr, arith,
  leb, ltb, ◌==◌, if◌then◌else◌, get_or, set, get_or-set, set_self,
}
use project_sensor.Prelude.Int.{pos, negsuc}
use project_sensor.Datum.{
  read, write, reg_operate, SensorPara, char_operate, short_operate, long_operate, hold_reg_operate,
}
use project_sensor.Datum.Cell.{IsValid}
use project_sensor.Datum.Hold.{
  lowest, highest, accepts, shown, half, merged, stored, range_at, byte_cell, byte_write, half-set,
  same_reg, shown_long, shown_other, stored_long,
}

module _ (p : SensorPara) (v : IsValid p) where
  char_write :
      (reg value : ℕ)
      → reg < 7
      → char_operate write p reg value ≡ (
          if accepts reg value
          then record { rt = pos 0; regs = record p { uc = set p.uc reg value }; value = value }
          else record { rt = negsuc 0; regs = p; value = value })
  unfolding char_operate accepts
  char_write reg value small =
      let fits : highest reg < 256 = unfold highest in ground arith in
      rw
        (
          range_at reg small,
          byte_write (lowest reg) (highest reg) (get_or p.uc reg 0) value
              (byte_cell p.uc reg v.config small) fits,
        )
        elim (Bool-cases (leb (lowest reg) value && leb value (highest reg))) [
          | inl e ↦ rw e
          | inr e ↦ rw (e, set_self p.uc reg 0)
        ]

  short_write :
      (reg value : ℕ)
      → value < 2 ^ 16
      → short_operate write p reg value
        ≡ record { rt = pos 0; regs = record p { us = set p.us (reg - 7) value }; value = value }
  unfolding short_operate reg_operate
  short_write reg value small = let e : value % 65536 ≡ value = omega arith in rw e

  long_write :
      (reg value : ℕ)
      → value < 2 ^ 16
      → long_operate write p reg value ≡ record {
        rt = pos 0;
        regs = record p {
          ul = set p.ul ((reg - 31) / 2) (merged reg (get_or p.ul ((reg - 31) / 2) 0) value);
        };
        value = value;
      }
  unfolding long_operate reg_operate merged
  long_write reg value small =
      let e : value % 65536 ≡ value = omega arith in
      elim (Bool-cases (reg % 2 == 1)) [ inl h ↦ rw (h, e) | inr h ↦ rw (h, e) ]

  pub hold_write :
      (reg value : ℕ)
      → value < 2 ^ 16
      → hold_reg_operate write p reg value ≡ (
          if accepts reg value
          then record { rt = pos 0; regs = stored p reg value; value = value }
          else record { rt = negsuc 0; regs = p; value = value })
  unfolding hold_reg_operate stored
  hold_write reg value small =
      let free : 7 ≤ reg → accepts reg value ≡ true =
        unfold accepts lowest highest in ground arith in
      ground (arith, char_write reg value, short_write reg value, long_write reg value, free)

  char_read : (reg junk : ℕ) → reg < 7 → (char_operate read p reg junk).value ≡ get_or p.uc reg 0
  unfolding char_operate
  char_read reg junk small =
      rw (range_at reg small) (omega (arith, byte_cell p.uc reg v.config small))

  long_read :
      (reg junk : ℕ)
      → (long_operate read p reg junk).value ≡ (
          if reg % 2 == 1
          then get_or p.ul ((reg - 31) / 2) 0 / 2 ^ 16
          else get_or p.ul ((reg - 31) / 2) 0 % 2 ^ 16)
  unfolding long_operate reg_operate
  long_read reg junk = elim (Bool-cases (reg % 2 == 1)) [ inl h ↦ rw h | inr h ↦ rw h ]

  -- A register that is read shows its cell, whatever `value` held.
  pub hold_read : (reg junk : ℕ) → (hold_reg_operate read p reg junk).value ≡ shown p reg
  unfolding hold_reg_operate shown half short_operate reg_operate
  hold_read reg junk = ground (arith, char_read reg junk, long_read reg junk)

  byte_stored :
      (reg value reg' : ℕ)
      → reg < 7
      → shown (stored p reg value) reg' ≡ (if reg == reg' then value else shown p reg')
  unfolding shown stored
  byte_stored reg value reg' below =
      let at = get_or-set p.uc reg reg' value 0 (omega (arith, v.config.seven)) in
      ground (arith, at)

  short_stored :
      (reg value reg' : ℕ)
      → (7 ≤ reg) × (reg < 31)
      → shown (stored p reg value) reg' ≡ (if reg == reg' then value else shown p reg')
  unfolding shown stored
  short_stored reg value reg' h =
      let at = get_or-set p.us (reg - 7) (reg' - 7) value 0 (omega (arith, v.shorts)) in
      ground (arith, at)

  long_stored :
      (reg value reg' : ℕ)
      → (31 ≤ reg) × (reg < 57)
      → value < 2 ^ 16
      → shown (stored p reg value) reg' ≡ (if reg == reg' then value else shown p reg')
  long_stored reg value reg' h small = rw (stored_long p reg value h) elim (range reg') [
    | inl r ↦
        rw (shown_long _ reg' r, shown_long p reg' r, same_reg reg reg' h.0 r.0)
          (half-set p.ul ((reg - 31) / 2) ((reg' - 31) / 2) reg reg' value (omega (arith, v.longs))
            small)
    | inr r ↦ let other : (reg == reg') ≡ false = ground arith in rw (shown_other p _ reg' r, other)
  ]
    where
      range : (n : ℕ) → ((31 ≤ n) × (n < 57)) ⊎ ((n < 31) ⊎ (57 ≤ n))
      range n = ground arith

  stored_past : (reg value : ℕ) → 57 ≤ reg → stored p reg value ≡ p
  unfolding stored
  stored_past reg value h = ground arith

  -- An accepted value shows in its register, and every other register shows what it did.
  pub shown-stored :
      (reg value reg' : ℕ)
      → value < 2 ^ 16
      → shown (stored p reg value) reg'
        ≡ (if (reg == reg') && ltb reg 57 then value else shown p reg')
  shown-stored reg value reg' small =
      let past_shown : 57 ≤ reg → shown (stored p reg value) reg' ≡ shown p reg' =
        λ h. ap (λ (q : SensorPara). shown q reg') (stored_past reg value h) in
      ground (
        arith,
        byte_stored reg value reg',
        short_stored reg value reg',
        long_stored reg value reg',
        past_shown,
      )
