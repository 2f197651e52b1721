-- ===== src/Datum/Write.antt =====
-- Holding registers as the caller sees them: what a write changes, and what it preserves.
use project_sensor.Prelude.{
  ℕ, ◌+◌, ◌-◌, ◌*◌, ◌/◌, ◌<◌, ◌^◌, ◌≡◌, ◌⊎◌, refl, ap, ◌∙◌, true, false, ◌&&◌, Bool-cases, inl, inr,
  List, arith, leb, ltb, ◌==◌, if◌then◌else◌, length, get_or, set, length-set, get_or-set,
}
use project_sensor.Prelude.Int.{ℤ, pos, negsuc}
use project_sensor.Datum.{
  hold, modbus_reg_get, modbus_reg_set, SensorPara, ModelDatum, hold_reg_get, hold_reg_set,
}
use project_sensor.Datum.Cell.{All-set, All-get_or, IsConfig, IsValid}
use project_sensor.Datum.Hold.{lowest, highest, accepts, shown, half, merged, stored}
use project_sensor.Datum.Hold.Access.{hold_write, hold_read, shown-stored}

store-IsConfig :
    (uc : List ℕ) (reg value : ℕ)
    → IsConfig uc
    → reg < 7
    → accepts reg value ≡ true
    → IsConfig (set uc reg value)
unfolding accepts lowest highest
store-IsConfig uc reg value v below ok =
    let inside : reg < length uc = omega (arith, v.seven) in
    let at : (j : ℕ)
        → get_or (set uc reg value) j 0
          ≡ (if leb reg j && leb j reg then value else get_or uc j 0) =
      λ j. get_or-set uc reg j value 0 inside in
    record {
      seven = length-set uc reg value ∙ v.seven;
      link_addr = ground (arith, at 0, v.link_addr);
      comm_baud = ground (arith, at 1, v.comm_baud);
      gas_mixing = ground (arith, at 2, v.gas_mixing);
      others = ground (arith, at 3, at 4, at 5, at 6, v.others);
    }

merged-lt : (reg cell value : ℕ) → cell < 2 ^ 32 → value < 2 ^ 16 → merged reg cell value < 2 ^ 32
unfolding merged
merged-lt reg cell value h small = ground arith

-- Where a value is stored.
stored_cases :
    (p : SensorPara) (reg value : ℕ)
    → ((reg < 7) × (stored p reg value ≡ record p { uc = set p.uc reg value }))
      ⊎ (stored p reg value ≡ record p { us = set p.us (reg - 7) value })
      ⊎ (stored p reg value ≡ record p {
        ul = set p.ul ((reg - 31) / 2) (merged reg (get_or p.ul ((reg - 31) / 2) 0) value);
      })
      ⊎ (stored p reg value ≡ p)
unfolding stored
stored_cases p reg value = ground arith

-- An accepted value leaves valid parameters.
pub stored-IsValid :
    (p : SensorPara) (reg value : ℕ)
    → IsValid p
    → value < 2 ^ 16
    → accepts reg value ≡ true
    → IsValid (stored p reg value)
stored-IsValid p reg value v small ok = elim (stored_cases p reg value) [
  | inl (below, e) ↦ rw e (record {
    config = store-IsConfig p.uc reg value v.config below ok;
    shorts = v.shorts;
    words = v.words;
    longs = v.longs;
    double_words = v.double_words;
  })
  | inr (inl e) ↦ rw e (record {
    config = v.config;
    shorts = length-set p.us (reg - 7) value ∙ v.shorts;
    words = All-set (λ w. w < 2 ^ 16) p.us (reg - 7) value v.words small;
    longs = v.longs;
    double_words = v.double_words;
  })
  | inr (inr (inl e)) ↦
      let i = (reg - 31) / 2 in
      let cell = get_or p.ul i 0 in
      let fits : cell < 2 ^ 32 =
        All-get_or (λ w. w < 2 ^ 32) p.ul i 0 v.double_words (omega arith) in
      let w = merged reg cell value in
      rw e (record {
        config = v.config;
        shorts = v.shorts;
        words = v.words;
        longs = length-set p.ul i w ∙ v.longs;
        double_words =
            All-set (λ w. w < 2 ^ 32) p.ul i w v.double_words (merged-lt reg cell value fits small);
      })
  | inr (inr (inr e)) ↦ rw e v
]

-- A write of a 16-bit value that the holding register accepts, to valid parameters, returns 0. A read
-- of any register afterwards gives the value if it is that register and below 57, and otherwise what
-- it gave before.
pub hold_reg_set-get :
    (m : ModelDatum) (reg value reg' junk : ℕ)
    → IsValid m.para
    → value < 2 ^ 16
    → accepts reg value ≡ true
    → ((hold_reg_set m reg value).0 ≡ pos 0)
      × (hold_reg_get ((hold_reg_set m reg value).1) junk reg'
          ≡ (if (reg == reg') && ltb reg 57 then value else hold_reg_get m junk reg'))
unfolding hold_reg_set hold_reg_get
hold_reg_set-get m reg value reg' junk v small ok =
    let w = hold_write m.para v reg value small in
    let stays = stored-IsValid m.para reg value v small ok in
    rw (w, ok)
      (
        refl,
        rw (hold_read (stored m.para reg value) stays reg' junk, hold_read m.para v reg' junk)
            (shown-stored m.para v reg value reg' small),
      )

-- A write of a 16-bit value that the holding register does not accept, to valid parameters, returns
-- -1 and changes nothing.
pub hold_reg_set-rejected :
    (m : ModelDatum) (reg value : ℕ)
    → IsValid m.para
    → value < 2 ^ 16
    → accepts reg value ≡ false
    → hold_reg_set m reg value ≡ (negsuc 0, m)
unfolding hold_reg_set
hold_reg_set-rejected m reg value v small bad = rw (hold_write m.para v reg value small, bad)

-- A write of any 16-bit value to any holding register keeps the parameters valid: array sizes, cell
-- widths, and the documented range of each byte register.
pub hold_reg_set-IsValid :
    (m : ModelDatum) (reg value : ℕ)
    → IsValid m.para
    → value < 2 ^ 16
    → IsValid ((hold_reg_set m reg value).1).para
unfolding hold_reg_set
hold_reg_set-IsValid m reg value v small =
    let w = hold_write m.para v reg value small in
    elim (Bool-cases (accepts reg value)) [
      | inl e ↦ rw (w, e) (stored-IsValid m.para reg value v small e)
      | inr e ↦ rw (w, e) v
    ]

-- The two registers of a calibration sample, the odd one high, put together are the double word.
pub hold_reg_get-double_word :
    (m : ModelDatum) (k junk : ℕ)
    → IsValid m.para
    → k < 13
    → hold_reg_get m junk (31 + 2 * k) * 2 ^ 16 + hold_reg_get m junk (32 + 2 * k)
      ≡ get_or m.para.ul k 0
unfolding hold_reg_get shown half
hold_reg_get-double_word m k junk v small =
    let high : (31 + 2 * k - 31) / 2 ≡ k = omega arith in
    let low : (32 + 2 * k - 31) / 2 ≡ k = omega arith in
    rw (hold_read m.para v (31 + 2 * k) junk, hold_read m.para v (32 + 2 * k) junk)
      (ground (
        arith,
        ap (λ (n : ℕ). get_or m.para.ul n 0) high,
        ap (λ (n : ℕ). get_or m.para.ul n 0) low,
      ))

-- The holding registers behind `modbus_reg_set` and `modbus_reg_get`.
pub modbus_reg_set-hold :
    (m : ModelDatum) (junk : ℤ) (reg value : ℕ)
    → modbus_reg_set m junk hold reg value ≡ hold_reg_set m reg value
unfolding modbus_reg_set
modbus_reg_set-hold m junk reg value = refl

pub modbus_reg_get-hold :
    (m : ModelDatum) (junk reg : ℕ) → modbus_reg_get m junk hold reg ≡ hold_reg_get m junk reg
unfolding modbus_reg_get
modbus_reg_get-hold m junk reg = refl
