-- ===== src/Datum/Hold.antt =====
-- The values that the holding registers accept, the cells that they show, and their halves.
pub mod Access
use project_sensor.Prelude.{
  ℕ, zero, suc, ◌+◌, ◌-◌, ◌*◌, ◌/◌, ◌%◌, ◌≤◌, ◌<◌, ◌^◌, ◌≡◌, ◌⊎◌, refl, ap, Bool, true, false, ◌&&◌,
  Bool-cases, inl, inr, List, arith, leb, ltb, ◌==◌, if◌then◌else◌, length, get_or, set, get_or-set,
  set_self, some,
}
use project_sensor.Prelude.Int.{pos, negsuc}
use project_sensor.Datum.{
  read, write, uint8, rdwr, no_range, reg_operate, hold_reg_0_6, SensorPara, char_operate,
  short_operate, long_operate, hold_reg_operate,
}
use project_sensor.Datum.Cell.{IsConfig, IsValid}

-- The least and the greatest value of a register, by its number.
unfoldable pub lowest : ℕ → ℕ
lowest reg = if reg == 0 then 1 else 0

unfoldable pub highest : ℕ → ℕ
highest reg =
    if reg == 0
    then 247
    else if reg == 1
    then 4
    else if reg == 2
    then 100
    else if ltb reg 7
    then 255
    else 65535

-- A value that the register takes.
unfoldable pub accepts : ℕ → ℕ → Bool
unfolding lowest highest
accepts reg value = leb (lowest reg) value && leb value (highest reg)

-- The entry of the range table.
pub range_at :
    (reg : ℕ)
    → reg < 7
    → get_or hold_reg_0_6 reg no_range
      ≡ record { m_min = lowest reg; m_max = highest reg; m_attr = rdwr }
unfolding hold_reg_0_6 lowest highest
range_at zero h = refl
range_at (suc zero) h = refl
range_at (suc (suc zero)) h = refl
range_at (suc (suc (suc zero))) h = refl
range_at (suc (suc (suc (suc zero)))) h = refl
range_at (suc (suc (suc (suc (suc zero))))) h = refl
range_at (suc (suc (suc (suc (suc (suc zero)))))) h = refl
range_at (suc (suc (suc (suc (suc (suc (suc reg))))))) h = absurd (omega arith)

pub byte_cell : (uc : List ℕ) (reg : ℕ) → IsConfig uc → reg < 7 → get_or uc reg 0 < 256
byte_cell uc zero v h = omega (arith, v.link_addr)
byte_cell uc (suc zero) v h = omega (arith, v.comm_baud)
byte_cell uc (suc (suc zero)) v h = omega (arith, v.gas_mixing)
byte_cell uc (suc (suc (suc zero))) v h = omega (arith, v.others)
byte_cell uc (suc (suc (suc (suc zero)))) v h = omega (arith, v.others)
byte_cell uc (suc (suc (suc (suc (suc zero))))) v h = omega (arith, v.others)
byte_cell uc (suc (suc (suc (suc (suc (suc zero)))))) v h = omega (arith, v.others)
byte_cell uc (suc (suc (suc (suc (suc (suc (suc reg))))))) v h = absurd (omega arith)

-- A byte is stored when its range allows it, and is otherwise left.
pub byte_write :
    (lo hi cell value : ℕ)
    → cell < 256
    → hi < 256
    → reg_operate uint8 write (some (record { m_min = lo; m_max = hi; m_attr = rdwr })) cell value
      ≡ (if leb lo value && leb value hi
          then record { rt = pos 0; cell = value; value = value }
          else record { rt = negsuc 0; cell = cell; value = value })
unfolding reg_operate
byte_write lo hi cell value small fits = ground arith

-- The half of a double word that a register shows: the odd register the high one.
unfoldable pub half : ℕ → ℕ → ℕ
half reg w = if reg % 2 == 1 then w / 2 ^ 16 else w % 2 ^ 16

-- What a register shows: a byte, a word, or the half of a double word.
unfoldable pub shown : SensorPara → ℕ → ℕ
unfolding half
shown p reg =
    if ltb reg 7
    then get_or p.uc reg 0
    else if ltb reg 31
    then get_or p.us (reg - 7) 0
    else if ltb reg 57
    then half reg (get_or p.ul ((reg - 31) / 2) 0)
    else 0

-- A double word with one half replaced.
unfoldable pub merged : ℕ → ℕ → ℕ → ℕ
merged reg cell value =
    if reg % 2 == 1 then cell % 2 ^ 16 + value * 2 ^ 16 else cell / 2 ^ 16 * 2 ^ 16 + value

-- The parameters with an accepted value stored.
unfoldable pub stored : SensorPara → ℕ → ℕ → SensorPara
unfolding merged
stored p reg value =
    if ltb reg 7
    then record p { uc = set p.uc reg value }
    else if ltb reg 31
    then record p { us = set p.us (reg - 7) value }
    else if ltb reg 57
    then record p {
      ul = set p.ul ((reg - 31) / 2) (merged reg (get_or p.ul ((reg - 31) / 2) 0) value);
    }
    else p

half-merged :
    (reg reg' cell value : ℕ)
    → value < 2 ^ 16
    → half reg' (merged reg cell value) ≡ (if reg % 2 == reg' % 2 then value else half reg' cell)
unfolding half merged
half-merged reg reg' cell value small = ground arith

-- Two registers of the last range are the same when they share the double word and the parity.
pub same_reg :
    (reg reg' : ℕ)
    → 31 ≤ reg
    → 31 ≤ reg'
    → (reg == reg') ≡ (((reg - 31) / 2 == (reg' - 31) / 2) && (reg % 2 == reg' % 2))
same_reg reg reg' h h' = ground arith

-- The half that a register shows after half `reg` of a double word was replaced.
pub half-set :
    (ul : List ℕ) (i i' reg reg' value : ℕ)
    → i < length ul
    → value < 2 ^ 16
    → half reg' (get_or (set ul i (merged reg (get_or ul i 0) value)) i' 0)
      ≡ (if (i == i') && (reg % 2 == reg' % 2) then value else half reg' (get_or ul i' 0))
half-set ul i i' reg reg' value inside small =
    let w = merged reg (get_or ul i 0) value in
    let same : i ≡ i' → get_or ul i 0 ≡ get_or ul i' 0 = λ e. ap (λ (k : ℕ). get_or ul k 0) e in
    rw (get_or-set ul i i' w 0 inside)
      (ground (arith, same, half-merged reg reg' (get_or ul i 0) value small))

pub shown_long :
    (p : SensorPara) (reg : ℕ)
    → (31 ≤ reg) × (reg < 57)
    → shown p reg ≡ half reg (get_or p.ul ((reg - 31) / 2) 0)
unfolding shown
shown_long p reg h = ground arith

-- A double word shows in the last range only.
pub shown_other :
    (p : SensorPara) (ul : List ℕ) (reg : ℕ)
    → (reg < 31) ⊎ (57 ≤ reg)
    → shown (record p { ul = ul }) reg ≡ shown p reg
unfolding shown
shown_other p ul reg h = ground arith

pub stored_long :
    (p : SensorPara) (reg value : ℕ)
    → (31 ≤ reg) × (reg < 57)
    → stored p reg value ≡ record p {
      ul = set p.ul ((reg - 31) / 2) (merged reg (get_or p.ul ((reg - 31) / 2) 0) value);
    }
unfolding stored
stored_long p reg value h = ground arith
