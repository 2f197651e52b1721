-- ===== src/Datum.antt =====
-- The register map of app/datum.h and app/datum.cpp: the sensor's parameters (holding registers) and
-- its measurements (input registers), as the Modbus side reads and writes them.
pub mod Cell
pub mod Hold
pub mod Write
pub mod Input
mod Tests
use project_sensor.Prelude.{
  ℕ, ◌+◌, ◌-◌, ◌*◌, ◌/◌, ◌%◌, ◌^◌, Bool, true, false, ◌||◌, Option, none, some, List, [], ◌∷◌, ltb,
  ◌==◌, if◌then◌else◌, get_or, set, replicate,
}
use project_sensor.Prelude.Int.{ℤ, pos, negsuc}

-- `enum reg_type`.
pub data RegType : Type 0 where
  input hold magic : RegType

-- `enum reg_attr`.
pub data RegAttr : Type 0 where
  wronly rdonly rdwr : RegAttr

-- `enum reg_operate`.
pub data RegOperate : Type 0 where
  read write : RegOperate

-- `enum reg_access_type`.
pub data RegAccess : Type 0 where
  uint8 uint16 uint32 uint32_high_16 uint32_low_16 : RegAccess

-- `struct param_range<uint8>`.
pub record ParamRange : Type 0 where
  pub m_min : ℕ
  pub m_max : ℕ
  pub m_attr : RegAttr

-- `t_hold_reg_0_6`: link address, baud rate, gas mixing ratio, temperature, the three wash switches.
pub hold_reg_0_6 : List ParamRange
hold_reg_0_6 =
    record { m_min = 1; m_max = 247; m_attr = rdwr }
    ∷ record { m_min = 0; m_max = 4; m_attr = rdwr }
    ∷ record { m_min = 0; m_max = 100; m_attr = rdwr }
    ∷ record { m_min = 0; m_max = 255; m_attr = rdwr }
    ∷ record { m_min = 0; m_max = 255; m_attr = rdwr }
    ∷ record { m_min = 0; m_max = 255; m_attr = rdwr }
    ∷ record { m_min = 0; m_max = 255; m_attr = rdwr }
    ∷ []

-- `SENSOR_PARA`. The code reaches the members by pointer arithmetic from the first of each width, so
-- they stand here as the three arrays that it walks: the 7 bytes from `ucLinkAddr` on, the 24 words
-- from `usWashPowerSet` on (`usHeatPowerSet`, `usHumiZeroSet`, 4 `usPValue`, 4 `usPADC`, 13 `usRH`) and
-- the 13 double words of `ulHumiADC`. `pad_1` and `pad_2` are the bytes that align the last two.
pub record SensorPara : Type 0 where
  pub chksum : ℕ
  pub uc : List ℕ
  pub pad_1 : ℕ
  pub us : List ℕ
  pub pad_2 : ℕ
  pub ul : List ℕ

-- The part of `SENSOR_DATA` that registers show: 12 words from `usStatus` on, and the bit patterns of
-- the three floats from `fADCTemprature` on.
pub record SensorData : Type 0 where
  pub words : List ℕ
  pub floats : List ℕ

-- `_def_SPLIT_HOLD_R_INDEX_1` to `_3` and `_def_SPLIT_INPUT_R_INDEX_1`, `_2`.
abbrev pub split_hold_1 : ℕ
split_hold_1 = 7

abbrev pub split_hold_2 : ℕ
split_hold_2 = 31

abbrev pub split_hold_3 : ℕ
split_hold_3 = 57

abbrev pub split_input_1 : ℕ
split_input_1 = 12

abbrev pub split_input_2 : ℕ
split_input_2 = 18

abbrev pub is_attr : RegAttr → RegAttr → Bool
is_attr wronly wronly = true
is_attr rdonly rdonly = true
is_attr rdwr rdwr = true
is_attr _ _ = false

-- What a register operation leaves: its return code, the cell, and `value`.
pub record Operated : Type 0 where
  pub rt : ℤ
  pub cell : ℕ
  pub value : ℕ

-- The `enum_REG_UINT8` case of `reg_operate`: the low byte of the cell, checked against the range if
-- there is one.
pub byte_operate : RegOperate → Option ParamRange → ℕ → ℕ → Operated
byte_operate read none cell value = record { rt = pos 0; cell = cell; value = cell % 256 }
byte_operate read (some r) cell value =
    if is_attr r.m_attr wronly
    then record { rt = negsuc 0; cell = cell; value = value }
    else record { rt = pos 0; cell = cell; value = cell % 256 }
byte_operate write none cell value = record {
  rt = pos 0;
  cell = cell / 256 * 256 + value % 256;
  value = value;
}
byte_operate write (some r) cell value =
    if ltb value r.m_min || ltb r.m_max value || is_attr r.m_attr rdonly
    then record { rt = negsuc 0; cell = cell; value = value }
    else record { rt = pos 0; cell = cell / 256 * 256 + value % 256; value = value }

-- `reg_operate` on the cell at `preg_addr`, little endian; the other widths check no range.
pub reg_operate : RegAccess → RegOperate → Option ParamRange → ℕ → ℕ → Operated
unfolding byte_operate
reg_operate uint8 op range cell value = byte_operate op range cell value
reg_operate uint16 read range cell value = record { rt = pos 0; cell = cell; value = cell }
reg_operate uint16 write range cell value = record {
  rt = pos 0;
  cell = value % 2 ^ 16;
  value = value;
}
reg_operate uint32 read range cell value = record { rt = pos 0; cell = cell; value = cell }
reg_operate uint32 write range cell value = record {
  rt = pos 0;
  cell = value % 2 ^ 32;
  value = value;
}
reg_operate uint32_high_16 read range cell value = record {
  rt = pos 0;
  cell = cell;
  value = cell / 2 ^ 16;
}
reg_operate uint32_high_16 write range cell value = record {
  rt = pos 0;
  cell = cell % 2 ^ 16 + value % 2 ^ 16 * 2 ^ 16;
  value = value;
}
reg_operate uint32_low_16 read range cell value = record {
  rt = pos 0;
  cell = cell;
  value = cell % 2 ^ 16;
}
reg_operate uint32_low_16 write range cell value = record {
  rt = pos 0;
  cell = cell / 2 ^ 16 * 2 ^ 16 + value % 2 ^ 16;
  value = value;
}

-- What a register access leaves: its return code, the structure, and `value`.
pub record Accessed {ℓ} (A : Type ℓ) : Type ℓ where
  pub rt : ℤ
  pub regs : A
  pub value : ℕ

abbrev pub no_range : ParamRange
no_range = record { m_min = 0; m_max = 255; m_attr = rdwr }

-- `hold_reg_operate` below the first split: a byte, with its range.
pub char_operate : RegOperate → SensorPara → ℕ → ℕ → Accessed SensorPara
unfolding reg_operate hold_reg_0_6
char_operate op p reg value =
    let range = get_or hold_reg_0_6 reg no_range in
    let r = reg_operate uint8 op (some range) (get_or p.uc reg 0) value in
    record { rt = r.rt; regs = record p { uc = set p.uc reg r.cell }; value = r.value }

-- Between the first split and the second: a word.
pub short_operate : RegOperate → SensorPara → ℕ → ℕ → Accessed SensorPara
unfolding reg_operate
short_operate op p reg value =
    let i = reg - split_hold_1 in
    let r = reg_operate uint16 op none (get_or p.us i 0) value in
    record { rt = r.rt; regs = record p { us = set p.us i r.cell }; value = r.value }

-- Between the second split and the third: half a double word, the odd register the high half.
pub long_operate : RegOperate → SensorPara → ℕ → ℕ → Accessed SensorPara
unfolding reg_operate
long_operate op p reg value =
    let i = (reg - split_hold_2) / 2 in
    let half = if reg % 2 == 1 then uint32_high_16 else uint32_low_16 in
    let r = reg_operate half op none (get_or p.ul i 0) value in
    record { rt = r.rt; regs = record p { ul = set p.ul i r.cell }; value = r.value }

-- `hold_reg_operate`. A register past the last split reads 0, and a write to it does nothing.
pub hold_reg_operate : RegOperate → SensorPara → ℕ → ℕ → Accessed SensorPara
unfolding char_operate short_operate long_operate
hold_reg_operate op p reg value =
    if ltb reg split_hold_2
    then (if ltb reg split_hold_1
        then char_operate op p reg value
        else short_operate op p reg value)
    else if ltb reg split_hold_3
    then long_operate op p reg value
    else record { rt = pos 0; regs = p; value = elim op [ read ↦ 0 | write ↦ value ] }

-- `input_reg_operate` below the first split: a word, accessed as `enum_REG_UINT8`.
pub word_operate : RegOperate → SensorData → ℕ → ℕ → Accessed SensorData
unfolding reg_operate
word_operate op d reg value =
    let r = reg_operate uint8 op none (get_or d.words reg 0) value in
    record { rt = r.rt; regs = record d { words = set d.words reg r.cell }; value = r.value }

-- Between the splits: half the bit pattern of a float, the even register the high half.
pub float_operate : RegOperate → SensorData → ℕ → ℕ → Accessed SensorData
unfolding reg_operate
float_operate op d reg value =
    let i = (reg - split_input_1) / 2 in
    let half = if reg % 2 == 0 then uint32_high_16 else uint32_low_16 in
    let r = reg_operate half op none (get_or d.floats i 0) value in
    record { rt = r.rt; regs = record d { floats = set d.floats i r.cell }; value = r.value }

-- `input_reg_operate`.
pub input_reg_operate : RegOperate → SensorData → ℕ → ℕ → Accessed SensorData
unfolding word_operate float_operate
input_reg_operate op d reg value =
    if ltb reg split_input_1
    then word_operate op d reg value
    else if ltb reg split_input_2
    then float_operate op d reg value
    else record { rt = pos 0; regs = d; value = elim op [ read ↦ 0 | write ↦ value ] }

-- The class `model_datum`, less its name.
pub record ModelDatum : Type 0 where
  pub para : SensorPara
  pub sensor : SensorData

-- `hold_reg_get` and `input_reg_get`; `junk` is the uninitialised local that the read fills in.
pub hold_reg_get : ModelDatum → ℕ → ℕ → ℕ
unfolding hold_reg_operate
hold_reg_get m junk reg = (hold_reg_operate read m.para reg junk).value

pub input_reg_get : ModelDatum → ℕ → ℕ → ℕ
unfolding input_reg_operate
input_reg_get m junk reg = (input_reg_operate read m.sensor reg junk).value

pub hold_reg_set : ModelDatum → ℕ → ℕ → ℤ × ModelDatum
unfolding hold_reg_operate
hold_reg_set m reg value =
    let r = hold_reg_operate write m.para reg value in (r.rt, record m { para = r.regs })

pub input_reg_set : ModelDatum → ℕ → ℕ → ℤ × ModelDatum
unfolding input_reg_operate
input_reg_set m reg value =
    let r = input_reg_operate write m.sensor reg value in (r.rt, record m { sensor = r.regs })

-- `modbus_reg_get`.
pub modbus_reg_get : ModelDatum → ℕ → RegType → ℕ → ℕ
modbus_reg_get m junk input reg = input_reg_get m junk reg
modbus_reg_get m junk hold reg = hold_reg_get m junk reg
modbus_reg_get m junk magic reg = 2 ^ 32 - 1

-- `modbus_reg_set`; for the type that it does not handle, `rt` is the uninitialised local.
pub modbus_reg_set : ModelDatum → ℤ → RegType → ℕ → ℕ → ℤ × ModelDatum
modbus_reg_set m junk input reg value = input_reg_set m reg value
modbus_reg_set m junk hold reg value = hold_reg_set m reg value
modbus_reg_set m junk magic reg value = (junk, m)

-- `modbus_hold_reg_def_init`: everything cleared, then address 1, 9600 baud and the four pressure
-- calibration points.
pub hold_reg_def_init : ModelDatum → ModelDatum
hold_reg_def_init m = record m {
  para = record {
    chksum = 0;
    uc = 1 ∷ 2 ∷ replicate 5 0;
    pad_1 = 0;
    us = 0 ∷ 0 ∷ 0 ∷ 1000 ∷ 3500 ∷ 6000 ∷ 8500 ∷ 1120 ∷ 14140 ∷ 27000 ∷ 39770 ∷ replicate 13 0;
    pad_2 = 0;
    ul = replicate 13 0;
  };
}
