-- ===== src/Storage.antt =====
-- The parameters in the storage device: the image of `SENSOR_PARA` in memory, its check sum of
-- app/datum.cpp, and `_datum_load`, `datum_load` and `datum_save` of app/main.cpp.
pub mod Layout
pub mod Recover
pub mod Load
pub mod Handler
mod Tests
use project_sensor.Prelude.{
  ℕ, zero, suc, ◌+◌, ◌-◌, ◌*◌, ◌/◌, ◌%◌, ◌^◌, ◌≡◌, Bool, true, false, ◌||◌, ◌&&◌, not, Option, none,
  some, List, [], ◌∷◌, ◌++◌, ltb, leb, ◌==◌, if◌then◌else◌, length, get_or, take, drop,
}
use project_sensor.Prelude.Int.{ℤ, pos, negsuc}
use project_sensor.Crc.{crc16}
use project_sensor.Modbus.{Modbus, slave_set}
use project_sensor.Datum.{SensorPara, SensorData, ModelDatum, hold_reg_def_init}

-- Little-endian words and double words.
pub words_out : List ℕ → List ℕ
words_out [] = []
words_out (w ∷ ws) = w % 2 ^ 8 ∷ w / 2 ^ 8 % 2 ^ 8 ∷ words_out ws

pub longs_out : List ℕ → List ℕ
longs_out [] = []
longs_out (w ∷ ws) =
    w % 2 ^ 8 ∷ w / 2 ^ 8 % 2 ^ 8 ∷ w / 2 ^ 16 % 2 ^ 8 ∷ w / 2 ^ 24 % 2 ^ 8 ∷ longs_out ws

pub words_in : List ℕ → List ℕ
words_in (a ∷ b ∷ bs) = (a + b * 2 ^ 8) ∷ words_in bs
words_in _ = []

pub longs_in : List ℕ → List ℕ
longs_in (a ∷ b ∷ c ∷ d ∷ bs) = (a + b * 2 ^ 8 + c * 2 ^ 16 + d * 2 ^ 24) ∷ longs_in bs
longs_in _ = []

-- The bytes of the structure from `ucLinkAddr` on: 7 bytes, one of padding, 24 words, two bytes of
-- padding, 13 double words, as the ARM ABI lays them out; 110 bytes.
pub para_bytes : SensorPara → List ℕ
para_bytes p = p.uc ++ (p.pad_1 ∷ words_out p.us ++ (words_out (p.pad_2 ∷ []) ++ longs_out p.ul))

-- The whole structure, the check sum first.
pub image : SensorPara → List ℕ
image p = words_out (p.chksum ∷ []) ++ para_bytes p

-- The structure that lies in given bytes.
pub from_image : List ℕ → SensorPara
from_image bs =
    let r = drop 7 (drop 2 bs) in
    let r' = drop 48 (drop 1 r) in
    record {
      chksum = get_or bs 0 0 + get_or bs 1 0 * 2 ^ 8;
      uc = take 7 (drop 2 bs);
      pad_1 = get_or r 0 0;
      us = words_in (take 48 (drop 1 r));
      pad_2 = get_or r' 0 0 + get_or r' 1 0 * 2 ^ 8;
      ul = longs_in (drop 2 r');
    }

-- `sizeof(m_stuSensorPara)`, and `ROUND_UP(strlen("magic setup string"), 16)`.
abbrev pub para_size : ℕ
para_size = 112

abbrev pub storage_addr : ℕ
storage_addr = 32

-- `storage_param_chksum`.
pub storage_param_chksum : ModelDatum → ModelDatum
storage_param_chksum m = record m { para = record m.para { chksum = crc16 (para_bytes m.para) } }

-- `storage_param_verify`.
pub storage_param_verify : ModelDatum → ℤ × ModelDatum
storage_param_verify m =
    if m.para.chksum == crc16 (para_bytes m.para)
    then (pos 0, m)
    else (negsuc 0, hold_reg_def_init m)

-- What the application uses of `device_storage`: a read into the bytes that stand at the destination,
-- and a write, each with the size that it returns.
pub record Device {ℓ} (D : Type ℓ) : Type ℓ where
  pub read : D → ℕ → List ℕ → ℤ × List ℕ
  pub write : D → ℕ → List ℕ → ℤ × D

-- `enum datum_load_ctrl` and `enum datum_load_stat`.
pub data LoadCtrl : Type 0 where
  no_recover recover : LoadCtrl

pub data LoadStat : Type 0 where
  success failed retry : LoadStat

-- `(ssize <= 0) || (ssize != m_len)`.
pub is_short : ℤ → Bool
is_short (pos n) = n == 0 || not (n == para_size)
is_short (negsuc n) = true

pub is_success : LoadStat → Bool
is_success success = true
is_success _ = false

pub record Loaded {ℓ} (D : Type ℓ) : Type ℓ where
  pub stat : LoadStat
  pub model : ModelDatum
  pub dev : D

-- `IN_RANGES`.
abbrev pub in_ranges : ℕ → ℕ → ℕ → Bool
in_ranges x start end = leb start x && leb x end

-- What `datum_save` leaves: `baud` is the argument of its `COMMU_IOC_BAUD` call, if it makes one.
pub record Saved {ℓ} (D : Type ℓ) : Type ℓ where
  pub rt : ℤ
  pub model : ModelDatum
  pub dev : D
  pub modbus : Modbus
  pub baud : Option ℕ

module _ {ℓ} {D : Type ℓ} (storage : Device D) where
  -- `_datum_load` from the outcome `wrong` of the verification on.
  pub repair : LoadCtrl → ℤ → ModelDatum → D → Loaded D
  repair ctrl (pos n) m dev = record { stat = success; model = m; dev = dev }
  repair no_recover (negsuc n) m dev = record {
    stat = failed;
    model = storage_param_chksum m;
    dev = dev;
  }
  repair recover (negsuc n) m dev =
      let sealed = storage_param_chksum m in
      let (written, dev') = storage.write dev storage_addr (image sealed.para) in
      record { stat = if is_short written then failed else retry; model = sealed; dev = dev' }

  -- And from the size `ssize` that was read into the parameters on.
  pub settle : LoadCtrl → ℤ → ModelDatum → D → Loaded D
  settle ctrl ssize m dev =
      let (wrong, verified) = storage_param_verify m in
      if is_short ssize
      then record { stat = failed; model = m; dev = dev }
      else repair ctrl wrong verified dev

  -- `_datum_load`.
  pub load_once : LoadCtrl → ModelDatum → D → Loaded D
  load_once ctrl m dev =
      let (ssize, bytes) = storage.read dev storage_addr (image m.para) in
      settle ctrl ssize (record m { para = from_image bytes }) dev

  -- `datum_load` from the outcome of its first call of `_datum_load` on.
  pub retry_load : Loaded D → ℤ × (ModelDatum × D)
  retry_load r =
      let again = load_once no_recover r.model r.dev in
      elim r.stat [
        | success ↦ (pos 0, (r.model, r.dev))
        | retry ↦
            if not (is_success again.stat)
            then (negsuc 0, (again.model, again.dev))
            else (negsuc 0, (again.model, again.dev))
        | failed ↦ (negsuc 0, (r.model, r.dev))
      ]

  -- `datum_load`: the return code, the model and the device.
  pub datum_load : ModelDatum → D → ℤ × (ModelDatum × D)
  datum_load m dev = retry_load (load_once recover m dev)

  -- `datum_save` of an event with the parameters `reg` and `reg_no`.
  pub datum_save : ℕ → ℕ → Modbus → ModelDatum → D → Saved D
  datum_save reg reg_no modbus m dev =
      let sealed = storage_param_chksum m in
      let (ssize, dev') = storage.write dev storage_addr (image sealed.para) in
      let same : Saved D = record {
        rt = negsuc 0;
        model = sealed;
        dev = dev';
        modbus = modbus;
        baud = none;
      } in
      let address =
        if in_ranges 0 reg (reg + reg_no)
        then (slave_set modbus (get_or sealed.para.uc 0 0)).1
        else modbus in
      let speed =
        if in_ranges 1 reg (reg + reg_no) then some (get_or sealed.para.uc 1 0) else none in
      if is_short ssize then same else record same { rt = pos 0; modbus = address; baud = speed }
