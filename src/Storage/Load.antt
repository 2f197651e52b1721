-- ===== src/Storage/Load.antt =====
-- Saving and loading the parameters on a storage device that keeps what it is given.
use project_sensor.Prelude.{
  ◌<◌, ◌≤◌, ◌+◌, arith, ℕ, ◌≡◌, ◌≢◌, true, false, List, ◌==◌, ==_iff, length,
}
use project_sensor.Prelude.Int.{pos, negsuc}
use project_sensor.Crc.{crc16}
use project_sensor.Crc.Bitwise.{crc16-lt}
use project_sensor.Datum.{SensorPara, ModelDatum, hold_reg_def_init}
use project_sensor.Datum.Cell.{hold_reg_def_init-IsValid, hold_reg_def_init-clear}
use project_sensor.Storage.{
  para_bytes, image, storage_addr, storage_param_chksum, storage_param_verify, Device, repair,
  settle, load_once, LoadCtrl, recover, success, retry, is_short,
}
use project_sensor.Storage.Layout.{
  IsStored, IsValid-IsStored, para_bytes-IsByteList, length-image, from_image-image,
}

-- The bytes of the device.
abbrev pub device_size : ℕ
device_size = 2048

-- What the documentation of the device promises, within its size: a write of some bytes reports their
-- number, and a read of as many bytes at the same address then gives them.
pub record IsReliable {ℓ} {D : Type ℓ} (storage : Device D) : Type ℓ where
  pub whole :
      (dev : D) (addr : ℕ) (bs : List ℕ)
      → 0 < length bs
      → addr + length bs ≤ device_size
      → (storage.write dev addr bs).0 ≡ pos (length bs)
  pub kept :
      (dev : D) (addr : ℕ) (bs old : List ℕ)
      → length old ≡ length bs
      → 0 < length bs
      → addr + length bs ≤ device_size
      → storage.read ((storage.write dev addr bs).1) addr old ≡ (pos (length bs), bs)

-- Sealed parameters are stored parameters.
pub storage_param_chksum-IsStored :
    (m : ModelDatum) → IsStored m.para → IsStored ((storage_param_chksum m).para)
unfolding storage_param_chksum
storage_param_chksum-IsStored m s = record {
  sum = crc16-lt (para_bytes m.para) (para_bytes-IsByteList m.para s);
  seven = s.seven;
  bytes = s.bytes;
  gap_1 = s.gap_1;
  shorts = s.shorts;
  words = s.words;
  gap_2 = s.gap_2;
  longs = s.longs;
  double_words = s.double_words;
}

pub default-IsStored : (m : ModelDatum) → IsStored ((hold_reg_def_init m).para)
default-IsStored m =
    let clear = hold_reg_def_init-clear m in
    IsValid-IsStored (hold_reg_def_init m).para (hold_reg_def_init-IsValid m)
      (omega (arith, clear.0)) (omega (arith, clear.1)) (omega (arith, clear.2))

verify-good :
    (m : ModelDatum)
    → m.para.chksum ≡ crc16 (para_bytes m.para)
    → storage_param_verify m ≡ (pos 0, m)
unfolding storage_param_verify
verify-good m c =
    let same : (m.para.chksum == crc16 (para_bytes m.para)) ≡ true = (==_iff _ _).1 c in rw same

verify-bad :
    (m : ModelDatum)
    → m.para.chksum ≢ crc16 (para_bytes m.para)
    → storage_param_verify m ≡ (negsuc 0, hold_reg_def_init m)
unfolding storage_param_verify
verify-bad m c =
    let differ : (m.para.chksum == crc16 (para_bytes m.para)) ≡ false = ground arith in rw differ

module _ {ℓ} {D : Type ℓ} (storage : Device D) (reliable : IsReliable storage) where
  -- One load of an image whose check sum is right.
  pub load_once-good :
      (ctrl : LoadCtrl) (m : ModelDatum) (dev : D) (q : SensorPara)
      → IsStored q
      → storage.read dev storage_addr (image m.para) ≡ (pos 112, image q)
      → q.chksum ≡ crc16 (para_bytes q)
      → load_once storage ctrl m dev
        ≡ record { stat = success; model = record m { para = q }; dev = dev }
  unfolding load_once settle repair is_short
  load_once-good ctrl m dev q s e c =
      rw (e, from_image-image q s) (rw (verify-good (record m { para = q }) c))

  repair-defaults :
      (m : ModelDatum) (dev : D)
      → IsStored m.para
      → let d = storage_param_chksum m in
        repair storage recover (negsuc 0) m dev ≡ record {
          stat = retry;
          model = d;
          dev = (storage.write dev storage_addr (image d.para)).1;
        }
  unfolding repair is_short
  repair-defaults m dev s =
      let d = storage_param_chksum m in
      let size = length-image d.para (storage_param_chksum-IsStored m s) in
      rw (
        reliable.whole dev storage_addr (image d.para) (omega (arith, size)) (omega (arith, size)),
        size,
      )

  -- One load of an image whose check sum is wrong, with the order to repair it.
  pub load_once-bad :
      (m : ModelDatum) (dev : D) (q : SensorPara)
      → IsStored q
      → storage.read dev storage_addr (image m.para) ≡ (pos 112, image q)
      → q.chksum ≢ crc16 (para_bytes q)
      → let d = storage_param_chksum (hold_reg_def_init (record m { para = q })) in
        load_once storage recover m dev ≡ record {
          stat = retry;
          model = d;
          dev = (storage.write dev storage_addr (image d.para)).1;
        }
  unfolding load_once settle is_short
  load_once-bad m dev q s e c =
      rw (e, from_image-image q s)
        (rw (verify-bad (record m { para = q }) c)
          (repair-defaults (hold_reg_def_init (record m { para = q })) dev (default-IsStored _)))
