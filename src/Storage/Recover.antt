-- ===== src/Storage/Recover.antt =====
-- What `datum_load` does with a good image, with a spoilt one, and with what `datum_save` left.
use project_sensor.Prelude.{
  arith, ℕ, ◌≡◌, ◌≢◌, ◌⊎◌, refl, sym, ap, ◌∙◌, inl, inr, List, [], ◌∷◌, ◌++◌,
}
use mathlib.Core.Path.{subst}
use project_sensor.Prelude.Int.{ℤ, pos, negsuc}
use project_sensor.Crc.{crc16}
use project_sensor.Crc.Bitwise.{IsByteList}
use project_sensor.Crc.Burst.{crc16_burst}
use project_sensor.Datum.{SensorPara, ModelDatum, hold_reg_def_init}
use project_sensor.Datum.Cell.{hold_reg_def_init-para}
use project_sensor.Modbus.{Modbus}
use project_sensor.Storage.{
  para_bytes, image, retry_load, storage_addr, storage_param_chksum, Device, datum_load, datum_save,
  recover, no_recover, is_short, is_success,
}
use project_sensor.Storage.Layout.{IsStored, para_bytes-IsByteList, length-image}
use project_sensor.Storage.Load.{
  IsReliable, storage_param_chksum-IsStored, default-IsStored, load_once-good, load_once-bad,
}

-- Sealing leaves the check sum that verification computes.
pub seal-right :
    (m : ModelDatum)
    → (storage_param_chksum m).para.chksum ≡ crc16 (para_bytes (storage_param_chksum m).para)
unfolding storage_param_chksum para_bytes
seal-right m = refl

split-IsByteList : (xs ys : List ℕ) → IsByteList (xs ++ ys) → IsByteList xs × IsByteList ys
split-IsByteList [] ys h = (tt, h)
split-IsByteList (x ∷ xs) ys h = let r = split-IsByteList xs ys h.1 in ((h.0, r.0), r.1)

module _ {ℓ} {D : Type ℓ} (storage : Device D) (reliable : IsReliable storage) where
  -- The sealed parameters, read back from a device that was just given their image.
  read_back :
      (m m' : ModelDatum) (dev : D)
      → IsStored m.para
      → IsStored m'.para
      → let d = storage_param_chksum m in
        storage.read
          ((storage.write dev storage_addr (image d.para)).1)
          storage_addr
          (image m'.para)
        ≡ (pos 112, image d.para)
  read_back m m' dev s s' =
      let d = storage_param_chksum m in
      let size = length-image d.para (storage_param_chksum-IsStored m s) in
      let size' = length-image m'.para s' in
      reliable.kept dev storage_addr (image d.para) (image m'.para) (size' ∙ sym size)
        (omega (arith, size)) (omega (arith, size))
      ∙ ap (λ (n : ℕ). (pos n, image d.para)) size

  -- When the device holds the image of parameters whose check sum is right, `datum_load` returns 0
  -- with those parameters and leaves the device alone.
  pub datum_load-good :
      (m : ModelDatum) (dev : D) (q : SensorPara)
      → IsStored q
      → storage.read dev storage_addr (image m.para) ≡ (pos 112, image q)
      → q.chksum ≡ crc16 (para_bytes q)
      → datum_load storage m dev ≡ (pos 0, (record m { para = q }, dev))
  unfolding datum_load retry_load
  datum_load-good m dev q s e c = rw (load_once-good storage reliable recover m dev q s e c)

  -- When the check sum of the image on the device is wrong, whatever its bytes, a blank device
  -- included, `datum_load` ends with the factory settings, sealed, in the parameters and on the device,
  -- and returns -1 although the second reading is good.
  pub datum_load-bad :
      (m : ModelDatum) (dev : D) (q : SensorPara)
      → IsStored q
      → storage.read dev storage_addr (image m.para) ≡ (pos 112, image q)
      → q.chksum ≢ crc16 (para_bytes q)
      → let d = storage_param_chksum (hold_reg_def_init m) in
        datum_load storage m dev
        ≡ (negsuc 0, (d, (storage.write dev storage_addr (image d.para)).1))
  unfolding datum_load retry_load is_success
  datum_load-bad m dev q s e c =
      let f = hold_reg_def_init m in
      let d = storage_param_chksum f in
      let dev' = (storage.write dev storage_addr (image d.para)).1 in
      let stored : IsStored d.para = storage_param_chksum-IsStored f (default-IsStored m) in
      let again = read_back f d dev (default-IsStored m) stored in
      rw (load_once-bad storage reliable m dev q s e c, hold_reg_def_init-para m q)
        (rw (load_once-good storage reliable no_recover d dev' d.para stored again (seal-right f)))

  -- A good write of `datum_save` survives: on the device that it leaves, `datum_load` returns 0 with
  -- the saved parameters, whatever parameters stand in memory, and `datum_save` returned 0.
  pub datum_save-load :
      (reg reg_no : ℕ) (modbus : Modbus) (m m' : ModelDatum) (dev : D)
      → IsStored m.para
      → IsStored m'.para
      → let saved = datum_save storage reg reg_no modbus m dev in
        (saved.rt ≡ pos 0)
        × (datum_load storage m' saved.dev
            ≡ (pos 0, (record m' { para = (storage_param_chksum m).para }, saved.dev)))
  unfolding datum_save is_short
  datum_save-load reg reg_no modbus m m' dev s s' =
      let d = storage_param_chksum m in
      let stored : IsStored d.para = storage_param_chksum-IsStored m s in
      let size = length-image d.para stored in
      let dev' = (storage.write dev storage_addr (image d.para)).1 in
      rw
        (
          reliable.whole dev storage_addr (image d.para) (omega (arith, size))
              (omega (arith, size)),
          size,
        )
        (refl, datum_load-good m' dev' d.para stored (read_back m m' dev s s') (seal-right m))

  -- An image of which two neighbouring bytes behind the check sum have changed since it was saved is
  -- found out, whether the registers they stand in leave their ranges or not: `datum_load` puts the
  -- factory settings in the place of the parameters.
  pub datum_load-spoilt :
      (m : ModelDatum) (dev : D) (p q : SensorPara) (xs ys : List ℕ) (a b a' b' : ℕ)
      → IsStored p × IsStored q
      → p.chksum ≡ crc16 (para_bytes p)
      → storage.read dev storage_addr (image m.para) ≡ (pos 112, image q)
      → q.chksum ≡ p.chksum
      → (para_bytes p ≡ xs ++ (a ∷ b ∷ ys)) × (para_bytes q ≡ xs ++ (a' ∷ b' ∷ ys))
      → (a ≢ a') ⊎ (b ≢ b')
      → (datum_load storage m dev).1.0 ≡ storage_param_chksum (hold_reg_def_init m)
  datum_load-spoilt m dev p q xs ys a b a' b' s right e same at differ =
      let bytes = subst IsByteList (at.0) (para_bytes-IsByteList p (s.0)) in
      let bytes' = subst IsByteList (at.1) (para_bytes-IsByteList q (s.1)) in
      let (hx, h) = split-IsByteList xs (a ∷ b ∷ ys) bytes in
      let (hx', h') = split-IsByteList xs (a' ∷ b' ∷ ys) bytes' in
      let wrong : q.chksum ≢ crc16 (para_bytes q) = λ good.
        let (ea, eb) =
          crc16_burst xs ys a b a' b' hx h.1.1 (h.0, h.1.0) (h'.0, h'.1.0)
            (ap crc16 (sym (at.0)) ∙ sym right ∙ sym same ∙ good ∙ ap crc16 (at.1)) in
        elim differ [ inl d ↦ d ea | inr d ↦ d eb ] in
      ap (λ (r : ℤ × (ModelDatum × D)). r.1.0) (datum_load-bad m dev q (s.1) e wrong)
