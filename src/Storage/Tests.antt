-- ===== src/Storage/Tests.antt =====
-- Saving and loading on a device of one page.
use project_sensor.Prelude.{
  ℕ, ◌≡◌, ◌≢◌, refl, ap, inl, List, [], ◌∷◌, ◌++◌, arith, length, replicate,
}
use project_sensor.Prelude.Int.{pos, negsuc}
use project_sensor.Crc.{crc16}
use project_sensor.Crc.Burst.{crc16_burst}
use project_sensor.Crc.Bitwise.{IsByteList}
use project_sensor.Datum.{SensorPara, ModelDatum, hold_reg_def_init}
use project_sensor.Modbus.{Modbus}
use project_sensor.Storage.{
  Device, words_out, longs_out, para_bytes, image, storage_addr, storage_param_chksum, datum_load,
  datum_save,
}
use project_sensor.Storage.Layout.{length-image, IsStored}
use project_sensor.Storage.Load.{IsReliable, storage_param_chksum-IsStored}
use project_sensor.Storage.Recover.{seal-right, datum_load-bad, datum_save-load, datum_load-spoilt}

-- The device keeps the bytes of the last write.
abbrev page : Device (List ℕ)
page = record {
  read = λ dev addr old. (pos (length dev), dev);
  write = λ dev addr bs. (pos (length bs), bs);
}

page-IsReliable : IsReliable page
page-IsReliable = record { whole = λ dev addr bs h f. refl; kept = λ dev addr bs old e h f. refl }

abbrev blank : ModelDatum
blank = record {
  para = record {
    chksum = 0;
    uc = replicate 7 0;
    pad_1 = 0;
    us = replicate 24 0;
    pad_2 = 0;
    ul = replicate 13 0;
  };
  sensor = record { words = replicate 12 0; floats = replicate 3 0 };
}

abbrev sample : SensorPara
sample = record {
  chksum = 0;
  uc = 17 ∷ 2 ∷ replicate 5 0;
  pad_1 = 0;
  us = replicate 24 1000;
  pad_2 = 0;
  ul = replicate 13 70000;
}

abbrev given : ModelDatum
given = record blank { para = sample }

abbrev sealed : ModelDatum
sealed = storage_param_chksum given

given-IsStored : IsStored given.para
given-IsStored = record {
  sum = omega arith;
  seven = refl;
  bytes = omega arith;
  gap_1 = omega arith;
  shorts = refl;
  words = omega arith;
  gap_2 = omega arith;
  longs = refl;
  double_words = omega arith;
}

sealed-IsStored : IsStored sealed.para
sealed-IsStored = storage_param_chksum-IsStored given given-IsStored

abbrev line : Modbus
line = record { slave = 1; input_reg_max_no = 18; hold_reg_max_no = 57 }

datum_save-load_example :
    let saved = datum_save page 0 1 line given [] in
    (saved.rt ≡ pos 0)
    × (datum_load page given saved.dev ≡ (pos 0, (record given { para = sealed.para }, saved.dev)))
datum_save-load_example =
    datum_save-load page page-IsReliable 0 1 line given given [] given-IsStored given-IsStored

-- The image was written, and its first two bytes have changed to values that their registers refuse.
abbrev changed : SensorPara
changed = record sealed.para { uc = 255 ∷ 255 ∷ replicate 5 0 }

abbrev back : List ℕ
back =
    replicate 6 0
    ++ words_out (replicate 24 1000)
    ++ (words_out (0 ∷ []) ++ longs_out (replicate 13 70000))

changed-IsStored : IsStored changed
unfolding storage_param_chksum
changed-IsStored = record {
  sum = sealed-IsStored.sum;
  seven = refl;
  bytes = omega arith;
  gap_1 = omega arith;
  shorts = refl;
  words = given-IsStored.words;
  gap_2 = omega arith;
  longs = refl;
  double_words = given-IsStored.double_words;
}

pairs :
    (para_bytes sealed.para ≡ [] ++ (17 ∷ 2 ∷ back))
    × (para_bytes changed ≡ [] ++ (255 ∷ 255 ∷ back))
unfolding storage_param_chksum para_bytes words_out longs_out
pairs = (refl, refl)

back-IsByteList : IsByteList back
unfolding words_out longs_out
back-IsByteList = omega arith

changes : (n : ℕ) → n ≡ 255 → 17 ≢ n
changes n e = λ z. absurd (omega arith)

stored_image :
    (p : SensorPara)
    → IsStored p
    → page.read (image p) storage_addr (image given.para) ≡ (pos 112, image p)
stored_image p s = ap (λ (n : ℕ). (pos n, image p)) (length-image p s)

datum_load-spoilt_example :
    (datum_load page given (image changed)).1.0 ≡ storage_param_chksum (hold_reg_def_init given)
datum_load-spoilt_example =
    datum_load-spoilt page page-IsReliable given (image changed) sealed.para changed [] back 17 2
      255 255 (sealed-IsStored, changed-IsStored) (seal-right given)
      (stored_image changed changed-IsStored) (unfold storage_param_chksum in refl) pairs
      (inl (changes 255 refl))

changed_sum : changed.chksum ≢ crc16 (para_bytes changed)
unfolding storage_param_chksum para_bytes
changed_sum e =
    changes 255 refl
      ((crc16_burst [] back 17 2 255 255 tt back-IsByteList (omega arith) (omega arith) e).0)

datum_load-bad_example :
    let d = storage_param_chksum (hold_reg_def_init given) in
    datum_load page given (image changed)
    ≡ (negsuc 0, (d, (page.write (image changed) storage_addr (image d.para)).1))
datum_load-bad_example =
    datum_load-bad page page-IsReliable given (image changed) changed changed-IsStored
      (stored_image changed changed-IsStored) changed_sum
