-- ===== src/Datum/Tests.antt =====
-- Registers of the factory settings.
use project_sensor.Prelude.{◌≡◌, refl, ◌&&◌, [], ◌∷◌, arith, ltb, ◌==◌, if◌then◌else◌, replicate}
use project_sensor.Prelude.Int.{pos, negsuc}
use project_sensor.Datum.{
  SensorPara, SensorData, ModelDatum, hold_reg_def_init, hold_reg_get, hold_reg_set,
}
use project_sensor.Datum.Cell.{IsValid, hold_reg_def_init-IsValid}
use project_sensor.Datum.Hold.{accepts, lowest, highest}
use project_sensor.Datum.Write.{hold_reg_set-get}

abbrev cleared : SensorPara
cleared = record {
  chksum = 0;
  uc = replicate 7 0;
  pad_1 = 0;
  us = replicate 24 0;
  pad_2 = 0;
  ul = replicate 13 0;
}

abbrev measured : SensorData
measured = record { words = replicate 12 300; floats = 0x41200000 ∷ 0x3f800000 ∷ 0 ∷ [] }

abbrev raw : ModelDatum
raw = record { para = cleared; sensor = measured }

abbrev factory : ModelDatum
factory = hold_reg_def_init raw

factory-IsValid : IsValid factory.para
factory-IsValid = hold_reg_def_init-IsValid raw

-- The default link address, and a calibration point.
hold_reg_get_test : (hold_reg_get factory 9 0 ≡ 1) × (hold_reg_get factory 9 10 ≡ 1000)
unfolding hold_reg_get hold_reg_def_init
hold_reg_get_test = (refl, refl)

-- The link address 248 is out of range.
hold_reg_set_test : (hold_reg_set factory 0 248).0 ≡ negsuc 0
unfolding hold_reg_set hold_reg_def_init
hold_reg_set_test = refl

hold_reg_set-get_example :
    ((hold_reg_set factory 0 17).0 ≡ pos 0)
    × (hold_reg_get ((hold_reg_set factory 0 17).1) 5 0
        ≡ (if (0 == 0) && ltb 0 57 then 17 else hold_reg_get factory 5 0))
unfolding accepts lowest highest
hold_reg_set-get_example = hold_reg_set-get factory 0 17 0 5 factory-IsValid (omega arith) refl
