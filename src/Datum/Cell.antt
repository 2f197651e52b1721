-- ===== src/Datum/Cell.antt =====
-- The invariant of the parameters: array sizes, cell widths, and the ranges of the byte registers.
use project_sensor.Prelude.{
  ℕ, zero, suc, ◌≤◌, ◌<◌, ◌^◌, ◌≡◌, refl, List, [], ◌∷◌, arith, length, get_or, set,
}
use project_sensor.Datum.{SensorPara, ModelDatum, hold_reg_def_init}

-- Every element of a list satisfies `P`.
abbrev pub All {ℓ κ} : {A : Type ℓ} → (A → Type κ) → List A → Type κ
All P [] = Unit
All P (x ∷ xs) = P x × All P xs

pub All-set {ℓ κ} :
    {A : Type ℓ} (P : A → Type κ) (xs : List A) (i : ℕ) (v : A)
    → All P xs
    → P v
    → All P (set xs i v)
All-set P [] i v a h = tt
All-set P (x ∷ xs) zero v a h = (h, a.1)
All-set P (x ∷ xs) (suc i) v a h = (a.0, All-set P xs i v a.1 h)

pub All-get_or {ℓ κ} :
    {A : Type ℓ} (P : A → Type κ) (xs : List A) (i : ℕ) (d : A) → All P xs → P d → P (get_or xs i d)
All-get_or P [] i d a h = h
All-get_or P (x ∷ xs) zero d a h = a.0
All-get_or P (x ∷ xs) (suc i) d a h = All-get_or P xs i d a.1 h

-- The documented range of each of the seven byte registers.
pub record IsConfig (uc : List ℕ) : Type 0 where
  pub seven : length uc ≡ 7
  pub link_addr : (1 ≤ get_or uc 0 0) × (get_or uc 0 0 ≤ 247)
  pub comm_baud : get_or uc 1 0 ≤ 4
  pub gas_mixing : get_or uc 2 0 ≤ 100
  pub others :
      (get_or uc 3 0 ≤ 255) × (get_or uc 4 0 ≤ 255) × (get_or uc 5 0 ≤ 255) × (get_or uc 6 0 ≤ 255)

pub record IsValid (p : SensorPara) : Type 0 where
  pub config : IsConfig p.uc
  pub shorts : length p.us ≡ 24
  pub words : All (λ w. w < 2 ^ 16) p.us
  pub longs : length p.ul ≡ 13
  pub double_words : All (λ w. w < 2 ^ 32) p.ul

-- The factory settings are valid.
pub hold_reg_def_init-IsValid : (m : ModelDatum) → IsValid (hold_reg_def_init m).para
unfolding hold_reg_def_init
hold_reg_def_init-IsValid m = record {
  config = omega arith;
  shorts = refl;
  words = omega arith;
  longs = refl;
  double_words = omega arith;
}

-- The factory settings leave the check sum and the padding clear.
pub hold_reg_def_init-clear :
    (m : ModelDatum)
    → let p = (hold_reg_def_init m).para in (p.chksum ≡ 0) × (p.pad_1 ≡ 0) × (p.pad_2 ≡ 0)
unfolding hold_reg_def_init
hold_reg_def_init-clear m = (refl, refl, refl)

-- And do not depend on the parameters before them.
pub hold_reg_def_init-para :
    (m : ModelDatum) (p : SensorPara)
    → hold_reg_def_init (record m { para = p }) ≡ hold_reg_def_init m
unfolding hold_reg_def_init
hold_reg_def_init-para m p = refl
