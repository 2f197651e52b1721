-- ===== src/Measure/Filter.antt =====
-- The filters between the converter and the formulas, app/ad.cpp: a mean over the last samples, and a
-- low pass that follows fast changes.
pub mod History
use project_sensor.Prelude.{
  ℕ, zero, suc, ◌+◌, ◌≤◌, min, Bool, true, false, ◌&&◌, List, if◌then◌else◌, get_or, set, replicate,
  leb,
}
use project_sensor.Prelude.Int.{ℤ, pos, negsuc}
use project_sensor.Measure.{Float}

abbrev pub record_len : ℕ
record_len = 9

module _ {ℓ} {F : Type ℓ} (fl : Float F) where
  open fl use {lit, add, sub, mul, div, lt}

  -- Between -0.000001 and 0.000001.
  abbrev pub is_near_zero : F → Bool
  is_near_zero v = lt v (lit 1 6) && lt (sub (lit 0 0) (lit 1 6)) v

  pub record Fold : Type ℓ where
    pub max : F
    pub min : F
    pub sum : F
    pub ary : List F

  -- A round of the loop of `CombiFilter` at the index i + 1.
  abbrev pub fold_step : ℕ → Fold → Fold
  fold_step i f =
      let v = get_or f.ary (suc i) (lit 0 0) in
      record {
        max = if lt f.max v then v else f.max;
        min = if lt f.max v then f.min else if lt v f.min then v else f.min;
        sum = add f.sum v;
        ary = set f.ary (suc i) (get_or f.ary i (lit 0 0));
      }

  -- The loop from the index `n` down to 1.
  unfoldable pub fold : ℕ → Fold → Fold
  fold zero f = f
  fold (suc i) f = fold i (fold_step i f)

  -- A history that starts near zero is new, and filled with the sample.
  abbrev pub primed : F → List F → List F
  primed v ary = if is_near_zero (get_or ary 0 (lit 0 0)) then replicate record_len v else ary

  -- `CombiFilter`: the value, and the history.
  unfoldable pub combi_filter : F → List F → F × List F
  unfolding fold
  combi_filter v ary =
      let f = fold 8 (record { max = v; min = v; sum = v; ary = set (primed v ary) 0 v }) in
      (div (add (sub (sub f.sum f.max) f.min) (lit 3 0)) (lit 7 0), f.ary)

  -- The ratio of the low pass, in sixteenths, after many changes in one direction.
  abbrev pub ratio : F → ℕ
  ratio delta = min 16 (fl.to_char (add (div delta (lit 50000 0)) (lit 1 0)))

  -- The new count of changes, with the ratio: up, and down.
  unfoldable pub rise : F → ℤ → ℕ × ℤ
  rise delta (negsuc n) = (1, pos 0)
  rise delta (pos n) = if leb 10 n then (ratio delta, pos n) else (1, pos (n + 1))

  unfoldable pub fall : F → ℤ → ℕ × ℤ
  fall delta (pos zero) = (1, negsuc 0)
  fall delta (pos (suc n)) = (1, pos 0)
  fall delta (negsuc n) = if leb 9 n then (ratio delta, negsuc n) else (1, negsuc (n + 1))

  -- `RapidLPFilter`: the value, and the count of changes in one direction.
  unfoldable pub rapid_lp_filter : F → F → ℤ → F × ℤ
  unfolding rise fall
  rapid_lp_filter new pre changes =
      let up = sub new pre in
      let down = sub pre new in
      let (climb, risen) = rise up changes in
      let (drop, fallen) = fall down changes in
      let moved = λ (c : ℕ). add pre (div (mul (lit c 0) (sub new pre)) (lit 16 0)) in
      if is_near_zero new
      then (new, changes)
      else if lt pre new
      then (if lt (lit 800000 0) up then (new, changes) else (moved climb, risen))
      else if lt new pre
      then (if lt (lit 800000 0) down then (new, changes) else (moved drop, fallen))
      else (new, changes)
