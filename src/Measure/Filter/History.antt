-- ===== src/Measure/Filter/History.antt =====
-- What `CombiFilter` keeps.
use project_sensor.Prelude.{◌≡◌, refl, true, false, List, [], ◌∷◌, take, get_or}
use project_sensor.Measure.{Float}
use project_sensor.Measure.Filter.{is_near_zero, combi_filter, fold}

module _ {ℓ} {F : Type ℓ} (fl : Float F) where
  -- The history holds the last eight samples behind a copy of the newest: a new one pushes the oldest
  -- out.
  pub combi_filter-take :
      (v a b c d e f g h i : F)
      → is_near_zero fl a ≡ false
      → let samples = b ∷ c ∷ d ∷ e ∷ f ∷ g ∷ h ∷ i ∷ [] in
        (combi_filter fl v (a ∷ samples)).1 ≡ v ∷ take 8 (v ∷ samples)
  unfolding combi_filter fold
  combi_filter-take v a b c d e f g h i used = rw used refl

  -- A history that starts near zero is filled with the sample.
  pub combi_filter-primed :
      (v : F) (ary : List F)
      → is_near_zero fl (get_or ary 0 (fl.lit 0 0)) ≡ true
      → (combi_filter fl v ary).1 ≡ v ∷ v ∷ v ∷ v ∷ v ∷ v ∷ v ∷ v ∷ v ∷ []
  unfolding combi_filter fold
  combi_filter-primed v ary new = rw new refl
