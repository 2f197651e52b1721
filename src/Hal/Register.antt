-- ===== src/Hal/Register.antt =====
-- The list of devices: what is found by name, and the start of all devices.
use project_sensor.Prelude.{
  ℕ, zero, suc, ◌<◌, ◌≡◌, refl, ap, ◌∙◌, arith, true, false, List, [], ◌∷◌, Option, none, some,
  length, ◌==◌, if◌then◌else◌, Bool-cases, inl, inr,
}
use project_sensor.Links.{insert_after}
use project_sensor.Links.Seg.{Seg, Fresh, All}
use project_sensor.Links.Ring.{IsRing, insert_after-IsRing}
use project_sensor.Hal.{
  DeviceStatus, ok, Hal, Driver, device_list, activated, name_max, has_flag, set_flag, same_name,
  register, find_from, find, run_init, device_init, init_from, init_all,
}

module _ {ℓ} {D : Type ℓ} (info : ℕ → Driver D) where
  abbrev pub first_named : List ℕ → List ℕ → Option ℕ
  first_named name [] = none
  first_named name (x ∷ xs) =
      if same_name name_max (info x).name name then some x else first_named name xs

  find_from_lem :
      (fuel a : ℕ) (name xs : List ℕ) (k : Hal D)
      → Seg k.links a xs device_list
      → Fresh device_list xs
      → length xs < fuel
      → find_from info fuel name (k.links.next a) k ≡ first_named name xs
  unfolding find_from
  find_from_lem zero a name xs k s f l = absurd (omega arith)
  find_from_lem (suc fuel) a name [] k s f l = rw s.0 refl
  find_from_lem (suc fuel) a name (x ∷ xs) k s f l =
      let rest = find_from_lem fuel x name xs k s.2 f.1 (omega arith) in
      let node : (x == device_list) ≡ false = ground (arith, f.0) in rw s.0 (rw node (rw rest refl))

  pub find_lem :
      (fuel : ℕ) (name xs : List ℕ) (k : Hal D)
      → IsRing k.links device_list xs
      → length xs < fuel
      → find info fuel name k ≡ first_named name xs
  unfolding find
  find_lem fuel name xs k r l = find_from_lem fuel device_list name xs k r.seg r.distinct.0 l

  -- A device that is registered is found by its name, ahead of older devices with that name, and every
  -- other name finds what it found before.
  pub find-register :
      (fuel d : ℕ) (name xs : List ℕ) (k : Hal D)
      → IsRing k.links device_list xs
      → Fresh d (device_list ∷ xs)
      → length xs < fuel
      → find info (suc fuel) name (register (some d) k).1
        ≡ (if same_name name_max (info d).name name then some d else find info fuel name k)
  unfolding register
  find-register fuel d name xs k r f l =
      let k' = record k { links = insert_after device_list d k.links } in
      let new =
        find_lem (suc fuel) name (d ∷ xs) k' (insert_after-IsRing k.links d device_list xs r f)
          (omega arith) in
      let old = find_lem fuel name xs k r l in rw old new

  -- A driver with a start routine that succeeds and leaves the device layer alone.
  pub record Starts (d : ℕ) : Type ℓ where
    pub routine : Hal D → DeviceStatus × Hal D
    pub is_init : (info d).pf_init ≡ some routine
    pub answers : (k : Hal D) → (routine k).0 ≡ ok
    pub same_flags : (k : Hal D) → (routine k).1.open_flag ≡ k.open_flag
    pub same_links : (k : Hal D) → (routine k).1.links ≡ k.links

  abbrev pub IsActive : Hal D → ℕ → Type 0
  IsActive k d = has_flag activated (k.open_flag d) ≡ true

  -- A device that was started: it is active, as all that were, and the list is the same.
  record Started (d : ℕ) (k k' : Hal D) : Type ℓ where
    active : IsActive k' d
    others : (e : ℕ) → IsActive k e → IsActive k' e
    links : k'.links ≡ k.links

  set_flag-has : (w : ℕ) → has_flag activated (set_flag activated w) ≡ true
  set_flag-has w = ground arith

  device_init-Started : (d : ℕ) (k : Hal D) → Starts d → Started d k (device_init info (some d) k).1
  unfolding device_init
  device_init-Started d k s = elim (Bool-cases (has_flag activated (k.open_flag d))) [
    | inl on ↦ rw on (record { active = on; others = λ e a. a; links = refl })
    | inr off ↦ rw off (
        rw (run_init, s.is_init)
          (rw (s.answers k) (record {
            active = ground (arith, set_flag-has ((s.routine k).1.open_flag d));
            others = λ e a. ground (
              arith,
              a,
              ap (λ (g : ℕ → ℕ). g e) (s.same_flags k),
              ap (λ (g : ℕ → ℕ). g d) (s.same_flags k),
            );
            links = s.same_links k;
          })))
  ]

  record AllStarted (xs : List ℕ) (k k' : Hal D) : Type ℓ where
    others : (e : ℕ) → IsActive k e → IsActive k' e
    active : All (IsActive k') xs
    links : k'.links ≡ k.links

  init_from-AllStarted :
      (fuel a : ℕ) (xs : List ℕ) (k : Hal D)
      → Seg k.links a xs device_list
      → Fresh device_list xs
      → length xs < fuel
      → All Starts xs
      → AllStarted xs k (init_from info fuel (k.links.next a) k)
  unfolding init_from
  init_from-AllStarted zero a xs k s f l all = absurd (omega arith)
  init_from-AllStarted (suc fuel) a [] k s f l all =
      rw s.0 (record { others = λ e a. a; active = tt; links = refl })
  init_from-AllStarted (suc fuel) a (x ∷ xs) k s f l all =
      let k1 = (device_init info (some x) k).1 in
      let one = device_init-Started x k all.0 in
      let seg : Seg k1.links x xs device_list = rw one.links s.2 in
      let rest = init_from-AllStarted fuel x xs k1 seg f.1 (omega arith) all.1 in
      let node : (x == device_list) ≡ false = ground (arith, f.0) in
      rw s.0 (
        rw node (record {
          others = λ e a. rest.others e (one.others e a);
          active = (rest.others x one.active, rest.active);
          links = rest.links ∙ one.links;
        }))

  -- After `API_DeviceInitAll` every device of the list is active, as those that were before, and the
  -- list is the same, if their drivers have start routines that succeed and leave the device layer
  -- alone.
  pub init_all-Active :
      (fuel : ℕ) (xs : List ℕ) (k : Hal D)
      → IsRing k.links device_list xs
      → length xs < fuel
      → All Starts xs
      → let k' = (init_all info fuel k).1 in
        ((e : ℕ) → IsActive k e → IsActive k' e)
        × All (IsActive k') xs
        × IsRing k'.links device_list xs
  unfolding init_all
  init_all-Active fuel xs k r l all =
      let w = init_from-AllStarted fuel device_list xs k r.seg r.distinct.0 l all in
      (w.others, w.active, rw w.links r)
