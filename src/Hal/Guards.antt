-- ===== src/Hal/Guards.antt =====
-- The guards that all drivers share: opening, closing and the errors.
use project_sensor.Prelude.{
  ℕ, ◌≡◌, refl, ◌∙◌, arith, Bool, true, false, ◌&&◌, some, Bool-cases, inl, inr,
}
use project_sensor.Hal.{
  DeviceStatus, ok, enosys, ebusy, Hal, Driver, standalone, activated, oflag_open, has_flag,
  set_flag, is_ok, is_done, prepare, activate, call, call_open, opened, closed, run_init,
  device_init, device_open, device_close,
}

module _ {ℓ} {D : Type ℓ} (info : ℕ → Driver D) (d : ℕ) where
  -- The start routine of the driver leaves the flags of the device alone.
  abbrev pub KeepsFlag : Type ℓ
  KeepsFlag = (k : Hal D) → (call ok (info d).pf_init k).1.open_flag d ≡ k.open_flag d

  activate-open_flag :
      (r : DeviceStatus × Hal D) (w : ℕ)
      → r.1.open_flag d ≡ w
      → has_flag oflag_open ((activate info d r).1.open_flag d) ≡ has_flag oflag_open w
  activate-open_flag (rt, k) w e = elim (Bool-cases (is_ok rt)) [
    | inl y ↦ rw y (ground (arith, e))
    | inr n ↦ rw n (rw e refl)
  ]

  prepare-open_flag :
      (k : Hal D)
      → KeepsFlag
      → has_flag oflag_open ((prepare info d k).open_flag d) ≡ has_flag oflag_open (k.open_flag d)
  prepare-open_flag k keeps = elim (Bool-cases (has_flag activated (k.open_flag d))) [
    | inl on ↦ rw (prepare, on) refl
    | inr off ↦
        let started = call ok (info d).pf_init k in
        rw (prepare, off) (activate-open_flag started (k.open_flag d) (keeps k))
  ]

  -- The answer of an open call, and the flags where it is a success.
  opened-open_flag :
      (oflag : ℕ) (r : DeviceStatus × Hal D) (b : Bool)
      → is_done r.0 ≡ b
      → is_done (opened info d oflag r).0 ≡ true
      → (opened info d oflag r).1.open_flag d ≡ set_flag oflag_open oflag
  opened-open_flag oflag (rt, k) true e = rw (opened, e) (λ h. ground arith)
  opened-open_flag oflag (rt, k) false e = rw (opened, e) (rw e (λ h. absurd (ground (arith, h))))

  -- A device that was opened has the flags it was opened with, and the mark.
  pub device_open-open_flag :
      (oflag : ℕ) (k : Hal D)
      → let (rt, k') = device_open info (some d) oflag k in
        is_done rt ≡ true → k'.open_flag d ≡ set_flag oflag_open oflag
  unfolding device_open
  device_open-open_flag oflag k =
      let k1 = prepare info d k in
      elim (Bool-cases
        (has_flag standalone (info d).flag && has_flag oflag_open (k1.open_flag d))) [
          | inl busy ↦ rw busy (λ h. absurd (ground (arith, h)))
          | inr free ↦ rw free (
              let r = call_open (info d).pf_open oflag k1 in
              opened-open_flag oflag r (is_done r.0) refl)
        ]

  refuses :
      (oflag : ℕ) (k : Hal D)
      → has_flag standalone (info d).flag ≡ true
      → has_flag oflag_open ((prepare info d k).open_flag d) ≡ true
      → device_open info (some d) oflag k ≡ (ebusy, prepare info d k)
  unfolding device_open
  refuses oflag k alone busy = rw alone (rw busy refl)

  -- While a standalone device is open, opening it again answers EBUSY and does not reach the driver's
  -- open, if the start routine of the driver leaves its flags alone.
  pub device_open-busy :
      (oflag again : ℕ) (k : Hal D)
      → has_flag standalone (info d).flag ≡ true
      → KeepsFlag
      → let (rt, k') = device_open info (some d) oflag k in
        is_done rt ≡ true → device_open info (some d) again k' ≡ (ebusy, prepare info d k')
  device_open-busy oflag again k alone keeps h =
      let k' = (device_open info (some d) oflag k).1 in
      let e = device_open-open_flag oflag k h in
      let is_open : has_flag oflag_open (k'.open_flag d) ≡ true = rw e (ground arith) in
      refuses again k' alone (prepare-open_flag k' keeps ∙ is_open)

  -- Opening a device forgets that it was started: its flags are those of the call and the mark, so the
  -- start routine runs again at the next init.
  pub device_open-device_init :
      (oflag : ℕ) (k : Hal D)
      → has_flag activated oflag ≡ false
      → let (rt, k') = device_open info (some d) oflag k in
        is_done rt ≡ true → device_init info (some d) k' ≡ run_init info d k'
  device_open-device_init oflag k plain h =
      let k' = (device_open info (some d) oflag k).1 in
      let e = device_open-open_flag oflag k h in
      let off : has_flag activated (k'.open_flag d) ≡ false = rw e (ground (arith, plain)) in
      unfold device_init in rw off refl

  closed-open_flag :
      (r : DeviceStatus × Hal D) (b : Bool)
      → is_done r.0 ≡ b
      → is_done (closed info d r).0 ≡ true
      → (closed info d r).1.open_flag d ≡ 0
  closed-open_flag (rt, k) true e = rw (closed, e) (λ h. ground arith)
  closed-open_flag (rt, k) false e = rw (closed, e) (rw e (λ h. absurd (ground (arith, h))))

  -- A device that was closed can be opened: the call reaches the driver, whether it is a standalone
  -- device or not.
  pub device_close-device_open :
      (oflag : ℕ) (k : Hal D)
      → KeepsFlag
      → let (rt, k') = device_close info (some d) k in
        is_done rt ≡ true
        → let k1 = prepare info d k' in
          device_open info (some d) oflag k'
          ≡ opened info d oflag (call_open (info d).pf_open oflag k1)
  device_close-device_open oflag k keeps h =
      let r = call enosys (info d).pf_close k in
      let k' = (device_close info (some d) k).1 in
      let e : k'.open_flag d ≡ 0 = unfold device_close in closed-open_flag r (is_done r.0) refl h in
      let shut : has_flag oflag_open ((prepare info d k').open_flag d) ≡ false =
        prepare-open_flag k' keeps ∙ rw e (ground arith) in
      unfold device_open in rw shut (ground arith)
