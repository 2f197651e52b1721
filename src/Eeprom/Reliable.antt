-- ===== src/Eeprom/Reliable.antt =====
-- The driver is a reliable storage device for the application, on a chip that keeps its promises.
use project_sensor.Prelude.{
  ℕ, zero, suc, ◌+◌, ◌-◌, ◌<◌, ◌≡◌, refl, ap, ◌∙◌, arith, true, false, List, length, take, ◌==◌,
  get_or, gather, gather_ext, gather-get_or, take-all,
}
use project_sensor.Prelude.Int.{pos, negsuc}
use project_sensor.Storage.Load.{IsReliable}
use project_sensor.Eeprom.{
  Geometry, storage_geometry, IicAddr, iic_addr, Bus, capacity, access_bytes, out_of_range,
  write_pages, i2c_write, write_retry, storage_device,
}
use project_sensor.Eeprom.Pages.{IsChip, InPage, over, write_retry_lem, read_retry_lem}

over-gather :
    (cell f : ℕ → ℕ) (sub : ℕ) (bs : List ℕ)
    → ((a : ℕ) → f a ≡ over cell sub bs a)
    → gather f sub (length bs) ≡ bs
over-gather cell f sub bs h =
    gather_ext f (λ k. get_or bs k 0) sub 0 (length bs) (λ k b. h (sub + k) ∙ inside k b)
    ∙ gather-get_or bs 0 (length bs) (omega arith)
    ∙ take-all (length bs) bs (omega arith)
  where
    inside : (k : ℕ) → k < length bs → over cell sub bs (sub + k) ≡ get_or bs (0 + k) 0
    inside k b =
        let e : sub + k - sub ≡ 0 + k = omega arith in
        ground (arith, ap (λ (i : ℕ). get_or bs i 0) e)

module _ {ℓ} {D : Type ℓ} (bus : Bus D) (cell : D → ℕ → ℕ)
    (chip : IsChip storage_geometry bus cell) where
  -- The application's storage device, as the driver implements it over pages and the bus, is what the
  -- loading and saving of the parameters ask for.
  pub storage_device-IsReliable : IsReliable (storage_device storage_geometry bus)
  unfolding storage_device capacity
  storage_device-IsReliable = record {
    whole = λ dev addr bs h fit.
        (write_retry_lem storage_geometry bus cell chip addr bs dev h (fit) 3).0;
    kept = λ dev addr bs old same h fit.
        let w = write_retry_lem storage_geometry bus cell chip addr bs dev h (fit) 3 in
        let dev' = (write_retry storage_geometry bus 3 addr bs dev).1 in
        let r =
          read_retry_lem storage_geometry bus cell chip addr old dev' (omega (arith, same))
            (rw same fit) 3 in
        r
        ∙ rw same (
            ap (λ (l : List ℕ). (pos (length bs), l))
              (over-gather (cell dev) (cell dev') addr bs w.1));
  }

module _ {ℓ} {D : Type ℓ} (g : Geometry) (bus : Bus D)
    (silent : (dev : D) (at : IicAddr) (bs : List ℕ) → (bus.write dev at bs).0 ≡ negsuc 0) where
  write_pages-silent :
      (fuel sub : ℕ) (bs : List ℕ) (dev : D)
      → 0 < fuel
      → 0 < length bs
      → access_bytes g sub (length bs) ≡ length bs
      → (write_pages g bus fuel sub bs dev).0 ≡ 0
  unfolding write_pages
  write_pages-silent zero sub bs dev f h e = absurd (omega arith)
  write_pages-silent (suc fuel) sub bs dev f h e =
      let some_bytes : (length bs == 0) ≡ false = ground arith in
      let at = iic_addr g g.suba_type sub in
      rw some_bytes
        (rw (silent dev at (take (access_bytes g sub (length bs)) bs)) (omega (arith, e)))

  -- A write that stays on one page is reported as complete even if the bus never answers: the count is
  -- lowered before the transfer, so the size is right and no other try is made.
  pub write_retry-silent :
      (tries sub : ℕ) (bs : List ℕ) (dev : D)
      → InPage g sub (length bs)
      → (write_retry g bus (suc tries) sub bs dev).0 ≡ pos (length bs)
  unfolding write_retry i2c_write
  write_retry-silent tries sub bs dev p =
      let h = p.0 in
      let some_bytes : (length bs == 0) ≡ false = ground arith in
      let inside : out_of_range g sub (length bs) ≡ false =
        unfold out_of_range in ground (arith, p.2, p.0) in
      let one : access_bytes g sub (length bs) ≡ length bs =
        unfold access_bytes in ground (arith, p.1) in
      let none = write_pages-silent (length bs) sub bs dev h h one in
      let e : length bs - 0 ≡ length bs = omega arith in
      let same : (length bs == length bs) ≡ true = ground arith in
      rw some_bytes (rw inside (rw none (rw e (rw same refl))))
