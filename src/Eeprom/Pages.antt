-- ===== src/Eeprom/Pages.antt =====
-- A transfer over several pages is one transfer of all the bytes.
use project_sensor.Prelude.{
  ℕ, zero, suc, ◌+◌, ◌-◌, ◌%◌, ◌≤◌, ◌<◌, ◌≡◌, refl, sym, ap, ap₂, ◌∙◌, arith, true, false, ◌&&◌,
  List, [], ◌∷◌, length, take, drop, ltb, leb, ◌==◌, if◌then◌else◌, get_or, gather, length-take,
  length-drop, get_or-take, get_or-drop, gather-append, Bool-cases, inl, inr,
}
use project_sensor.Prelude.Int.{pos}
use project_sensor.Eeprom.{
  Geometry, iic_addr, Bus, capacity, access_bytes, out_of_range, write_pages, read_pages, i2c_write,
  i2c_read, write_retry, read_retry,
}

-- The chip after bytes were stored from `sub` on.
abbrev pub over : (ℕ → ℕ) → ℕ → List ℕ → ℕ → ℕ
over cell sub bs a = if leb sub a && ltb a (sub + length bs) then get_or bs (a - sub) 0 else cell a

-- Bytes that stand on one page of the chip.
abbrev pub InPage : Geometry → ℕ → ℕ → Type 0
InPage g sub n = (0 < n) × (sub % g.bytes_per_page + n ≤ g.bytes_per_page) × (sub + n ≤ capacity g)

-- What the documentation of the chip promises for transfers within a page, and a bus that answers.
pub record IsChip {ℓ} {D : Type ℓ} (g : Geometry) (bus : Bus D) (cell : D → ℕ → ℕ) : Type ℓ where
  pub page : 0 < g.bytes_per_page
  pub wrote :
      (dev : D) (sub : ℕ) (bs : List ℕ)
      → InPage g sub (length bs)
      → (bus.write dev (iic_addr g g.suba_type sub) bs).0 ≡ pos (length bs)
  pub stored :
      (dev : D) (sub : ℕ) (bs : List ℕ) (a : ℕ)
      → InPage g sub (length bs)
      → cell (bus.write dev (iic_addr g g.suba_type sub) bs).1 a ≡ over (cell dev) sub bs a
  pub shown :
      (dev : D) (sub : ℕ) (bs : List ℕ)
      → InPage g sub (length bs)
      → bus.read dev (iic_addr g g.suba_type sub) bs
        ≡ (pos (length bs), gather (cell dev) sub (length bs))

access_bytes_lem :
    (g : Geometry) (sub n : ℕ)
    → 0 < g.bytes_per_page
    → 0 < n
    → let k = access_bytes g sub n in
      (0 < k) × (k ≤ n) × (sub % g.bytes_per_page + k ≤ g.bytes_per_page)
unfolding access_bytes
access_bytes_lem g sub n h p = grind arith

over-split :
    (cell : ℕ → ℕ) (sub k : ℕ) (bs : List ℕ) (a : ℕ)
    → k ≤ length bs
    → over (over cell sub (take k bs)) (sub + k) (drop k bs) a ≡ over cell sub bs a
over-split cell sub k bs a h =
    let e : sub + k ≤ a → get_or (drop k bs) (a - (sub + k)) 0 ≡ get_or bs (a - sub) 0 = λ le.
      get_or-drop k bs (a - (sub + k)) 0 ∙ ap (λ (i : ℕ). get_or bs i 0) (omega (arith, le)) in
    rw (length-take k bs, length-drop k bs) (ground (arith, get_or-take k bs (a - sub) 0, e))

module _ {ℓ} {D : Type ℓ} (g : Geometry) (bus : Bus D) (cell : D → ℕ → ℕ)
    (chip : IsChip g bus cell) where
  -- One round of the loop.
  round :
      (sub : ℕ) (bs : List ℕ)
      → 0 < length bs
      → sub + length bs ≤ capacity g
      → let k = access_bytes g sub (length bs) in
        (0 < k) × (k ≤ length bs) × (length (take k bs) ≡ k) × InPage g sub (length (take k bs))
  round sub bs h fit =
      let k = access_bytes g sub (length bs) in
      let r = access_bytes_lem g sub (length bs) chip.page h in
      let e : length (take k bs) ≡ k = omega (arith, length-take k bs, r) in
      (r.0, r.1, e, rw e (r.0, r.2, omega (arith, r.1, fit)))

  record Written (sub : ℕ) (bs : List ℕ) (dev : D) (r : ℕ × D) : Type ℓ where
    none_left : r.0 ≡ 0
    cells : (a : ℕ) → cell r.1 a ≡ over (cell dev) sub bs a

  write_pages-Written :
      (fuel sub : ℕ) (bs : List ℕ) (dev : D)
      → length bs ≤ fuel
      → sub + length bs ≤ capacity g
      → Written sub bs dev (write_pages g bus fuel sub bs dev)
  unfolding write_pages
  write_pages-Written zero sub bs dev h fit = record {
    none_left = omega (arith, h);
    cells = λ a. ground (arith, h);
  }
  write_pages-Written (suc fuel) sub bs dev h fit = elim (Bool-cases (length bs == 0)) [
    | inl done ↦ rw done (record { none_left = refl; cells = λ a. ground arith })
    | inr more ↦
        let (some_bytes, le, size, inside) = round sub bs (ground arith) fit in
        let k = access_bytes g sub (length bs) in
        let next = (bus.write dev (iic_addr g g.suba_type sub) (take k bs)).1 in
        let w =
          write_pages-Written fuel (sub + k) (drop k bs) next (omega (arith, length-drop k bs))
            (omega (arith, length-drop k bs, le, fit)) in
        rw more (
          rw (chip.wrote dev sub (take k bs) inside) (record {
            none_left = w.none_left;
            cells = λ a.
                w.cells a
                ∙ rw (chip.stored dev sub (take k bs) a inside)
                    (over-split (cell dev) sub k bs a le);
          }))
  ]

  read_pages-gather :
      (fuel sub : ℕ) (bs : List ℕ) (dev : D)
      → length bs ≤ fuel
      → sub + length bs ≤ capacity g
      → read_pages g bus fuel sub bs dev ≡ (0, gather (cell dev) sub (length bs))
  unfolding read_pages gather
  read_pages-gather zero sub [] dev h fit = refl
  read_pages-gather zero sub (b ∷ bs) dev h fit = absurd (omega (arith, h))
  read_pages-gather (suc fuel) sub bs dev h fit = elim (Bool-cases (length bs == 0)) [
    | inl done ↦ let none : length bs ≡ 0 = ground arith in rw done (rw none refl)
    | inr more ↦
        let (some_bytes, le, size, inside) = round sub bs (ground arith) fit in
        let k = access_bytes g sub (length bs) in
        let rest =
          read_pages-gather fuel (sub + k) (drop k bs) dev (omega (arith, length-drop k bs))
            (omega (arith, length-drop k bs, le, fit)) in
        let whole : k + length (drop k bs) ≡ length bs = omega (arith, length-drop k bs, le) in
        rw more (
          rw (chip.shown dev sub (take k bs) inside) (
            rw rest (
              rw size (
                ap₂ (λ (a : ℕ) (b : List ℕ). (a, b)) refl
                  (sym (gather-append (cell dev) sub k (length (drop k bs)))
                    ∙ ap (gather (cell dev) sub) whole)))))
  ]

  in_range : (sub n : ℕ) → 0 < n → sub + n ≤ capacity g → out_of_range g sub n ≡ false
  unfolding out_of_range
  in_range sub n h fit = ground arith

  module _ (sub : ℕ) (bs : List ℕ) (dev : D) (h : 0 < length bs)
      (fit : sub + length bs ≤ capacity g) where
    -- What the driver reports, and what the chip holds after it: the bytes from their address on, and
    -- all else as before.
    pub i2c_write_lem :
        let (rt, dev') = i2c_write g bus sub bs dev in
        (rt ≡ pos (length bs)) × ((a : ℕ) → cell dev' a ≡ over (cell dev) sub bs a)
    unfolding i2c_write
    i2c_write_lem =
        let w = write_pages-Written (length bs) sub bs dev (omega arith) fit in
        let some_bytes : (length bs == 0) ≡ false = ground arith in
        rw some_bytes
          (rw (in_range sub (length bs) h fit) (ap pos (omega (arith, w.none_left)), w.cells))

    pub i2c_read_lem :
        i2c_read g bus sub bs dev ≡ (pos (length bs), gather (cell dev) sub (length bs))
    unfolding i2c_read
    i2c_read_lem =
        let some_bytes : (length bs == 0) ≡ false = ground arith in
        rw some_bytes (
          rw (in_range sub (length bs) h fit) (
            rw (read_pages-gather (length bs) sub bs dev (omega arith) fit)
              (let e : length bs - 0 ≡ length bs = omega arith in rw e refl)))

    -- A write through the driver, over as many pages as it takes, reports its size, stores the bytes
    -- from their address on, and leaves the rest of the chip as it was.
    pub write_retry_lem :
        (tries : ℕ)
        → let (rt, dev') = write_retry g bus tries sub bs dev in
          (rt ≡ pos (length bs)) × ((a : ℕ) → cell dev' a ≡ over (cell dev) sub bs a)
    unfolding write_retry
    write_retry_lem zero = i2c_write_lem
    write_retry_lem (suc tries) =
        let same : (length bs == length bs) ≡ true = ground arith in
        rw i2c_write_lem.0 (rw same (refl, i2c_write_lem.1))

    -- A read gives the bytes that stand on the chip.
    pub read_retry_lem :
        (tries : ℕ)
        → read_retry g bus tries sub bs dev ≡ (pos (length bs), gather (cell dev) sub (length bs))
    unfolding read_retry
    read_retry_lem zero = i2c_read_lem
    read_retry_lem (suc tries) =
        let same : (length bs == length bs) ≡ true = ground arith in rw i2c_read_lem (rw same refl)
