-- ===== src/Circular/Store.antt =====
-- Where the copies of `write` land, in one step or in two.
use project_sensor.Prelude.{
  ℕ, true, false, ◌⊎◌, ◌+◌, ◌-◌, ◌≤◌, ◌<◌, ◌≡◌, ap, ap₂, ◌∙◌, Bool-cases, inl, inr, List, ◌++◌,
  arith, leb, ltb, length, get_or, take, drop, blit, gather, length-take, length-drop, length-blit,
  get_or-take, get_or-drop, get_or-blit, gather-append, gather_ext, gather-get_or,
}
use project_sensor.Circular.{Circular, store}
use project_sensor.Circular.Content.{around, contents, IsValid}

-- A copy of `src` to `off`: at `off + k`, and at an index outside.
blit_inside :
    (dst src : List ℕ) (off k : ℕ)
    → off + length src ≤ length dst
    → k < length src
    → get_or (blit dst off src) (off + k) 0 ≡ get_or src k 0
blit_inside dst src off k h below =
    ground (arith, get_or-blit dst off src (off + k) 0, ap (λ (i : ℕ). get_or src i 0) (back off k))
  where
    back : (n m : ℕ) → n + m - n ≡ m
    back n m = omega arith

blit_outside :
    (dst src : List ℕ) (off j : ℕ)
    → off + length src ≤ length dst
    → (j < off) ⊎ (off + length src ≤ j)
    → get_or (blit dst off src) j 0 ≡ get_or dst j 0
blit_outside dst src off j h out = ground (arith, get_or-blit dst off src j 0)

module _ (capacity : ℕ) (c : Circular) (v : IsValid capacity c) (src : List ℕ) (n : ℕ)
    (room : c.size + n ≤ capacity) (given : n ≤ length src) where
  open c use {bytes, beg_index, end_index, size}

  end_in : end_index < capacity
  end_in = ground (arith, v.beg_in, v.size_in, v.end_is)

  stored : List ℕ
  stored = (store capacity c n src).bytes

  single_stored :
      (k : ℕ)
      → n ≤ capacity - end_index
      → k < n
      → get_or (blit bytes end_index (take n src)) (around capacity end_index k) 0 ≡ get_or src k 0
  single_stored k one below =
      let e : around capacity end_index k ≡ end_index + k = ground arith in
      rw e (
        blit_inside bytes (take n src) end_index k
          (omega (arith, length-take n src, v.array, end_in)) (omega (arith, length-take n src))
        ∙ get_or-take n src k 0 below)

  single_kept :
      (k : ℕ)
      → n ≤ capacity - end_index
      → n ≤ k
      → k < capacity
      → let j = around capacity end_index k in
        get_or (blit bytes end_index (take n src)) j 0 ≡ get_or bytes j 0
  single_kept k one past inside =
      blit_outside bytes (take n src) end_index (around capacity end_index k)
        (omega (arith, length-take n src, v.array, end_in))
        (ground (arith, length-take n src, end_in))

  abbrev size_1 : ℕ
  size_1 = capacity - end_index

  abbrev size_2 : ℕ
  size_2 = n - size_1

  abbrev front_part : List ℕ
  front_part = blit bytes end_index (take size_1 src)

  abbrev wrapped_part : List ℕ
  wrapped_part = take size_2 (drop size_1 src)

  wrapped_length : size_1 < n → length wrapped_part ≡ size_2
  wrapped_length two = omega (arith, length-take size_2 (drop size_1 src), length-drop size_1 src)

  front_fits : size_1 < n → end_index + length (take size_1 src) ≤ length bytes
  front_fits two = omega (arith, length-take size_1 src, v.array, end_in)

  wrapped_fits : size_1 < n → 0 + length wrapped_part ≤ length front_part
  wrapped_fits two =
      omega
        (arith, wrapped_length two, length-blit bytes end_index (take size_1 src), v.array, end_in)

  double_stored :
      (k : ℕ)
      → size_1 < n
      → k < n
      → get_or (blit front_part 0 wrapped_part) (around capacity end_index k) 0 ≡ get_or src k 0
  double_stored k two below = elim (Bool-cases (ltb k size_1)) [
    | inl first ↦
        let e : around capacity end_index k ≡ end_index + k = ground arith in
        rw e (
          blit_outside front_part wrapped_part 0 (end_index + k) (wrapped_fits two)
            (inr (omega (arith, wrapped_length two, end_in)))
          ∙ blit_inside bytes (take size_1 src) end_index k (front_fits two)
              (ground (arith, length-take size_1 src))
          ∙ get_or-take size_1 src k 0 (ground arith))
    | inr second ↦
        let e : around capacity end_index k ≡ 0 + (k - size_1) = ground (arith, end_in) in
        let e' : size_1 + (k - size_1) ≡ k = ground arith in
        rw e (
          blit_inside front_part wrapped_part 0 (k - size_1) (wrapped_fits two)
            (ground (arith, wrapped_length two))
          ∙ get_or-take size_2 (drop size_1 src) (k - size_1) 0 (ground arith)
          ∙ get_or-drop size_1 src (k - size_1) 0
          ∙ ap (λ (i : ℕ). get_or src i 0) e')
  ]

  double_kept :
      (k : ℕ)
      → size_1 < n
      → n ≤ k
      → k < capacity
      → let j = around capacity end_index k in
        get_or (blit front_part 0 wrapped_part) j 0 ≡ get_or bytes j 0
  double_kept k two past inside =
      blit_outside front_part wrapped_part 0 (around capacity end_index k) (wrapped_fits two)
        (ground (arith, wrapped_length two, end_in))
      ∙ blit_outside bytes (take size_1 src) end_index (around capacity end_index k)
          (front_fits two) (ground (arith, length-take size_1 src, end_in))

  stored_single : leb n size_1 ≡ true → stored ≡ blit bytes end_index (take n src)
  unfolding stored store
  stored_single one = rw (one, stored)

  stored_double : leb n size_1 ≡ false → stored ≡ blit front_part 0 wrapped_part
  unfolding stored store
  stored_double two = rw (two, stored)

  -- The bytes at `k` places behind the old end: the first `n` are those of `src`, the rest as before.
  stored_at : (k : ℕ) → k < n → get_or stored (around capacity end_index k) 0 ≡ get_or src k 0
  stored_at k below = elim (Bool-cases (leb n size_1)) [
    | inl one ↦ rw (stored_single one) (single_stored k (ground arith) below)
    | inr two ↦ rw (stored_double two) (double_stored k (ground arith) below)
  ]

  kept_at :
      (k : ℕ)
      → n ≤ k
      → k < capacity
      → let j = around capacity end_index k in get_or stored j 0 ≡ get_or bytes j 0
  kept_at k past inside = elim (Bool-cases (leb n size_1)) [
    | inl one ↦ rw (stored_single one) (single_kept k (ground arith) past inside)
    | inr two ↦ rw (stored_double two) (double_kept k (ground arith) past inside)
  ]

  pub store-IsValid : IsValid capacity (store capacity c n src)
  unfolding store
  store-IsValid = elim (Bool-cases (leb n size_1)) [
    | inl one ↦ rw one (record {
      array = length-blit bytes end_index (take n src) ∙ v.array;
      beg_in = v.beg_in;
      size_in = room;
      end_is = ground (arith, v.beg_in, v.end_is, v.size_in);
    })
    | inr two ↦ rw two (record {
      array =
          length-blit front_part 0 wrapped_part
          ∙ length-blit bytes end_index (take size_1 src)
          ∙ v.array;
      beg_in = v.beg_in;
      size_in = room;
      end_is = ground (arith, v.beg_in, v.end_is, v.size_in);
    })
  ]

  store_shape :
      ((store capacity c n src).beg_index ≡ beg_index) × ((store capacity c n src).size ≡ size + n)
  unfolding store
  store_shape = ground arith

  abbrev byte_at : ℕ → ℕ
  byte_at k = get_or stored (around capacity beg_index k) 0

  old_byte : (k : ℕ) → k < size → byte_at k ≡ get_or bytes (around capacity beg_index k) 0
  old_byte k below =
      let e : around capacity beg_index k ≡ around capacity end_index (k + (capacity - size)) =
        ground (arith, v.beg_in, v.size_in, v.end_is) in
      rw e (kept_at (k + (capacity - size)) (omega arith) (omega (arith, v.size_in)))

  new_byte : (k : ℕ) → k < n → byte_at (size + k) ≡ get_or src k 0
  new_byte k below =
      let e : around capacity beg_index (size + k) ≡ around capacity end_index k =
        ground (arith, v.beg_in, v.size_in, v.end_is) in
      rw e (stored_at k below)

  -- The ring after `store` holds what it held, and then the first `n` bytes of `src`.
  pub contents-store :
      contents capacity (store capacity c n src) ≡ contents capacity c ++ take n src
  unfolding contents stored
  contents-store =
      ap₂ (λ b s. gather (λ k. get_or stored (around capacity b k) 0) 0 s) store_shape.0
        store_shape.1
      ∙ gather-append byte_at 0 size n
      ∙ ap₂ ◌++◌
          (gather_ext byte_at (λ k. get_or bytes (around capacity beg_index k) 0) 0 0 size
            λ k below. old_byte (0 + k) (omega arith))
          (gather_ext byte_at (λ k. get_or src k 0) (0 + size) 0 n (λ k below. shifted k below)
            ∙ gather-get_or src 0 n given)
    where
      shifted : (k : ℕ) → k < n → byte_at (0 + size + k) ≡ get_or src (0 + k) 0
      shifted k below =
          let e : 0 + size ≡ size = omega arith in
          let e' : 0 + k ≡ k = omega arith in rw (e, e') (new_byte k below)
