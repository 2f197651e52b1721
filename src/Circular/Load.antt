-- ===== src/Circular/Load.antt =====
-- What `read` copies out, in one step or in two, and what it leaves.
use project_sensor.Prelude.{
  ℕ, ◌+◌, ◌-◌, ◌≤◌, ◌<◌, ◌≡◌, sym, ap, ap₂, ◌∙◌, Bool-cases, inl, inr, List, ◌++◌, arith, leb,
  length, get_or, gather, gather-append, gather_ext, gather-get_or, gather-drop, length-gather,
}
use project_sensor.Circular.{Circular, load}
use project_sensor.Circular.Content.{around, contents, IsValid}

module _ (capacity : ℕ) (c : Circular) (v : IsValid capacity c) (n : ℕ) (there : n ≤ c.size) where
  open c use {bytes, beg_index, end_index, size}

  abbrev held : ℕ → ℕ
  held k = get_or bytes (around capacity beg_index k) 0

  abbrev size_1 : ℕ
  size_1 = capacity - beg_index

  whole : size_1 < n → n ≡ size_1 + (n - size_1)
  whole two = omega arith

  loaded : gather held 0 n ≡ (load capacity c n).0
  unfolding load
  loaded = elim (Bool-cases (leb n size_1)) [
    | inl one ↦ rw one (
        gather_ext held (λ k. get_or bytes k 0) 0 beg_index n
          (λ k below. ap (λ (i : ℕ). get_or bytes i 0) (ground (arith, v.beg_in)))
        ∙ gather-drop bytes 0 beg_index n (ground (arith, v.array, v.beg_in)))
    | inr two ↦ rw two (
        ap (gather held 0) (whole (ground arith))
        ∙ gather-append held 0 size_1 (n - size_1)
        ∙ ap₂ ◌++◌
            (gather_ext held (λ k. get_or bytes k 0) 0 beg_index size_1
                (λ k below. ap (λ (i : ℕ). get_or bytes i 0) (ground (arith, v.beg_in)))
              ∙ gather-drop bytes 0 beg_index size_1 (ground (arith, v.array, v.beg_in)))
            (gather_ext held (λ k. get_or bytes k 0) (0 + size_1) 0 (n - size_1)
                (λ k below. ap (λ (i : ℕ). get_or bytes i 0) (ground (arith, v.beg_in)))
              ∙ gather-get_or bytes 0 (n - size_1) (ground (arith, v.array, v.size_in))))
  ]

  pub length-load : length ((load capacity c n).0) ≡ n
  length-load = ap length (sym loaded) ∙ length-gather held 0 n

  pub load-IsValid : IsValid capacity (load capacity c n).1
  unfolding load
  load-IsValid = elim (Bool-cases (leb n size_1)) [
    | inl one ↦ rw one (record {
      array = v.array;
      beg_in = ground (arith, v.beg_in);
      size_in = omega (arith, v.size_in);
      end_is = ground (arith, v.beg_in, v.end_is, v.size_in);
    })
    | inr two ↦ rw two (record {
      array = v.array;
      beg_in = ground (arith, v.beg_in, v.size_in);
      size_in = omega (arith, v.size_in);
      end_is = ground (arith, v.beg_in, v.end_is, v.size_in);
    })
  ]

  load_shape :
      ((load capacity c n).1.beg_index ≡ around capacity beg_index n)
      × ((load capacity c n).1.size ≡ size - n)
      × ((load capacity c n).1.bytes ≡ bytes)
  unfolding load
  load_shape = ground (arith, v.beg_in, v.size_in)

  -- What `load` hands out and what it leaves make up what the ring held.
  pub contents-load :
      contents capacity c ≡ (load capacity c n).0 ++ contents capacity (load capacity c n).1
  unfolding contents
  contents-load =
      let e : size ≡ n + (size - n) = omega arith in
      ap (gather held 0) e
      ∙ gather-append held 0 n (size - n)
      ∙ ap₂ ◌++◌ loaded (
          gather_ext held rest (0 + n) 0 (size - n) (λ k below. later k (omega arith))
          ∙ ap (gather rest 0) (sym load_shape.1))
    where
      rest : ℕ → ℕ
      rest k =
          get_or ((load capacity c n).1.bytes) (around capacity ((load capacity c n).1.beg_index) k)
            0

      later : (k : ℕ) → n + k < size → held (0 + n + k) ≡ rest (0 + k)
      later k below =
          ap₂ (λ (b : List ℕ) (i : ℕ). get_or b i 0) (sym load_shape.2)
            (ground (arith, load_shape.0, v.beg_in, v.size_in))
