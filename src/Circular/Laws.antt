-- ===== src/Circular/Laws.antt =====
-- `write` and `read` as operations on the bytes in the ring.
use project_sensor.Prelude.{
  ℕ, ◌+◌, ◌-◌, ◌≤◌, ◌<◌, min, ◌≡◌, refl, sym, ap, ◌∙◌, Bool-cases, inl, inr, List, [], ◌++◌, arith,
  ◌==◌, length, take, take-all, length-append, eq_nil, gather, append-nil,
}
use project_sensor.Circular.{Circular, fresh, write, read}
use project_sensor.Circular.Content.{contents, IsValid, length-contents}
use project_sensor.Circular.Store.{store-IsValid, contents-store}
use project_sensor.Circular.Load.{length-load, load-IsValid, contents-load}

module _ (capacity : ℕ) (c : Circular) (len : ℕ) where
  -- `write` takes as many of the `len` bytes as there is room for, returns their number, appends
  -- exactly those to the bytes in the ring, and keeps the invariant.
  pub write_lem :
      (src : List ℕ)
      → IsValid capacity c
      → len ≤ length src
      → let (n, c') = write capacity c src len in
        (n ≡ min len (capacity - c.size))
        × (contents capacity c' ≡ contents capacity c ++ take n src)
        × IsValid capacity c'
  unfolding write
  write_lem src v given = elim (Bool-cases (len == 0)) [
    | inl none ↦ rw none (ground arith, sym (append-nil _), v)
    | inr some ↦
        let n = min len (capacity - c.size) in
        let room : c.size + n ≤ capacity = omega (arith, v.size_in) in
        rw some (
          refl,
          contents-store capacity c v src n room (omega arith),
          store-IsValid capacity c v src n room (omega arith),
        )
  ]

  -- `read` hands out the oldest `min(len, size)` bytes in order and returns their number; the bytes
  -- that stay are the rest, and the invariant is kept.
  pub read_lem :
      IsValid capacity c
      → let (n, out, c') = read capacity c len in
        (n ≡ min len c.size)
        × (length out ≡ n)
        × (contents capacity c ≡ out ++ contents capacity c')
        × IsValid capacity c'
  unfolding read
  read_lem v = elim (Bool-cases (len == 0)) [
    | inl none ↦ rw none (ground arith, refl, refl, v)
    | inr some ↦
        let n = min len c.size in
        let there : n ≤ c.size = omega arith in
        rw some (
          refl,
          length-load capacity c v n there,
          contents-load capacity c v n there,
          load-IsValid capacity c v n there,
        )
  ]

-- A new ring over an array of `capacity` bytes is valid and empty.
pub fresh-IsValid :
    (capacity : ℕ) (memory : List ℕ)
    → 0 < capacity
    → length memory ≡ capacity
    → IsValid capacity (fresh capacity memory) × (contents capacity (fresh capacity memory) ≡ [])
unfolding fresh contents gather
fresh-IsValid capacity memory pos full =
    (record { array = full; beg_in = pos; size_in = omega arith; end_is = ground arith }, refl)

-- What is written to a ring comes back: with room for all of `src`, reading everything after the
-- write hands out what was in the ring followed by `src`, and leaves it empty.
pub read-write :
    (capacity : ℕ) (c : Circular) (src : List ℕ)
    → IsValid capacity c
    → c.size + length src ≤ capacity
    → let (n, c') = write capacity c src (length src) in
      let (m, out, c'') = read capacity c' (c.size + length src) in
      (n ≡ length src) × (out ≡ contents capacity c ++ src) × (contents capacity c'' ≡ [])
read-write capacity c src v room =
    let n = length src in
    let c' = (write capacity c src n).1 in
    let (count, held, v') = write_lem capacity c n src v (omega arith) in
    let (taken, some_out, split, v'') = read_lem capacity c' (c.size + n) v' in
    let out = (read capacity c' (c.size + n)).1 in
    let c'' = (read capacity c' (c.size + n)).2 in
    let full : (write capacity c src n).0 ≡ n = omega (arith, count) in
    let all : contents capacity c' ≡ contents capacity c ++ src =
      held
      ∙ ap (λ t. contents capacity c ++ t)
          (ap (λ (k : ℕ). take k src) full ∙ take-all n src (omega arith)) in
    let sum : c'.size ≡ c.size + n = omega (
      arith,
      length-contents capacity c',
      length-contents capacity c,
      ap length all,
      length-append (contents capacity c) src,
    ) in
    let nothing : contents capacity c'' ≡ [] = eq_nil (contents capacity c'') (
      omega (
        arith,
        taken,
        some_out,
        ap length split,
        length-append out (contents capacity c''),
        length-contents capacity c',
        sum,
      )) in
    (full, sym (append-nil out) ∙ ap (λ t. out ++ t) (sym nothing) ∙ sym split ∙ all, nothing)
