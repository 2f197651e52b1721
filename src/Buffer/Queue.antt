-- ===== src/Buffer/Queue.antt =====
-- The buffer as a queue of the bytes between its two indices.
use project_sensor.Prelude.{
  ℕ, zero, suc, ◌+◌, ◌-◌, ◌≤◌, ◌<◌, ◌≡◌, refl, sym, ap, ap₂, ◌∙◌, true, false, Bool-cases, inl, inr,
  List, [], ◌++◌, arith, leb, ltb, if◌then◌else◌, length, get_or, take, drop, blit, gather,
  length-gather, length-blit, get_or-blit, gather_ext, gather-append, gather-get_or, gather-drop,
  take-all,
}
use project_sensor.Prelude.Int.{pos, negsuc}
use project_sensor.Buffer.{
  Buffer, over, readable_bytes, writable_bytes, retrieve_all, retrieve, retrieve_as_char_array,
  append, prepend,
}

-- The bytes that are to be read, oldest first.
unfoldable pub contents : Buffer → List ℕ
contents b = gather (λ k. get_or b.bytes k 0) b.reader_index (readable_bytes b)

pub record IsValid (b : Buffer) : Type 0 where
  pub array : length b.bytes ≡ b.len
  pub cheap_in : b.cheap_prepend ≤ b.len
  pub reader_in : b.reader_index ≤ b.writer_index
  pub writer_in : b.writer_index ≤ b.len

-- A buffer over an array in which the reserve fits is valid and empty.
pub over-IsValid :
    (memory : List ℕ) (cheap : ℕ)
    → cheap ≤ length memory
    → IsValid (over memory cheap) × (contents (over memory cheap) ≡ [])
unfolding over contents gather
over-IsValid memory cheap fits =
    let none : cheap - cheap ≡ 0 = omega arith in
    (record { array = refl; cheap_in = fits; reader_in = omega arith; writer_in = fits }, rw none)

-- A copy beside a range leaves the range.
gather-blit_left :
    (xs : List ℕ) (off : ℕ) (src : List ℕ) (i n : ℕ)
    → off + length src ≤ length xs
    → i + n ≤ off
    → gather (λ k. get_or (blit xs off src) k 0) i n ≡ gather (λ k. get_or xs k 0) i n
gather-blit_left xs off src i n fits left =
    gather_ext (λ k. get_or (blit xs off src) k 0) (λ k. get_or xs k 0) i i n
      λ k below. get_or-blit xs off src (i + k) 0 fits ∙ ground arith

gather-blit_right :
    (xs : List ℕ) (off : ℕ) (src : List ℕ) (i n : ℕ)
    → off + length src ≤ length xs
    → off + length src ≤ i
    → gather (λ k. get_or (blit xs off src) k 0) i n ≡ gather (λ k. get_or xs k 0) i n
gather-blit_right xs off src i n fits right =
    gather_ext (λ k. get_or (blit xs off src) k 0) (λ k. get_or xs k 0) i i n
      λ k below. get_or-blit xs off src (i + k) 0 fits ∙ ground arith

-- A copied range is what was copied.
gather-blit :
    (xs : List ℕ) (off : ℕ) (src : List ℕ)
    → off + length src ≤ length xs
    → gather (λ k. get_or (blit xs off src) k 0) off (length src) ≡ src
gather-blit xs off src fits =
    gather_ext (λ k. get_or (blit xs off src) k 0) (λ k. get_or src k 0) off 0 (length src)
      (λ k below.
        let at : off + k - off ≡ 0 + k = omega arith in
        get_or-blit xs off src (off + k) 0 fits ∙ ground (arith, ap (λ (n : ℕ). get_or src n 0) at))
    ∙ gather-get_or src 0 (length src) (omega arith)
    ∙ take-all (length src) src (omega arith)

-- The range without its first elements.
pub drop-gather : (f : ℕ → ℕ) (i n m : ℕ) → drop n (gather f i m) ≡ gather f (i + n) (m - n)
unfolding gather
drop-gather f i zero m =
    let e : i + 0 ≡ i = omega arith in let e' : m - 0 ≡ m = omega arith in rw (e, e')
drop-gather f i (suc n) zero = let e : 0 - suc n ≡ 0 = omega arith in rw e
drop-gather f i (suc n) (suc m) =
    let e : i + suc n ≡ suc i + n = omega arith in
    let e' : suc m - suc n ≡ m - n = omega arith in rw (e, e') (drop-gather f (suc i) n m)

module _ (b : Buffer) (v : IsValid b) where
  -- `append` of bytes that fit returns 0 and adds them behind the bytes in the buffer; bytes that do not
  -- fit are refused with -1, and the buffer stays as it is. The invariant is kept.
  pub append_lem :
      (src : List ℕ)
      → let (rt, b') = append b src in
        (rt ≡ (if leb (length src) (writable_bytes b) then pos 0 else negsuc 0))
        × (contents b'
            ≡ (if leb (length src) (writable_bytes b) then contents b ++ src else contents b))
        × IsValid b'
  unfolding append contents
  append_lem src = elim (Bool-cases (ltb (writable_bytes b) (length src))) [
    | inl full ↦
        let over_long : leb (length src) (writable_bytes b) ≡ false = ground (arith, full) in
        rw (full, over_long) (refl, refl, v)
    | inr fits ↦
        let room : leb (length src) (writable_bytes b) ≡ true = ground (arith, fits) in
        let small : length src ≤ writable_bytes b = ground (arith, fits) in
        let r = b.reader_index in
        let w = b.writer_index in
        let n = length src in
        let inside : w + n ≤ length b.bytes = omega (arith, v.array, v.writer_in) in
        let f : ℕ → ℕ = λ k. get_or (blit b.bytes w src) k 0 in
        let total : w + n - r ≡ w - r + n = omega (arith, v.reader_in) in
        let from : r + (w - r) ≡ w = omega (arith, v.reader_in) in
        rw (fits, room)
          (
            refl,
            rw total (
                gather-append f r (w - r) n
                ∙ rw from (
                    ap₂ ◌++◌ (gather-blit_left b.bytes w src r (w - r) inside (omega arith))
                      (gather-blit b.bytes w src inside))),
            record {
              array = length-blit b.bytes w src ∙ v.array;
              cheap_in = v.cheap_in;
              reader_in = omega (arith, v.reader_in);
              writer_in = omega (arith, v.writer_in, small);
            },
          )
  ]

  -- `retrieve` drops the oldest `n` bytes, all of them if there are fewer, and keeps the invariant.
  pub retrieve_lem :
      (n : ℕ) → (contents (retrieve b n) ≡ drop n (contents b)) × IsValid (retrieve b n)
  unfolding retrieve retrieve_all contents gather
  retrieve_lem n =
      let f : ℕ → ℕ = λ k. get_or b.bytes k 0 in
      let r = b.reader_index in
      let w = b.writer_index in
      elim (Bool-cases (ltb n (readable_bytes b))) [
        | inl part ↦
            let less : n < readable_bytes b = ground (arith, part) in
            let e : w - (r + n) ≡ w - r - n = omega arith in
            rw part (
              rw e (sym (drop-gather f r n (w - r))),
              record {
                array = v.array;
                cheap_in = v.cheap_in;
                reader_in = omega (arith, less);
                writer_in = v.writer_in;
              },
            )
        | inr all ↦
            let more : readable_bytes b ≤ n = ground (arith, all) in
            let none : b.cheap_prepend - b.cheap_prepend ≡ 0 = omega arith in
            let none' : w - r - n ≡ 0 = omega (arith, more) in
            rw all (
              rw (none, drop-gather f r n (w - r), none'),
              record {
                array = v.array;
                cheap_in = v.cheap_in;
                reader_in = omega arith;
                writer_in = v.cheap_in;
              },
            )
      ]

  -- `prepend` of bytes for which there is room before the reader puts them before the bytes in the
  -- buffer, and keeps the invariant.
  pub prepend_lem :
      (src : List ℕ)
      → length src ≤ b.reader_index
      → (contents (prepend b src) ≡ src ++ contents b) × IsValid (prepend b src)
  unfolding prepend contents
  prepend_lem src room =
      let r = b.reader_index in
      let w = b.writer_index in
      let n = length src in
      let start = r - n in
      let up : start + n ≡ r = omega arith in
      let inside : start + n ≤ length b.bytes = omega (arith, v.array, v.writer_in, v.reader_in) in
      let f : ℕ → ℕ = λ k. get_or (blit b.bytes start src) k 0 in
      let total : w - start ≡ n + (w - r) = omega (arith, v.reader_in) in
      (
        rw total (
            gather-append f start n (w - r)
            ∙ rw up (
                ap₂ ◌++◌ (gather-blit b.bytes start src inside)
                  (gather-blit_right b.bytes start src r (w - r) inside (omega arith)))),
        record {
          array = length-blit b.bytes start src ∙ v.array;
          cheap_in = v.cheap_in;
          reader_in = omega (arith, v.reader_in);
          writer_in = v.writer_in;
        },
      )

  -- `retrieveAsCharArray` of at most the bytes in the buffer returns their number and hands out the
  -- oldest ones in order; what stays is the rest, and the invariant is kept.
  pub retrieve_as_char_array_lem :
      (n : ℕ)
      → n ≤ readable_bytes b
      → let (rt, out, b') = retrieve_as_char_array b n in
        (rt ≡ pos n) × (length out ≡ n) × (contents b ≡ out ++ contents b') × IsValid b'
  unfolding retrieve_as_char_array contents
  retrieve_as_char_array_lem n small =
      let f : ℕ → ℕ = λ k. get_or b.bytes k 0 in
      let r = b.reader_index in
      let w = b.writer_index in
      let part : ltb (readable_bytes b) n ≡ false = ground arith in
      let h = retrieve_lem n in
      let total : w - r ≡ n + (w - r - n) = omega arith in
      let inside : r + n ≤ length b.bytes = omega (arith, v.array, v.reader_in, v.writer_in) in
      let out : gather f r n ≡ take n (drop r b.bytes) = gather-drop b.bytes 0 r n inside in
      rw part (
        refl,
        ap length (sym out) ∙ length-gather f r n,
        ap (gather f r) total
            ∙ gather-append f r n (w - r - n)
            ∙ ap₂ ◌++◌ out (sym (drop-gather f r n (w - r)) ∙ sym (h.0)),
        h.1,
      )
