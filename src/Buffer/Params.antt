-- ===== src/Buffer/Params.antt =====
-- The parameters of an event, as `package_event_handler` appends them and `datum_save` reads them
-- (app/main.cpp).
use project_sensor.Prelude.{
  ℕ, zero, suc, ◌+◌, ◌-◌, ◌*◌, ◌/◌, ◌%◌, ◌^◌, ◌≤◌, ◌<◌, ◌≡◌, sym, ap, ◌∙◌, length-gather, true,
  List, [], ◌∷◌, ◌++◌, arith, leb, length, get_or, drop, gather,
}
use project_sensor.Buffer.{
  Buffer, writable_bytes, readable_bytes, append, append_int16, peek_int16, read_int16, prepend,
  long_bytes, prepend_int32, peek_int32, read_int32,
}
use project_sensor.Buffer.Queue.{
  contents, IsValid, append_lem, retrieve_lem, prepend_lem, drop-gather,
}

abbrev bytes_of : ℕ → List ℕ
bytes_of x = x % 2 ^ 8 ∷ x / 2 ^ 8 % 2 ^ 8 ∷ []

-- `appendInt16` with room adds the two bytes.
append_int16-contents :
    (b : Buffer) (x : ℕ)
    → IsValid b
    → 2 ≤ writable_bytes b
    → (contents (append_int16 b x) ≡ contents b ++ bytes_of x) × IsValid (append_int16 b x)
unfolding append_int16
append_int16-contents b x v room =
    let h = append_lem b v (bytes_of x) in
    let fits : leb 2 (writable_bytes b) ≡ true = ground arith in (rw fits at (h.1), h.2)

append_int16-room :
    (b : Buffer) (x : ℕ)
    → 2 ≤ writable_bytes b
    → writable_bytes (append_int16 b x) ≡ writable_bytes b - 2
unfolding append_int16 append
append_int16-room b x room = ground arith

-- The first two elements of a range.
gather_two :
    (f : ℕ → ℕ) (i n lo hi : ℕ) (rest : List ℕ)
    → gather f i n ≡ lo ∷ hi ∷ rest
    → (f i ≡ lo) × (f (i + 1) ≡ hi)
unfolding gather
gather_two f i zero lo hi rest e = let none = ap length e in absurd (omega arith)
gather_two f i (suc zero) lo hi rest e = let none = ap length e in absurd (omega arith)
gather_two f i (suc (suc n)) lo hi rest e =
    let one : i + 1 ≡ suc i = omega arith in
    (ap (λ r. get_or r 0 0) e, rw one (ap (λ r. get_or r 1 0) e))

-- The two oldest bytes.
peek-contents :
    (b : Buffer) (lo hi : ℕ) (rest : List ℕ)
    → contents b ≡ lo ∷ hi ∷ rest
    → peek_int16 b ≡ lo + hi * 2 ^ 8
unfolding peek_int16 contents
peek-contents b lo hi rest e =
    let h = gather_two (λ k. get_or b.bytes k 0) b.reader_index (readable_bytes b) lo hi rest e in
    rw (h.0, h.1)

read_int16-contents :
    (b : Buffer) (lo hi : ℕ) (rest : List ℕ)
    → IsValid b
    → contents b ≡ lo ∷ hi ∷ rest
    → ((read_int16 b).0 ≡ lo + hi * 2 ^ 8)
      × (contents ((read_int16 b).1) ≡ rest)
      × IsValid ((read_int16 b).1)
unfolding read_int16
read_int16-contents b lo hi rest v e =
    let h = retrieve_lem b v 2 in (peek-contents b lo hi rest e, h.0 ∙ ap (drop 2) e, h.1)

-- Two 16-bit values appended to an empty buffer with room for four bytes are read back in the same
-- order, and leave it empty and valid.
pub append_int16-read_int16 :
    (b : Buffer) (x y : ℕ)
    → IsValid b
    → contents b ≡ []
    → 4 ≤ writable_bytes b
    → (x < 2 ^ 16) × (y < 2 ^ 16)
    → let (x', b') = read_int16 (append_int16 (append_int16 b x) y) in
      let (y', b'') = read_int16 b' in (x' ≡ x) × (y' ≡ y) × (contents b'' ≡ []) × IsValid b''
append_int16-read_int16 b x y v empty room small =
    let one = append_int16-contents b x v (omega arith) in
    let b1 = append_int16 b x in
    let two =
      append_int16-contents b1 y (one.1) (omega (arith, append_int16-room b x (omega arith))) in
    let b2 = append_int16 b1 y in
    let all : contents b2 ≡ bytes_of x ++ bytes_of y =
      two.0 ∙ ap (λ r. r ++ bytes_of y) (one.0 ∙ ap (λ r. r ++ bytes_of x) empty) in
    let first = read_int16-contents b2 (x % 256) (x / 256 % 256) (bytes_of y) (two.1) all in
    let second =
      read_int16-contents ((read_int16 b2).1) (y % 256) (y / 256 % 256) [] (first.2) (first.1) in
    (omega (arith, first.0), omega (arith, second.0), second.1, second.2)

-- The first four elements of a range.
gather_four :
    (f : ℕ → ℕ) (i n p q r s : ℕ) (rest : List ℕ)
    → gather f i n ≡ p ∷ q ∷ r ∷ s ∷ rest
    → (f (i + 0) ≡ p) × (f (i + 1) ≡ q) × (f (i + 2) ≡ r) × (f (i + 3) ≡ s)
gather_four f i n p q r s rest e =
    let n2 : n ≡ 2 + (n - 2) = omega (arith, sym (length-gather f i n) ∙ ap length e) in
    let front = gather_two f i n p q (r ∷ s ∷ rest) e in
    let zero_right : i + 0 ≡ i = omega arith in
    let tail : gather f (i + 2) (n - 2) ≡ r ∷ s ∷ rest =
      sym (drop-gather f i 2 n) ∙ ap (drop 2) e in
    let back = gather_two f (i + 2) (n - 2) r s rest tail in
    let three : i + 2 + 1 ≡ i + 3 = omega arith in
    (rw zero_right (front.0), front.1, back.0, rw three at (back.1))

-- A 32-bit value that is put before the content, with room for it, is the value that is read next, and
-- leaves the content as it was.
pub prepend_int32-read_int32 :
    (b : Buffer) (x : ℕ)
    → IsValid b
    → 4 ≤ b.reader_index
    → x < 2 ^ 32
    → let (x', b') = read_int32 (prepend_int32 b x) in
      (x' ≡ x) × (contents b' ≡ contents b) × IsValid b'
unfolding read_int32 prepend_int32 peek_int32 contents
prepend_int32-read_int32 b x v room small =
    let h = prepend_lem b v (long_bytes x) room in
    let c = prepend b (long_bytes x) in
    let t = retrieve_lem c (h.1) 4 in
    let four =
      gather_four (λ k. get_or c.bytes k 0) c.reader_index (readable_bytes c) (x % 256)
        (x / 256 % 256) (x / 65536 % 256) (x / 16777216 % 256) (contents b) (h.0) in
    (omega (arith, four), t.0 ∙ ap (drop 4) (h.0), t.1)
