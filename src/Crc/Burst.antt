-- ===== src/Crc/Burst.antt =====
-- What the check sum detects, and that a string followed by its check sum has none.
use Prim.Native.Nat.{bit_xor}
use project_sensor.Prelude.{
  ℕ, zero, suc, ◌/◌, ◌%◌, ◌<◌, ◌≡◌, refl, sym, ap, ◌∙◌, Bool, true, List, [], ◌∷◌, ◌++◌, arith,
  ◌==◌, ==_iff, if◌then◌else◌,
}
use project_sensor.Prelude.Bits.{bit_xor_self, bit_xor-zero, bit_xor_comm, bit_xor-lt, bit_xor_inj}
use project_sensor.Crc.{table_crc_hi, table_crc_lo, Crc, start, step, pass, word, crc16}
use project_sensor.Crc.Bitwise.{
  all_below, all_below_sound, IsByteList, IsBytes, lo_at, hi_at, step-IsBytes, pass-IsBytes,
}

-- Where an entry of the low table stands: the table is a permutation of the bytes.
find : ℕ → ℕ → ℕ
find zero b = 0
find (suc n) b = if lo_at n == b then n else find n b

found : ℕ → Bool
found i = find 256 (lo_at i) == i

found_all : all_below 256 found ≡ true
unfolding all_below found find lo_at table_crc_lo
found_all = refl

lo_at_inj : (i j : ℕ) → i < 256 → j < 256 → lo_at i ≡ lo_at j → i ≡ j
unfolding found
lo_at_inj i j p q e =
    sym ((==_iff _ _).0 (all_below_sound 256 found i found_all p))
    ∙ ap (find 256) e
    ∙ (==_iff _ _).0 (all_below_sound 256 found j found_all q)

-- Two rounds that end alike had the same index and the same low byte.
step_inv :
    (c d : Crc) (a b : ℕ)
    → IsBytes c
    → IsBytes d
    → a < 256
    → b < 256
    → step c a ≡ step d b
    → (bit_xor c.crc_hi a ≡ bit_xor d.crc_hi b) × (c.crc_lo ≡ d.crc_lo)
unfolding step
step_inv c d a b v w p q e =
    let same : bit_xor c.crc_hi a ≡ bit_xor d.crc_hi b =
      lo_at_inj _ _ (bit_xor-lt 8 c.crc_hi a v.0 p) (bit_xor-lt 8 d.crc_hi b w.0 q)
        (unfold lo_at in ap (λ (r : Crc). r.crc_lo) e) in
    let hi : bit_xor c.crc_lo (hi_at (bit_xor c.crc_hi a))
        ≡ bit_xor d.crc_lo (hi_at (bit_xor d.crc_hi b)) =
      unfold hi_at in ap (λ (r : Crc). r.crc_hi) e in
    let t = hi_at (bit_xor d.crc_hi b) in
    let hi' : bit_xor c.crc_lo t ≡ bit_xor d.crc_lo t =
      ap (λ (i : ℕ). bit_xor c.crc_lo (hi_at i)) (sym same) ∙ hi in
    (
      same,
      bit_xor_inj t c.crc_lo d.crc_lo (bit_xor_comm t c.crc_lo ∙ hi' ∙ bit_xor_comm d.crc_lo t),
    )

-- The same byte from two states: the states were equal.
step_inj : (c d : Crc) (a : ℕ) → IsBytes c → IsBytes d → a < 256 → step c a ≡ step d a → c ≡ d
step_inj c d a v w p e =
    let (same, low) = step_inv c d a a v w p p e in
    let high : c.crc_hi ≡ d.crc_hi =
      bit_xor_inj a c.crc_hi d.crc_hi (bit_xor_comm a c.crc_hi ∙ same ∙ bit_xor_comm d.crc_hi a) in
    cc

pass_inj :
    (buf : List ℕ) (c d : Crc)
    → IsBytes c
    → IsBytes d
    → IsByteList buf
    → pass c buf ≡ pass d buf
    → c ≡ d
unfolding pass
pass_inj [] c d v w h e = e
pass_inj (a ∷ buf) c d v w h e =
    step_inj c d a v w h.0
      (pass_inj buf (step c a) (step d a) (step-IsBytes c a v h.0) (step-IsBytes d a w h.0) h.1 e)

-- Two bytes from one state, ending alike, are the same two bytes.
pair_inj :
    (c : Crc) (a b a' b' : ℕ)
    → IsBytes c
    → a < 256
    → b < 256
    → a' < 256
    → b' < 256
    → step (step c a) b ≡ step (step c a') b'
    → (a ≡ a') × (b ≡ b')
pair_inj c a b a' b' v p q p' q' e =
    let (i, low) =
      step_inv (step c a) (step c a') b b' (step-IsBytes c a v p) (step-IsBytes c a' v p') q q' e in
    let first : bit_xor c.crc_hi a ≡ bit_xor c.crc_hi a' =
      lo_at_inj _ _ (bit_xor-lt 8 c.crc_hi a v.0 p) (bit_xor-lt 8 c.crc_hi a' v.0 p')
        (unfold step lo_at in low) in
    let same : a ≡ a' = bit_xor_inj c.crc_hi a a' first in
    let second : bit_xor ((step c a').crc_hi) b ≡ bit_xor ((step c a').crc_hi) b' =
      ap (λ (n : ℕ). bit_xor ((step c n).crc_hi) b) (sym same) ∙ i in
    (same, bit_xor_inj ((step c a').crc_hi) b b' second)

pass-append : (xs ys : List ℕ) (c : Crc) → pass c (xs ++ ys) ≡ pass (pass c xs) ys
unfolding pass
pass-append [] ys c = refl
pass-append (x ∷ xs) ys c = pass-append xs ys (step c x)

word_inj : (c d : Crc) → IsBytes c → IsBytes d → word c ≡ word d → c ≡ d
word_inj c d v w e =
    let hi : c.crc_hi ≡ d.crc_hi = omega arith in let lo : c.crc_lo ≡ d.crc_lo = omega arith in cc

-- Every corruption confined to two neighbouring bytes changes the check sum: two byte strings
-- that agree before and after such a pair and have the same `crc16` have the same pair.
pub crc16_burst :
    (xs ys : List ℕ) (a b a' b' : ℕ)
    → IsByteList xs
    → IsByteList ys
    → (a < 256) × (b < 256)
    → (a' < 256) × (b' < 256)
    → crc16 (xs ++ (a ∷ b ∷ ys)) ≡ crc16 (xs ++ (a' ∷ b' ∷ ys))
    → (a ≡ a') × (b ≡ b')
unfolding crc16 pass
crc16_burst xs ys a b a' b' hx hy p p' e =
    let c = pass start xs in
    let v : IsBytes c = pass-IsBytes xs start (omega arith) hx in
    let first = step-IsBytes (step c a) b (step-IsBytes c a v p.0) p.1 in
    let second = step-IsBytes (step c a') b' (step-IsBytes c a' v p'.0) p'.1 in
    let ends =
      word_inj (pass (step (step c a) b) ys) (pass (step (step c a') b') ys)
        (pass-IsBytes ys (step (step c a) b) first hy)
        (pass-IsBytes ys (step (step c a') b') second hy)
        (ap word (sym (pass-append xs (a ∷ b ∷ ys) start))
          ∙ e
          ∙ ap word (pass-append xs (a' ∷ b' ∷ ys) start)) in
    pair_inj c a b a' b' v p.0 p.1 p'.0 p'.1 (pass_inj ys _ _ first second hy ends)

first_entries : (lo_at 0 ≡ 0) × (hi_at 0 ≡ 0)
unfolding lo_at hi_at table_crc_lo table_crc_hi
first_entries = (refl, refl)

-- The two bytes of the state, read in turn, clear it.
clears : (c : Crc) → word (pass c (c.crc_hi ∷ c.crc_lo ∷ [])) ≡ 0
unfolding pass step lo_at hi_at
clears c =
    rw
      (
        bit_xor_self c.crc_hi,
        first_entries.0,
        first_entries.1,
        bit_xor-zero c.crc_lo,
        bit_xor_self c.crc_lo,
        first_entries.0,
        first_entries.1,
      )
      refl

-- A byte string followed by the two bytes of its check sum, high byte first, has check sum 0.
pub crc16_residue :
    (buf : List ℕ) → IsByteList buf → crc16 (buf ++ (crc16 buf / 256 ∷ crc16 buf % 256 ∷ [])) ≡ 0
unfolding crc16
crc16_residue buf h =
    let c = pass start buf in
    let v : IsBytes c = pass-IsBytes buf start (omega arith) h in
    let hi : word c / 256 ≡ c.crc_hi = omega arith in
    let lo : word c % 256 ≡ c.crc_lo = omega arith in
    rw (hi, lo, pass-append buf (c.crc_hi ∷ c.crc_lo ∷ []) start) (clears c)
