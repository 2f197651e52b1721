-- ===== src/Crc/Bitwise.antt =====
-- The tables against the polynomial: `crc16` is the bit by bit division by 0xA001, with the two
-- bytes of the remainder exchanged.
use Prim.Native.Nat.{bit_xor}
use project_sensor.Prelude.{
  ℕ, zero, suc, ◌+◌, ◌*◌, ◌/◌, ◌%◌, ◌^◌, ◌<◌, ◌≡◌, refl, ap, ◌∙◌, Bool, true, ◌&&◌, List, [], ◌∷◌,
  arith, ltb, ◌==◌, ==_iff, if◌then◌else◌, get_or,
}
use project_sensor.Prelude.Bits.{
  halves, bit_xor_self, bit_xor-zero, bit_xor_comm, bit_xor_assoc, bit_xor-lt, bit_xor_fields,
}
use project_sensor.Crc.{table_crc_hi, table_crc_lo, Crc, start, step, pass, crc16}

-- One binary digit of the division.
unfoldable pub shift : ℕ → ℕ
shift w = if w % 2 == 1 then bit_xor (w / 2) 0xa001 else w / 2

unfoldable pub shifts : ℕ → ℕ → ℕ
shifts zero w = w
shifts (suc n) w = shifts n (shift w)

unfoldable pub divide : ℕ → List ℕ → ℕ
divide w [] = w
divide w (byte ∷ buf) = divide (shifts 8 (bit_xor w byte)) buf

-- The remainder of a byte string.
unfoldable pub remainder : List ℕ → ℕ
remainder buf = divide 0xffff buf

abbrev pub swap_bytes : ℕ → ℕ
swap_bytes w = w % 256 * 256 + w / 256

-- Every byte below a bound passes a test.
unfoldable pub all_below : ℕ → (ℕ → Bool) → Bool
all_below zero test = true
all_below (suc bound) test = all_below bound test && test bound

pub all_below_sound :
    (bound : ℕ) (test : ℕ → Bool) (i : ℕ) → all_below bound test ≡ true → i < bound → test i ≡ true
unfolding all_below
all_below_sound (suc bound) test i passed small = ground (arith, all_below_sound bound test i)
all_below_sound zero test i passed small = absurd (omega arith)

abbrev pub IsByteList : List ℕ → Type 0
IsByteList [] = Unit
IsByteList (x ∷ xs) = (x < 256) × IsByteList xs

unfoldable pub hi_at : ℕ → ℕ
hi_at i = get_or table_crc_hi i 0

unfoldable pub lo_at : ℕ → ℕ
lo_at i = get_or table_crc_lo i 0

entry : ℕ → Bool
entry i = shifts 8 i == lo_at i * 256 + hi_at i

entry_all : all_below 256 entry ≡ true
unfolding all_below entry shifts shift hi_at lo_at table_crc_hi table_crc_lo
entry_all = refl

entry_lem : (i : ℕ) → i < 256 → shifts 8 i ≡ lo_at i * 256 + hi_at i
unfolding entry
entry_lem i h = (==_iff _ _).0 (all_below_sound 256 entry i entry_all h)

in_byte : ℕ → Bool
in_byte i = ltb (lo_at i) 256 && ltb (hi_at i) 256

in_byte_all : all_below 256 in_byte ≡ true
unfolding all_below in_byte hi_at lo_at table_crc_hi table_crc_lo
in_byte_all = refl

-- Every entry of both tables is a byte.
pub entries-lt : (i : ℕ) → i < 256 → (lo_at i < 256) × (hi_at i < 256)
unfolding in_byte
entries-lt i h = ground (arith, all_below_sound 256 in_byte i in_byte_all h)

mask : ℕ → ℕ
mask w = if w % 2 == 1 then 0xa001 else 0

shift-mask : (w : ℕ) → shift w ≡ bit_xor (w / 2) (mask w)
unfolding shift mask
shift-mask w = ground (arith, bit_xor-zero (w / 2))

mask-bit_xor : (a b : ℕ) → mask (bit_xor a b) ≡ bit_xor (mask a) (mask b)
unfolding mask
mask-bit_xor a b =
    ground (arith, halves a b, bit_xor_self 0xa001, bit_xor-zero 0xa001, bit_xor_self 0)

-- The pairs of two sums regrouped.
bit_xor_interchange :
    (a b c d : ℕ) → bit_xor (bit_xor a b) (bit_xor c d) ≡ bit_xor (bit_xor a c) (bit_xor b d)
bit_xor_interchange a b c d = cc (
  bit_xor_assoc a b (bit_xor c d),
  bit_xor_assoc b c d,
  bit_xor_comm b c,
  bit_xor_assoc c b d,
  bit_xor_assoc a c (bit_xor b d),
)

shift-bit_xor : (a b : ℕ) → shift (bit_xor a b) ≡ bit_xor (shift a) (shift b)
shift-bit_xor a b = cc (
  shift-mask (bit_xor a b),
  shift-mask a,
  shift-mask b,
  mask-bit_xor a b,
  (halves a b).0,
  bit_xor_interchange (a / 2) (b / 2) (mask a) (mask b),
)

shifts-bit_xor : (n a b : ℕ) → shifts n (bit_xor a b) ≡ bit_xor (shifts n a) (shifts n b)
unfolding shifts
shifts-bit_xor zero a b = refl
shifts-bit_xor (suc n) a b =
    ap (shifts n) (shift-bit_xor a b) ∙ shifts-bit_xor n (shift a) (shift b)

shift_even : (x : ℕ) → shift (x * 2) ≡ x
unfolding shift
shift_even x = ground arith

shifts_high : (h : ℕ) → shifts 8 (h * 256) ≡ h
unfolding shifts
shifts_high h =
    let e : h * 256 ≡ h * 2 * 2 * 2 * 2 * 2 * 2 * 2 * 2 = omega arith in rw e (simp shift_even)

-- A byte toggles the low field only, and a high field passes through it.
low_field :
    (h l byte : ℕ) → l < 256 → byte < 256 → bit_xor (h * 256 + l) byte ≡ h * 256 + bit_xor l byte
low_field h l byte p q =
    let e : 0 * 2 ^ 8 + byte ≡ byte = omega arith in
    let f : bit_xor (h * 2 ^ 8 + l) byte ≡ bit_xor h 0 * 2 ^ 8 + bit_xor l byte =
      rw e at (bit_xor_fields 8 h l 0 byte p q) in
    omega (arith, f, bit_xor-zero h)

-- A byte of the division, from the entries of the tables.
divide_byte :
    (h l byte : ℕ)
    → h < 256
    → l < 256
    → byte < 256
    → let i = bit_xor l byte in
      shifts 8 (bit_xor (h * 256 + l) byte) ≡ lo_at i * 256 + bit_xor h (hi_at i)
divide_byte h l byte r p q =
    let i = bit_xor l byte in
    let small : i < 256 = bit_xor-lt 8 l byte p q in
    let apart : bit_xor (h * 256) i ≡ h * 256 + i = omega (
      arith,
      low_field h 0 i (omega arith) small,
      bit_xor_comm 0 i,
      bit_xor-zero i,
      ap (λ (n : ℕ). bit_xor n i) (plus_zero (h * 256)),
    ) in
    rw (low_field h l byte p q, ← apart, shifts-bit_xor 8 (h * 256) i, shifts_high h)
      (rw (entry_lem i small, bit_xor_comm h (lo_at i * 256 + hi_at i))
        (rw (low_field (lo_at i) (hi_at i) h ((entries-lt i small).1) r)
          (ap (λ (n : ℕ). lo_at i * 256 + n) (bit_xor_comm (hi_at i) h))))
  where
    plus_zero : (n : ℕ) → n + 0 ≡ n
    plus_zero n = omega arith

abbrev pub IsBytes : Crc → Type 0
IsBytes c = (c.crc_hi < 256) × (c.crc_lo < 256)

-- One round leaves two bytes.
pub step-IsBytes : (c : Crc) (byte : ℕ) → IsBytes c → byte < 256 → IsBytes (step c byte)
unfolding step hi_at lo_at
step-IsBytes c byte v h =
    let small = bit_xor-lt 8 c.crc_hi byte v.0 h in
    let e = entries-lt (bit_xor c.crc_hi byte) small in
    (bit_xor-lt 8 c.crc_lo (hi_at (bit_xor c.crc_hi byte)) v.1 e.1, e.0)

pub pass-IsBytes : (buf : List ℕ) (c : Crc) → IsBytes c → IsByteList buf → IsBytes (pass c buf)
unfolding pass
pass-IsBytes [] c v h = v
pass-IsBytes (byte ∷ buf) c v h = pass-IsBytes buf (step c byte) (step-IsBytes c byte v h.0) h.1

divide-pass :
    (buf : List ℕ) (c : Crc)
    → IsBytes c
    → IsByteList buf
    → divide (c.crc_lo * 256 + c.crc_hi) buf ≡ (pass c buf).crc_lo * 256 + (pass c buf).crc_hi
unfolding divide pass step hi_at lo_at
divide-pass [] c v h = refl
divide-pass (byte ∷ buf) c v h =
    rw (divide_byte c.crc_lo c.crc_hi byte v.1 v.0 h.0)
      (divide-pass buf (step c byte) (step-IsBytes c byte v h.0) h.1)

-- The table version of `crc16` computes, for every byte string, the remainder of the bit by bit
-- division by the polynomial 0xA001 from 0xFFFF, with its two bytes exchanged.
pub crc16-remainder : (buf : List ℕ) → IsByteList buf → crc16 buf ≡ swap_bytes (remainder buf)
unfolding crc16 remainder
crc16-remainder buf h =
    let v = pass-IsBytes buf start (omega arith) h in
    omega (arith, divide-pass buf start (omega arith) h)

-- The check sum is a 16-bit word.
pub crc16-lt : (buf : List ℕ) → IsByteList buf → crc16 buf < 65536
unfolding crc16
crc16-lt buf h = omega (arith, pass-IsBytes buf start (omega arith) h)
