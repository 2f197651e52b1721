-- ===== src/Prelude/Bits.antt =====
-- Laws of exclusive or at variables. The native operation stands for a recursion on binary
-- digits; from its lowest digit the laws follow by induction on a bound.
use Prim.Native.Nat.{bit_xor, digits, bit_xor-bitwise, differ}
use native.Mathlib.Nat.{pow-suc}
use project_sensor.Prelude.{
  ℕ, zero, suc, ◌⊎◌, inl, inr, ◌+◌, ◌*◌, ◌/◌, ◌%◌, ◌≤◌, ◌<◌, ◌^◌, ◌≡◌, refl, sym, ap, ap₂, ◌∙◌,
  arith,
}

-- A number of digits above the value changes nothing.
module _ (z : ℕ → ℕ) (f : ℕ → ℕ → ℕ) where
  one_more : (k x y : ℕ) → x ≤ k → digits z f (suc k) x y ≡ digits z f k x y
  one_more zero zero y small = refl
  one_more (suc k) zero y small = refl
  one_more zero (suc x) y small = absurd (omega arith)
  one_more (suc k) (suc x) y small = rw (one_more k (suc x / 2) (y / 2) (omega arith))

  any_more : (k l x y : ℕ) → x ≤ l → l ≤ k → digits z f k x y ≡ digits z f l x y
  any_more zero zero x y small under = refl
  any_more zero (suc l) x y small under = absurd (omega arith)
  any_more (suc k) l x y small under = elim (either l) [
    | inl same ↦ ap (λ (n : ℕ). digits z f n x y) (sym same)
    | inr less ↦ one_more k x y (omega arith) ∙ any_more k l x y small less
  ]
    where
      either : (n : ℕ) → (l ≡ suc k) ⊎ (l ≤ k)
      either n = ground arith

differ_bits : (x y : ℕ) → x < 2 → y < 2 → differ x y ≡ (x + y) % 2
differ_bits zero zero p q = refl
differ_bits zero (suc zero) p q = refl
differ_bits zero (suc (suc y)) p q = absurd (omega arith)
differ_bits (suc zero) zero p q = refl
differ_bits (suc zero) (suc zero) p q = refl
differ_bits (suc zero) (suc (suc y)) p q = absurd (omega arith)
differ_bits (suc (suc x)) y p q = absurd (omega arith)

pub bit_xor_step : (a b : ℕ) → bit_xor a b ≡ bit_xor (a / 2) (b / 2) * 2 + (a % 2 + b % 2) % 2
bit_xor_step zero b = simp bit_xor-bitwise (omega arith)
bit_xor_step (suc a) b = simp bit_xor-bitwise (
    omega (
      arith,
      any_more (λ y. y) differ a (suc a / 2) (suc a / 2) (b / 2) (omega arith) (omega arith),
      differ_bits (suc a % 2) (b % 2) (omega arith) (omega arith),
    ))

-- The laws go from the halves to the whole; the fuel bounds the operands' sum.
self_fuel : (k a : ℕ) → a ≤ k → bit_xor a a ≡ 0
self_fuel zero zero h = refl
self_fuel zero (suc a) h = absurd (omega arith)
self_fuel (suc k) a h = omega (arith, bit_xor_step a a, self_fuel k (a / 2) (omega arith))

zero_fuel : (k a : ℕ) → a ≤ k → bit_xor a 0 ≡ a
zero_fuel zero zero h = refl
zero_fuel zero (suc a) h = absurd (omega arith)
zero_fuel (suc k) a h = omega (arith, bit_xor_step a 0, zero_fuel k (a / 2) (omega arith))

comm_fuel : (k a b : ℕ) → a + b ≤ k → bit_xor a b ≡ bit_xor b a
comm_fuel zero zero zero h = refl
comm_fuel zero zero (suc b) h = absurd (omega arith)
comm_fuel zero (suc a) b h = absurd (omega arith)
comm_fuel (suc k) a b h =
    omega (arith, bit_xor_step a b, bit_xor_step b a, comm_fuel k (a / 2) (b / 2) (omega arith))

-- The lowest digit, and the rest.
pub halves :
    (a b : ℕ) → (bit_xor a b / 2 ≡ bit_xor (a / 2) (b / 2)) × (bit_xor a b % 2 ≡ (a + b) % 2)
halves a b = omega (arith, bit_xor_step a b)

assoc_fuel : (k a b c : ℕ) → a + b + c ≤ k → bit_xor (bit_xor a b) c ≡ bit_xor a (bit_xor b c)
assoc_fuel zero zero zero zero h = refl
assoc_fuel zero zero zero (suc c) h = absurd (omega arith)
assoc_fuel zero zero (suc b) c h = absurd (omega arith)
assoc_fuel zero (suc a) b c h = absurd (omega arith)
assoc_fuel (suc k) a b c h = omega (
  arith,
  bit_xor_step (bit_xor a b) c
      ∙ ap (λ (n : ℕ). bit_xor n (c / 2) * 2 + (bit_xor a b % 2 + c % 2) % 2) ((halves a b).0),
  bit_xor_step a (bit_xor b c)
      ∙ ap (λ (n : ℕ). bit_xor (a / 2) n * 2 + (a % 2 + bit_xor b c % 2) % 2) ((halves b c).0),
  halves a b,
  halves b c,
  assoc_fuel k (a / 2) (b / 2) (c / 2) (omega arith),
)

lt_fuel : (k a b : ℕ) → a < 2 ^ k → b < 2 ^ k → bit_xor a b < 2 ^ k
lt_fuel zero zero zero p q = omega arith
lt_fuel zero zero (suc b) p q = absurd (omega arith)
lt_fuel zero (suc a) b p q = absurd (omega arith)
lt_fuel (suc k) a b p q = omega (
  arith,
  pow-suc 2 k,
  bit_xor_step a b,
  lt_fuel k (a / 2) (b / 2) (omega (arith, pow-suc 2 k)) (omega (arith, pow-suc 2 k)),
)

pub bit_xor_self : (a : ℕ) → bit_xor a a ≡ 0
bit_xor_self a = self_fuel a a (omega arith)

pub bit_xor-zero : (a : ℕ) → bit_xor a 0 ≡ a
bit_xor-zero a = zero_fuel a a (omega arith)

pub bit_xor_comm : (a b : ℕ) → bit_xor a b ≡ bit_xor b a
bit_xor_comm a b = comm_fuel (a + b) a b (omega arith)

pub bit_xor_assoc : (a b c : ℕ) → bit_xor (bit_xor a b) c ≡ bit_xor a (bit_xor b c)
bit_xor_assoc a b c = assoc_fuel (a + b + c) a b c (omega arith)

-- The width is kept.
pub bit_xor-lt : (k a b : ℕ) → a < 2 ^ k → b < 2 ^ k → bit_xor a b < 2 ^ k
bit_xor-lt = lt_fuel

-- A value toggled twice is itself.
pub bit_xor_cancel : (a b : ℕ) → bit_xor a (bit_xor a b) ≡ b
bit_xor_cancel a b =
    sym (bit_xor_assoc a a b)
    ∙ ap (λ (n : ℕ). bit_xor n b) (bit_xor_self a)
    ∙ bit_xor_comm 0 b
    ∙ bit_xor-zero b

pub bit_xor_inj : (a b c : ℕ) → bit_xor a b ≡ bit_xor a c → b ≡ c
bit_xor_inj a b c e = sym (bit_xor_cancel a b) ∙ ap (λ (n : ℕ). bit_xor a n) e ∙ bit_xor_cancel a c

double : (a k : ℕ) → a * 2 ^ suc k ≡ 2 * (a * 2 ^ k)
double a k = omega (arith, ap (λ (t : ℕ). a * t) (pow-suc 2 k))

-- Two fields of `k` bits and above are toggled apart.
pub bit_xor_fields :
    (k a b c d : ℕ)
    → b < 2 ^ k
    → d < 2 ^ k
    → bit_xor (a * 2 ^ k + b) (c * 2 ^ k + d) ≡ bit_xor a c * 2 ^ k + bit_xor b d
bit_xor_fields zero a b c d p q =
    let left : a * 2 ^ 0 + b ≡ a = omega arith in
    let right : c * 2 ^ 0 + d ≡ c = omega arith in
    let eb : b ≡ 0 = omega arith in
    let ed : d ≡ 0 = omega arith in rw (left, right, eb, ed) (omega (arith, bit_xor_self 0))
bit_xor_fields (suc k) a b c d p q =
    let left : (a * 2 ^ suc k + b) / 2 ≡ a * 2 ^ k + b / 2 = omega (arith, double a k) in
    let right : (c * 2 ^ suc k + d) / 2 ≡ c * 2 ^ k + d / 2 = omega (arith, double c k) in
    omega (
      arith,
      bit_xor_step (a * 2 ^ suc k + b) (c * 2 ^ suc k + d)
          ∙ ap₂
              (λ (n m : ℕ).
                bit_xor n m * 2 + ((a * 2 ^ suc k + b) % 2 + (c * 2 ^ suc k + d) % 2) % 2)
              left right,
      bit_xor_step b d,
      double a k,
      double c k,
      double (bit_xor a c) k,
      bit_xor_fields k a (b / 2) c (d / 2) (omega (arith, pow-suc 2 k))
          (omega (arith, pow-suc 2 k)),
    )
