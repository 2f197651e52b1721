-- ===== src/Prelude/Lists.antt =====
-- Byte arrays as lists measured and indexed by native numbers, under the library's names, with
-- `blit` for `memcpy` and `gather` for a range read through an index function.
use Prim.Native.Nat.{ℕ, zero, suc, ◌+◌, ◌-◌, ◌≤◌, ◌<◌, min}
use mathlib.Core.Path.{◌≡◌, refl, ap, ap₂, ◌∙◌}
use mathlib.Core.Bool.{◌&&◌}
use mathlib.Core.List.{List, [], ◌∷◌, ◌++◌}
use native.Mathlib.Omega.{arith}
use project_sensor.Prelude.Tests.{ltb, leb, if◌then◌else◌}

module _ {ℓ} {A : Type ℓ} where
  abbrev pub length : List A → ℕ
  length [] = 0
  length (x ∷ xs) = suc (length xs)

  -- A read past the end gives the default.
  abbrev pub get_or : List A → ℕ → A → A
  get_or [] i d = d
  get_or (x ∷ xs) zero d = x
  get_or (x ∷ xs) (suc i) d = get_or xs i d

  -- A write past the end changes nothing.
  abbrev pub set : List A → ℕ → A → List A
  set [] i v = []
  set (x ∷ xs) zero v = v ∷ xs
  set (x ∷ xs) (suc i) v = x ∷ set xs i v

  abbrev pub take : ℕ → List A → List A
  take zero xs = []
  take (suc n) [] = []
  take (suc n) (x ∷ xs) = x ∷ take n xs

  abbrev pub drop : ℕ → List A → List A
  drop zero xs = xs
  drop (suc n) [] = []
  drop (suc n) (x ∷ xs) = drop n xs

  abbrev pub replicate : ℕ → A → List A
  replicate zero a = []
  replicate (suc n) a = a ∷ replicate n a

  -- `memcpy(dst + off, src, n)` for `src` of length `n`.
  unfoldable pub blit : List A → ℕ → List A → List A
  blit dst off [] = dst
  blit dst off (x ∷ src) = blit (set dst off x) (suc off) src

  -- `f i`, `f (i + 1)`, and so on, `n` of them.
  unfoldable pub gather : (ℕ → A) → ℕ → ℕ → List A
  gather f i zero = []
  gather f i (suc n) = f i ∷ gather f (suc i) n

module _ {ℓ} {A : Type ℓ} where
  pub length-append : (xs ys : List A) → length (xs ++ ys) ≡ length xs + length ys
  length-append [] ys = omega arith
  length-append (x ∷ xs) ys = omega (arith, length-append xs ys)

  pub eq_nil : (xs : List A) → length xs ≡ 0 → xs ≡ []
  eq_nil [] h = refl
  eq_nil (x ∷ xs) h = absurd (omega arith)

  pub length-set : (xs : List A) (i : ℕ) (v : A) → length (set xs i v) ≡ length xs
  length-set [] i v = refl
  length-set (x ∷ xs) zero v = refl
  length-set (x ∷ xs) (suc i) v = ap suc (length-set xs i v)

  -- Writing back what stands there.
  pub set_self : (xs : List A) (i : ℕ) (d : A) → set xs i (get_or xs i d) ≡ xs
  set_self [] i d = refl
  set_self (x ∷ xs) zero d = refl
  set_self (x ∷ xs) (suc i) d = ap (λ r. x ∷ r) (set_self xs i d)

  pub length-take : (n : ℕ) (xs : List A) → length (take n xs) ≡ min n (length xs)
  length-take zero xs = omega arith
  length-take (suc n) [] = omega arith
  length-take (suc n) (x ∷ xs) = omega (arith, length-take n xs)

  pub length-replicate : (n : ℕ) (a : A) → length (replicate n a) ≡ n
  length-replicate zero a = refl
  length-replicate (suc n) a = ap suc (length-replicate n a)

  pub take-all : (n : ℕ) (xs : List A) → length xs ≤ n → take n xs ≡ xs
  take-all zero [] h = refl
  take-all zero (x ∷ xs) h = absurd (omega arith)
  take-all (suc n) [] h = refl
  take-all (suc n) (x ∷ xs) h = ap (λ r. x ∷ r) (take-all n xs (omega arith))

  pub take-append : (xs ys : List A) → take (length xs) (xs ++ ys) ≡ xs
  take-append [] ys = refl
  take-append (x ∷ xs) ys = ap (λ r. x ∷ r) (take-append xs ys)

  pub take-append-drop : (n : ℕ) (xs : List A) → take n xs ++ drop n xs ≡ xs
  take-append-drop zero xs = refl
  take-append-drop (suc n) [] = refl
  take-append-drop (suc n) (x ∷ xs) = ap (λ r. x ∷ r) (take-append-drop n xs)

  pub length-drop : (n : ℕ) (xs : List A) → length (drop n xs) ≡ length xs - n
  length-drop zero xs = omega arith
  length-drop (suc n) [] = omega arith
  length-drop (suc n) (x ∷ xs) = omega (arith, length-drop n xs)

  pub get_or-take :
      (n : ℕ) (xs : List A) (k : ℕ) (d : A) → k < n → get_or (take n xs) k d ≡ get_or xs k d
  get_or-take zero xs k d h = absurd (omega arith)
  get_or-take (suc n) [] k d h = refl
  get_or-take (suc n) (x ∷ xs) zero d h = refl
  get_or-take (suc n) (x ∷ xs) (suc k) d h = get_or-take n xs k d (omega arith)

  pub get_or-drop :
      (n : ℕ) (xs : List A) (k : ℕ) (d : A) → get_or (drop n xs) k d ≡ get_or xs (n + k) d
  get_or-drop zero xs k d = let e : 0 + k ≡ k = omega arith in rw e
  get_or-drop (suc n) [] k d = refl
  get_or-drop (suc n) (x ∷ xs) k d =
      let e : suc n + k ≡ suc (n + k) = omega arith in rw e (get_or-drop n xs k d)

  pub get_or-set :
      (xs : List A) (i j : ℕ) (v d : A)
      → i < length xs
      → get_or (set xs i v) j d ≡ (if leb i j && leb j i then v else get_or xs j d)
  get_or-set [] i j v d h = absurd (omega arith)
  get_or-set (x ∷ xs) zero zero v d h = refl
  get_or-set (x ∷ xs) zero (suc j) v d h = ground arith
  get_or-set (x ∷ xs) (suc i) zero v d h = ground arith
  get_or-set (x ∷ xs) (suc i) (suc j) v d h = ground (arith, get_or-set xs i j v d (omega arith))

  pub length-blit : (dst : List A) (off : ℕ) (src : List A) → length (blit dst off src) ≡ length dst
  unfolding blit
  length-blit dst off [] = refl
  length-blit dst off (x ∷ src) =
      omega (arith, length-blit (set dst off x) (suc off) src, length-set dst off x)

  pub get_or-cons :
      (x : A) (xs : List A) (k : ℕ) (d : A)
      → get_or (x ∷ xs) k d ≡ (if leb k 0 then x else get_or xs (k - 1) d)
  get_or-cons x xs zero d = refl
  get_or-cons x xs (suc k) d = ground (arith, ap (λ (n : ℕ). get_or xs n d) (pred_lem k))
    where
      pred_lem : (n : ℕ) → n ≡ suc n - 1
      pred_lem n = omega arith

  pub length-gather : (f : ℕ → A) (i n : ℕ) → length (gather f i n) ≡ n
  unfolding gather
  length-gather f i zero = refl
  length-gather f i (suc n) = ap suc (length-gather f (suc i) n)

  pub gather-append :
      (f : ℕ → A) (i n m : ℕ) → gather f i (n + m) ≡ gather f i n ++ gather f (i + n) m
  unfolding gather
  gather-append f i zero m = ap₂ (gather f) (zero_right i) (zero_left m)
    where
      zero_right : (n : ℕ) → n ≡ n + 0
      zero_right n = omega arith

      zero_left : (n : ℕ) → 0 + n ≡ n
      zero_left n = omega arith
  gather-append f i (suc n) m =
      let e : suc n + m ≡ suc (n + m) = omega arith in
      let e' : suc i + n ≡ i + suc n = omega arith in
      rw (e, ← e') (ap (λ r. f i ∷ r) (gather-append f (suc i) n m))

  -- Two index functions that agree on the range gather the same elements.
  pub gather_ext :
      (f g : ℕ → A) (i j n : ℕ)
      → ((k : ℕ) → k < n → f (i + k) ≡ g (j + k))
      → gather f i n ≡ gather g j n
  unfolding gather
  gather_ext f g i j zero h = refl
  gather_ext f g i j (suc n) h =
      ap₂ ◌∷◌ (first (h 0 (omega arith)))
        (gather_ext f g (suc i) (suc j) n λ k below. later k (h (suc k) (omega arith)))
    where
      first : f (i + 0) ≡ g (j + 0) → f i ≡ g j
      first e =
          let ei : i + 0 ≡ i = omega arith in
          let ej : j + 0 ≡ j = omega arith in cc (ap f ei, ap g ej)

      later : (k : ℕ) → f (i + suc k) ≡ g (j + suc k) → f (suc i + k) ≡ g (suc j + k)
      later k e =
          let ei : i + suc k ≡ suc i + k = omega arith in
          let ej : j + suc k ≡ suc j + k = omega arith in cc (ap f ei, ap g ej)

  pub gather-snoc : (f : ℕ → A) (n : ℕ) → gather f 0 (n + 1) ≡ gather f 0 n ++ (f n ∷ [])
  unfolding gather
  gather-snoc f n =
      let e : 0 + n ≡ n = omega arith in
      gather-append f 0 n 1 ∙ ap (λ k. gather f 0 n ++ (f k ∷ [])) e

  -- The first element, and the rest counted from it.
  pub gather-uncons : (f : ℕ → A) (n : ℕ) → gather f 0 (suc n) ≡ f 0 ∷ gather (λ k. f (k + 1)) 0 n
  unfolding gather
  gather-uncons f n =
      ap (λ r. f 0 ∷ r) (gather_ext f (λ k. f (k + 1)) 1 0 n λ k below. ap f (shift k))
    where
      shift : (k : ℕ) → 1 + k ≡ 0 + k + 1
      shift k = omega arith

  pub gather-get_or :
      (xs : List A) (d : A) (n : ℕ) → n ≤ length xs → gather (λ k. get_or xs k d) 0 n ≡ take n xs
  unfolding gather
  gather-get_or xs d zero h = refl
  gather-get_or [] d (suc n) h = absurd (omega arith)
  gather-get_or (x ∷ xs) d (suc n) h =
      ap (λ r. x ∷ r)
        (gather_ext (λ k. get_or (x ∷ xs) k d) (λ k. get_or xs k d) 1 0 n (λ k b. shift k)
          ∙ gather-get_or xs d n (omega arith))
    where
      shift : (k : ℕ) → get_or (x ∷ xs) (1 + k) d ≡ get_or xs (0 + k) d
      shift k =
          let up : 1 + k ≡ suc k = omega arith in let at : 0 + k ≡ k = omega arith in rw (up, at)

  pub gather-drop :
      (xs : List A) (d : A) (i n : ℕ)
      → i + n ≤ length xs
      → gather (λ k. get_or xs k d) i n ≡ take n (drop i xs)
  gather-drop xs d i n h =
      gather_ext (λ k. get_or xs k d) (λ k. get_or (drop i xs) k d) i 0 n (λ k b. at k)
      ∙ gather-get_or (drop i xs) d n (omega (arith, length-drop i xs))
    where
      at : (k : ℕ) → get_or xs (i + k) d ≡ get_or (drop i xs) (0 + k) d
      at k = let e : 0 + k ≡ k = omega arith in rw (e, get_or-drop i xs k d)

-- `ground` splits on numbers at `Type 0` only.
module _ {A : Type 0} where
  -- What a copy inside the array leaves at each index.
  pub get_or-blit :
      (dst : List A) (off : ℕ) (src : List A) (j : ℕ) (d : A)
      → off + length src ≤ length dst
      → get_or (blit dst off src) j d
        ≡ (if leb off j && ltb j (off + length src) then get_or src (j - off) d else get_or dst j d)
  unfolding blit
  get_or-blit dst off [] j d h = ground arith
  get_or-blit dst off (x ∷ src) j d h = ground (
    arith,
    length-set dst off x,
    get_or-blit (set dst off x) (suc off) src j d,
    get_or-set dst off j x d,
    get_or-cons x src (j - off) d,
    ap (λ (n : ℕ). get_or src n d) (shift off j),
  )
    where
      shift : (n m : ℕ) → m - suc n ≡ m - n - 1
      shift n m = omega arith
