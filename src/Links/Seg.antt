-- ===== src/Links/Seg.antt =====
-- Parts of a ring of nodes, and what insertion and removal do to them.
use mathlib.Core.Path.{subst}
use project_sensor.Prelude.{ℕ, ◌≡◌, ◌≢◌, refl, sym, ◌∙◌, arith, List, [], ◌∷◌, ◌++◌}
use project_sensor.Links.{Links, insert_after, insert_before, del}

-- From `a` the nodes `xs` lead to `b`, forwards and backwards.
abbrev pub Seg : Links → ℕ → List ℕ → ℕ → Type 0
Seg h a [] b = (h.next a ≡ b) × (h.prev b ≡ a)
Seg h a (x ∷ xs) b = (h.next a ≡ x) × (h.prev x ≡ a) × Seg h x xs b

abbrev pub Fresh : ℕ → List ℕ → Type 0
Fresh x [] = Unit
Fresh x (y ∷ ys) = (x ≢ y) × Fresh x ys

abbrev pub All {ℓ} : (ℕ → Type ℓ) → List ℕ → Type ℓ
All P [] = Unit
All P (x ∷ xs) = P x × All P xs

abbrev pub Distinct : List ℕ → Type 0
Distinct [] = Unit
Distinct (x ∷ xs) = Fresh x xs × Distinct xs

-- The first of `xs`, or the end.
abbrev pub first : List ℕ → ℕ → ℕ
first [] l = l
first (x ∷ _) l = x

-- `h'` has the pointers of `h` but for `next` at `p` and `t`, and `prev` at `q` and `t`.
pub record Agrees (h h' : Links) (p q t : ℕ) : Type 0 where
  pub nexts : (x : ℕ) → x ≢ p → x ≢ t → h'.next x ≡ h.next x
  pub prevs : (x : ℕ) → x ≢ q → x ≢ t → h'.prev x ≡ h.prev x

-- A part of a ring is kept by writes elsewhere.
pub Seg-frame :
    {h h' : Links} (p q t a : ℕ) (xs : List ℕ) (b : ℕ)
    → Agrees h h' p q t
    → Fresh p (a ∷ xs)
    → Fresh q (b ∷ xs)
    → Fresh t (a ∷ b ∷ xs)
    → Seg h a xs b
    → Seg h' a xs b
Seg-frame p q t a [] b e fp fq ft s = ground (arith, e.nexts a, e.prevs b)
Seg-frame p q t a (x ∷ xs) b e fp fq ft s = (
  ground (arith, e.nexts a),
  ground (arith, e.prevs x),
  Seg-frame p q t x xs b e fp.1 (ground arith) (ground arith) s.2,
)

Seg-beyond :
    (h : Links) (y a : ℕ) (ys : List ℕ) (t : ℕ) (zs : List ℕ) (l : ℕ)
    → Seg h a (ys ++ t ∷ zs) l
    → Fresh y (ys ++ t ∷ zs)
    → y ≢ l
    → (y ≢ t) × (y ≢ h.next t)
Seg-beyond h y a [] t [] l s f ne = (f.0, ground arith)
Seg-beyond h y a [] t (z ∷ zs) l s f ne = (f.0, ground arith)
Seg-beyond h y a (x ∷ xs) t zs l s f ne = Seg-beyond h y x xs t zs l s.2 f.1 ne

first-ne : (y l : ℕ) (ys zs : List ℕ) → Fresh y (ys ++ zs) → y ≢ l → y ≢ first zs l
first-ne y l [] [] f ne = ne
first-ne y l [] (z ∷ zs) f ne = f.0
first-ne y l (x ∷ xs) zs f ne = first-ne y l xs zs f.1 ne

pub insert_before-Agrees :
    (b t p : ℕ) (h : Links) → h.prev b ≡ p → Agrees h (insert_before b t h) p b t
unfolding insert_before
insert_before-Agrees b t p h e = record {
  nexts = λ x n m. ground arith;
  prevs = λ x n m. ground arith;
}

pub insert_after-Agrees :
    (b t q : ℕ) (h : Links) → h.next b ≡ q → Agrees h (insert_after b t h) b q t
unfolding insert_after
insert_after-Agrees b t q h e = record {
  nexts = λ x n m. ground arith;
  prevs = λ x n m. ground arith;
}

pub del-Agrees : (t p q : ℕ) (h : Links) → h.prev t ≡ p → h.next t ≡ q → Agrees h (del t h) p q t
unfolding del
del-Agrees t p q h e f = record { nexts = λ x n m. ground arith; prevs = λ x n m. ground arith }

-- The node before the first of `zs` is among those up to there.
pub Seg-prev_All {ℓ} :
    (P : ℕ → Type ℓ) (h : Links) (y : ℕ) (ys zs : List ℕ) (l : ℕ)
    → Seg h y (ys ++ zs) l
    → All P (y ∷ ys)
    → P (h.prev (first zs l))
Seg-prev_All P h y [] [] l s f = subst P (sym s.1) f.0
Seg-prev_All P h y [] (z ∷ zs) l s f = subst P (sym s.1) f.0
Seg-prev_All P h y (x ∷ xs) zs l s f = Seg-prev_All P h x xs zs l s.2 f.1

pub Fresh-All : (a : ℕ) (xs : List ℕ) → Fresh a xs → All (λ x. a ≢ x) xs
Fresh-All a [] f = tt
Fresh-All a (x ∷ xs) f = (f.0, Fresh-All a xs f.1)

Seg-prev_first :
    (h : Links) (a y : ℕ) (ys zs : List ℕ) (l : ℕ)
    → Seg h y (ys ++ zs) l
    → Fresh a (y ∷ ys)
    → a ≢ h.prev (first zs l)
Seg-prev_first h a y ys zs l s f = Seg-prev_All (λ x. a ≢ x) h y ys zs l s (Fresh-All a (y ∷ ys) f)

pub Fresh-append : (a : ℕ) (xs ys : List ℕ) → Fresh a (xs ++ ys) → Fresh a xs × Fresh a ys
Fresh-append a [] ys f = (tt, f)
Fresh-append a (x ∷ xs) ys f = let r = Fresh-append a xs ys f.1 in ((f.0, r.0), r.1)

-- Insertion before the first of `zs`.
pub insert_before-Seg :
    (h : Links) (t a : ℕ) (ys zs : List ℕ) (l : ℕ)
    → Seg h a (ys ++ zs) l
    → Distinct (ys ++ zs)
    → Fresh a (ys ++ zs)
    → Fresh l (ys ++ zs)
    → Fresh t (a ∷ l ∷ ys ++ zs)
    → Seg (insert_before (first zs l) t h) a (ys ++ t ∷ zs) l
unfolding insert_before
insert_before-Seg h t a [] [] l s d fa fl ft =
    (ground arith, ground arith, (ground arith, ground arith))
insert_before-Seg h t a [] (z ∷ zs) l s d fa fl ft = (
  ground arith,
  ground arith,
  (
    ground arith,
    ground arith,
    Seg-frame a z t z zs l (insert_before-Agrees z t a h s.1) fa (ground arith) (ground arith) s.2,
  ),
)
insert_before-Seg h t a (y ∷ ys) zs l s d fa fl ft =
    let far = Seg-prev_first h a y ys zs l s.2 (Fresh-append a (y ∷ ys) zs fa).0 in
    let off = first-ne y l ys zs d.0 (ground arith) in
    (
      ground (arith),
      ground (arith),
      insert_before-Seg h t y ys zs l s.2 d.1 d.0 fl.1 (ground arith),
    )

-- Removal of `t`.
pub del-Seg :
    (h : Links) (t a : ℕ) (ys zs : List ℕ) (l : ℕ)
    → Seg h a (ys ++ t ∷ zs) l
    → Distinct (ys ++ t ∷ zs)
    → Fresh a (ys ++ t ∷ zs)
    → Fresh l (ys ++ t ∷ zs)
    → Seg (del t h) a (ys ++ zs) l
unfolding del
del-Seg h t a [] [] l s d fa fl = (ground arith, ground arith)
del-Seg h t a [] (z ∷ zs) l s d fa fl = (
  ground arith,
  ground arith,
  Seg-frame a z t z zs l (del-Agrees t a z h s.1 s.2.0) (ground arith) (ground arith) (ground arith)
      s.2.2,
)
del-Seg h t a (y ∷ ys) zs l s d fa fl =
    let far = Seg-prev_first h a y ys (t ∷ zs) l s.2 (Fresh-append a (y ∷ ys) (t ∷ zs) fa).0 in
    let off = Seg-beyond h y y ys t zs l s.2 d.0 (ground arith) in
    let apart = (Fresh-append a (y ∷ ys) (t ∷ zs) fa).1 in
    let e = del-Agrees t (h.prev t) (h.next t) h refl refl in
    (
      e.nexts a far apart.0 ∙ s.0,
      e.prevs y off.1 off.0 ∙ s.1,
      del-Seg h t y ys zs l s.2 d.1 d.0 fl.1,
    )

pub Fresh-insert : (a t : ℕ) (ys zs : List ℕ) → Fresh a (ys ++ zs) → a ≢ t → Fresh a (ys ++ t ∷ zs)
Fresh-insert a t [] zs f ne = (ne, f)
Fresh-insert a t (y ∷ ys) zs f ne = (f.0, Fresh-insert a t ys zs f.1 ne)

pub Distinct-insert :
    (t : ℕ) (ys zs : List ℕ) → Distinct (ys ++ zs) → Fresh t (ys ++ zs) → Distinct (ys ++ t ∷ zs)
Distinct-insert t [] zs d f = (f, d)
Distinct-insert t (y ∷ ys) zs d f =
    (Fresh-insert y t ys zs d.0 (λ e. f.0 (sym e)), Distinct-insert t ys zs d.1 f.1)

pub Fresh-remove : (a t : ℕ) (ys zs : List ℕ) → Fresh a (ys ++ t ∷ zs) → Fresh a (ys ++ zs)
Fresh-remove a t [] zs f = f.1
Fresh-remove a t (y ∷ ys) zs f = (f.0, Fresh-remove a t ys zs f.1)

pub Distinct-remove : (t : ℕ) (ys zs : List ℕ) → Distinct (ys ++ t ∷ zs) → Distinct (ys ++ zs)
Distinct-remove t [] zs d = d.1
Distinct-remove t (y ∷ ys) zs d = (Fresh-remove y t ys zs d.0, Distinct-remove t ys zs d.1)
