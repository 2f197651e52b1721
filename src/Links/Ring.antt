-- ===== src/Links/Ring.antt =====
-- A list as a ring through its head, and what each operation does to it and to other lists.
use mathlib.Core.Path.{subst}
use project_sensor.Prelude.{ℕ, ◌≡◌, refl, sym, arith, Bool, true, false, List, [], ◌∷◌, ◌++◌}
use project_sensor.Links.{Links, init, insert_after, insert_before, del, is_empty}
use project_sensor.Links.Seg.{
  Seg, Fresh, All, Distinct, first, Agrees, Seg-frame, Seg-prev_All, insert_before-Agrees,
  insert_after-Agrees, del-Agrees, insert_before-Seg, del-Seg, Fresh-insert, Distinct-insert,
  Fresh-remove, Distinct-remove,
}

-- The list with head `l` holds the nodes `xs`, each once.
pub record IsRing (h : Links) (l : ℕ) (xs : List ℕ) : Type 0 where
  pub seg : Seg h l xs l
  pub distinct : Distinct (l ∷ xs)

-- A list that was just initialised is empty.
pub init-IsRing : (l : ℕ) (h : Links) → IsRing (init l h) l []
unfolding init
init-IsRing l h = record { seg = (ground arith, ground arith); distinct = (tt, tt) }

abbrev pub is_nil : List ℕ → Bool
is_nil [] = true
is_nil (_ ∷ _) = false

-- `list_empty` tells whether there is a node on the list.
pub is_empty_lem : (h : Links) (l : ℕ) (xs : List ℕ) → IsRing h l xs → is_empty l h ≡ is_nil xs
unfolding is_empty
is_empty_lem h l [] r = ground (arith, r.seg)
is_empty_lem h l (x ∷ xs) r = ground (arith, r.seg, r.distinct)

module _ (h : Links) (t l : ℕ) (ys zs : List ℕ) where
  -- A new node is linked before any node of a list, or at its end, and the others keep their places.
  pub insert_before-IsRing :
      IsRing h l (ys ++ zs)
      → Fresh t (l ∷ ys ++ zs)
      → IsRing (insert_before (first zs l) t h) l (ys ++ t ∷ zs)
  insert_before-IsRing r f = record {
    seg = insert_before-Seg h t l ys zs l r.seg r.distinct.1 r.distinct.0 r.distinct.0 (f.0, f);
    distinct = (
      Fresh-insert l t ys zs r.distinct.0 (λ e. f.0 (sym e)),
      Distinct-insert t ys zs r.distinct.1 f.1,
    );
  }

  -- A node that is unlinked leaves the others in their places.
  pub del-IsRing : IsRing h l (ys ++ t ∷ zs) → IsRing (del t h) l (ys ++ zs)
  del-IsRing r = record {
    seg = del-Seg h t l ys zs l r.seg r.distinct.1 r.distinct.0 r.distinct.0;
    distinct = (Fresh-remove l t ys zs r.distinct.0, Distinct-remove t ys zs r.distinct.1);
  }

-- A new node at the front.
pub insert_after-IsRing :
    (h : Links) (t l : ℕ) (xs : List ℕ)
    → IsRing h l xs
    → Fresh t (l ∷ xs)
    → IsRing (insert_after l t h) l (t ∷ xs)
unfolding insert_after
insert_after-IsRing h t l [] r f = record {
  seg = (
    ground (arith, r.seg),
    ground (arith, r.seg),
    (ground (arith, r.seg), ground (arith, r.seg)),
  );
  distinct = ((λ e. f.0 (sym e), tt), (tt, tt));
}
insert_after-IsRing h t l (x ∷ xs) r f = record {
  seg = (
    ground (arith, r.seg),
    ground (arith, r.seg),
    (
      ground (arith, r.seg),
      ground (arith, r.seg, r.distinct),
      Seg-frame l x t x xs l (insert_after-Agrees l t x h r.seg.0) r.distinct.0
          (ground (arith, r.distinct)) (ground (arith, r.distinct)) r.seg.2,
    ),
  );
  distinct = ((λ e. f.0 (sym e), r.distinct.0), (f.1, r.distinct.1));
}

-- A node of `l ∷ xs` stands in no list that is apart from it.
abbrev pub Apart : List ℕ → List ℕ → Type 0
Apart xs ys = All (λ x. Fresh x ys) xs

Ring-frame :
    {h h' : Links} (p q t c : ℕ) (xs : List ℕ)
    → Agrees h h' p q t
    → Fresh p (c ∷ xs)
    → Fresh q (c ∷ xs)
    → Fresh t (c ∷ xs)
    → IsRing h c xs
    → IsRing h' c xs
Ring-frame p q t c xs e fp fq ft r = record {
  seg = Seg-frame p q t c xs c e fp fq (ft.0, ft) r.seg;
  distinct = r.distinct;
}

All-append : (P : ℕ → Type 0) (xs ys : List ℕ) → All P (xs ++ ys) → All P xs × All P ys
All-append P [] ys f = (tt, f)
All-append P (x ∷ xs) ys f = let r = All-append P xs ys f.1 in ((f.0, r.0), r.1)

first_All : (P : ℕ → Type 0) (l : ℕ) (zs : List ℕ) → P l → All P zs → P (first zs l)
first_All P l [] p f = p
first_All P l (z ∷ zs) p f = f.0

-- Insertion into one list leaves a list with other nodes as it is.
pub insert_before-frame :
    (h : Links) (t l : ℕ) (ys zs : List ℕ) (c : ℕ) (ws : List ℕ)
    → IsRing h l (ys ++ zs)
    → Apart (t ∷ l ∷ ys ++ zs) (c ∷ ws)
    → IsRing h c ws
    → IsRing (insert_before (first zs l) t h) c ws
insert_before-frame h t l ys zs c ws r apart other =
    let P = λ (x : ℕ). Fresh x (c ∷ ws) in
    let (left, right) = All-append P ys zs apart.1.1 in
    Ring-frame (h.prev (first zs l)) (first zs l) t c ws
      (insert_before-Agrees (first zs l) t (h.prev (first zs l)) h refl)
      (Seg-prev_All P h l ys zs l r.seg (apart.1.0, left)) (first_All P l zs apart.1.0 right)
      apart.0 other

next-All :
    (P : ℕ → Type 0) (h : Links) (a t : ℕ) (ys zs : List ℕ) (l : ℕ)
    → Seg h a (ys ++ t ∷ zs) l
    → P l
    → All P zs
    → P (h.next t)
next-All P h a t [] [] l s p f = subst P (sym s.2.0) p
next-All P h a t [] (z ∷ zs) l s p f = subst P (sym s.2.0) f.0
next-All P h a t (y ∷ ys) zs l s p f = next-All P h y t ys zs l s.2 p f

-- Removal from one list leaves a list with other nodes as it is.
pub del-frame :
    (h : Links) (t l : ℕ) (ys zs : List ℕ) (c : ℕ) (ws : List ℕ)
    → IsRing h l (ys ++ t ∷ zs)
    → Apart (l ∷ ys ++ t ∷ zs) (c ∷ ws)
    → IsRing h c ws
    → IsRing (del t h) c ws
del-frame h t l ys zs c ws r apart other =
    let P = λ (x : ℕ). Fresh x (c ∷ ws) in
    let (left, right) = All-append P ys (t ∷ zs) apart.1 in
    Ring-frame (h.prev t) (h.next t) t c ws (del-Agrees t (h.prev t) (h.next t) h refl refl)
      (Seg-prev_All P h l ys (t ∷ zs) l r.seg (apart.0, left))
      (next-All P h l t ys zs l r.seg apart.0 right.1) right.0 other

-- A head that is initialised is on no other list.
pub init-frame :
    (h : Links) (l c : ℕ) (ws : List ℕ) → Fresh l (c ∷ ws) → IsRing h c ws → IsRing (init l h) c ws
unfolding init
init-frame h l c ws f other =
    Ring-frame l l l c ws (record { nexts = λ x n m. ground arith; prevs = λ x n m. ground arith })
      f f f other
