-- ===== src/Links/Splice.antt =====
-- `list_splice_init`: a list moved to the front of another.
use mathlib.Core.Path.{subst}
use project_sensor.Prelude.{ℕ, ◌≡◌, ◌≢◌, refl, sym, ◌∙◌, arith, List, [], ◌∷◌, ◌++◌}
use project_sensor.Links.{Links, init, splice_init, set_next, set_prev}
use project_sensor.Links.Seg.{Seg, Fresh, All, Distinct, Fresh-All}
use project_sensor.Links.Ring.{IsRing, Apart, is_empty_lem}

-- The state after the splice: the head `l` alone, `m` before `x`, and `last` before `after`.
abbrev spliced : ℕ → ℕ → ℕ → ℕ → ℕ → Links → Links
spliced l m x last after h =
    init l (set_prev after last (set_next last after (set_next m x (set_prev x m h))))

splice-frame :
    (h : Links) (l m x last after a : ℕ) (xs : List ℕ) (b : ℕ)
    → Fresh l (a ∷ b ∷ xs)
    → Fresh m (a ∷ xs)
    → Fresh x (b ∷ xs)
    → Fresh last (a ∷ xs)
    → Fresh after (b ∷ xs)
    → Seg h a xs b
    → Seg (spliced l m x last after h) a xs b
unfolding init
splice-frame h l m x last after a [] b fl fm fx fp fq s = (ground arith, ground arith)
splice-frame h l m x last after a (y ∷ ys) b fl fm fx fp fq s = (
  ground arith,
  ground arith,
  splice-frame h l m x last after y ys b (fl.1.1.0, (fl.1.0, fl.1.1.1)) fm.1 (fx.0, fx.1.1) fp.1
      (fq.0, fq.1.1) s.2,
)

Seg-last_All :
    (P : ℕ → Type 0) (h : Links) (y : ℕ) (ys : List ℕ) (l : ℕ)
    → Seg h y ys l
    → All P (y ∷ ys)
    → P (h.prev l)
Seg-last_All P h y [] l s f = subst P (sym s.1) f.0
Seg-last_All P h y (x ∷ xs) l s f = Seg-last_All P h x xs l s.2 f.1

first-apart : (h : Links) (m z : ℕ) (ys : List ℕ) → Seg h m ys m → Fresh z (m ∷ ys) → z ≢ h.next m
first-apart h m z [] t f = ground arith
first-apart h m z (y ∷ ys) t f = ground arith

-- From a node of the moved list on.
splice-tail :
    (h : Links) (l m x last after a : ℕ) (zs ys : List ℕ)
    → h.prev l ≡ last
    → h.next m ≡ after
    → Seg h a zs l
    → Seg h m ys m
    → Fresh a zs × Distinct zs
    → Fresh x zs
    → Fresh l (m ∷ a ∷ zs) × Fresh l ys
    → All (λ z. Fresh z (m ∷ ys)) (a ∷ zs)
    → Distinct (m ∷ ys)
    → Fresh x (m ∷ ys)
    → Seg (spliced l m x last after h) a (zs ++ ys) m
unfolding init
splice-tail h l m x last after a [] [] el ea s t d fx fl ap dm fy = (ground arith, ground arith)
splice-tail h l m x last after a [] (y ∷ ys) el ea s t d fx fl ap dm fy =
    let e : last ≡ a = sym el ∙ s.1 in
    let f : after ≡ y = sym ea ∙ t.0 in
    (
      ground arith,
      ground arith,
      splice-frame h l m x last after y ys m (fl.1.0, (fl.0.0, fl.1.1)) dm.0 (fy.0, fy.1.1)
          (subst (λ n. Fresh n (y ∷ ys)) (sym e) ap.0.1)
          (subst (λ n. Fresh n (m ∷ ys)) (sym f) (λ p. dm.0.0 (sym p), dm.1.0)) t.2,
    )
splice-tail h l m x last after a (z ∷ zs) ys el ea s t d fx fl ap dm fy =
    let far : a ≢ last =
      rw (← el) (Seg-last_All (λ n. a ≢ n) h z zs l s.2 (Fresh-All a (z ∷ zs) d.0)) in
    let off : z ≢ after = rw (← ea) (first-apart h m z ys t ap.1.0) in
    (
      ground arith,
      ground arith,
      splice-tail h l m x last after z zs ys el ea s.2 t d.1 fx.1 ((fl.0.0, fl.0.1.1), fl.1) ap.1 dm
          fy,
    )

Fresh-join : (a : ℕ) (xs ys : List ℕ) → Fresh a xs → Fresh a ys → Fresh a (xs ++ ys)
Fresh-join a [] ys f g = g
Fresh-join a (x ∷ xs) ys f g = (f.0, Fresh-join a xs ys f.1 g)

Distinct-join :
    (xs ys : List ℕ) → Distinct xs → Distinct ys → All (λ x. Fresh x ys) xs → Distinct (xs ++ ys)
Distinct-join [] ys d e a = e
Distinct-join (x ∷ xs) ys d e a = (Fresh-join x xs ys d.0 a.0, Distinct-join xs ys d.1 e a.1)

All-tail : (m : ℕ) (ys xs : List ℕ) → Apart xs (m ∷ ys) → Apart xs ys × Fresh m xs
All-tail m ys [] a = (tt, tt)
All-tail m ys (x ∷ xs) a = let r = All-tail m ys xs a.1 in ((a.0.1, r.0), (λ e. a.0.0 (sym e), r.1))

-- `list_splice_init` moves all nodes of one list to the front of another list with other nodes, in
-- their order, and leaves the first list empty.
pub splice_init-IsRing :
    (h : Links) (l m : ℕ) (xs ys : List ℕ)
    → IsRing h l xs
    → IsRing h m ys
    → Apart (l ∷ xs) (m ∷ ys)
    → IsRing (splice_init l m h) m (xs ++ ys) × IsRing (splice_init l m h) l []
unfolding splice_init init
splice_init-IsRing h l m [] ys r q a = rw (is_empty_lem h l [] r) (q, r)
splice_init-IsRing h l m (x ∷ xs) ys r q a =
    let tail =
      splice-tail h l m x (h.prev l) (h.next m) x xs ys refl refl r.seg.2 q.seg r.distinct.1
        r.distinct.1.0 ((a.0.0, r.distinct.0), a.0.1) a.1 q.distinct a.1.0 in
    let apart = All-tail m ys (x ∷ xs) a.1 in
    let far = Seg-last_All (λ n. m ≢ n) h x xs l r.seg.2 (Fresh-All m (x ∷ xs) apart.1) in
    let off = first-apart h m x ys q.seg a.1.0 in
    rw (is_empty_lem h l (x ∷ xs) r) (
      rw r.seg.0 (
        record {
          seg = (ground arith, ground arith, tail);
          distinct = (
            Fresh-join m (x ∷ xs) ys apart.1 q.distinct.0,
            Distinct-join (x ∷ xs) ys r.distinct.1 q.distinct.1 apart.0,
          );
        },
        record { seg = (ground arith, ground arith); distinct = (tt, tt) },
      ))
