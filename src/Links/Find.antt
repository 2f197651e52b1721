-- ===== src/Links/Find.antt =====
-- `list_find` on a ring.
use project_sensor.Prelude.{
  ℕ, zero, suc, ◌<◌, ◌≡◌, arith, Bool, false, ◌||◌, List, [], ◌∷◌, ◌==◌, if◌then◌else◌, none, some,
  length, Bool-cases, inl, inr, ==_iff,
}
use project_sensor.Links.{Links, find, find_from}
use project_sensor.Links.Seg.{Seg, Fresh}
use project_sensor.Links.Ring.{IsRing}

abbrev pub mem : ℕ → List ℕ → Bool
mem n [] = false
mem n (x ∷ xs) = x == n || mem n xs

find_from_lem :
    (fuel head node a : ℕ) (xs : List ℕ) (h : Links)
    → Seg h a xs head
    → Fresh head xs
    → length xs < fuel
    → find_from fuel head node (h.next a) h ≡ (if mem node xs then some node else none)
unfolding find_from
find_from_lem zero head node a xs h s f l = absurd (omega arith)
find_from_lem (suc fuel) head node a [] h s f l = ground (arith, s)
find_from_lem (suc fuel) head node a (x ∷ xs) h s f l =
    let rest = find_from_lem fuel head node x xs h s.2 f.1 (omega arith) in
    rw s.0 (elim (Bool-cases (x == node)) [
      | inl here ↦ rw here (ground (arith, here, ==_iff x node))
      | inr on ↦ rw on (ground (arith, rest))
    ])

-- `list_find` finds exactly the nodes of the list, with fuel for each of them.
pub find_lem :
    (fuel head node : ℕ) (xs : List ℕ) (h : Links)
    → IsRing h head xs
    → length xs < fuel
    → find fuel head node h ≡ (if mem node xs then some node else none)
unfolding find
find_lem fuel head node xs h r l = find_from_lem fuel head node head xs h r.seg r.distinct.0 l
