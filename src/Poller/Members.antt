-- ===== src/Poller/Members.antt =====
-- The list of channels as a set: linking and unlinking.
use mathlib.Core.Path.{subst}
use project_sensor.Prelude.{
  ℕ, suc, ◌<◌, ◌≡◌, ◌≢◌, refl, ap, arith, Bool, true, false, ◌||◌, List, [], ◌∷◌, ◌++◌, length,
  ◌==◌, if◌then◌else◌, Bool-cases, inl, inr, ==_iff,
}
use project_sensor.Links.Seg.{Fresh}
use project_sensor.Links.Ring.{IsRing, insert_after-IsRing, del-IsRing}
use project_sensor.Links.Find.{mem, find_lem}
use project_sensor.Poller.{Poller, channels, update_channel, remove_channel}

-- The nodes without the first `n`.
abbrev pub without : ℕ → List ℕ → List ℕ
without n [] = []
without n (x ∷ xs) = if x == n then xs else x ∷ without n xs

mem-Fresh : (n : ℕ) (xs : List ℕ) → mem n xs ≡ false → Fresh n xs
mem-Fresh n [] h = tt
mem-Fresh n (x ∷ xs) h = (ground (arith, h, ==_iff x n), mem-Fresh n xs (ground (arith, h)))

-- A list that has a node is split at it.
record Split (n : ℕ) (xs : List ℕ) : Type 0 where
  before : List ℕ
  after : List ℕ
  whole : before ++ n ∷ after ≡ xs
  others : before ++ after ≡ without n xs

mem-Split : (n : ℕ) (xs : List ℕ) → mem n xs ≡ true → Split n xs
mem-Split n [] h = absurd (ground (arith, h))
mem-Split n (x ∷ xs) h = elim (Bool-cases (x == n)) [
  | inl here ↦ record {
    before = [];
    after = xs;
    whole = ap (λ (y : ℕ). y ∷ xs) (ground (arith, here));
    others = rw here refl;
  }
  | inr on ↦
      let s = mem-Split n xs (ground (arith, h, on)) in
      record {
        before = x ∷ s.before;
        after = s.after;
        whole = ap (λ (ys : List ℕ). x ∷ ys) s.whole;
        others = rw on (ap (λ (ys : List ℕ). x ∷ ys) s.others);
      }
]

module _ (fuel c : ℕ) (xs : List ℕ) (p : Poller) (ring : IsRing p.links channels xs)
    (l : length xs < fuel) where
  -- `updateChannel` links a channel that is not on the list at its front, and changes nothing for one
  -- that is.
  pub update_channel-IsRing :
      c ≢ channels
      → IsRing (update_channel fuel c p).links channels (if mem c xs then xs else c ∷ xs)
  unfolding update_channel
  update_channel-IsRing node =
      rw (find_lem fuel channels c xs p.links ring l) (elim (Bool-cases (mem c xs)) [
        | inl on ↦ rw on ring
        | inr off ↦
            rw off (insert_after-IsRing p.links c channels xs ring (node, mem-Fresh c xs off))
      ])

  -- `removeChannel` takes the channel off the list if it is there.
  pub remove_channel-IsRing :
      IsRing (remove_channel fuel c p).links channels (if mem c xs then without c xs else xs)
  unfolding remove_channel
  remove_channel-IsRing =
      rw (find_lem fuel channels c xs p.links ring l) (elim (Bool-cases (mem c xs)) [
        | inl on ↦
            let s = mem-Split c xs on in
            rw on
              (rw (← s.others) (del-IsRing p.links c channels s.before s.after (rw s.whole ring)))
        | inr off ↦ rw off ring
      ])

-- Linking a channel and then taking it off gives a list without it: the old one if it was not there.
pub remove_channel-update_channel :
    (fuel c : ℕ) (xs : List ℕ) (p : Poller)
    → IsRing p.links channels xs
    → length xs < fuel
    → c ≢ channels
    → IsRing
        (remove_channel (suc fuel) c (update_channel fuel c p)).links
        channels
        (if mem c xs then without c xs else xs)
remove_channel-update_channel fuel c xs p ring l node =
    let p' = update_channel fuel c p in
    cases (mem c xs) refl (update_channel-IsRing fuel c xs p ring l node)
  where
    cases :
        (b : Bool)
        → mem c xs ≡ b
        → IsRing (update_channel fuel c p).links channels (if b then xs else c ∷ xs)
        → IsRing
            (remove_channel (suc fuel) c (update_channel fuel c p)).links
            channels
            (if b then without c xs else xs)
    cases true on r =
        subst
          (λ (b : Bool).
            IsRing (remove_channel (suc fuel) c (update_channel fuel c p)).links channels
              (if b then without c xs else xs))
          on (remove_channel-IsRing (suc fuel) c xs (update_channel fuel c p) r (omega (arith, l)))
    cases false off r =
        let same : (c == c) ≡ true = ground arith in
        subst
          (λ (b : Bool).
            IsRing (remove_channel (suc fuel) c (update_channel fuel c p)).links channels
              (if b || mem c xs then (if b then xs else c ∷ without c xs) else c ∷ xs))
          same
          (remove_channel-IsRing (suc fuel) c (c ∷ xs) (update_channel fuel c p) r
            (omega (arith, l)))
