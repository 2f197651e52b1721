-- ===== src/Timers/Live.antt =====
-- Running timers and how many of them are due.
use project_sensor.Prelude.{
  ℕ, ◌+◌, ◌%◌, ◌≤◌, ◌<◌, ◌≡◌, ◌≢◌, ◌⊎◌, refl, sym, arith, true, false, List, [], ◌∷◌, length,
  if◌then◌else◌, Bool-cases, inl, inr,
}
use project_sensor.Links.Seg.{Fresh, All}
use project_sensor.Links.Ring.{IsRing}
use project_sensor.Timers.{Kernel, list_of, not_after, timer_count, tick_mod, half_tick_max}
use project_sensor.Timers.Start.{insert}

-- A running timer on the list `head`; if it is periodic its period is not 0.
pub record IsLive (k : Kernel) (head i : ℕ) : Type 0 where
  pub active : (k.timer i).flag.activated ≡ true
  pub place : list_of (k.timer i).flag ≡ head
  pub period :
      ((k.timer i).flag.periodic ≡ false)
      ⊎ ((0 < (k.timer i).init_tick) × ((k.timer i).init_tick < half_tick_max))

pub record IsRunning (k : Kernel) (head : ℕ) (xs : List ℕ) : Type 0 where
  pub ring : IsRing k.links head xs
  pub few : length xs ≤ timer_count
  pub live : All (IsLive k head) xs
  pub now : k.tick < tick_mod

-- `k'` differs from `k` in the timer `i` only, as far as the lists are concerned.
pub record Alike (i : ℕ) (k k' : Kernel) : Type 0 where
  pub tick : k'.tick ≡ k.tick
  pub others : (j : ℕ) → j ≢ i → k'.timer j ≡ k.timer j

IsLive-Alike :
    (head i j : ℕ) (k k' : Kernel) → Alike i k k' → j ≢ i → IsLive k head j → IsLive k' head j
IsLive-Alike head i j k k' a n v =
    let e = a.others j n in
    record { active = rw e v.active; place = rw e v.place; period = rw e v.period }

pub All-Alike :
    (head i : ℕ) (k k' : Kernel) (xs : List ℕ)
    → Alike i k k'
    → Fresh i xs
    → All (IsLive k head) xs
    → All (IsLive k' head) xs
All-Alike head i k k' [] a f v = tt
All-Alike head i k k' (x ∷ xs) a f v =
    (IsLive-Alike head i x k k' a (λ p. f.0 (sym p)) v.0, All-Alike head i k k' xs a f.1 v.1)

pub All-insert :
    (P : ℕ → Type 0) (times : ℕ → ℕ) (i timeout : ℕ) (xs : List ℕ)
    → P i
    → All P xs
    → All P (insert times i timeout xs)
unfolding insert
All-insert P times i timeout [] p v = (p, tt)
All-insert P times i timeout (x ∷ xs) p v = elim (Bool-cases (not_after timeout (times x))) [
  | inl here ↦ rw here (p, v)
  | inr on ↦ rw on (v.0, All-insert P times i timeout xs p v.1)
]

-- How many timers are due at the tick `now`.
unfoldable pub due : (ℕ → ℕ) → ℕ → List ℕ → ℕ
due times now [] = 0
due times now (x ∷ xs) = (if not_after (times x) now then 1 else 0) + due times now xs

pub due_ext :
    (s t : ℕ → ℕ) (i now : ℕ) (xs : List ℕ)
    → ((j : ℕ) → j ≢ i → s j ≡ t j)
    → Fresh i xs
    → due s now xs ≡ due t now xs
unfolding due
due_ext s t i now [] e f = refl
due_ext s t i now (x ∷ xs) e f = rw (e x (λ p. f.0 (sym p))) (rw (due_ext s t i now xs e f.1) refl)

pub due-insert :
    (times : ℕ → ℕ) (i timeout now : ℕ) (xs : List ℕ)
    → due times now (insert times i timeout xs)
      ≡ (if not_after (times i) now then 1 else 0) + due times now xs
unfolding due insert
due-insert times i timeout now [] = refl
due-insert times i timeout now (x ∷ xs) = elim (Bool-cases (not_after timeout (times x))) [
  | inl here ↦ rw here refl
  | inr on ↦ rw on (omega (arith, due-insert times i timeout now xs))
]

-- A timer that was started again is not due before its period is over.
pub new_timeout-ahead :
    (now init : ℕ)
    → now < tick_mod
    → 0 < init
    → init < half_tick_max
    → not_after ((now + init) % tick_mod) now ≡ false
unfolding not_after
new_timeout-ahead now init h p q = ground arith
