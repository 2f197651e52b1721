-- ===== src/Events/Pool.antt =====
-- Events that are posted: which slot of the pool they get, and where they are queued.
use project_sensor.Prelude.{
  ℕ, ◌+◌, ◌%◌, ◌^◌, ◌<◌, ◌≡◌, ◌≢◌, refl, sym, ap, ◌∙◌, arith, Bool, true, false, List, [], ◌∷◌, leb,
  ◌==◌, if◌then◌else◌, Bool-cases, inl, inr,
}
use project_sensor.Prelude.Int.{ℤ, pos, negsuc}
use project_sensor.Links.Seg.{Fresh, All}
use project_sensor.Links.Ring.{IsRing, insert_after-IsRing}
use project_sensor.Timers.Manager.{find_free}
use project_sensor.Timers.Registry.{find_free-IsFirst}
use project_sensor.Events.{
  Event, EventLoop, event_count, list_event, event_malloc, copy, run_inloop,
}

-- The events `xs` wait on the list of the loop, each in a slot that is in use.
pub record IsPending (s : EventLoop) (xs : List ℕ) : Type 0 where
  pub ring : IsRing s.links list_event xs
  pub held : All (λ x. (x < event_count) × (s.used x ≡ true)) xs

Fresh-free :
    (used : ℕ → Bool) (i : ℕ) (xs : List ℕ)
    → used i ≡ false
    → All (λ x. (x < event_count) × (used x ≡ true)) xs
    → Fresh i xs
Fresh-free used i [] f h = tt
Fresh-free used i (x ∷ xs) f h = ((λ e. cc (sym f ∙ ap used e ∙ h.0.1)), Fresh-free used i xs f h.1)

All-used :
    (s t : ℕ → Bool) (xs : List ℕ)
    → ((j : ℕ) → s j ≡ true → t j ≡ true)
    → All (λ x. (x < event_count) × (s x ≡ true)) xs
    → All (λ x. (x < event_count) × (t x ≡ true)) xs
All-used s t [] e h = tt
All-used s t (x ∷ xs) e h = ((h.0.0, e x h.0.1), All-used s t xs e h.1)

-- What `run_inloop` answers: the event is queued before all others in the lowest free slot, with the
-- handler and the object that it was given, and the event device is written; or no slot is free,
-- and nothing changes.
pub data Posted (e : Event) (s : EventLoop) (xs : List ℕ) : ℤ × EventLoop → Type 0 where
  queued :
      {i : ℕ} {s' : EventLoop}
      → i < event_count
      → s.used i ≡ false
      → IsPending s' (i ∷ xs)
      → (s'.event i).handler ≡ e.handler
      → (s'.event i).object ≡ e.object
      → (s'.event i).index ≡ e.index
      → ((j : ℕ) → j ≢ i → s'.event j ≡ s.event j)
      → s'.device_event ≡ (s.device_event + 1) % 2 ^ 32
      → Posted e s xs (pos 0, s')
  full : ((j : ℕ) → j < event_count → s.used j ≡ true) → Posted e s xs (negsuc 0, s)

-- `run_inloop` queues an event at the front of the list of the loop, in a slot that no waiting event
-- has, or answers -1 if all slots are in use; the events that wait stay as they are.
pub run_inloop-Posted :
    (e : Event) (s : EventLoop) (xs : List ℕ) → IsPending s xs → Posted e s xs (run_inloop e s)
unfolding run_inloop event_malloc copy
run_inloop-Posted e s xs p =
    let i = find_free event_count 0 s.used in
    let f = find_free-IsFirst event_count 0 s.used in
    elim (Bool-cases (leb event_count i)) [
      | inl none ↦ rw none (full (λ j h. f.taken j (omega arith) (ground arith)))
      | inr room ↦
          let small : i < event_count = ground arith in
          let free = f.free small in
          rw (room, room)
            (queued small free
              (record {
                ring =
                    insert_after-IsRing s.links i list_event xs p.ring
                      ((λ q. omega (arith, small, q)), Fresh-free s.used i xs free p.held);
                held = (
                  (small, ground arith),
                  All-used s.used (λ j. if j == i then true else s.used j) xs (λ j h. ground arith)
                      p.held,
                );
              })
              (ground arith) (ground arith) (ground arith) (λ j n. ground arith) refl)
    ]
