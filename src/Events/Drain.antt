-- ===== src/Events/Drain.antt =====
-- `event_handle` runs the events that wait.
use project_sensor.Prelude.{
  ℕ, zero, suc, ◌<◌, ◌≡◌, refl, ap, ◌∙◌, arith, Bool, true, false, not, ◌&&◌, ◌||◌, List, [], ◌∷◌,
  append-nil, ◌==◌, if◌then◌else◌, Bool-cases, inl, inr, length,
}
use project_sensor.Buffer.{Buffer}
use project_sensor.Links.{init, splice_init}
use project_sensor.Links.Seg.{Seg, Fresh, All, Distinct}
use project_sensor.Links.Ring.{IsRing, Apart, init-IsRing, init-frame}
use project_sensor.Links.Splice.{splice_init-IsRing}
use project_sensor.Events.{
  Event, EventLoop, event_count, list_event, local_head, set_event, event_free, call_event, serve,
  serve_from, event_handle,
}
use project_sensor.Events.Pool.{IsPending}

-- Whether one of the events has this index.
abbrev pub has_index : (ℕ → Event) → List ℕ → ℕ → Bool
has_index event [] j = false
has_index event (x ∷ xs) j = j == (event x).index || has_index event xs j

-- The local head is no slot of the pool.
away :
    (used : ℕ → Bool) (xs : List ℕ)
    → All (λ x. (x < event_count) × (used x ≡ true)) xs
    → Fresh local_head xs × Apart xs (local_head ∷ [])
away used [] h = (tt, tt)
away used (x ∷ xs) h =
    let r = away used xs h.1 in ((omega (arith, h.0.0), r.0), ((omega (arith, h.0.0), tt), r.1))

module _ {W : Type 0} (call : ℕ → ℕ → ℕ → EventLoop × W → EventLoop × W) (left : Event → Buffer)
    (act : Event → W → W)
    (acts : (i : ℕ) (s : EventLoop) (w : W)
      → call (s.event i).handler (s.event i).object i (s, w) ≡ (
        set_event i (record (s.event i) { buffer = left (s.event i) }) s,
        act (s.event i) w,
      )) where
  -- What the events do to the rest of the program, one after the other.
  abbrev pub run : (ℕ → Event) → List ℕ → W → W
  run event [] w = w
  run event (x ∷ xs) w = run event xs (if (event x).handler == 0 then w else act (event x) w)

  -- The event after its handler, where it has one.
  abbrev touched : ℕ → EventLoop → EventLoop
  touched i s = record s {
    event = λ j.
        if not ((s.event i).handler == 0) && j == i
        then record (s.event i) { buffer = left (s.event i) }
        else s.event j;
  }

  -- After the events: the list is walked, and the slots with their indices are free.
  record Drained (s : EventLoop) (w : W) (xs : List ℕ) (r : EventLoop × W) : Type 0 where
    links : r.0.links ≡ s.links
    device : r.0.device_event ≡ s.device_event
    used : (j : ℕ) → r.0.used j ≡ (s.used j && not (has_index s.event xs j))
    world : r.1 ≡ run s.event xs w

  serve_lem :
      (i : ℕ) (s : EventLoop) (w : W)
      → serve call i (s, w)
        ≡ (event_free i (touched i s), if (s.event i).handler == 0 then w else act (s.event i) w)
  unfolding serve call_event
  serve_lem i s w = elim (Bool-cases ((s.event i).handler == 0)) [
    | inl null ↦ rw null refl
    | inr there ↦ rw there (rw (acts i s w) refl)
  ]

  touched-index : (i j : ℕ) (s : EventLoop) → ((touched i s).event j).index ≡ (s.event j).index
  touched-index i j s = elim (Bool-cases (not ((s.event i).handler == 0) && j == i)) [
    | inl same ↦ rw same (ap (λ (k : ℕ). (s.event k).index) (ground (arith, same)))
    | inr other ↦ rw other refl
  ]

  touched-All :
      (i : ℕ) (s : EventLoop) (xs : List ℕ)
      → Fresh i xs
      → All (λ y. (touched i s).event y ≡ s.event y) xs
  touched-All i s [] f = tt
  touched-All i s (y ∷ ys) f =
      let off : (not ((s.event i).handler == 0) && y == i) ≡ false = ground (arith, f.0) in
      (rw off refl, touched-All i s ys f.1)

  run-All :
      (f g : ℕ → Event) (xs : List ℕ) (w : W) → All (λ y. f y ≡ g y) xs → run f xs w ≡ run g xs w
  run-All f g [] w h = refl
  run-All f g (x ∷ xs) w h =
      ap (λ (e : Event). run f xs (if e.handler == 0 then w else act e w)) h.0
      ∙ run-All f g xs (if (g x).handler == 0 then w else act (g x) w) h.1

  has_index-All :
      (f g : ℕ → Event) (xs : List ℕ) (j : ℕ)
      → All (λ y. f y ≡ g y) xs
      → has_index f xs j ≡ has_index g xs j
  has_index-All f g [] j h = refl
  has_index-All f g (x ∷ xs) j h =
      ap (λ (e : Event). j == e.index || has_index f xs j) h.0
      ∙ ap (λ (b : Bool). j == (g x).index || b) (has_index-All f g xs j h.1)

  used-touched :
      (x : ℕ) (xs : List ℕ) (s : EventLoop) (j : ℕ)
      → All (λ y. (touched x s).event y ≡ s.event y) xs
      → ((if j == ((touched x s).event x).index then false else s.used j)
          && not (has_index (touched x s).event xs j))
        ≡ (s.used j && not (j == (s.event x).index || has_index s.event xs j))
  used-touched x xs s j same = rw (has_index-All (touched x s).event s.event xs j same) (
      ap (λ (k : ℕ). (if j == k then false else s.used j) && not (has_index s.event xs j))
        (touched-index x x s)
      ∙ ground arith)

  serve_from-Drained :
      (fuel a : ℕ) (xs : List ℕ) (s : EventLoop) (w : W)
      → Seg s.links a xs local_head
      → Fresh local_head xs
      → Distinct xs
      → length xs < fuel
      → Drained s w xs (serve_from call fuel (s.links.next a) (s, w))
  unfolding serve_from event_free
  serve_from-Drained zero a xs s w g f d h = absurd (omega arith)
  serve_from-Drained (suc fuel) a [] s w g f d h =
      rw g.0 (record { links = refl; device = refl; used = λ j. ground arith; world = refl })
  serve_from-Drained (suc fuel) a (x ∷ xs) s w g f d h =
      let w' = if (s.event x).handler == 0 then w else act (s.event x) w in
      let rest =
        serve_from-Drained fuel x xs (event_free x (touched x s)) w' g.2 f.1 d.1
          (omega (arith, h)) in
      let same = touched-All x s xs d.0 in
      let off : (x == local_head) ≡ false = ground (arith, f.0) in
      rw g.0 (
        rw off (
          rw (serve_lem x s w) (record {
            links = rest.links;
            device = rest.device;
            used = λ j. rest.used j ∙ used-touched x xs s j same;
            world = rest.world ∙ run-All (touched x s).event s.event xs w' same;
          })))

  -- What is left when all events that waited have run.
  pub record Emptied (s : EventLoop) (w : W) (xs : List ℕ) (r : EventLoop × W) : Type 0 where
    pub empty : IsPending r.0 []
    pub device : r.0.device_event ≡ 0
    pub used : (j : ℕ) → r.0.used j ≡ (s.used j && not (has_index s.event xs j))
    pub world : r.1 ≡ run s.event xs w

  -- `event_handle` runs every event that waits, once and in the order of the list, with handlers that
  -- change no more of the loop than the buffer of their own event; then none waits, the event device is
  -- not readable, and just the slots are free whose number is the index of one of the events.
  pub event_handle-Emptied :
      (fuel : ℕ) (xs : List ℕ) (s : EventLoop) (w : W)
      → IsPending s xs
      → length xs < fuel
      → Emptied s w xs (event_handle call fuel (s, w))
  unfolding event_handle
  event_handle-Emptied fuel xs s w p h =
      let h1 = init local_head s.links in
      let (far, apart) = away s.used xs p.held in
      let rings =
        splice_init-IsRing h1 list_event local_head xs []
          (init-frame s.links local_head list_event xs (omega arith, far) p.ring)
          (init-IsRing local_head s.links) ((omega arith, tt), apart) in
      let ring : IsRing (splice_init list_event local_head h1) local_head xs =
        rw (append-nil xs) at rings.0 in
      let s1 = record s { links = splice_init list_event local_head h1; device_event = 0 } in
      let d =
        serve_from-Drained fuel local_head xs s1 w ring.seg ring.distinct.0 ring.distinct.1 h in
      record {
        empty = record { ring = rw d.links rings.1; held = tt };
        device = d.device;
        used = d.used;
        world = d.world;
      }
