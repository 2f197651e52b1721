-- ===== src/Timers/Start.antt =====
-- `sv_timer_start` and `sv_timer_stop` as operations on the sequence of running timers.
use project_sensor.Prelude.{
  ℕ, zero, suc, ◌+◌, ◌%◌, ◌≤◌, ◌<◌, ◌≡◌, ◌≢◌, refl, sym, ap, ◌∙◌, arith, true, false, List, [], ◌∷◌,
  ◌++◌, length, if◌then◌else◌, Bool-cases, inl, inr,
}
use project_sensor.Prelude.Int.{pos}
use project_sensor.Links.{insert_before}
use project_sensor.Links.Seg.{Seg, Fresh, first}
use project_sensor.Links.Ring.{IsRing, Apart, insert_before-IsRing, insert_before-frame, del-IsRing}
use project_sensor.Timers.{
  Kernel, list_of, not_after, find_place, timer_count, set_timer, tick_mod, sv_timer_start,
  sv_timer_stop,
}

abbrev pub timeouts : Kernel → ℕ → ℕ
timeouts k i = (k.timer i).timeout_tick

-- Where a timer with the given timeout belongs: before the first that is not earlier.
unfoldable pub insert : (ℕ → ℕ) → ℕ → ℕ → List ℕ → List ℕ
insert times i timeout [] = i ∷ []
insert times i timeout (x ∷ xs) =
    if not_after timeout (times x) then i ∷ x ∷ xs else x ∷ insert times i timeout xs

-- The walk over the list stops between `before` and `rest`.
record IsPlace (times : ℕ → ℕ) (i timeout head : ℕ) (xs : List ℕ) (place : ℕ) : Type 0 where
  before : List ℕ
  rest : List ℕ
  cut : xs ≡ before ++ rest
  stop : place ≡ first rest head
  inserted : insert times i timeout xs ≡ before ++ i ∷ rest

find_place-IsPlace :
    (fuel i timeout head a : ℕ) (xs : List ℕ) (k : Kernel)
    → Seg k.links a xs head
    → Fresh head xs
    → length xs < fuel
    → IsPlace (timeouts k) i timeout head xs (find_place fuel head timeout (k.links.next a) k)
unfolding find_place insert
find_place-IsPlace zero i timeout head a xs k s f h = absurd (omega arith)
find_place-IsPlace (suc fuel) i timeout head a [] k s f h = record {
  before = [];
  rest = [];
  cut = refl;
  stop = ground (arith, s);
  inserted = refl;
}
find_place-IsPlace (suc fuel) i timeout head a (x ∷ xs) k s f h =
    rw s.0 (elim (Bool-cases (not_after timeout (timeouts k x))) [
      | inl here ↦ rw (here) (record {
        before = [];
        rest = x ∷ xs;
        cut = refl;
        stop = ground arith;
        inserted = rw here refl;
      })
      | inr on ↦
          let r = find_place-IsPlace fuel i timeout head x xs k s.2 f.1 (omega arith) in
          rw on (record {
            before = x ∷ r.before;
            rest = r.rest;
            cut = ap (λ l. x ∷ l) r.cut;
            stop = ground (arith, r.stop);
            inserted = rw on (ap (λ l. x ∷ l) r.inserted);
          })
    ])

-- A timer is inserted by the timeouts of the other timers alone.
pub insert_ext :
    (s t : ℕ → ℕ) (i timeout : ℕ) (xs : List ℕ)
    → ((j : ℕ) → j ≢ i → s j ≡ t j)
    → Fresh i xs
    → insert s i timeout xs ≡ insert t i timeout xs
unfolding insert
insert_ext s t i timeout [] e f = refl
insert_ext s t i timeout (x ∷ xs) e f =
    rw (e x (λ p. f.0 (sym p))) (rw (insert_ext s t i timeout xs e f.1) refl)

abbrev pub new_timeout : ℕ → Kernel → ℕ
new_timeout i k = (k.tick + (k.timer i).init_tick) % tick_mod

module _ (i : ℕ) (k : Kernel) (idle : (k.timer i).flag.activated ≡ false) where
  -- The list is a ring of at most six nodes, and the timer is not on it.
  module _ (xs : List ℕ) (ring : IsRing k.links (list_of (k.timer i).flag) xs)
      (few : length xs ≤ timer_count) (off : Fresh i (list_of (k.timer i).flag ∷ xs)) where
    head : ℕ
    head = list_of (k.timer i).flag

    timed : Kernel
    timed = set_timer i (record (k.timer i) { timeout_tick = new_timeout i k }) k

    stops : ℕ
    stops = find_place (timer_count + 1) head (new_timeout i k) (k.links.next head) timed

    place : IsPlace (timeouts timed) i (new_timeout i k) head xs stops
    unfolding stops timed head
    place =
        find_place-IsPlace (timer_count + 1) i (new_timeout i k) head head xs timed ring.seg
          ring.distinct.0 (omega (arith, few))

    sv_timer_start-links : (sv_timer_start i k).1.links ≡ insert_before stops i k.links
    unfolding sv_timer_start stops timed head
    sv_timer_start-links = rw idle refl

    insert-cut : insert (timeouts k) i (new_timeout i k) xs ≡ place.before ++ i ∷ place.rest
    unfolding timed
    insert-cut =
        insert_ext (timeouts k) (timeouts timed) i (new_timeout i k) xs (λ j n. ground arith) off.1
        ∙ place.inserted

    -- Starting an idle timer answers 0 and puts it into its list, before the first timer that is not
    -- due earlier.
    pub sv_timer_start-insert :
        let (rt, k') = sv_timer_start i k in
        (rt ≡ pos 0)
        × IsRing k'.links (list_of (k.timer i).flag) (insert (timeouts k) i (new_timeout i k) xs)
    unfolding head
    sv_timer_start-insert = (
      unfold sv_timer_start in rw idle refl,
      rw (sv_timer_start-links, place.stop, insert-cut)
          (insert_before-IsRing k.links i head place.before place.rest (rw place.cut at ring)
            (rw place.cut at off)),
    )

    -- The other list is left alone.
    pub sv_timer_start-frame :
        (c : ℕ) (ws : List ℕ)
        → Apart (i ∷ list_of (k.timer i).flag ∷ xs) (c ∷ ws)
        → IsRing k.links c ws
        → IsRing (sv_timer_start i k).1.links c ws
    unfolding head
    sv_timer_start-frame c ws apart other =
        rw (sv_timer_start-links, place.stop)
          (insert_before-frame k.links i head place.before place.rest c ws (rw place.cut at ring)
            (rw place.cut at apart) other)

-- Stopping a running timer answers 0 and takes it from its list.
pub sv_timer_stop_lem :
    (i : ℕ) (k : Kernel) (ys zs : List ℕ) (l : ℕ)
    → (k.timer i).flag.activated ≡ true
    → IsRing k.links l (ys ++ i ∷ zs)
    → let (rt, k') = sv_timer_stop i k in
      (rt ≡ pos 0) × IsRing k'.links l (ys ++ zs) × ((k'.timer i).flag.activated ≡ false)
unfolding sv_timer_stop
sv_timer_stop_lem i k ys zs l on ring =
    rw on (refl, del-IsRing k.links i l ys zs ring, ground arith)
