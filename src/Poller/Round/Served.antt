-- ===== src/Poller/Round/Served.antt =====
-- Which handlers a round of the event loop runs.
use project_sensor.Prelude.{
  ℕ, zero, suc, ◌<◌, ◌≡◌, refl, ap, ◌∙◌, arith, Bool, true, false, not, ◌||◌, Option, none, some,
  List, [], ◌∷◌, append-nil, length,
}
use mathlib.Core.Path.{subst}
use project_sensor.Prelude.Int.{ℤ}
use project_sensor.Timers.Manager.{timer_expired}
use project_sensor.Links.{init}
use project_sensor.Links.Seg.{Fresh}
use project_sensor.Links.Ring.{IsRing, is_nil, init-IsRing}
use project_sensor.Buffer.{Buffer}
use project_sensor.Poller.{channels}
use project_sensor.Poller.Round.{
  Program, Reactor, active_channels, scan, is_zero, poll_loop, started, poll, serve_all, loop_round,
}
use project_sensor.Poller.Round.Scanned.{
  ready, handle_all, IsActive, scan-IsActive, serve_from-All, length-ready, Fresh-Apart,
}

abbrev pub program_of : {W : Type 0} → Option (Reactor W) → Option (Program W)
program_of none = none
program_of (some r) = some r.program

module _ {W : Type 0} (poll_device : ℕ → Program W → ℤ)
    (read_device : ℕ → Program W → (ℤ × List ℕ) × Program W)
    (callback : ℕ → Option (ℕ → Buffer → Program W → Buffer × Program W)) (array : List ℕ) where
  abbrev pub is_over : ℕ → Program W → Bool
  is_over h p = not (is_zero (timer_expired h p.kernel))

  -- The program that the scan with the number `n` sees.
  abbrev pub program_at : (ℕ → Program W → Program W) → ℕ → Program W → Program W
  program_at meanwhile zero p = meanwhile 0 p
  program_at meanwhile (suc n) p = program_at (λ i. meanwhile (suc i)) n (meanwhile 0 p)

  -- The poll with timer `h` goes on for `n` scans that find nothing, and ends after the next, which
  -- finds an event or has the time over behind it; the channels are `cs` all the time.
  abbrev pub Waits : ℕ → (ℕ → Program W → Program W) → ℕ → Program W → List ℕ → Type 0
  Waits h meanwhile zero p cs =
      let p' = meanwhile 0 p in
      (is_over h p ≡ false)
      × IsRing p'.poller.links channels cs
      × ((not (is_nil (ready poll_device read_device callback array p' cs)) || is_over h p') ≡ true)
  Waits h meanwhile (suc n) p cs =
      let p' = meanwhile 0 p in
      (is_over h p ≡ false)
      × IsRing p'.poller.links channels cs
      × (is_nil (ready poll_device read_device callback array p' cs) ≡ true)
      × Waits h (λ i. meanwhile (suc i)) n p' cs

  -- The poll has ended with these channels active.
  abbrev Ended : ℕ → Program W → List ℕ → Option (Reactor W) → Type 0
  Ended h p ys none = ⊥
  Ended h p ys (some s) = IsActive poll_device read_device callback array h p ys s

  scanned-IsActive :
      (fuel h : ℕ) (p : Program W) (cs : List ℕ) (q : Reactor W)
      → IsRing p.poller.links channels cs
      → Fresh active_channels cs
      → length cs < fuel
      → q.handle_timer ≡ h
      → IsRing q.active active_channels []
      → let s =
          scan poll_device read_device callback array fuel
            (p.poller.links.next channels)
            (false, record q { program = p }) in
        IsActive poll_device read_device callback array h p
          (ready poll_device read_device callback array p cs)
          s.1
        × (s.0 ≡ not (is_nil (ready poll_device read_device callback array p cs)))
  scanned-IsActive fuel h p cs q ring apart l timer none_active =
      let start : IsActive poll_device read_device callback array h p []
          (record q { program = p }) =
        record { program = refl; timer = timer; ring = none_active; marks = tt } in
      let a =
        scan-IsActive poll_device read_device callback array fuel channels h p cs [] false
          (record q { program = p }) ring.seg ring.distinct
          (Fresh-Apart poll_device read_device callback array active_channels cs apart) l start in
      (rw (append-nil (ready poll_device read_device callback array p cs)) at a.0, a.1)

  is_nil-nil : (ys : List ℕ) → is_nil ys ≡ true → ys ≡ []
  is_nil-nil [] e = refl
  is_nil-nil (y ∷ ys) e = absurd (ground (arith, e))

  poll_loop-Ended :
      (n fuel rounds h : ℕ) (meanwhile : ℕ → Program W → Program W) (cs : List ℕ) (q : Reactor W)
      → Fresh active_channels cs
      → length cs < fuel
      → suc n < rounds
      → q.handle_timer ≡ h
      → IsRing q.active active_channels []
      → Waits h meanwhile n q.program cs
      → let p = program_at meanwhile n q.program in
        Ended h p
          (ready poll_device read_device callback array p cs)
          (poll_loop poll_device read_device callback array fuel rounds meanwhile false q)
  unfolding poll_loop
  poll_loop-Ended n fuel zero h meanwhile cs q apart l more timer ring w =
      absurd (omega (arith, more))
  poll_loop-Ended n fuel (suc zero) h meanwhile cs q apart l more timer ring w =
      absurd (omega (arith, more))
  poll_loop-Ended zero fuel (suc (suc r)) h meanwhile cs q apart l more timer ring w =
      let p = meanwhile 0 q.program in
      let s =
        scan poll_device read_device callback array fuel (p.poller.links.next channels)
          (false, record q { program = p }) in
      let (a, exit) = scanned-IsActive fuel h p cs q w.1 apart l timer ring in
      let running : is_over q.handle_timer q.program ≡ false = rw timer w.0 in
      let stops : (s.0 || is_over s.1.handle_timer s.1.program) ≡ true =
        rw exit (rw a.timer (rw a.program w.2)) in
      rw running (rw stops a)
  poll_loop-Ended (suc n) fuel (suc (suc r)) h meanwhile cs q apart l more timer ring w =
      let p = meanwhile 0 q.program in
      let s =
        scan poll_device read_device callback array fuel (p.poller.links.next channels)
          (false, record q { program = p }) in
      let later : ℕ → Program W → Program W = λ i. meanwhile (suc i) in
      let (a, exit) = scanned-IsActive fuel h p cs q w.1 apart l timer ring in
      let running : is_over q.handle_timer q.program ≡ false = rw timer w.0 in
      let idle = is_nil-nil (ready poll_device read_device callback array p cs) w.2 in
      let on : s.0 ≡ false = rw idle at exit in
      let none_active : IsRing s.1.active active_channels [] = rw idle at a.ring in
      let rest = λ (p' : Program W).
        Waits h later n p' cs
        → Ended h (program_at later n p')
            (ready poll_device read_device callback array (program_at later n p') cs)
            (poll_loop poll_device read_device callback array fuel (suc r) later false s.1) in
      rw running (
        rw on (
          subst rest a.program
            (poll_loop-Ended n fuel (suc r) h later cs s.1 apart l (omega (arith, more)) a.timer
              none_active)
            w.3))

  serve_all-Ended :
      (fuel h : ℕ) (p : Program W) (cs : List ℕ) (o : Option (Reactor W))
      → length cs < fuel
      → Ended h p (ready poll_device read_device callback array p cs) o
      → program_of (serve_all poll_device read_device callback array fuel o)
        ≡ some (
            handle_all poll_device read_device callback array p
              (ready poll_device read_device callback array p cs)
              p)
  serve_all-Ended fuel h p cs none l e = absurd e
  serve_all-Ended fuel h p cs (some s) l e =
      ap (λ (t : Reactor W). some t.program)
        (serve_from-All poll_device read_device callback array fuel active_channels p
          (ready poll_device read_device callback array p cs) s e.ring.seg e.ring.distinct.0
          (omega (arith, l, length-ready poll_device read_device callback array p cs)) e.marks)
      ∙ ap
          (λ (t : Program W). some (
            handle_all poll_device read_device callback array p
              (ready poll_device read_device callback array p cs) t))
          e.program

  -- However many scans of a round of the event loop find nothing first, the round runs the handlers
  -- of just the channels with an event that they ask for in the scan that ends the poll, each once and
  -- the last of the list first, each with the event found for it, whatever the handlers before it did;
  -- where that scan finds none, since the time of the poll is over, the round runs no handler.
  pub loop_round-served :
      (fuel rounds n : ℕ) (meanwhile : ℕ → Program W → Program W) (cs : List ℕ) (r : Reactor W)
      → let q = (started poll_device read_device callback array r).program in
        let p = program_at meanwhile n q in
        Fresh active_channels cs
        → length cs < fuel
        → suc n < rounds
        → Waits r.handle_timer meanwhile n q cs
        → program_of (loop_round poll_device read_device callback array fuel rounds meanwhile r)
          ≡ some (
              handle_all poll_device read_device callback array p
                (ready poll_device read_device callback array p cs)
                p)
  unfolding loop_round poll
  loop_round-served fuel rounds n meanwhile cs r apart h more waits =
      let q =
        started poll_device read_device callback array
          (record r { active = init active_channels r.active }) in
      let p = program_at meanwhile n q.program in
      serve_all-Ended fuel r.handle_timer p cs
        (poll_loop poll_device read_device callback array fuel rounds meanwhile false q) h
        (poll_loop-Ended n fuel rounds r.handle_timer meanwhile cs q apart h more refl
          (init-IsRing active_channels r.active) waits)
