-- ===== src/Poller/Round/Scanned.antt =====
-- What one scan of the channels makes active, and the handlers that run for it.
use project_sensor.Prelude.{
  ℕ, zero, suc, ◌≤◌, ◌<◌, ◌≡◌, refl, sym, ap, ◌∙◌, arith, Bool, false, not, ◌||◌, Option, none,
  some, List, [], ◌∷◌, ◌++◌, append_assoc, ◌==◌, if◌then◌else◌, length, length-append,
}
use project_sensor.Prelude.Int.{ℤ}
use project_sensor.Links.Seg.{Seg, Fresh, All, Distinct}
use project_sensor.Links.Ring.{IsRing, Apart, is_nil, insert_after-IsRing}
use project_sensor.Buffer.{Buffer}
use project_sensor.Poller.{channels}
use project_sensor.Poller.Round.{
  Program, Reactor, active_channels, event_of, mark, visit, scan, handle_event, serve_from,
}

module _ {W : Type 0} (poll_device : ℕ → Program W → ℤ)
    (read_device : ℕ → Program W → (ℤ × List ℕ) × Program W)
    (callback : ℕ → Option (ℕ → Buffer → Program W → Buffer × Program W)) (array : List ℕ) where
  abbrev pub found : Program W → ℕ → Option ℕ
  found p c = event_of poll_device read_device callback array p c

  abbrev pub if_some : Option ℕ → ℕ → List ℕ
  if_some none c = []
  if_some (some e) c = c ∷ []

  -- The channels with an event, the last first.
  abbrev pub ready : Program W → List ℕ → List ℕ
  ready p [] = []
  ready p (c ∷ cs) = ready p cs ++ if_some (found p c) c

  abbrev pub event_or : Option ℕ → ℕ
  event_or none = 0
  event_or (some e) = e

  -- The handlers of some channels, one after the other, with the events found in `p`.
  abbrev pub handle_all : Program W → List ℕ → Program W → Program W
  handle_all p [] q = q
  handle_all p (c ∷ cs) q =
      handle_all p cs
        (handle_event poll_device read_device callback array c (event_or (found p c)) q)

  -- The list of active channels, with their events.
  pub record IsActive (h : ℕ) (p : Program W) (ys : List ℕ) (r : Reactor W) : Type 0 where
    pub program : r.program ≡ p
    pub timer : r.handle_timer ≡ h
    pub ring : IsRing r.active active_channels ys
    pub marks : All (λ c. r.revents c ≡ event_or (found p c)) ys

  -- A mark elsewhere.
  marked-All :
      (f g : ℕ → ℕ) (c e : ℕ) (ys : List ℕ)
      → Fresh c ys
      → All (λ d. f d ≡ g d) ys
      → All (λ d. (if d == c then e else f d) ≡ g d) ys
  marked-All f g c e [] fresh h = tt
  marked-All f g c e (y ∷ ys) fresh h =
      (ground (arith, fresh.0, h.0), marked-All f g c e ys fresh.1 h.1)

  mark-IsActive :
      (t : ℕ) (p : Program W) (c : ℕ) (o : Option ℕ) (ys : List ℕ) (exit : Bool) (r : Reactor W)
      → found p c ≡ o
      → Fresh c (active_channels ∷ ys)
      → IsActive t p ys r
      → IsActive t p
          (if_some o c ++ ys)
          (mark poll_device read_device callback array c o (exit, r)).1
  mark-IsActive t p c none ys exit r h fresh a = a
  mark-IsActive t p c (some e) ys exit r h fresh a = record {
    program = a.program;
    timer = a.timer;
    ring = insert_after-IsRing r.active c active_channels ys a.ring fresh;
    marks = (
      rw h (ground arith),
      marked-All r.revents (λ d. event_or (found p d)) c e ys fresh.1 a.marks,
    );
  }

  -- No channel that is still to be visited is active.
  Apart-mark :
      (c : ℕ) (o : Option ℕ) (cs ys : List ℕ)
      → Fresh c cs
      → Apart cs (active_channels ∷ ys)
      → Apart cs (active_channels ∷ if_some o c ++ ys)
  Apart-mark c none cs ys fresh a = a
  Apart-mark c (some e) [] ys fresh a = tt
  Apart-mark c (some e) (x ∷ cs) ys fresh a =
      ((a.0.0, (λ same. fresh.0 (sym same), a.0.1)), Apart-mark c (some e) cs ys fresh.1 a.1)

  not-nil-append : (xs ys : List ℕ) → not (is_nil (xs ++ ys)) ≡ (not (is_nil xs) || not (is_nil ys))
  not-nil-append [] ys = refl
  not-nil-append (x ∷ xs) ys = refl

  exit-mark :
      (c : ℕ) (o : Option ℕ) (exit : Bool) (r : Reactor W)
      → (mark poll_device read_device callback array c o (exit, r)).0
        ≡ (exit || not (is_nil (if_some o c)))
  exit-mark c none exit r = ground arith
  exit-mark c (some e) exit r = ground arith

  pub scan-IsActive :
      (fuel a t : ℕ) (p : Program W) (cs ys : List ℕ) (exit : Bool) (r : Reactor W)
      → Seg p.poller.links a cs channels
      → Fresh channels cs × Distinct cs
      → Apart cs (active_channels ∷ ys)
      → length cs < fuel
      → IsActive t p ys r
      → let s =
          scan poll_device read_device callback array fuel (p.poller.links.next a) (exit, r) in
        IsActive t p (ready p cs ++ ys) s.1 × (s.0 ≡ (exit || not (is_nil (ready p cs))))
  unfolding scan
  scan-IsActive zero a t p cs ys exit r g d apart h i = absurd (omega arith)
  scan-IsActive (suc fuel) a t p [] ys exit r g d apart h i = rw g.0 (i, ground arith)
  scan-IsActive (suc fuel) a t p (c ∷ cs) ys exit r g d apart h i =
      let o = found p c in
      let s' = mark poll_device read_device callback array c o (exit, r) in
      let m = mark-IsActive t p c o ys exit r refl apart.0 i in
      let e = exit-mark c o exit r in
      let rest =
        scan-IsActive fuel c t p cs (if_some o c ++ ys) s'.0 s'.1 g.2 (d.0.1, d.1.1)
          (Apart-mark c o cs ys d.1.0 apart.1) (omega (arith, h)) m in
      let off : (c == channels) ≡ false = ground (arith, d.0) in
      let same : visit poll_device read_device callback array c (exit, r) ≡ s' =
        ap (λ (q : Program W). mark poll_device read_device callback array c (found q c) (exit, r))
          i.program in
      rw g.0 (
        rw off (
          rw same (
            rw m.program (
              rw (append_assoc (ready p cs) (if_some o c) ys) (
                rest.0,
                rest.1 ∙ rw (not-nil-append (ready p cs) (if_some o c)) (ground (arith, e)),
              )))))

  pub serve_from-All :
      (fuel a : ℕ) (p : Program W) (ys : List ℕ) (r : Reactor W)
      → Seg r.active a ys active_channels
      → Fresh active_channels ys
      → length ys < fuel
      → All (λ c. r.revents c ≡ event_or (found p c)) ys
      → serve_from poll_device read_device callback array fuel (r.active.next a) r
        ≡ record r { program = handle_all p ys r.program }
  unfolding serve_from
  serve_from-All zero a p ys r g f h m = absurd (omega arith)
  serve_from-All (suc fuel) a p [] r g f h m = rw g.0 refl
  serve_from-All (suc fuel) a p (y ∷ ys) r g f h m =
      let off : (y == active_channels) ≡ false = ground (arith, f.0) in
      let e = event_or (found p y) in
      let r' = record r {
        program = handle_event poll_device read_device callback array y e r.program;
      } in
      rw g.0 (rw off (rw m.0 (serve_from-All fuel y p ys r' g.2 f.1 (omega (arith, h)) m.1)))

  one_channel : (c : ℕ) (o : Option ℕ) → length (if_some o c) ≤ 1
  one_channel c none = omega arith
  one_channel c (some e) = omega arith

  pub length-ready : (p : Program W) (cs : List ℕ) → length (ready p cs) ≤ length cs
  length-ready p [] = omega arith
  length-ready p (c ∷ cs) = omega (
    arith,
    length-ready p cs,
    length-append (ready p cs) (if_some (found p c) c),
    one_channel c (found p c),
  )

  pub Fresh-Apart : (l : ℕ) (cs : List ℕ) → Fresh l cs → Apart cs (l ∷ [])
  Fresh-Apart l [] f = tt
  Fresh-Apart l (c ∷ cs) f = ((λ e. f.0 (sym e), tt), Fresh-Apart l cs f.1)
