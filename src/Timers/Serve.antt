-- ===== src/Timers/Serve.antt =====
-- What happens to a timer after its callback, in `timer_manage::timer_handle`.
use native.Mathlib.Nat.{zero-add}
use project_sensor.Prelude.{
  ℕ, ◌+◌, ◌%◌, ◌<◌, ◌≡◌, ◌≢◌, refl, sym, ap, ◌∙◌, arith, Bool, true, false, ◌&&◌, List, ◌∷◌, ◌==◌,
  if◌then◌else◌, Bool-cases, inl, inr,
}
use project_sensor.Links.{Links}
use project_sensor.Links.Seg.{Fresh}
use project_sensor.Links.Ring.{IsRing}
use project_sensor.Timers.{
  Timer, Kernel, list_of, not_after, tick_mod, half_tick_max, sv_timer_start, set_flag,
  soft_timer_list,
}
use project_sensor.Timers.Manager.{settle}
use project_sensor.Timers.Start.{timeouts, insert, insert_ext, new_timeout, sv_timer_start-insert}
use project_sensor.Timers.Order.{length-insert, start-timeouts}
use project_sensor.Timers.Live.{
  IsLive, IsRunning, Alike, All-Alike, All-insert, due, due_ext, due-insert, new_timeout-ahead,
}

-- What the callback of timer `i` leaves of the timers.
pub record Called (i : ℕ) (k k' : Kernel) : Type 0 where
  pub alike : Alike i k k'
  pub init : (k'.timer i).init_tick ≡ (k.timer i).init_tick
  pub timeout : (k'.timer i).timeout_tick ≡ (k.timer i).timeout_tick
  pub soft : (k'.timer i).flag.soft ≡ (k.timer i).flag.soft
  pub periodic : (k'.timer i).flag.periodic ≡ (k.timer i).flag.periodic
  pub activated : (k'.timer i).flag.activated ≡ (k.timer i).flag.activated

abbrev pub marked : ℕ → Links → Kernel → Kernel
marked i links k =
    set_flag i (record (k.timer i).flag { handling = true }) (record k { links = links })

pub marked-Called :
    (i : ℕ) (links : Links) (k : Kernel)
    → let m = marked i links k in
      Called i k (set_flag i (record (m.timer i).flag { handling = false }) m)
marked-Called i links k = record {
  alike = record { tick = refl; others = λ j n. ground arith };
  init = ground arith;
  timeout = ground arith;
  soft = ground arith;
  periodic = ground arith;
  activated = ground arith;
}

pub Called-refl : (i : ℕ) (links : Links) (k : Kernel) → Called i k (record k { links = links })
Called-refl i links k = record {
  alike = record { tick = refl; others = λ j n. refl };
  init = refl;
  timeout = refl;
  soft = refl;
  periodic = refl;
  activated = refl;
}

if_true {ℓ} : {A : Type ℓ} (b : Bool) (x y : A) → b ≡ true → (if b then x else y) ≡ x
if_true b x y h = rw h refl

-- The list after the head timer `i` was served.
abbrev pub next_list : ℕ → Kernel → List ℕ → List ℕ
next_list i k xs =
    if (k.timer i).flag.periodic then insert (timeouts k) i (new_timeout i k) xs else xs

-- After one round of the loop: the timer has left the list, or was started again.
pub record Served (head : ℕ) (ys : List ℕ) (left : ℕ) (k' : Kernel) : Type 0 where
  pub running : IsRunning k' head ys
  pub counted : due (timeouts k') k'.tick ys ≡ left

record Started (i : ℕ) (k k' : Kernel) : Type 0 where
  pub alike : Alike i k k'
  pub init : (k'.timer i).init_tick ≡ (k.timer i).init_tick
  pub soft : (k'.timer i).flag.soft ≡ (k.timer i).flag.soft
  pub periodic : (k'.timer i).flag.periodic ≡ (k.timer i).flag.periodic
  pub activated : (k'.timer i).flag.activated ≡ true

start-Started :
    (i : ℕ) (k : Kernel) → (k.timer i).flag.activated ≡ false → Started i k (sv_timer_start i k).1
unfolding sv_timer_start
start-Started i k idle = rw idle (record {
  alike = record { tick = refl; others = λ j n. ground arith };
  init = ground arith;
  soft = ground arith;
  periodic = ground arith;
  activated = ground arith;
})

module _ (head i : ℕ) (xs : List ℕ) (k k2 : Kernel) (r : IsRunning k head (i ∷ xs))
    (c : Called i k k2) (ring : IsRing k2.links head xs) where
  fresh : Fresh i xs
  fresh = r.ring.distinct.1.0

  -- What both branches leave of the other timers.
  keep-IsRunning : (k3 : Kernel) → Alike i k k3 → IsRing k3.links head xs → IsRunning k3 head xs
  keep-IsRunning k3 a ring' = record {
    ring = ring';
    few = omega (arith, r.few);
    live = All-Alike head i k k3 xs a fresh r.live.1;
    now = rw a.tick r.now;
  }

  keep-due :
      (k3 : Kernel) → Alike i k k3 → due (timeouts k3) k3.tick xs ≡ due (timeouts k) k.tick xs
  keep-due k3 a = rw a.tick (
      due_ext (timeouts k3) (timeouts k) i k.tick xs
        (λ j n. ap (λ (t : Timer). t.timeout_tick) (a.others j n)) fresh)

  settle-Alike :
      (k.timer i).flag.periodic ≡ false
      → Alike i k (settle head i k2) × ((settle head i k2).links ≡ k2.links)
  unfolding settle
  settle-Alike once =
      let still : (k2.timer i).flag.periodic ≡ false = c.periodic ∙ once in
      rw still (elim (Bool-cases (head == soft_timer_list)) [
        | inl e ↦ rw e (
          record { tick = c.alike.tick; others = λ j n. ground (arith, c.alike.others j n) },
          refl,
        )
        | inr e ↦ rw e (
          record { tick = c.alike.tick; others = λ j n. ground (arith, c.alike.others j n) },
          refl,
        )
      ])

  pub settle-once :
      (k.timer i).flag.periodic ≡ false
      → Served head (next_list i k xs) (due (timeouts k) k.tick xs) (settle head i k2)
  settle-once once =
      let (a, same) = settle-Alike once in
      rw once (record { running = keep-IsRunning _ a (rw same ring); counted = keep-due _ a })

  -- The timer is idle when it is started again.
  stopped : Kernel
  stopped = set_flag i (record (k2.timer i).flag { activated = false }) k2

  again_kernel : Kernel
  unfolding stopped
  again_kernel = (sv_timer_start i stopped).1

  again_idle : (stopped.timer i).flag.activated ≡ false
  unfolding stopped
  again_idle = ground arith

  again-Started : Started i stopped again_kernel
  unfolding again_kernel
  again-Started = start-Started i stopped again_idle

  stopped-Alike : Alike i k stopped
  unfolding stopped
  stopped-Alike = record { tick = c.alike.tick; others = λ j n. ground (arith, c.alike.others j n) }

  again-Alike : Alike i k again_kernel
  again-Alike = record {
    tick = again-Started.alike.tick ∙ stopped-Alike.tick;
    others = λ j n. again-Started.alike.others j n ∙ stopped-Alike.others j n;
  }

  again_place : list_of (stopped.timer i).flag ≡ head
  unfolding stopped list_of
  again_place = ground (arith, c.soft, r.live.0.place)

  again_timeout : new_timeout i stopped ≡ new_timeout i k
  unfolding stopped
  again_timeout = ground (arith, c.alike.tick, c.init)

  times-Alike : (k' : Kernel) → Alike i k k' → (j : ℕ) → j ≢ i → timeouts k' j ≡ timeouts k j
  times-Alike k' a j n = ap (λ (t : Timer). t.timeout_tick) (a.others j n)

  again-IsRing : IsRing again_kernel.links head (insert (timeouts k) i (new_timeout i k) xs)
  unfolding again_kernel
  again-IsRing =
      let here : IsRing stopped.links (list_of (stopped.timer i).flag) xs =
        unfold stopped in rw again_place ring in
      let off : Fresh i (list_of (stopped.timer i).flag ∷ xs) =
        rw again_place (λ e. r.ring.distinct.0.0 (sym e), fresh) in
      let done =
        (sv_timer_start-insert i stopped again_idle xs here (omega (arith, r.few)) off).1 in
      rw
        (insert_ext (timeouts stopped) (timeouts k) i (new_timeout i k) xs
          (times-Alike stopped stopped-Alike) fresh)
        at (rw again_timeout at (rw again_place at done))

  again_kept :
      (list_of (again_kernel.timer i).flag ≡ head)
      × ((again_kernel.timer i).init_tick ≡ (k.timer i).init_tick)
  unfolding list_of stopped
  again_kept = (
    ground (arith, again-Started.soft, c.soft, r.live.0.place),
    ground (arith, again-Started.init, c.init),
  )

  again-IsRunning :
      (0 < (k.timer i).init_tick) × ((k.timer i).init_tick < half_tick_max)
      → IsRunning again_kernel head (insert (timeouts k) i (new_timeout i k) xs)
  again-IsRunning period = record {
    ring = again-IsRing;
    few = rw length-insert r.few;
    live =
        All-insert (IsLive again_kernel head) (timeouts k) i (new_timeout i k) xs
          (record {
            active = again-Started.activated;
            place = again_kept.0;
            period = inr (rw again_kept.1 period);
          })
          (All-Alike head i k again_kernel xs again-Alike fresh r.live.1);
    now = rw again-Alike.tick r.now;
  }

  again-due :
      (0 < (k.timer i).init_tick) × ((k.timer i).init_tick < half_tick_max)
      → due (timeouts again_kernel) again_kernel.tick (insert (timeouts k) i (new_timeout i k) xs)
        ≡ due (timeouts k) k.tick xs
  unfolding again_kernel
  again-due period =
      let times = timeouts again_kernel in
      let nt = new_timeout i k in
      let same : times i ≡ nt = (start-timeouts i stopped again_idle).0 ∙ again_timeout in
      let ahead : not_after (times i) again_kernel.tick ≡ false =
        rw (same ∙ ap (λ n. (n + (k.timer i).init_tick) % tick_mod) refl) (
          rw again-Alike.tick
            (new_timeout-ahead k.tick (k.timer i).init_tick r.now period.0 period.1)) in
      rw (sym (insert_ext times (timeouts k) i nt xs (times-Alike again_kernel again-Alike) fresh))
        (due-insert times i nt again_kernel.tick xs
          ∙ rw ahead (rw zero-add (keep-due again_kernel again-Alike)))

  settle_kernel : (k.timer i).flag.periodic ≡ true → settle head i k2 ≡ again_kernel
  unfolding settle again_kernel stopped
  settle_kernel again =
      if_true ((k2.timer i).flag.periodic && (k2.timer i).flag.activated) _ _
        (rw (c.periodic ∙ again) (c.activated ∙ r.live.0.active))

  pub settle-again :
      (k.timer i).flag.periodic ≡ true
      → (0 < (k.timer i).init_tick) × ((k.timer i).init_tick < half_tick_max)
      → Served head (next_list i k xs) (due (timeouts k) k.tick xs) (settle head i k2)
  settle-again again period =
      rw (settle_kernel again)
        (rw again (record { running = again-IsRunning period; counted = again-due period }))
