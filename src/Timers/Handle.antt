-- ===== src/Timers/Handle.antt =====
-- The loop of `timer_manage::timer_handle`, for callbacks that leave the timers alone.
use project_sensor.Prelude.{
  ℕ, zero, suc, ◌+◌, ◌<◌, ◌≡◌, refl, sym, ◌∙◌, arith, false, List, [], ◌∷◌, ◌==◌, Bool-cases, inl,
  inr,
}
use project_sensor.Links.{Links, del}
use project_sensor.Links.Ring.{IsRing, del-IsRing, is_empty_lem}
use project_sensor.Timers.{Kernel, not_after}
use project_sensor.Timers.Manager.{call_timeout, fire, is_due, timer_handle}
use project_sensor.Timers.Start.{timeouts}
use project_sensor.Timers.Live.{IsRunning, due}
use project_sensor.Timers.Serve.{
  Called, marked, marked-Called, Called-refl, next_list, Served, settle-once, settle-again,
}

module _ {W : Type 0} (call : ℕ → ℕ → Kernel × W → Kernel × W)
    (quiet : (f p : ℕ) (k : Kernel) (w : W) → (call f p (k, w)).0 ≡ k) where
  module _ (i : ℕ) (links : Links) (k : Kernel) (w : W) where
    call_timeout-Called :
        let k2 = (call_timeout call i (record k { links = links }, w)).0 in
        Called i k k2 × (k2.links ≡ links)
    unfolding call_timeout
    call_timeout-Called =
        let t = k.timer i in
        elim (Bool-cases (t.func == 0)) [
          | inl null ↦ rw null (Called-refl i links k, refl)
          | inr there ↦
              rw there
                (rw (quiet t.func t.parameter (marked i links k) w) (marked-Called i links k, refl))
        ]

  fire-Served :
      (head i : ℕ) (xs : List ℕ) (k : Kernel) (w : W)
      → IsRunning k head (i ∷ xs)
      → Served head (next_list i k xs) (due (timeouts k) k.tick xs) (fire call head i (k, w)).0
  unfolding fire
  fire-Served head i xs k w r =
      let links = del i k.links in
      let (c, same) = call_timeout-Called i links k w in
      let k2 = (call_timeout call i (record k { links = links }, w)).0 in
      let ring : IsRing k2.links head xs = rw same (del-IsRing k.links i head [] xs r.ring) in
      elim r.live.0.period [
        | inl once ↦ settle-once head i xs k k2 r c ring once
        | inr period ↦ elim (Bool-cases (k.timer i).flag.periodic) [
          | inl again ↦ settle-again head i xs k k2 r c ring again period
          | inr once ↦ settle-once head i xs k k2 r c ring once
        ]
      ]

  -- What the loop leaves: a list of running timers, the first of which is not due.
  pub record Handled (head : ℕ) (k : Kernel) : Type 0 where
    pub rest : List ℕ
    pub running : IsRunning k head rest
    pub quiet_head : is_due head k ≡ false

  is_due_head :
      (head i : ℕ) (xs : List ℕ) (k : Kernel)
      → IsRunning k head (i ∷ xs)
      → is_due head k ≡ not_after (timeouts k i) k.tick
  unfolding is_due
  is_due_head head i xs k r = rw (is_empty_lem k.links head (i ∷ xs) r.ring) (rw r.ring.seg.0 refl)

  -- `timer_handle` ends after as many rounds as there are timers due, and no more, whatever periods
  -- the periodic timers among them have, as long as none is 0 and the callbacks leave the timers
  -- alone: then the first timer of the list is not due.
  pub timer_handle_end :
      (fuel head : ℕ) (xs : List ℕ) (k : Kernel) (w : W)
      → IsRunning k head xs
      → due (timeouts k) k.tick xs < fuel
      → Handled head (timer_handle call fuel head (k, w)).0
  unfolding timer_handle due
  timer_handle_end zero head xs k w r h = absurd (omega arith)
  timer_handle_end (suc fuel) head [] k w r h =
      let none_due : is_due head k ≡ false =
        unfold is_due in rw (is_empty_lem k.links head [] r.ring) refl in
      rw none_due (record { rest = []; running = r; quiet_head = none_due })
  timer_handle_end (suc fuel) head (i ∷ xs) k w r h = elim (Bool-cases (is_due head k)) [
    | inl now ↦
        let s = fire-Served head i xs k w r in
        let next = fire call head i (k, w) in
        let counted : 1 + due (timeouts k) k.tick xs < suc fuel =
          rw (sym (is_due_head head i xs k r) ∙ now) at h in
        rw now (
          rw r.ring.seg.0 (
            timer_handle_end fuel head (next_list i k xs) next.0 next.1 s.running
              (omega (arith, s.counted, counted))))
    | inr later ↦ rw later (record { rest = i ∷ xs; running = r; quiet_head = later })
  ]
