-- ===== src/Uart/Replace.antt =====
-- A frame put into the queue takes the place of the oldest if there is no room.
use project_sensor.Prelude.{
  ℕ, ◌-◌, ◌≤◌, ◌≡◌, refl, sym, ap, ◌∙◌, arith, true, false, Option, none, some, List, [], ◌∷◌, ◌++◌,
  length, length-take, take, take-all, drop, leb, ltb, if◌then◌else◌, Bool-cases, inl, inr,
}
use project_sensor.Prelude.Int.{pos, negsuc}
use project_sensor.BufQueue.{BufQueue, queue_buf_len, put, pop, fill}
use project_sensor.BufQueue.Fifo.{Frames, Op, Reply, call, offer, discard}
use project_sensor.BufQueue.Shape.{contents, IsValid, length-contents}
use project_sensor.BufQueue.Refine.{perform, perform_refines}
use project_sensor.Uart.{is_minus_one, enqueue}

-- The queue after a frame came in: it is the newest, and the oldest is gone if there was no room.
abbrev pub arrived : ℕ → List ℕ → Frames → Frames
arrived cap f fs = (if leb cap (length fs) then drop 1 fs else fs) ++ (f ∷ [])

offer-room :
    (cap : ℕ) (fs : Frames) (bytes : List ℕ)
    → leb cap (length fs) ≡ false
    → offer cap fs bytes ≡ ((pos 0, none), fs ++ (take queue_buf_len bytes ∷ []))
unfolding offer
offer-room cap fs bytes room = rw room refl

offer-full :
    (cap : ℕ) (fs : Frames) (bytes : List ℕ)
    → leb cap (length fs) ≡ true
    → offer cap fs bytes ≡ ((negsuc 0, none), fs)
unfolding offer
offer-full cap fs bytes full = rw full refl

length-tail : (fs : Frames) → length (drop 1 fs) ≡ length fs - 1
length-tail [] = refl
length-tail (f ∷ fs) = omega arith

discard-drop : (fs : Frames) → (discard fs).1 ≡ drop 1 fs
unfolding discard
discard-drop [] = refl
discard-drop (f ∷ fs) = refl

pop-capacity : (q : BufQueue) → (pop q).1.capacity ≡ q.capacity
unfolding pop
pop-capacity q = elim (Bool-cases (leb q.size 0)) [
  | inl empty ↦ rw empty refl
  | inr more ↦ rw more refl
]

put-capacity :
    (q : BufQueue) (pbuf : Option (List ℕ)) (n : ℕ) → (put q pbuf n).1.capacity ≡ q.capacity
unfolding put
put-capacity q pbuf n = elim (Bool-cases (leb q.capacity q.size)) [
  | inl full ↦ rw full refl
  | inr room ↦ rw room refl
]

pop-drop :
    (q : BufQueue) → IsValid q → (contents (pop q).1 ≡ drop 1 (contents q)) × IsValid (pop q).1
pop-drop q v =
    let (e, v') = perform_refines q Op.pop v in
    unfold perform call in
    (sym (ap (λ (r : Reply × Frames). r.1) e) ∙ discard-drop (contents q), v')

module _ (buf : List ℕ) (n : ℕ) (len : n ≤ length buf) (small : n ≤ queue_buf_len) where
  put-take : (q : BufQueue) → put q (some buf) n ≡ put q (some (take n buf)) (length (take n buf))
  unfolding put fill
  put-take q =
      let size : length (take n buf) ≡ n = omega (arith, length-take n buf, len) in
      let same : take n (take n buf) ≡ take n buf = take-all n (take n buf) (omega (arith, size)) in
      let fits : ltb queue_buf_len n ≡ false = ground (arith, small) in
      rw size (rw fits (rw same refl))

  put-offer :
      (q : BufQueue)
      → IsValid q
      → let (rt, q') = put q (some buf) n in
        (offer q.capacity (contents q) (take n buf) ≡ ((rt, none), contents q')) × IsValid q'
  put-offer q v = rw (put-take q) (unfold perform call in perform_refines q (Op.put (take n buf)) v)

  cut : take queue_buf_len (take n buf) ≡ take n buf
  cut = take-all queue_buf_len (take n buf) (omega (arith, length-take n buf, small))

  put-room :
      (q : BufQueue)
      → IsValid q
      → leb q.capacity (length (contents q)) ≡ false
      → let (rt, q') = put q (some buf) n in
        (rt ≡ pos 0) × (contents q' ≡ contents q ++ (take n buf ∷ [])) × IsValid q'
  put-room q v room =
      let (e, v') = put-offer q v in
      let r = sym e ∙ offer-room q.capacity (contents q) (take n buf) room in
      (
        ap (λ (x : Reply × Frames). x.0.0) r,
        ap (λ (x : Reply × Frames). x.1) r ∙ ap (λ (f : List ℕ). contents q ++ (f ∷ [])) cut,
        v',
      )

  put-full :
      (q : BufQueue)
      → IsValid q
      → leb q.capacity (length (contents q)) ≡ true
      → (put q (some buf) n).0 ≡ negsuc 0
  put-full q v full =
      ap (λ (x : Reply × Frames). x.0.0)
        (sym (put-offer q v).0 ∙ offer-full q.capacity (contents q) (take n buf) full)

  -- A frame put into a full queue takes the place of the oldest.
  pub enqueue-arrived :
      (q : BufQueue)
      → IsValid q
      → (contents (enqueue buf n q) ≡ arrived q.capacity (take n buf) (contents q))
        × IsValid (enqueue buf n q)
  enqueue-arrived q v = elim (Bool-cases (leb q.capacity (length (contents q)))) [
    | inl full ↦
        let p = pop-drop q v in
        let shorter : leb (pop q).1.capacity (length (contents (pop q).1)) ≡ false =
          rw (pop-capacity q) (
            rw p.0
              (ground (arith, length-tail (contents q), length-contents q, v.size_in, v.small))) in
        let again = put-room (pop q).1 p.1 shorter in
        rw (enqueue, put-full q v full)
          (rw full (again.1 ∙ ap (λ (fs : Frames). fs ++ (take n buf ∷ [])) p.0, again.2))
    | inr room ↦ let r = put-room q v room in rw (enqueue, r.0) (rw room (r.1, r.2))
  ]

  pub enqueue-capacity : (q : BufQueue) → (enqueue buf n q).capacity ≡ q.capacity
  enqueue-capacity q = elim (Bool-cases (is_minus_one (put q (some buf) n).0)) [
    | inl full ↦ rw (enqueue, full) (put-capacity (pop q).1 (some buf) n ∙ pop-capacity q)
    | inr room ↦ rw (enqueue, room) (put-capacity q (some buf) n)
  ]
