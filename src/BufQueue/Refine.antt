-- ===== src/BufQueue/Refine.antt =====
-- The ring of slots refines the first-in first-out queue of its frames.
use project_sensor.Prelude.{
  ℕ, ◌≡◌, refl, sym, ap, Bool-cases, inl, inr, none, some, List, [], ◌∷◌, arith, leb, length,
}
use project_sensor.Prelude.Int.{pos, negsuc}
use project_sensor.BufQueue.{BufQueue, init, put, get, pick, pop}
use project_sensor.BufQueue.Fifo.{Frames, Op, Reply, offer, fetch, peek, discard, call, replies}
use project_sensor.BufQueue.Shape.{
  AllSlots, contents, IsValid, put-after, contents-after, after-IsValid, contents-shorter,
  shorter-IsValid, length-contents, contents_empty,
}

-- One call of the C functions, as a client makes it.
unfoldable pub perform : BufQueue → Op → Reply × BufQueue
perform q (Op.put bytes) = let (r, q') = put q (some bytes) (length bytes) in ((r, none), q')
perform q Op.get = let (r, out, q') = get q in ((r, out), q')
perform q Op.pick = (pick q, q)
perform q Op.pop = let (r, q') = pop q in ((r, none), q')

unfoldable pub perform_all : BufQueue → List Op → List Reply
perform_all q [] = []
perform_all q (op ∷ ops) = let (r, q') = perform q op in r ∷ perform_all q' ops

-- `r` and `q'` are what the queue of frames answers and keeps, in a valid ring.
record Refines (q : BufQueue) (op : Op) (r : Reply) (q' : BufQueue) : Type 0 where
  answer : call q.capacity (contents q) op ≡ (r, contents q')
  valid : IsValid q'
  same : q'.capacity ≡ q.capacity

module _ (q : BufQueue) (v : IsValid q) where
  open q use {m_rx_buf, front, rear, size, capacity}

  put-Refines :
      (bytes : List ℕ) → let (r, q') = perform q (Op.put bytes) in Refines q (Op.put bytes) r q'
  unfolding perform call offer
  put-Refines bytes = elim (Bool-cases (leb capacity size)) [
    | inl full ↦
        let e : put q (some bytes) (length bytes) ≡ (negsuc 0, q) = unfold put in rw full in
        rw e (record { answer = rw (length-contents q, full); valid = v; same = refl })
    | inr room ↦ rw (put-after q v bytes room) (record {
      answer =
          rw (length-contents q, room)
            (ap (λ (c : Frames). ((pos 0, none), c))
              (sym (contents-after q v bytes (ground arith))));
      valid = after-IsValid q v bytes (ground arith);
      same = refl;
    })
  ]

  get-Refines : let (r, q') = perform q Op.get in Refines q Op.get r q'
  unfolding perform call fetch get
  get-Refines = elim (Bool-cases (leb size 0)) [
    | inl none_in ↦
        rw none_in
          (record { answer = rw (contents_empty q (ground arith)); valid = v; same = refl })
    | inr some_in ↦ rw some_in (record {
      answer = rw (contents-shorter q v (ground arith));
      valid = shorter-IsValid q v (ground arith);
      same = refl;
    })
  ]

  pick-Refines : let (r, q') = perform q Op.pick in Refines q Op.pick r q'
  unfolding perform call peek pick
  pick-Refines = elim (Bool-cases (leb size 0)) [
    | inl none_in ↦
        rw none_in
          (record { answer = rw (contents_empty q (ground arith)); valid = v; same = refl })
    | inr some_in ↦
        rw some_in
          (record { answer = rw (contents-shorter q v (ground arith)); valid = v; same = refl })
  ]

  pop-Refines : let (r, q') = perform q Op.pop in Refines q Op.pop r q'
  unfolding perform call discard pop
  pop-Refines = elim (Bool-cases (leb size 0)) [
    | inl none_in ↦
        rw none_in
          (record { answer = rw (contents_empty q (ground arith)); valid = v; same = refl })
    | inr some_in ↦ rw some_in (record {
      answer = rw (contents-shorter q v (ground arith));
      valid = shorter-IsValid q v (ground arith);
      same = refl;
    })
  ]

  perform-Refines : (op : Op) → let (r, q') = perform q op in Refines q op r q'
  perform-Refines (Op.put bytes) = put-Refines bytes
  perform-Refines Op.get = get-Refines
  perform-Refines Op.pick = pick-Refines
  perform-Refines Op.pop = pop-Refines

-- Each of `buf_queue_put`, `get`, `pick` and `pop` on a valid ring returns what the queue of the
-- ring's frames returns, holds the frames of that queue afterwards, and keeps the invariant.
pub perform_refines :
    (q : BufQueue) (op : Op)
    → IsValid q
    → let (r, q') = perform q op in
      (call q.capacity (contents q) op ≡ (r, contents q')) × IsValid q'
perform_refines q op v = let p = perform-Refines q v op in (p.answer, p.valid)

-- No sequence of calls tells a valid ring from the bounded queue of the frames in it.
pub perform_all_refines :
    (q : BufQueue) (ops : List Op)
    → IsValid q
    → perform_all q ops ≡ replies q.capacity (contents q) ops
unfolding perform_all replies
perform_all_refines q [] v = refl
perform_all_refines q (op ∷ ops) v =
    let p = perform-Refines q v op in
    rw (perform_all_refines (perform q op).1 ops p.valid, p.answer, p.same)

-- `buf_queue_init` on three slots of full size gives a valid ring that holds no frame.
pub init-IsValid :
    (q : BufQueue)
    → length q.m_rx_buf ≡ 3
    → AllSlots q.m_rx_buf
    → IsValid (init q) × (contents (init q) ≡ [])
unfolding init
init-IsValid q three full = (
  record {
    small = omega arith;
    slots = three;
    buffers = full;
    front_in = omega arith;
    size_in = omega arith;
    rear_is = refl;
  },
  contents_empty (record q { front = 0; rear = 0; size = 0; capacity = 3 }) refl,
)
