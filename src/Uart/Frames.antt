-- ===== src/Uart/Frames.antt =====
-- How bytes become frames, and where the frames go.
use project_sensor.Prelude.{
  ℕ, zero, suc, ◌+◌, ◌≤◌, ◌<◌, ◌≡◌, refl, sym, ap, ◌∙◌, arith, true, false, List, [], ◌∷◌, ◌++◌,
  append_assoc, append-nil, length, length-set, length-append, take, set, leb,
}
use project_sensor.Prelude.Int.{pos}
use project_sensor.BufQueue.{BufQueue}
use project_sensor.BufQueue.Shape.{contents, IsValid}
use project_sensor.Uart.{
  Transceiver, tx_idle, rx_recv, rx_done, rx_buf_size, force_done, push, push_timed,
  byte_timer_timeout,
}
use project_sensor.Uart.Replace.{arrived, enqueue-arrived}

pub take-set :
    (n v : ℕ) (xs : List ℕ) → n < length xs → take (suc n) (set xs n v) ≡ take n xs ++ (v ∷ [])
take-set n v [] h = absurd (omega (arith, h))
take-set zero v (x ∷ xs) h = refl
take-set (suc n) v (x ∷ xs) h = ap (λ (l : List ℕ). x ∷ l) (take-set n v xs (omega (arith, h)))

-- The receiver listens, and has the bytes `bs` of a frame; `q` are the frames before it.
pub record IsReceiving (q : BufQueue) (bs : List ℕ) (t : Transceiver) : Type 0 where
  pub half : t.half_duplex ≡ true
  pub idle : t.tx_status ≡ tx_idle
  pub listens : t.rx_status ≡ rx_recv
  pub index : t.rx_index ≡ length bs
  pub size : length t.rx_buf ≡ rx_buf_size
  pub bytes : take (length bs) t.rx_buf ≡ bs
  pub queue : t.buf_queue ≡ q

stored :
    (bs buf : List ℕ) (c i : ℕ)
    → i ≡ length bs
    → length bs < length buf
    → take (length bs) buf ≡ bs
    → take (length (bs ++ (c ∷ []))) (set buf i c) ≡ bs ++ (c ∷ [])
stored bs buf c i e h t =
    let one_more : length (bs ++ (c ∷ [])) ≡ suc (length bs) =
      omega (arith, length-append bs (c ∷ [])) in
    rw one_more (rw e (take-set (length bs) c buf h ∙ ap (λ (l : List ℕ). l ++ (c ∷ [])) t))

push-IsReceiving :
    (q : BufQueue) (bs : List ℕ) (c : ℕ) (t : Transceiver)
    → length bs < rx_buf_size
    → IsReceiving q bs t
    → let (rt, t') = push c t in (rt ≡ pos 0) × IsReceiving q (bs ++ (c ∷ [])) t'
unfolding push
push-IsReceiving q bs c t h r =
    let room : leb rx_buf_size t.rx_index ≡ false = ground (arith, r.index, h) in
    rw r.half (
      rw r.idle (
        rw r.listens (
          rw room (
            refl,
            record {
              half = refl;
              idle = refl;
              listens = refl;
              index = omega (arith, r.index, length-append bs (c ∷ []));
              size = length-set t.rx_buf t.rx_index c ∙ r.size;
              bytes = stored bs t.rx_buf c t.rx_index r.index (omega (arith, h, r.size)) r.bytes;
              queue = r.queue;
            },
          ))))

-- The timer aside, `push_timed` is `push`.
push_timed-IsReceiving :
    (q : BufQueue) (bs : List ℕ) (c : ℕ) (t : Transceiver)
    → length bs < rx_buf_size
    → IsReceiving q bs t
    → let (rt, t') = push_timed c t in (rt ≡ pos 0) × IsReceiving q (bs ++ (c ∷ [])) t'
unfolding push_timed
push_timed-IsReceiving q bs c t h r =
    let p = push-IsReceiving q bs c t h r in
    rw p.0 (
      refl,
      record {
        half = p.1.half;
        idle = p.1.idle;
        listens = p.1.listens;
        index = p.1.index;
        size = p.1.size;
        bytes = p.1.bytes;
        queue = p.1.queue;
      },
    )

-- The receive interrupts for the bytes of a frame, and the line that falls silent.
abbrev pub receive : List ℕ → Transceiver → Transceiver
receive [] t = t
receive (c ∷ cs) t = receive cs (push_timed c t).1

receive-IsReceiving :
    (q : BufQueue) (bs cs : List ℕ) (t : Transceiver)
    → length bs + length cs ≤ rx_buf_size
    → IsReceiving q bs t
    → IsReceiving q (bs ++ cs) (receive cs t)
receive-IsReceiving q bs [] t h r = rw (append-nil bs) r
receive-IsReceiving q bs (c ∷ cs) t h r =
    let p = push_timed-IsReceiving q bs c t (omega (arith, h)) r in
    let e : bs ++ c ∷ cs ≡ (bs ++ (c ∷ [])) ++ cs = sym (append_assoc bs (c ∷ []) cs) in
    rw e (
      receive-IsReceiving q (bs ++ (c ∷ [])) cs (push_timed c t).1
        (omega (arith, h, length-append bs (c ∷ []))) p.1)

-- What the timeout of the byte timer makes of a frame.
force_done-arrived :
    (q : BufQueue) (bs : List ℕ) (t : Transceiver)
    → length bs ≤ rx_buf_size
    → IsReceiving q bs t
    → IsValid q
    → let t' = force_done t in
      (contents t'.buf_queue ≡ arrived q.capacity bs (contents q))
      × IsValid t'.buf_queue
      × (t'.rx_status ≡ rx_done)
unfolding force_done
force_done-arrived q bs t h r v =
    let a =
      enqueue-arrived t.rx_buf (length bs) (omega (arith, h, r.size)) (omega (arith, h)) q v in
    rw r.half (
      rw r.queue (
        rw r.index
          (a.0 ∙ ap (λ (f : List ℕ). arrived q.capacity f (contents q)) r.bytes, a.1, refl)))

-- A frame of at most 100 bytes that the line brings while the receiver listens goes into the queue as
-- it is when the line falls silent, in the place of the oldest frame if there is no room; then the
-- receiver is closed until it is told to listen again.
pub receive-arrived :
    (bs : List ℕ) (t : Transceiver)
    → length bs ≤ rx_buf_size
    → IsReceiving t.buf_queue [] t
    → IsValid t.buf_queue
    → let t' = byte_timer_timeout (receive bs t) in
      (contents t'.buf_queue ≡ arrived t.buf_queue.capacity bs (contents t.buf_queue))
      × IsValid t'.buf_queue
      × (t'.rx_status ≡ rx_done)
receive-arrived bs t h r v =
    force_done-arrived t.buf_queue bs (receive bs t) h
      (receive-IsReceiving t.buf_queue [] bs t (omega (arith, h)) r) v
