-- ===== src/Uart/Overflow.antt =====
-- A byte more than the receive buffer holds.
use project_sensor.Prelude.{
  ℕ, ◌≡◌, refl, ap, ◌∙◌, arith, true, List, [], ◌∷◌, length, length-set, take, leb,
}
use project_sensor.Prelude.Int.{pos, negsuc}
use project_sensor.BufQueue.{BufQueue}
use project_sensor.BufQueue.Fifo.{Frames}
use project_sensor.BufQueue.Shape.{contents, IsValid}
use project_sensor.Uart.{
  Transceiver, tx_idle, rx_done, rx_buf_size, enqueue, force_done, push, push_timed,
  byte_timer_timeout,
}
use project_sensor.Uart.Replace.{arrived, enqueue-arrived, enqueue-capacity}
use project_sensor.Uart.Frames.{take-set, IsReceiving}

-- The transceiver after a byte that had no room.
record Over (q : BufQueue) (c : ℕ) (t : Transceiver) : Type 0 where
  half : t.half_duplex ≡ true
  idle : t.tx_status ≡ tx_idle
  closed : t.rx_status ≡ rx_done
  index : t.rx_index ≡ 1
  size : length t.rx_buf ≡ rx_buf_size
  bytes : take 1 t.rx_buf ≡ c ∷ []
  queue : t.buf_queue ≡ q

push-Over :
    (bs : List ℕ) (c : ℕ) (t : Transceiver)
    → length bs ≡ rx_buf_size
    → IsReceiving t.buf_queue bs t
    → let (rt, t') = push c t in (rt ≡ pos 0) × Over (enqueue t.rx_buf (length bs) t.buf_queue) c t'
unfolding push force_done
push-Over bs c t h r =
    let full : leb rx_buf_size t.rx_index ≡ true = ground (arith, r.index, h) in
    rw r.half (
      rw r.idle (
        rw r.listens (
          rw full (
            refl,
            record {
              half = refl;
              idle = refl;
              closed = refl;
              index = refl;
              size = length-set t.rx_buf 0 c ∙ r.size;
              bytes = take-set 0 c t.rx_buf (omega (arith, r.size));
              queue = ap (λ (n : ℕ). enqueue t.rx_buf n t.buf_queue) r.index;
            },
          ))))

push_timed-Over :
    (bs : List ℕ) (c : ℕ) (t : Transceiver)
    → length bs ≡ rx_buf_size
    → IsReceiving t.buf_queue bs t
    → Over (enqueue t.rx_buf (length bs) t.buf_queue) c (push_timed c t).1
unfolding push_timed
push_timed-Over bs c t h r =
    let p = push-Over bs c t h r in
    rw p.0 (record {
      half = p.1.half;
      idle = p.1.idle;
      closed = p.1.closed;
      index = p.1.index;
      size = p.1.size;
      bytes = p.1.bytes;
      queue = p.1.queue;
    })

-- One byte more than the buffer holds: the full buffer is queued as a frame, the byte is taken all the
-- same, the bytes after it are refused, and when the line falls silent the byte becomes a frame too.
pub push_timed-overflow :
    (bs : List ℕ) (c d : ℕ) (t : Transceiver)
    → length bs ≡ rx_buf_size
    → IsReceiving t.buf_queue bs t
    → IsValid t.buf_queue
    → let t' = (push_timed c t).1 in
      let fs = arrived t.buf_queue.capacity bs (contents t.buf_queue) in
      (contents t'.buf_queue ≡ fs)
      × ((push_timed d t').0 ≡ negsuc 0)
      × (contents (byte_timer_timeout t').buf_queue ≡ arrived t.buf_queue.capacity (c ∷ []) fs)
push_timed-overflow bs c d t h r v =
    let t' = (push_timed c t).1 in
    let q' = enqueue t.rx_buf (length bs) t.buf_queue in
    let o = push_timed-Over bs c t h r in
    let a =
      enqueue-arrived t.rx_buf (length bs) (omega (arith, h, r.size)) (omega (arith, h)) t.buf_queue
        v in
    let first : contents q' ≡ arrived t.buf_queue.capacity bs (contents t.buf_queue) =
      a.0 ∙ ap (λ (f : List ℕ). arrived t.buf_queue.capacity f (contents t.buf_queue)) r.bytes in
    let last = enqueue-arrived t'.rx_buf 1 (omega (arith, o.size)) (omega arith) q' a.1 in
    let same =
      enqueue-capacity t.rx_buf (length bs) (omega (arith, h, r.size)) (omega (arith, h))
        t.buf_queue in
    let cap = t.buf_queue.capacity in
    let end =
      ap (λ (n : ℕ). arrived n (take 1 t'.rx_buf) (contents q')) same
      ∙ ap (λ (f : List ℕ). arrived cap f (contents q')) o.bytes
      ∙ ap (λ (fs : Frames). arrived cap (c ∷ []) fs) first in
    (
      ap contents o.queue ∙ first,
      unfold push_timed push in rw o.closed (ground arith),
      unfold force_done in rw o.half (rw o.queue (rw o.index (last.0 ∙ end))),
    )
