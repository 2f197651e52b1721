-- ===== src/Uart/Poll/Arrival.antt =====
-- From the line to the reader.
use project_sensor.Prelude.{
  ℕ, suc, Bool, Option, ◌==◌, ◌≤◌, ◌≡◌, refl, sym, ap, ◌∙◌, none, some, List, [], ◌∷◌, length, leb,
  Bool-cases, inl, inr,
}
use project_sensor.Prelude.Int.{ℤ, pos}
use project_sensor.Hal.{DeviceStatus}
use project_sensor.BufQueue.{BufQueue, get}
use project_sensor.BufQueue.Fifo.{Frames, Op, Reply, call}
use project_sensor.BufQueue.Fifo
use project_sensor.BufQueue.Shape.{contents, IsValid}
use project_sensor.BufQueue.Refine.{perform, perform_refines}
use project_sensor.Uart.{Transceiver, rx_buf_size, byte_timer_timeout}
use project_sensor.Uart.Frames.{IsReceiving, receive, receive-arrived}
use project_sensor.Uart.Replace.{arrived}
use project_sensor.Uart.Poll.{
  Polled, fetch, poll_loop, poll_start, poll, stop_if, read_timeout, answered, drv_devread,
  drv_read,
}

get-contents :
    (q : BufQueue) (f : List ℕ) (fs : Frames)
    → IsValid q
    → contents q ≡ f ∷ fs
    → let (rt, got, q') = get q in (rt ≡ pos 0) × (got ≡ some f) × (contents q' ≡ fs)
unfolding perform call Fifo.fetch
get-contents q f fs v e =
    let (r, v') = perform_refines q Op.get v in
    let s = ap (λ (c : Frames). call q.capacity c Op.get) (sym e) ∙ r in
    (
      sym (ap (λ (x : Reply × Frames). x.0.0) s),
      sym (ap (λ (x : Reply × Frames). x.0.1) s),
      sym (ap (λ (x : Reply × Frames). x.1) s),
    )

abbrev pub polled : List ℕ → Transceiver → Polled
polled bs t = record { rt = pos 1; frame = some bs; after = t }

arrived-nil : (cap : ℕ) (f : List ℕ) → arrived cap f [] ≡ f ∷ []
arrived-nil cap f = elim (Bool-cases (leb cap 0)) [
  | inl none_fit ↦ rw none_fit refl
  | inr some_fit ↦ rw some_fit refl
]

poll_loop-first :
    (n : ℕ) (f : List ℕ) (timeout handle : ℕ) (meanwhile : ℕ → Transceiver → Transceiver)
    (t : Transceiver)
    → (get t.buf_queue).0 ≡ pos 0
    → (get t.buf_queue).1 ≡ some f
    → poll_loop (suc n) timeout meanwhile handle t
      ≡ some (polled f (record t { buf_queue = (get t.buf_queue).2 }))
unfolding poll_loop fetch
poll_loop-first n f timeout handle meanwhile t ok got = rw ok (rw got refl)

poll_start-queue :
    (timeout handle : ℕ) (t : Transceiver) → (poll_start timeout handle t).1.buf_queue ≡ t.buf_queue
unfolding poll_start
poll_start-queue timeout handle t = elim (Bool-cases (timeout == 0)) [
  | inl at_once ↦ rw at_once refl
  | inr waits ↦ rw waits refl
]

-- The answer of a read, the frame and the frames that it leaves.
abbrev pub taken :
    Option ((ℤ × Option DeviceStatus) × Polled)
    → Option ((ℤ × Option DeviceStatus) × Option (List ℕ) × List (List ℕ))
taken none = none
taken (some (a, p)) = some (a, p.frame, contents p.after.buf_queue)

drv_read-first :
    (n : ℕ) (nonblock : Bool) (f : List ℕ) (handle junk : ℕ)
    (meanwhile : ℕ → Transceiver → Transceiver) (t : Transceiver)
    → (get t.buf_queue).0 ≡ pos 0
    → (get t.buf_queue).1 ≡ some f
    → taken (drv_read (suc n) nonblock meanwhile handle junk t)
      ≡ some ((pos (length f), none), some f, contents (get t.buf_queue).2)
unfolding drv_read poll drv_devread
drv_read-first n nonblock f handle junk meanwhile t ok got =
    let timeout = read_timeout nonblock in
    let (i, t') = poll_start timeout handle t in
    let queue = poll_start-queue timeout handle t in
    ap (λ (o : Option Polled). taken (answered junk (stop_if i o)))
      (poll_loop-first n f timeout i meanwhile t' (ap (λ (q : BufQueue). (get q).0) queue ∙ ok)
        (ap (λ (q : BufQueue). (get q).1) queue ∙ got))
    ∙ ap (λ (q : BufQueue). some ((pos (length f), none), some f, contents (get q).2)) queue

-- A frame that the line brings while the receiver listens and no other frame waits is what the
-- driver's read hands out next, in its first round and whether or not it may wait: the answer is the
-- length of the frame, without an error, and nothing is left in the queue.
pub receive-drv_read :
    (n : ℕ) (nonblock : Bool) (bs : List ℕ) (junk handle : ℕ)
    (meanwhile : ℕ → Transceiver → Transceiver) (t : Transceiver)
    → length bs ≤ rx_buf_size
    → IsReceiving t.buf_queue [] t
    → IsValid t.buf_queue
    → contents t.buf_queue ≡ []
    → taken (drv_read (suc n) nonblock meanwhile handle junk (byte_timer_timeout (receive bs t)))
      ≡ some ((pos (length bs), none), some bs, [])
receive-drv_read n nonblock bs junk handle meanwhile t h r v empty =
    let u = byte_timer_timeout (receive bs t) in
    let cap = t.buf_queue.capacity in
    let a = receive-arrived bs t h r v in
    let one : contents u.buf_queue ≡ bs ∷ [] =
      a.0 ∙ ap (λ (fs : Frames). arrived cap bs fs) empty ∙ arrived-nil cap bs in
    let g = get-contents u.buf_queue bs [] a.1 one in
    drv_read-first n nonblock bs handle junk meanwhile u g.0 g.1
    ∙ ap (λ (fs : List (List ℕ)). some ((pos (length bs), none), some bs, fs)) g.2
