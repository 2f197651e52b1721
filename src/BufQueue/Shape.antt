-- ===== src/BufQueue/Shape.antt =====
-- The frames that a ring of slots holds, its invariant, and the rings that the operations leave.
use project_sensor.Prelude.{
  ℕ, zero, suc, ◌+◌, ◌-◌, ◌%◌, ◌≤◌, ◌<◌, ◌≡◌, sym, ap, ap₂, ◌∙◌, false, Bool-cases, inl, inr, some,
  List, [], ◌∷◌, ◌++◌, arith, leb, ltb, if◌then◌else◌, length, get_or, set, take, take-all,
  length-take, length-set, length-blit, get_or-set, get_or-blit, blit, gather, gather-snoc,
  gather-uncons, gather_ext, gather-get_or, length-gather,
}
use project_sensor.Prelude.Int.{pos}
use project_sensor.BufQueue.{queue_buf_len, RxBuf, BufQueue, no_slot, frame, fill, put}
use project_sensor.BufQueue.Fifo.{Frames}

-- The index `k` places behind the front.
abbrev pub slot_at : ℕ → ℕ → ℕ → ℕ
slot_at cap front k = if ltb (front + k) cap then front + k else front + k - cap

abbrev pub frame_at : BufQueue → ℕ → List ℕ
frame_at q k = frame (get_or q.m_rx_buf (slot_at q.capacity q.front k) no_slot)

-- The frames in the queue, oldest first.
unfoldable pub contents : BufQueue → Frames
contents q = gather (frame_at q) 0 q.size

-- Each slot is a buffer of the full size.
abbrev pub AllSlots : List RxBuf → Type 0
AllSlots [] = Unit
AllSlots (s ∷ ss) = (length s.m_buf ≡ queue_buf_len) × AllSlots ss

pub record IsValid (q : BufQueue) : Type 0 where
  pub small : (0 < q.capacity) × (q.capacity < 256)
  pub slots : length q.m_rx_buf ≡ q.capacity
  pub buffers : AllSlots q.m_rx_buf
  pub front_in : q.front < q.capacity
  pub size_in : q.size ≤ q.capacity
  pub rear_is : q.rear ≡ slot_at q.capacity q.front q.size

-- A copy to the start of a buffer that it fits is read back.
take-blit : (dst src : List ℕ) → length src ≤ length dst → take (length src) (blit dst 0 src) ≡ src
take-blit dst src h =
    sym (gather-get_or (blit dst 0 src) 0 (length src) (omega (arith, length-blit dst 0 src)))
    ∙ gather_ext (λ k. get_or (blit dst 0 src) k 0) (λ k. get_or src k 0) 0 0 (length src)
        (λ k below. ground (arith, get_or-blit dst 0 src (0 + k) 0))
    ∙ gather-get_or src 0 (length src) (omega arith)
    ∙ take-all (length src) src (omega arith)

-- A filled slot holds what was offered, cut to the buffer.
frame-fill :
    (slot : RxBuf) (bytes : List ℕ)
    → length slot.m_buf ≡ queue_buf_len
    → frame (fill slot (some bytes) (length bytes)) ≡ take queue_buf_len bytes
unfolding fill
frame-fill slot bytes h = elim (Bool-cases (ltb queue_buf_len (length bytes))) [
  | inl cut ↦ rw cut (part queue_buf_len (ground arith) (omega arith))
  | inr whole ↦ rw whole (
      part (length bytes) (omega arith) (ground arith)
      ∙ take-all (length bytes) bytes (omega arith)
      ∙ sym (take-all queue_buf_len bytes (ground arith)))
]
  where
    part :
        (n : ℕ)
        → n ≤ length bytes
        → n ≤ length slot.m_buf
        → take n (blit slot.m_buf 0 (take n bytes)) ≡ take n bytes
    part n p q =
        let e : length (take n bytes) ≡ n = omega (arith, length-take n bytes) in
        rw e at (take-blit slot.m_buf (take n bytes) (omega arith))

AllSlots-get_or :
    (ss : List RxBuf) (i : ℕ)
    → AllSlots ss
    → i < length ss
    → length ((get_or ss i no_slot).m_buf) ≡ queue_buf_len
AllSlots-get_or [] i a h = absurd (omega arith)
AllSlots-get_or (s ∷ ss) zero a h = a.0
AllSlots-get_or (s ∷ ss) (suc i) a h = AllSlots-get_or ss i a.1 (omega arith)

AllSlots-set :
    (ss : List RxBuf) (i : ℕ) (s : RxBuf)
    → AllSlots ss
    → length s.m_buf ≡ queue_buf_len
    → AllSlots (set ss i s)
AllSlots-set [] i s a h = tt
AllSlots-set (t ∷ ss) zero s a h = (h, a.1)
AllSlots-set (t ∷ ss) (suc i) s a h = (a.0, AllSlots-set ss i s a.1 h)

next_slot : (i cap : ℕ) → i < cap → (i + 1) % cap ≡ (if ltb (i + 1) cap then i + 1 else 0)
next_slot i cap h = grind arith

module _ (q : BufQueue) (v : IsValid q) where
  open q use {m_rx_buf, front, rear, size, capacity}

  rear_in : rear < capacity
  rear_in = ground (arith, v.small, v.front_in, v.size_in, v.rear_is)

  pub filled : List ℕ → RxBuf
  filled bytes = fill (get_or m_rx_buf rear no_slot) (some bytes) (length bytes)

  filled-length : (bytes : List ℕ) → length ((filled bytes).m_buf) ≡ queue_buf_len
  unfolding filled fill
  filled-length bytes =
      length-blit _ _ _ ∙ AllSlots-get_or m_rx_buf rear v.buffers (omega (arith, rear_in, v.slots))

  frame-filled : (bytes : List ℕ) → frame (filled bytes) ≡ take queue_buf_len bytes
  unfolding filled
  frame-filled bytes =
      frame-fill (get_or m_rx_buf rear no_slot) bytes
        (AllSlots-get_or m_rx_buf rear v.buffers (omega (arith, rear_in, v.slots)))

  -- The queue that `put` leaves when it has room.
  abbrev pub after : List ℕ → BufQueue
  after bytes = record q {
    rear = (rear + 1) % capacity;
    size = (size + 1) % 256;
    m_rx_buf = set m_rx_buf rear (filled bytes);
  }

  pub put-after :
      (bytes : List ℕ)
      → leb capacity size ≡ false
      → put q (some bytes) (length bytes) ≡ (pos 0, after bytes)
  unfolding put filled
  put-after bytes room = rw room

  frame_at-after :
      (bytes : List ℕ) (k : ℕ)
      → k < size
      → size < capacity
      → frame_at (after bytes) k ≡ frame_at q k
  frame_at-after bytes k below room = ap frame (
      get_or-set m_rx_buf rear (slot_at capacity front k) (filled bytes) no_slot
        (omega (arith, rear_in, v.slots))
      ∙ ground (arith, v.rear_is, v.front_in))

  frame_at-last :
      (bytes : List ℕ) → size < capacity → frame_at (after bytes) size ≡ take queue_buf_len bytes
  frame_at-last bytes room =
      ap frame (
        get_or-set m_rx_buf rear (slot_at capacity front size) (filled bytes) no_slot
          (omega (arith, rear_in, v.slots))
        ∙ ground (arith, v.rear_is))
      ∙ frame-filled bytes

  pub contents-after :
      (bytes : List ℕ)
      → size < capacity
      → contents (after bytes) ≡ contents q ++ (take queue_buf_len bytes ∷ [])
  unfolding contents
  contents-after bytes room =
      let e : (size + 1) % 256 ≡ size + 1 = omega (arith, v.small) in
      ap (gather (frame_at (after bytes)) 0) e
      ∙ gather-snoc (frame_at (after bytes)) size
      ∙ ap₂ (λ front back. front ++ (back ∷ []))
          (gather_ext (frame_at (after bytes)) (frame_at q) 0 0 size
            λ k below. frame_at-after bytes (0 + k) (omega arith) room)
          (frame_at-last bytes room)

  pub after-IsValid : (bytes : List ℕ) → size < capacity → IsValid (after bytes)
  after-IsValid bytes room = record {
    small = v.small;
    slots = length-set m_rx_buf rear (filled bytes) ∙ v.slots;
    buffers = AllSlots-set m_rx_buf rear (filled bytes) v.buffers (filled-length bytes);
    front_in = v.front_in;
    size_in = omega (arith, v.small);
    rear_is = ground (arith, v.small, v.front_in, v.rear_is, next_slot rear capacity rear_in);
  }

  -- The queue that `get` and `pop` leave.
  abbrev pub shorter : BufQueue
  shorter = record q { size = size - 1; front = (front + 1) % capacity }

  pub contents-shorter :
      0 < size → contents q ≡ frame (get_or m_rx_buf front no_slot) ∷ contents shorter
  unfolding contents
  contents-shorter some_in =
      let e : size ≡ suc (size - 1) = omega arith in
      ap (gather (frame_at q) 0) e
      ∙ gather-uncons (frame_at q) (size - 1)
      ∙ ap₂ ◌∷◌ (ap (λ (i : ℕ). frame (get_or m_rx_buf i no_slot)) (ground (arith, v.front_in))) (
          gather_ext (λ k. frame_at q (k + 1)) (frame_at shorter) 0 0 (size - 1)
            λ k below.
              ap (λ (i : ℕ). frame (get_or m_rx_buf i no_slot))
                (ground (arith, v.front_in, v.size_in, next_slot front capacity v.front_in)))

  pub shorter-IsValid : 0 < size → IsValid shorter
  shorter-IsValid some_in = record {
    small = v.small;
    slots = v.slots;
    buffers = v.buffers;
    front_in = omega (arith, v.small);
    size_in = omega (arith, v.size_in);
    rear_is =
        ground
          (arith, v.small, v.front_in, v.size_in, v.rear_is, next_slot front capacity v.front_in);
  }

pub length-contents : (q : BufQueue) → length (contents q) ≡ q.size
unfolding contents
length-contents q = length-gather (frame_at q) 0 q.size

pub contents_empty : (q : BufQueue) → q.size ≡ 0 → contents q ≡ []
unfolding contents gather
contents_empty q e = ap (gather (frame_at q) 0) e
