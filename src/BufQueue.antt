-- ===== src/BufQueue.antt =====
-- The frame queue of api/utils.h and api/utils.cpp (`buf_queue_*`): a ring of frame buffers of
-- fixed size, filled from the receive interrupt and emptied by the reader.
pub mod Fifo
pub mod Shape
pub mod Refine
mod Tests
use project_sensor.Prelude.{
  ℕ, ◌+◌, ◌-◌, ◌%◌, Option, none, some, List, [], leb, ltb, if◌then◌else◌, get_or, set, take, blit,
}
use project_sensor.Prelude.Int.{ℤ, pos, negsuc}

-- `def_QUEUE_BUF_CNTS` and `def_QUEUE_BUF_LEN`.
abbrev pub queue_buf_cnts : ℕ
queue_buf_cnts = 3

abbrev pub queue_buf_len : ℕ
queue_buf_len = 130

-- `struct rx_buf`: the buffer holds `queue_buf_len` bytes, of which the first `m_len` are a frame.
pub record RxBuf : Type 0 where
  pub m_buf : List ℕ
  pub m_len : ℕ

-- `struct buf_queue`; the indices and counts are of type uint8.
pub record BufQueue : Type 0 where
  pub m_rx_buf : List RxBuf
  pub front : ℕ
  pub rear : ℕ
  pub size : ℕ
  pub capacity : ℕ

-- A slot outside the array, which the invariant rules out.
abbrev pub no_slot : RxBuf
no_slot = record { m_buf = []; m_len = 0 }

-- The bytes that are copied out of a slot.
abbrev pub frame : RxBuf → List ℕ
frame slot = take slot.m_len slot.m_buf

-- `buf_queue_init`: the slots keep what they hold.
pub init : BufQueue → BufQueue
init q = record q { front = 0; rear = 0; size = 0; capacity = queue_buf_cnts }

-- What `put` writes to a slot: the length is cut to the buffer's, and a null `pbuf` copies nothing.
unfoldable pub fill : RxBuf → Option (List ℕ) → ℕ → RxBuf
fill slot pbuf len =
    let n = if ltb queue_buf_len len then queue_buf_len else len in
    elim pbuf [
      | none ↦ record slot { m_len = n }
      | some bytes ↦ record { m_buf = blit slot.m_buf 0 (take n bytes); m_len = n }
    ]

-- `buf_queue_put`.
unfoldable pub put : BufQueue → Option (List ℕ) → ℕ → ℤ × BufQueue
put q pbuf len = if leb q.capacity q.size then (negsuc 0, q) else (
  pos 0,
  record q {
    rear = (q.rear + 1) % q.capacity;
    size = (q.size + 1) % 256;
    m_rx_buf = set q.m_rx_buf q.rear (fill (get_or q.m_rx_buf q.rear no_slot) pbuf len);
  },
)

-- `buf_queue_get`; the option is what goes out through `pbuf` and `len`.
unfoldable pub get : BufQueue → ℤ × Option (List ℕ) × BufQueue
get q = if leb q.size 0 then (negsuc 0, none, q) else (
  pos 0,
  some (frame (get_or q.m_rx_buf q.front no_slot)),
  record q { size = q.size - 1; front = (q.front + 1) % q.capacity },
)

-- `buf_queue_pick`: the oldest frame, which stays.
pub pick : BufQueue → ℤ × Option (List ℕ)
pick q =
    if leb q.size 0
    then (negsuc 0, none)
    else (pos 0, some (frame (get_or q.m_rx_buf q.front no_slot)))

-- `buf_queue_pop`: the oldest frame is dropped.
unfoldable pub pop : BufQueue → ℤ × BufQueue
pop q =
    if leb q.size 0
    then (negsuc 0, q)
    else (pos 0, record q { size = q.size - 1; front = (q.front + 1) % q.capacity })
