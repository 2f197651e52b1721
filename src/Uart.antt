-- ===== src/Uart.antt =====
-- The serial line: the class `transceiver_uart0` of bsp/cpu/cpu_uart.cpp, which makes frames of the
-- bytes that come in and puts them into a frame queue, with its interrupt handlers, and the driver
-- bsp/driver/commu/drv_commu.cpp that reads them. The registers of the chip appear as the arguments of
-- the interrupt handlers, and as the frames given to the DMA.
pub mod Poll
pub mod Frames
pub mod Overflow
mod Replace
pub mod Deaf
mod Tests
use project_sensor.Prelude.{
  ℕ, zero, suc, ◌+◌, ◌/◌, ◌%◌, Bool, true, false, not, ◌&&◌, ◌||◌, Option, none, some, List, [],
  ◌∷◌, ◌==◌, leb, ltb, if◌then◌else◌, set, take, blit, length,
}
use project_sensor.Prelude.Int.{ℤ, pos, negsuc}
use project_sensor.BufQueue.{BufQueue, put, get, pop}
use project_sensor.Timers.{Kernel}
use project_sensor.Timers.Manager.{timer_start, timer_restart, timer_started}

pub data TxStat : Type 0 where
  tx_idle tx_processing : TxStat

pub data RxStat : Type 0 where
  rx_idle rx_recv rx_done rx_timeout : RxStat

-- `transceiver_uart0`, with the timers that it uses. `sent` are the frames given to the DMA, the
-- latest first, `dma` tells that one is on its way, and `pendsv` counts the calls of
-- `cpu_pendsv_trig`. A byte is its 8 bits.
pub record Transceiver : Type 0 where
  pub tx_status : TxStat
  pub half_duplex : Bool
  pub rx_index : ℕ
  pub rx_status : RxStat
  pub rx_buf : List ℕ
  pub buf_queue : BufQueue
  pub handle_uart : ℕ
  pub kernel : Kernel
  pub sent : List (List ℕ)
  pub dma : Bool
  pub pendsv : ℕ

-- The sizes of `m_rx_buf` and `m_tx_buf`.
abbrev pub rx_buf_size : ℕ
rx_buf_size = 100

abbrev pub tx_buf_size : ℕ
tx_buf_size = 300

abbrev pub is_processing : TxStat → Bool
is_processing tx_idle = false
is_processing tx_processing = true

abbrev pub is_recv : RxStat → Bool
is_recv rx_recv = true
is_recv _ = false

abbrev pub is_minus_one : ℤ → Bool
is_minus_one (pos n) = false
is_minus_one (negsuc n) = n == 0

abbrev pub is_zero : ℤ → Bool
is_zero (pos n) = n == 0
is_zero (negsuc n) = false

unfoldable pub recv_init : Transceiver → Transceiver
recv_init t = record t { rx_index = 0; rx_status = rx_recv }

-- The bytes received so far go into the queue, in the place of the oldest frame if it is full.
abbrev pub enqueue : List ℕ → ℕ → BufQueue → BufQueue
enqueue buf n q =
    let (rt, q') = put q (some buf) n in
    let again = (put (pop q).1 (some buf) n).1 in if is_minus_one rt then again else q'

unfoldable pub force_done : Transceiver → Transceiver
unfolding recv_init
force_done t =
    let queued = record t {
      buf_queue = enqueue t.rx_buf t.rx_index t.buf_queue;
      pendsv = t.pendsv + 1;
    } in
    if t.half_duplex then record queued { rx_index = 0; rx_status = rx_done } else recv_init queued

-- `transceiver::push`; `is_done` of the class is false.
unfoldable pub push : ℕ → Transceiver → ℤ × Transceiver
unfolding force_done
push c t =
    let room = if leb rx_buf_size t.rx_index then force_done t else t in
    let stored = record room {
      rx_buf = set room.rx_buf room.rx_index c;
      rx_index = room.rx_index + 1;
    } in
    if t.half_duplex && is_processing t.tx_status
    then (negsuc 0, t)
    else if not (is_recv t.rx_status)
    then (negsuc 0, t)
    else (pos 0, stored)

-- The byte timer is started, or started again.
unfoldable pub rearm : ℕ → Kernel → Kernel
unfolding timer_start timer_restart timer_started
rearm i k = if is_zero (timer_started i k) then (timer_start i k).1 else (timer_restart i k).1

unfoldable pub push_timed : ℕ → Transceiver → ℤ × Transceiver
push_timed c t =
    let (rt, t') = push c t in
    if is_zero rt then (rt, record t' { kernel = rearm t'.handle_uart t'.kernel }) else (rt, t')

-- The callback of the byte timer.
abbrev pub byte_timer_timeout : Transceiver → Transceiver
byte_timer_timeout t = force_done t

-- `transmit`, or nothing while it waits for the frame before. A frame that is too long is refused
-- after the status was set.
unfoldable pub transmit : List ℕ → Transceiver → Option (ℕ × Transceiver)
transmit bytes t =
    let busy = record t { tx_status = tx_processing } in
    if is_processing t.tx_status
    then none
    else if ltb tx_buf_size (length bytes)
    then some (0, busy)
    else some (length bytes, record busy { sent = bytes ∷ t.sent; dma = true })

-- `DMA_UART_TX_Int_Handler`, which comes when a frame was sent.
abbrev pub dma_interrupt : Transceiver → Transceiver
dma_interrupt t = record t { dma = false; tx_status = tx_idle }

-- A bit of the interrupt identification.
abbrev pub has_bit : ℕ → ℕ → Bool
has_bit bit iid = iid / bit % 2 == 1

-- `UART_Int_Handler`, with the identification and the byte in the receive register. After the test of
-- bit 2 alone the test of bits 1 and 2 is never reached with bit 2 set.
unfoldable pub interrupt : ℕ → ℕ → Transceiver → Transceiver
interrupt iid c t = if has_bit 1 iid then t else if has_bit 4 iid then (push_timed c t).1 else t
