-- ===== src/Uart/Tests.antt =====
-- A transceiver that listens, with room for three frames and a timer of 300 milliseconds.
use project_sensor.Prelude.{
  ℕ, ◌≡◌, refl, arith, true, false, none, some, List, [], ◌∷◌, replicate, ◌==◌,
}
use project_sensor.Prelude.Int.{pos, negsuc}
use project_sensor.BufQueue.{RxBuf, BufQueue, init}
use project_sensor.BufQueue.Shape.{AllSlots, contents, IsValid}
use project_sensor.BufQueue.Refine.{init-IsValid}
use project_sensor.Timers.{Kernel, Timer}
use project_sensor.Uart.{
  Transceiver, tx_idle, tx_processing, rx_recv, rx_done, push, push_timed, byte_timer_timeout,
  transmit, recv_init, interrupt,
}
use project_sensor.Uart.Replace.{arrived}
use project_sensor.Uart.Frames.{IsReceiving, receive, receive-arrived}
use project_sensor.Uart.Overflow.{push_timed-overflow}
use project_sensor.Uart.Deaf.{here, next, silence, listen, fetched, timers, transmit-deaf}
use project_sensor.Uart.Poll.{fetch, drv_devread, drv_read}
use project_sensor.Uart.Poll.Arrival.{taken, receive-drv_read}

abbrev slot : RxBuf
slot = record { m_buf = replicate 130 0; m_len = 0 }

abbrev unset : BufQueue
unset = record { m_rx_buf = slot ∷ slot ∷ slot ∷ []; front = 0; rear = 0; size = 0; capacity = 0 }

abbrev empty : BufQueue
empty = init unset

unset-AllSlots : AllSlots unset.m_rx_buf
unset-AllSlots = (refl, (refl, (refl, tt)))

abbrev timer : Timer
timer = record {
  flag = record {
    activated = false;
    periodic = false;
    soft = false;
    timed_out = true;
    handling = false;
  };
  func = 1;
  parameter = 0;
  init_tick = 30;
  timeout_tick = 0;
}

abbrev kernel : Kernel
kernel = record {
  tick = 0;
  tick_for_xtime = 0;
  xtime = 0;
  links = record { next = λ n. n; prev = λ n. n };
  timer = λ i. timer;
  used = λ i. i == 0;
  soft_handling = false;
  device_time = 0;
}

abbrev listening : Transceiver
listening = record {
  tx_status = tx_idle;
  half_duplex = true;
  rx_index = 0;
  rx_status = rx_recv;
  rx_buf = replicate 100 0;
  buf_queue = empty;
  handle_uart = 0;
  kernel = kernel;
  sent = [];
  dma = false;
  pendsv = 0;
}

listening-IsReceiving : IsReceiving empty [] listening
listening-IsReceiving = record {
  half = refl;
  idle = refl;
  listens = refl;
  index = refl;
  size = refl;
  bytes = refl;
  queue = refl;
}

abbrev request : List ℕ
request = 1 ∷ 3 ∷ 0 ∷ []

receive-arrived_example :
    let t' = byte_timer_timeout (receive request listening) in
    (contents t'.buf_queue ≡ arrived empty.capacity request (contents empty))
    × IsValid t'.buf_queue
    × (t'.rx_status ≡ rx_done)
receive-arrived_example =
    receive-arrived request listening (omega arith) listening-IsReceiving
      (init-IsValid unset refl unset-AllSlots).0

abbrev full : Transceiver
full = record listening { rx_index = 100 }

full-IsReceiving : IsReceiving empty (replicate 100 0) full
full-IsReceiving = record {
  half = refl;
  idle = refl;
  listens = refl;
  index = refl;
  size = refl;
  bytes = refl;
  queue = refl;
}

push_timed-overflow_example :
    let t' = (push_timed 7 full).1 in
    let fs = arrived empty.capacity (replicate 100 0) (contents empty) in
    (contents t'.buf_queue ≡ fs)
    × ((push_timed 8 t').0 ≡ negsuc 0)
    × (contents (byte_timer_timeout t').buf_queue ≡ arrived empty.capacity (7 ∷ []) fs)
push_timed-overflow_example =
    push_timed-overflow (replicate 100 0) 7 8 full refl full-IsReceiving
      (init-IsValid unset refl unset-AllSlots).0

abbrev deaf : Transceiver
deaf = record listening { tx_status = tx_processing }

-- The reader fetches, a tick passes, the line falls silent, and the receiver is told to listen again.
abbrev listening_again : Transceiver
listening_again =
    recv_init (byte_timer_timeout (record (fetch deaf).1 { kernel = record kernel { tick = 1 } }))

transmit-deaf_example :
    (transmit (replicate 301 0) listening ≡ some (0, deaf))
    × (transmit request listening_again ≡ none)
    × (push 7 listening_again ≡ (negsuc 0, listening_again))
transmit-deaf_example =
    transmit-deaf (replicate 301 0) request 7 listening listening_again (omega arith) refl refl refl
      (next (next (next (next here fetched) (timers (record kernel { tick = 1 }))) silence) listen)

abbrev quiet : Transceiver
quiet = record listening { buf_queue = record unset { capacity = 3 } }

receive-drv_read_example :
    taken (drv_read 1 false (λ n t. t) 255 9 (byte_timer_timeout (receive request listening)))
    ≡ some ((pos 3, none), some request, [])
receive-drv_read_example =
    receive-drv_read 0 false request 9 255 (λ n t. t) listening (omega arith) listening-IsReceiving
      (init-IsValid unset refl unset-AllSlots).0 (init-IsValid unset refl unset-AllSlots).1

-- The identification 6 stands for an error on the line, and its byte is taken like any other.
line_error_test : interrupt 6 7 listening ≡ (push_timed 7 listening).1
unfolding interrupt
line_error_test = refl

-- A timeout of the read is answered with whatever `len` held.
timeout_test :
    (drv_devread 77 (record { rt = negsuc 0; frame = none; after = listening })).0 ≡ pos 77
unfolding drv_devread
timeout_test = refl
