-- ===== src/Uart/Deaf.antt =====
-- A frame that is too long for `transmit`.
use project_sensor.BufQueue.{get}
use project_sensor.Prelude.{
  Bool-cases, inl, inr, ℕ, ◌<◌, ◌≡◌, refl, sym, ◌∙◌, arith, true, false, none, some, List, length,
  ltb,
}
use project_sensor.Prelude.Int.{negsuc}
use project_sensor.Timers.{Kernel}
use project_sensor.Uart.Poll.{fetch}
use project_sensor.Uart.{
  is_zero, Transceiver, tx_processing, tx_buf_size, is_processing, recv_init, force_done, push,
  push_timed, byte_timer_timeout, transmit, dma_interrupt, interrupt,
}

-- What can happen to the transceiver: interrupts, the DMA's only while it works, the byte timer, a
-- call that makes it listen, a frame that `transmit` takes or refuses, a frame that the reader fetches,
-- and whatever the tick and the calls of the reader make of the timers.
pub data Step (t : Transceiver) : Transceiver → Type 0 where
  receive_interrupt : (iid c : ℕ) → Step t (interrupt iid c t)
  sent_interrupt : t.dma ≡ true → Step t (dma_interrupt t)
  silence : Step t (byte_timer_timeout t)
  listen : Step t (recv_init t)
  send : (bytes : List ℕ) (n : ℕ) (u : Transceiver) → transmit bytes t ≡ some (n, u) → Step t u
  fetched : Step t (fetch t).1
  timers : (k : Kernel) → Step t (record t { kernel = k })

pub data Reach (t : Transceiver) : Transceiver → Type 0 where
  here : Reach t t
  next : {u v : Transceiver} → Reach t u → Step u v → Reach t v

record IsDeaf (t : Transceiver) : Type 0 where
  half : t.half_duplex ≡ true
  busy : t.tx_status ≡ tx_processing
  no_dma : t.dma ≡ false

push-IsDeaf : (c : ℕ) (t : Transceiver) → IsDeaf t → push c t ≡ (negsuc 0, t)
unfolding push
push-IsDeaf c t d = rw d.half (rw d.busy refl)

transmit-IsDeaf : (bytes : List ℕ) (t : Transceiver) → IsDeaf t → transmit bytes t ≡ none
unfolding transmit
transmit-IsDeaf bytes t d = rw d.busy refl

interrupt-IsDeaf : (iid c : ℕ) (t : Transceiver) → IsDeaf t → interrupt iid c t ≡ t
unfolding interrupt push_timed
interrupt-IsDeaf iid c t d = rw (push-IsDeaf c t d) (ground arith)

fetch-IsDeaf : (t : Transceiver) → IsDeaf t → IsDeaf (fetch t).1
unfolding fetch
fetch-IsDeaf t d = elim (Bool-cases (is_zero (get t.buf_queue).0)) [
  | inl got ↦ rw got (record { half = d.half; busy = d.busy; no_dma = d.no_dma })
  | inr nothing ↦ rw nothing d
]

Step-IsDeaf : {t u : Transceiver} → Step t u → IsDeaf t → IsDeaf u
Step-IsDeaf {t} (receive_interrupt iid c) d = rw (interrupt-IsDeaf iid c t d) d
Step-IsDeaf {t} (sent_interrupt h) d = absurd (ground (arith, d.no_dma, h))
Step-IsDeaf {t} silence d =
    unfold force_done in rw d.half (record { half = refl; busy = d.busy; no_dma = d.no_dma })
Step-IsDeaf {t} listen d =
    unfold recv_init in record { half = d.half; busy = d.busy; no_dma = d.no_dma }
Step-IsDeaf {t} fetched d = fetch-IsDeaf t d
Step-IsDeaf {t} (timers k) d = record { half = d.half; busy = d.busy; no_dma = d.no_dma }
Step-IsDeaf {t} (send bytes n u h) d = absurd (cc (sym (transmit-IsDeaf bytes t d) ∙ h))

Reach-IsDeaf : {t u : Transceiver} → Reach t u → IsDeaf t → IsDeaf u
Reach-IsDeaf here d = d
Reach-IsDeaf (next r s) d = Step-IsDeaf s (Reach-IsDeaf r d)

-- On an idle half duplex line, a frame of more than 300 bytes is refused with the status already set to
-- busy: from then on, over all sequences of interrupts, silences, fetches, timer changes and calls to
-- listen or to send, no frame is taken, the call for one waits for ever, and no byte is received.
pub transmit-deaf :
    (bytes frame : List ℕ) (c : ℕ) (t v : Transceiver)
    → tx_buf_size < length bytes
    → t.half_duplex ≡ true
    → is_processing t.tx_status ≡ false
    → t.dma ≡ false
    → Reach (record t { tx_status = tx_processing }) v
    → (transmit bytes t ≡ some (0, record t { tx_status = tx_processing }))
      × (transmit frame v ≡ none)
      × (push c v ≡ (negsuc 0, v))
transmit-deaf bytes frame c t v long half idle no_dma r =
    let too_long : ltb tx_buf_size (length bytes) ≡ true = ground (arith, long) in
    let d = Reach-IsDeaf r (record { half = half; busy = refl; no_dma = no_dma }) in
    (unfold transmit in rw idle (rw too_long refl), transmit-IsDeaf frame v d, push-IsDeaf c v d)
