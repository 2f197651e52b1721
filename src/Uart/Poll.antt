-- ===== src/Uart/Poll.antt =====
-- Waiting for a frame: `transceiver::poll`, and the driver's read of
-- bsp/driver/commu/drv_commu.cpp.
pub mod Arrival
use project_sensor.Prelude.{
  ℕ, zero, suc, ◌+◌, ◌≡◌, refl, arith, Bool, true, false, not, ◌||◌, Option, none, some, List,
  length, ◌==◌, if◌then◌else◌, Bool-cases, inl, inr,
}
use project_sensor.Prelude.Int.{ℤ, pos, negsuc}
use project_sensor.BufQueue.{BufQueue, get}
use project_sensor.Hal.{DeviceStatus, eagain}
use project_sensor.Timers.{Flag, Kernel}
use project_sensor.Timers.Manager.{hard_timer_register, timer_start_with, timer_stop, timer_expired}
use project_sensor.Uart.{Transceiver, is_zero}

-- What `poll` answers: its result, the frame, if there is one, and the transceiver.
pub record Polled : Type 0 where
  pub rt : ℤ
  pub frame : Option (List ℕ)
  pub after : Transceiver

-- `fetch`: the oldest frame, if there is one.
unfoldable pub fetch : Transceiver → Option (List ℕ) × Transceiver
fetch t =
    let (rt, got, q) = get t.buf_queue in
    if is_zero rt then (got, record t { buf_queue = q }) else (none, t)

abbrev pub is_expired : ℕ → Transceiver → Bool
is_expired handle t = not (is_zero (timer_expired handle t.kernel))

-- The end of a round of the loop without a frame, and with one; nothing where it goes on.
abbrev pub round : ℕ → ℕ → Option (List ℕ) × Transceiver → Option Polled
round timeout handle (some f, t) = some (record { rt = pos 1; frame = some f; after = t })
round timeout handle (none, t) =
    if timeout == 0
    then some (record { rt = pos 0; frame = none; after = t })
    else if is_expired handle t
    then some (record { rt = negsuc 0; frame = none; after = t })
    else none

abbrev pub or_later {ℓ} : {A : Type ℓ} → Option A → Option A → Option A
or_later none later = later
or_later (some a) later = some a

-- The loop of `poll`, with the milliseconds to wait, the handle of the timer, and what the interrupts
-- do between a round and the next; nothing where the counted rounds do not end it.
unfoldable pub poll_loop : ℕ → ℕ → (ℕ → Transceiver → Transceiver) → ℕ → Transceiver → Option Polled
poll_loop zero timeout meanwhile handle t = none
poll_loop (suc rounds) timeout meanwhile handle t =
    let later = poll_loop rounds timeout (λ n. meanwhile (suc n)) handle (meanwhile 0 t) in
    or_later (round timeout handle (fetch t)) later

abbrev pub one_shot : Flag
one_shot = record {
  activated = false;
  periodic = false;
  soft = false;
  timed_out = false;
  handling = false;
}

-- `poll` before its loop: the timer is registered at the first call, 255 being no handle, and started.
unfoldable pub poll_start : ℕ → ℕ → Transceiver → ℕ × Transceiver
unfolding hard_timer_register timer_start_with
poll_start timeout handle t =
    let (i, k) =
      if handle == 255
      then hard_timer_register timeout one_shot 0 0 t.kernel
      else (handle, t.kernel) in
    if timeout == 0
    then (handle, t)
    else (i, record t { kernel = (timer_start_with i timeout k).1 })

abbrev pub stopped : ℕ → Polled → Polled
stopped handle p = record p {
  after = record p.after { kernel = (timer_stop handle p.after.kernel).1 };
}

abbrev pub stop_if : ℕ → Option Polled → Option Polled
stop_if handle none = none
stop_if handle (some p) = some (stopped handle p)

unfoldable pub poll : ℕ → ℕ → (ℕ → Transceiver → Transceiver) → ℕ → Transceiver → Option Polled
unfolding poll_start poll_loop
poll rounds timeout meanwhile handle t =
    let (i, t') = poll_start timeout handle t in stop_if i (poll_loop rounds timeout meanwhile i t')

-- `_drv_devread` after the poll, and the error that it leaves: the test for a timeout compares a
-- signed word with 65535 and never holds, so that the length, an uninitialised local, is the answer.
unfoldable pub drv_devread : ℕ → Polled → ℤ × Option DeviceStatus
drv_devread junk p =
    let len = elim p.frame as (λ f. ℕ) [ none ↦ junk | some f ↦ length f ] in
    if is_zero p.rt then (negsuc 0, some eagain) else (pos len, none)

-- The milliseconds that `_drv_devread` waits.
abbrev pub read_timeout : Bool → ℕ
read_timeout nonblock = if nonblock then 0 else 20000

abbrev pub answered : ℕ → Option Polled → Option ((ℤ × Option DeviceStatus) × Polled)
answered junk none = none
answered junk (some p) = some (drv_devread junk p, p)

-- The whole of `_drv_devread`, with the frame and the transceiver that it leaves.
unfoldable pub drv_read :
    ℕ
    → Bool
    → (ℕ → Transceiver → Transceiver)
    → ℕ
    → ℕ
    → Transceiver
    → Option ((ℤ × Option DeviceStatus) × Polled)
unfolding poll drv_devread
drv_read rounds nonblock meanwhile handle junk t =
    answered junk (poll rounds (read_timeout nonblock) meanwhile handle t)

-- The transceiver that round `n` of the loop finds, while there is no frame.
abbrev pub at_round : (ℕ → Transceiver → Transceiver) → ℕ → Transceiver → Transceiver
at_round meanwhile zero t = t
at_round meanwhile (suc n) t = at_round (λ m. meanwhile (suc m)) n (meanwhile 0 t)

abbrev pub is_some {ℓ} : {A : Type ℓ} → Option A → Bool
is_some none = false
is_some (some a) = true

or_later-is_some {ℓ} :
    {A : Type ℓ} (a b : Option A) → is_some b ≡ true → is_some (or_later a b) ≡ true
or_later-is_some none b h = h
or_later-is_some (some a) b h = refl

is_some-or_later {ℓ} :
    {A : Type ℓ} (a b : Option A) → is_some a ≡ true → is_some (or_later a b) ≡ true
is_some-or_later none b h = absurd (ground (arith, h))
is_some-or_later (some a) b h = refl

-- The loop ends by the first round that finds a frame or the time over, if not before; without a time
-- to wait that is the first round.
pub poll_loop_end :
    (n timeout handle : ℕ) (meanwhile : ℕ → Transceiver → Transceiver) (t : Transceiver)
    → is_some (round timeout handle (fetch (at_round meanwhile n t))) ≡ true
    → is_some (poll_loop (suc n) timeout meanwhile handle t) ≡ true
unfolding poll_loop
poll_loop_end zero timeout handle meanwhile t h =
    is_some-or_later (round timeout handle (fetch t)) none h
poll_loop_end (suc n) timeout handle meanwhile t h =
    or_later-is_some (round timeout handle (fetch t)) _
      (poll_loop_end n timeout handle (λ m. meanwhile (suc m)) (meanwhile 0 t) h)
