-- ===== src/Iic/Whole.antt =====
-- A whole write, from the call to its answer.
use project_sensor.Prelude.{
  ℕ, zero, suc, ◌≤◌, ◌<◌, ◌≡◌, refl, ap, ◌∙◌, arith, true, false, Option, none, some, List, ◌++◌,
  length, take-all, ◌+◌, [], ◌∷◌, ◌⊎◌, Bool, not, Bool-cases, inl, inr,
}
use project_sensor.Prelude.Int.{ℤ, pos}
use project_sensor.Timers.{Kernel}
use project_sensor.Timers.Manager.{timer_expired}
use project_sensor.Iic.{
  i2c_write, AccessFinished, unfinished, Iic, Status, Bus, is_zero, interrupt, is_none, read_once,
  send_data, send_sub_addr, requested, transfer_start, is_expired, wait, concluded, prepared,
  cpu_iic_transfer,
}
use project_sensor.Iic.Writing.{room, requests, interrupt-requested, sent, address, requests-sent}

-- The status of the interrupt at the end of a transfer.
abbrev pub complete : Status
complete = record room { txreq = false; tcomp = true }

-- The last interrupts of a write: `n` requests and the completion.
abbrev pub write_interrupts : ℕ → ℕ → Bus → Bus
write_interrupts n i b = record b { iic = interrupt complete 0 (requests n 0 b.iic) }

-- The rounds of the wait: in each of the first ones some requests, or none, and the timers as the
-- ticks leave them; in the round after them the last interrupts.
abbrev pub in_time : List (ℕ × Kernel) → ℕ → ℕ → Bus → Bus
in_time [] m i b = write_interrupts m i b
in_time ((n, k) ∷ gaps) m zero b = record { iic = requests n 0 b.iic; kernel = k }
in_time ((n, k) ∷ gaps) m (suc i) b = in_time gaps m i b

-- The requests of all the rounds.
abbrev pub total : List (ℕ × Kernel) → ℕ → ℕ
total [] m = m
total ((n, k) ∷ gaps) m = n + total gaps m

abbrev pub runs : ℕ → Kernel → Bool
runs handle k = is_zero (timer_expired handle k)

-- The time is not over after any of the first rounds.
abbrev pub IsRunning : ℕ → List (ℕ × Kernel) → Type 0
IsRunning handle [] = Unit
IsRunning handle ((n, k) ∷ gaps) = (not (runs handle k) ≡ false) × IsRunning handle gaps

-- The timers after the first rounds.
abbrev last_kernel : List (ℕ × Kernel) → Kernel → Kernel
last_kernel [] k = k
last_kernel ((n, k') ∷ gaps) k = last_kernel gaps k'

-- The answer, and the bytes sent.
abbrev pub outcome : Option (ℤ × Bus) → Option (ℤ × List ℕ)
outcome none = none
outcome (some (rt, b)) = some (rt, sent b.iic.calls)

-- What no request changes.
abbrev view : Iic → ℕ × AccessFinished
view t = (t.access_numb_bytes, t.access_finished)

send_sub_addr-view : (t : Iic) → view (send_sub_addr t) ≡ view t
unfolding send_sub_addr
send_sub_addr-view t = ground arith

send_data-view : (t : Iic) → view (send_data t) ≡ view t
send_data-view t = ground arith

read_once-view : (t : Iic) → view (read_once t) ≡ view t
read_once-view t = ground arith

requested-view : (t : Iic) → view (requested t) ≡ view t
unfolding requested
requested-view t =
    elim (Bool-cases (is_none (read_once t).access_ctrl)) as (λ _. view (requested t) ≡ view t) [
      | inl on ↦ rw on (send_data-view (read_once t) ∙ read_once-view t)
      | inr off ↦ rw off (send_sub_addr-view (read_once t) ∙ read_once-view t)
    ]

transfer_start-view : (t : Iic) → view (transfer_start t) ≡ view t
unfolding transfer_start
transfer_start-view t = send_sub_addr-view (record t { index = 0; lock = false; tx_enabled = true })

requests-view : (n b : ℕ) (t : Iic) → view (requests n b t) ≡ view t
requests-view zero b t = refl
requests-view (suc n) b t =
    requests-view n b (interrupt room b t) ∙ ap view (interrupt-requested b t) ∙ requested-view t

zero_add : (m : ℕ) → m ≡ 0 + m
zero_add m = omega arith

suc_add : (n m : ℕ) → suc (n + m) ≡ suc n + m
suc_add n m = omega arith

requests-add : (n m b : ℕ) (t : Iic) → requests m b (requests n b t) ≡ requests (n + m) b t
requests-add zero m b t = ap (λ (c : ℕ). requests c b t) (zero_add m)
requests-add (suc n) m b t =
    requests-add n m b (interrupt room b t) ∙ ap (λ (c : ℕ). requests c b t) (suc_add n m)

-- The wait goes round until the last interrupts have come.
wait-in_time :
    (gaps : List (ℕ × Kernel)) (rounds m handle : ℕ) (b : Bus)
    → is_expired handle b ≡ false
    → IsRunning handle gaps
    → length gaps < rounds
    → b.iic.access_finished ≡ unfinished
    → wait rounds (in_time gaps m) handle b
      ≡ some (record {
        iic = interrupt complete 0 (requests (total gaps m) 0 b.iic);
        kernel = last_kernel gaps b.kernel;
      })
unfolding wait interrupt
wait-in_time gaps zero m handle b running all h going = absurd (omega (arith, h))
wait-in_time [] (suc r) m handle b running all h going = rw running refl
wait-in_time ((n, k) ∷ gaps) (suc r) m handle b running all h going =
    let kept = ap (λ (v : ℕ × AccessFinished). v.1) (requests-view n 0 b.iic) ∙ going in
    rw running (
      rw kept (
        wait-in_time gaps r m handle (record { iic = requests n 0 b.iic; kernel = k }) all.0 all.1
          (omega (arith, h)) kept
        ∙ ap
            (λ (t : Iic).
              some (record { iic = interrupt complete 0 t; kernel = last_kernel gaps k }))
            (requests-add n (total gaps m) 0 b.iic)))

-- A write whose interrupts come over any number of rounds of the wait, the time not over at the test
-- of any of them, with at least as many requests in all as there are bytes after the first, answers
-- the number of bytes when the transfer is complete, and has sent the address within the chip and all
-- the data.
pub cpu_iic_transfer-sent :
    (gaps : List (ℕ × Kernel)) (rounds m : ℕ) (b : Bus)
    → let (handle, b') = prepared b in
      is_expired handle b' ≡ false
      → IsRunning handle gaps
      → length gaps < rounds
      → b.iic.access_finished ≡ unfinished
      → b.iic.access_ctrl ≡ i2c_write
      → (b.iic.sub_addr_cnt ≡ 1) ⊎ (b.iic.sub_addr_cnt ≡ 2)
      → b.iic.access_numb_bytes < 256
      → length b.iic.access_addr ≡ b.iic.access_numb_bytes
      → length (address b.iic ++ b.iic.access_addr) ≤ suc (total gaps m)
      → outcome (cpu_iic_transfer rounds (in_time gaps m) b)
        ≡ some
            (pos b.iic.access_numb_bytes, sent b.iic.calls ++ (address b.iic ++ b.iic.access_addr))
unfolding cpu_iic_transfer prepared interrupt
cpu_iic_transfer-sent gaps rounds m b running all h going ctrl cnt few size enough =
    let (handle, b') = prepared b in
    let n = total gaps m in
    let t = requests n 0 (transfer_start b.iic) in
    let start = transfer_start-view b.iic in
    let going' = ap (λ (v : ℕ × AccessFinished). v.1) start ∙ going in
    let count =
      ap (λ (v : ℕ × AccessFinished). v.0) (requests-view n 0 (transfer_start b.iic) ∙ start) in
    let whole = address b.iic ++ b.iic.access_addr in
    let bytes =
      requests-sent n 0 b.iic ctrl cnt few size
      ∙ ap (λ (xs : List ℕ). sent b.iic.calls ++ xs) (take-all (suc n) whole enough) in
    ap (λ (o : Option Bus). outcome (concluded handle o))
      (wait-in_time gaps rounds m handle b' running all h going')
    ∙ ap (λ (c : ℕ). some (pos c, sent t.calls)) count
    ∙ ap (λ (xs : List ℕ). some (pos b.iic.access_numb_bytes, xs)) bytes
