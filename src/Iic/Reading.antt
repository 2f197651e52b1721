-- ===== src/Iic/Reading.antt =====
-- What a read stores, how a transfer ends, and what it answers.
use project_sensor.Prelude.{
  ℕ, zero, suc, ◌+◌, ◌%◌, ◌^◌, ◌≤◌, ◌<◌, ◌≡◌, refl, ap, ◌∙◌, arith, Bool, true, false, not, ◌&&◌,
  List, [], ◌∷◌, ◌==◌, if◌then◌else◌, leb, length, blit, set, Bool-cases, inl, inr,
}
use project_sensor.Iic.Writing.{room, requests, interrupt-requested}
use project_sensor.Iic.{
  i2c_read, Call, i2c_tx, i2c_wr_cfg, i2c_rd_cfg, after_address, is_none, is_read, read_once,
  send_sub_addr, transfer_start, Iic, Status, received, interrupt, requested,
}

-- The status of an interrupt that brings a byte.
abbrev pub byte_here : Status
byte_here = record {
  overflow = false;
  nackdata = false;
  lost = false;
  nackaddr = false;
  rxreq = true;
  txreq = false;
  tcomp = false;
}

-- The repeated starts among some calls.
abbrev pub read_starts : List Call → ℕ
read_starts [] = 0
read_starts (i2c_tx b ∷ calls) = read_starts calls
read_starts (i2c_wr_cfg a ∷ calls) = read_starts calls
read_starts (i2c_rd_cfg a n ∷ calls) = read_starts calls + 1

blit-cons : (x : ℕ) (xs bs : List ℕ) (n : ℕ) → blit (x ∷ xs) (suc n) bs ≡ x ∷ blit xs n bs
unfolding blit
blit-cons x xs [] n = refl
blit-cons x xs (b ∷ bs) n = blit-cons x (set xs n b) bs (suc n)

blit-all : (xs bs : List ℕ) → length xs ≡ length bs → blit xs 0 bs ≡ bs
unfolding blit
blit-all [] [] h = refl
blit-all [] (b ∷ bs) h = absurd (omega (arith, h))
blit-all (x ∷ xs) [] h = absurd (omega (arith, h))
blit-all (x ∷ xs) (b ∷ bs) h =
    blit-cons b xs bs 0 ∙ ap (λ (ys : List ℕ). b ∷ ys) (blit-all xs bs (omega (arith, h)))

-- A transfer `t` to read `n` bytes, with the destination `xs` and the index `i`, that has made `k`
-- repeated starts.
record IsReading (xs : List ℕ) (i n k : ℕ) (locked : Bool) (t : Iic) : Type 0 where
  ctrl : t.access_ctrl ≡ i2c_read
  place : t.index ≡ i
  bytes : t.access_addr ≡ xs
  count : t.access_numb_bytes ≡ n
  starts : read_starts t.calls ≡ k
  lock : t.lock ≡ locked

send_sub_addr-IsReading :
    (xs : List ℕ) (i n k : ℕ) (l : Bool) (t : Iic)
    → IsReading xs i n k l t
    → IsReading xs i n k l (send_sub_addr t)
unfolding send_sub_addr
send_sub_addr-IsReading xs i n k l t r = elim (Bool-cases (t.sub_addr_cnt == 2)) [
  | inl two ↦ rw two (record {
    ctrl = r.ctrl;
    place = r.place;
    bytes = r.bytes;
    count = r.count;
    starts = r.starts;
    lock = r.lock;
  })
  | inr few ↦ elim (Bool-cases (t.sub_addr_cnt == 1)) [
    | inl one ↦ rw few (
        rw one (record {
          ctrl = ap after_address r.ctrl;
          place = r.place;
          bytes = r.bytes;
          count = r.count;
          starts = r.starts;
          lock = r.lock;
        }))
    | inr none_left ↦ rw few (rw none_left r)
  ]
]

read_once-IsReading :
    (xs : List ℕ) (i n k : ℕ) (l : Bool) (t : Iic)
    → IsReading xs i n k l t
    → IsReading xs i n (if l then k else k + 1) true (read_once t)
read_once-IsReading xs i n k true t r =
    let off : (not t.lock && is_read t.access_ctrl) ≡ false = rw r.lock refl in rw off r
read_once-IsReading xs i n k false t r =
    let on : (not t.lock && is_read t.access_ctrl) ≡ true = rw r.lock (ap is_read r.ctrl) in
    rw on (record {
      ctrl = r.ctrl;
      place = r.place;
      bytes = r.bytes;
      count = r.count;
      starts = ap (λ (m : ℕ). m + 1) r.starts;
      lock = refl;
    })

requested-IsReading :
    (xs : List ℕ) (i n k : ℕ) (l : Bool) (t : Iic)
    → IsReading xs i n k l t
    → IsReading xs i n (if l then k else k + 1) true (requested t)
unfolding requested
requested-IsReading xs i n k l t r =
    let r' = read_once-IsReading xs i n k l t r in
    rw (ap is_none r'.ctrl)
      (send_sub_addr-IsReading xs i n (if l then k else k + 1) true (read_once t) r')

requests-IsReading :
    (m b : ℕ) (xs : List ℕ) (i n k : ℕ) (t : Iic)
    → IsReading xs i n k true t
    → IsReading xs i n k true (requests m b t)
requests-IsReading zero b xs i n k t r = r
requests-IsReading (suc m) b xs i n k t r =
    requests-IsReading m b xs i n k (interrupt room b t)
      (rw (interrupt-requested b t) (requested-IsReading xs i n k true t r))

transfer_start-IsReading :
    (t : Iic)
    → t.access_ctrl ≡ i2c_read
    → IsReading t.access_addr 0 t.access_numb_bytes (read_starts t.calls) false (transfer_start t)
unfolding transfer_start
transfer_start-IsReading t h =
    let t0 = record t { index = 0; lock = false; tx_enabled = true } in
    let r =
      send_sub_addr-IsReading t.access_addr 0 t.access_numb_bytes (read_starts t.calls) false t0
        (record {
          ctrl = h;
          place = refl;
          bytes = refl;
          count = refl;
          starts = refl;
          lock = refl;
        }) in
    record {
      ctrl = r.ctrl;
      place = r.place;
      bytes = r.bytes;
      count = r.count;
      starts = r.starts;
      lock = r.lock;
    }

-- The interrupts of a read after its first request: the bytes, each with the number of requests that
-- come between it and the next.
abbrev pub receive : List (ℕ × ℕ) → Iic → Iic
receive [] t = t
receive ((c, m) ∷ gs) t = receive gs (requests m 0 (interrupt byte_here c t))

abbrev pub bytes_of : List (ℕ × ℕ) → List ℕ
bytes_of [] = []
bytes_of ((c, m) ∷ gs) = c ∷ bytes_of gs

received-IsReading :
    (xs : List ℕ) (i n k c m : ℕ) (t : Iic)
    → n < 256
    → i < n
    → IsReading xs i n k true t
    → IsReading
        (set xs i c)
        (if leb n (suc i) then 0 else suc i)
        n
        k
        true
        (requests m 0 (interrupt byte_here c t))
unfolding interrupt
received-IsReading xs i n k c m t few h r =
    let next : (t.index + 1) % 2 ^ 8 ≡ suc i = omega (arith, h, few, r.place) in
    let u = received c t in
    requests-IsReading m 0 (set xs i c) (if leb n (suc i) then 0 else suc i) n k u (record {
      ctrl = r.ctrl;
      place = rw next (rw r.count refl);
      bytes = ap (λ (l : List ℕ). set l t.index c) r.bytes ∙ ap (λ (a : ℕ). set xs a c) r.place;
      count = r.count;
      starts = r.starts;
      lock = r.lock;
    })

receive-blit :
    (gs : List (ℕ × ℕ)) (xs : List ℕ) (i n k : ℕ) (t : Iic)
    → n < 256
    → i + length gs ≤ n
    → IsReading xs i n k true t
    → (read_starts (receive gs t).calls ≡ k)
      × ((receive gs t).access_addr ≡ blit xs i (bytes_of gs))
unfolding blit
receive-blit [] xs i n k t few h r = (r.starts, r.bytes)
receive-blit ((c, m) ∷ []) xs i n k t few h r =
    let r' = received-IsReading xs i n k c m t few (omega (arith, h)) r in (r'.starts, r'.bytes)
receive-blit ((c, m) ∷ g ∷ gs) xs i n k t few h r =
    let more : leb n (suc i) ≡ false = ground (arith, h) in
    let r' = received-IsReading xs i n k c m t few (omega (arith, h)) r in
    let r'' : IsReading (set xs i c) (suc i) n k true (requests m 0 (interrupt byte_here c t)) =
      rw more at r' in
    receive-blit (g ∷ gs) (set xs i c) (suc i) n k (requests m 0 (interrupt byte_here c t)) few
      (omega (arith, h)) r''

length-bytes_of : (gs : List (ℕ × ℕ)) → length (bytes_of gs) ≡ length gs
length-bytes_of [] = refl
length-bytes_of ((c, m) ∷ gs) = ap suc (length-bytes_of gs)

-- A read makes its repeated start once, at the first request, and no other, however many requests
-- follow, before the first byte and between the bytes; and the bytes that come in are stored in order,
-- so that as many as were asked for fill the destination.
pub receive-stored :
    (m b : ℕ) (gs : List (ℕ × ℕ)) (t : Iic)
    → t.access_ctrl ≡ i2c_read
    → t.access_numb_bytes < 256
    → length gs ≡ t.access_numb_bytes
    → length t.access_addr ≡ t.access_numb_bytes
    → let u = receive gs (requests (suc m) b (transfer_start t)) in
      (read_starts u.calls ≡ read_starts t.calls + 1) × (u.access_addr ≡ bytes_of gs)
receive-stored m b gs t h few size room_for =
    let n = t.access_numb_bytes in
    let k = read_starts t.calls in
    let t1 = transfer_start t in
    let first = requested-IsReading t.access_addr 0 n k false t1 (transfer_start-IsReading t h) in
    let r =
      requests-IsReading m b t.access_addr 0 n (k + 1) (interrupt room b t1)
        (rw (interrupt-requested b t1) first) in
    let u =
      receive-blit gs t.access_addr 0 n (k + 1) (requests (suc m) b t1) few (omega (arith, size))
        r in
    (
      u.0,
      u.1
          ∙ blit-all t.access_addr (bytes_of gs)
              (omega (arith, size, room_for, length-bytes_of gs)),
    )
