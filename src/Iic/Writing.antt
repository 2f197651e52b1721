-- ===== src/Iic/Writing.antt =====
-- What a transfer sends, request by request.
use project_sensor.Prelude.{
  ℕ, zero, suc, ◌+◌, ◌%◌, ◌^◌, ◌≤◌, ◌<◌, ◌≡◌, refl, sym, ap, ◌∙◌, arith, true, false, not, ◌&&◌,
  List, [], ◌∷◌, ◌++◌, append_assoc, append-nil, ◌==◌, if◌then◌else◌, ltb, length, get_or, take,
  drop, ◌⊎◌, Bool-cases, inl, inr,
}
use project_sensor.Iic.{
  i2c_none, i2c_write, Call, i2c_tx, i2c_wr_cfg, i2c_rd_cfg, Iic, high_byte, low_byte, is_none,
  is_read, read_once, send_data, send_sub_addr, requested, transfer_start, Status, interrupt,
}

-- The bytes given to the bus, the first first.
abbrev pub sent : List Call → List ℕ
sent [] = []
sent (i2c_tx b ∷ calls) = sent calls ++ (b ∷ [])
sent (i2c_wr_cfg a ∷ calls) = sent calls
sent (i2c_rd_cfg a n ∷ calls) = sent calls

-- What is still to be sent: the rest of the address, and the data from the index on.
record IsWriting (t : Iic) (left : List ℕ) : Type 0 where
  few : t.access_numb_bytes < 256
  size : length t.access_addr ≡ t.access_numb_bytes
  place : t.index ≤ t.access_numb_bytes
  phase :
      ((t.access_ctrl ≡ i2c_none) × (left ≡ drop t.index t.access_addr))
      ⊎ ((t.access_ctrl ≡ i2c_write)
          × (t.sub_addr_cnt ≡ 1)
          × (left ≡ low_byte t.sub_addr ∷ drop t.index t.access_addr))

drop-cons : (n : ℕ) (xs : List ℕ) → n < length xs → drop n xs ≡ get_or xs n 0 ∷ drop (suc n) xs
drop-cons n [] h = absurd (omega arith)
drop-cons zero (x ∷ xs) h = refl
drop-cons (suc n) (x ∷ xs) h = drop-cons n xs (omega arith)

drop-end : (n : ℕ) (xs : List ℕ) → length xs ≤ n → drop n xs ≡ []
drop-end zero [] h = refl
drop-end zero (x ∷ xs) h = absurd (omega arith)
drop-end (suc n) [] h = refl
drop-end (suc n) (x ∷ xs) h = drop-end n xs (omega arith)

read_once-off : (t : Iic) → is_read t.access_ctrl ≡ false → read_once t ≡ t
read_once-off t h =
    let off : (not t.lock && is_read t.access_ctrl) ≡ false = ground (arith, h) in rw off refl

requested-send_data : (t : Iic) → t.access_ctrl ≡ i2c_none → requested t ≡ send_data t
unfolding requested
requested-send_data t h = rw (read_once-off t (ap is_read h)) (rw (ap is_none h) refl)

requested-send_sub_addr : (t : Iic) → t.access_ctrl ≡ i2c_write → requested t ≡ send_sub_addr t
unfolding requested
requested-send_sub_addr t h = rw (read_once-off t (ap is_read h)) (rw (ap is_none h) refl)

Sends : Iic → List ℕ → Iic → Type 0
Sends t left t' = IsWriting t' (drop 1 left) × (sent t'.calls ≡ sent t.calls ++ take 1 left)

send_data-IsWriting :
    (t : Iic)
    → t.access_ctrl ≡ i2c_none
    → t.access_numb_bytes < 256
    → length t.access_addr ≡ t.access_numb_bytes
    → t.index ≤ t.access_numb_bytes
    → Sends t (drop t.index t.access_addr) (send_data t)
unfolding Sends
send_data-IsWriting t h few size place =
    elim (Bool-cases (ltb t.index t.access_numb_bytes))
      as (λ _. Sends t (drop t.index t.access_addr) (send_data t)) [
        | inl on ↦
            let lt : t.index < t.access_numb_bytes = ground (arith, on) in
            let next : (t.index + 1) % 2 ^ 8 ≡ suc t.index = omega (arith, lt, few) in
            rw on (
              rw (drop-cons t.index t.access_addr (ground (arith, on, size))) (
                record {
                  few = few;
                  size = size;
                  place = ground (arith, next, on);
                  phase = inl (h, rw next refl);
                },
                refl,
              ))
        | inr over ↦ rw over (
            rw (drop-end t.index t.access_addr (ground (arith, over, size))) (
              record {
                few = few;
                size = size;
                place = place;
                phase = inl (h, sym (drop-end t.index t.access_addr (ground (arith, over, size))));
              },
              sym (append-nil (sent t.calls)),
            ))
      ]

send_sub_addr-IsWriting :
    (t : Iic)
    → t.access_ctrl ≡ i2c_write
    → t.sub_addr_cnt ≡ 1
    → t.access_numb_bytes < 256
    → length t.access_addr ≡ t.access_numb_bytes
    → t.index ≤ t.access_numb_bytes
    → Sends t (low_byte t.sub_addr ∷ drop t.index t.access_addr) (send_sub_addr t)
unfolding Sends send_sub_addr
send_sub_addr-IsWriting t h one few size place =
    rw one (rw h (record { few = few; size = size; place = place; phase = inl (refl, refl) }, refl))

-- One request sends one of the bytes that are left.
requested-IsWriting : (t : Iic) (left : List ℕ) → IsWriting t left → Sends t left (requested t)
requested-IsWriting t left w = elim w.phase as (λ _. Sends t left (requested t)) [
  | inl (h, rest) ↦
      rw (requested-send_data t h) (rw rest (send_data-IsWriting t h w.few w.size w.place))
  | inr (h, one, rest) ↦
      rw (requested-send_sub_addr t h)
        (rw rest (send_sub_addr-IsWriting t h one w.few w.size w.place))
]

-- The status of an interrupt that asks for a byte.
abbrev pub room : Status
room = record {
  overflow = false;
  nackdata = false;
  lost = false;
  nackaddr = false;
  rxreq = false;
  txreq = true;
  tcomp = false;
}

-- The first `n` requests, with whatever the receive register holds.
abbrev pub requests : ℕ → ℕ → Iic → Iic
requests zero b t = t
requests (suc n) b t = requests n b (interrupt room b t)

pub interrupt-requested : (b : ℕ) (t : Iic) → interrupt room b t ≡ requested t
unfolding interrupt
interrupt-requested b t = refl

take-nil : (n : ℕ) → take {A = ℕ} n [] ≡ []
take-nil zero = refl
take-nil (suc n) = refl

take-drop-suc : (n : ℕ) (xs : List ℕ) → take 1 xs ++ take n (drop 1 xs) ≡ take (suc n) xs
take-drop-suc n [] = take-nil n
take-drop-suc n (x ∷ xs) = refl

requests-IsWriting :
    (n b : ℕ) (t : Iic) (left : List ℕ)
    → IsWriting t left
    → sent (requests n b t).calls ≡ sent t.calls ++ take n left
unfolding Sends
requests-IsWriting zero b t left w = sym (append-nil (sent t.calls))
requests-IsWriting (suc n) b t left w =
    let r = requested-IsWriting t left w in
    ap (λ (u : Iic). sent (requests n b u).calls) (interrupt-requested b t)
    ∙ requests-IsWriting n b (requested t) (drop 1 left) r.0
    ∙ ap (λ (xs : List ℕ). xs ++ take n (drop 1 left)) r.1
    ∙ append_assoc (sent t.calls) (take 1 left) (take n (drop 1 left))
    ∙ ap (λ (xs : List ℕ). sent t.calls ++ xs) (take-drop-suc n left)

-- The address within the chip, of one byte or two, as it goes over the bus.
abbrev pub address : Iic → List ℕ
address t =
    if t.sub_addr_cnt == 2
    then high_byte t.sub_addr ∷ low_byte t.sub_addr ∷ []
    else low_byte t.sub_addr ∷ []

-- The address after its first byte.
abbrev rest : Iic → List ℕ
rest t = if t.sub_addr_cnt == 2 then low_byte t.sub_addr ∷ [] else []

transfer_start-IsWriting :
    (t : Iic)
    → t.access_ctrl ≡ i2c_write
    → (t.sub_addr_cnt ≡ 1) ⊎ (t.sub_addr_cnt ≡ 2)
    → t.access_numb_bytes < 256
    → length t.access_addr ≡ t.access_numb_bytes
    → IsWriting (transfer_start t) (rest t ++ t.access_addr)
      × (sent (transfer_start t).calls ≡ sent t.calls ++ take 1 (address t))
unfolding transfer_start send_sub_addr
transfer_start-IsWriting t h (inl one) few size =
    rw one (
      rw h (record { few = few; size = size; place = omega arith; phase = inl (refl, refl) }, refl))
transfer_start-IsWriting t h (inr two) few size =
    rw two
      (record { few = few; size = size; place = omega arith; phase = inr (h, refl, refl) }, refl)

address-rest :
    (t : Iic)
    → (t.sub_addr_cnt ≡ 1) ⊎ (t.sub_addr_cnt ≡ 2)
    → (n : ℕ)
    → take 1 (address t) ++ take n (rest t ++ t.access_addr)
      ≡ take (suc n) (address t ++ t.access_addr)
address-rest t (inl one) n = rw one refl
address-rest t (inr two) n = rw two refl

-- A write sends the address within the chip and then the data, one byte at the start and one for each
-- request, in order and up to the last byte, however many requests come.
pub requests-sent :
    (n b : ℕ) (t : Iic)
    → t.access_ctrl ≡ i2c_write
    → (t.sub_addr_cnt ≡ 1) ⊎ (t.sub_addr_cnt ≡ 2)
    → t.access_numb_bytes < 256
    → length t.access_addr ≡ t.access_numb_bytes
    → sent (requests n b (transfer_start t)).calls
      ≡ sent t.calls ++ take (suc n) (address t ++ t.access_addr)
requests-sent n b t h cnt few size =
    let s = transfer_start-IsWriting t h cnt few size in
    requests-IsWriting n b (transfer_start t) (rest t ++ t.access_addr) s.0
    ∙ ap (λ (xs : List ℕ). xs ++ take n (rest t ++ t.access_addr)) s.1
    ∙ append_assoc (sent t.calls) (take 1 (address t)) (take n (rest t ++ t.access_addr))
    ∙ ap (λ (xs : List ℕ). sent t.calls ++ xs) (address-rest t cnt n)
