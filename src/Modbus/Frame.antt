-- ===== src/Modbus/Frame.antt =====
-- A message with its check sum, as `_modbus_rtu_send_msg_pre` builds it and `unpack` checks it.
use project_sensor.Prelude.{
  ℕ, zero, suc, ◌+◌, ◌-◌, ◌/◌, ◌%◌, ◌≤◌, ◌<◌, ◌^◌, ◌≡◌, ◌≢◌, ◌⊎◌, refl, sym, ap, ◌∙◌, inl, List, [],
  ◌∷◌, ◌++◌, append_assoc, append-nil, arith, ◌==◌, if◌then◌else◌, length, get_or, set, take, blit,
  length-append, length-set, take-append, get_or-take,
}
use project_sensor.Prelude.Int.{pos, negsuc}
use project_sensor.Crc.{crc16}
use project_sensor.Crc.Bitwise.{IsByteList}
use project_sensor.Crc.Burst.{crc16_burst}
use project_sensor.Modbus.{Modbus, Message, send_msg_pre, unpack}

-- A message followed by its check sum, high byte first.
abbrev pub frame : List ℕ → List ℕ
frame xs = xs ++ (crc16 xs / 2 ^ 8 ∷ crc16 xs % 2 ^ 8 ∷ [])

take-suc :
    (n : ℕ) (xs : List ℕ) → n < length xs → take (suc n) xs ≡ take n xs ++ (get_or xs n 0 ∷ [])
take-suc zero [] h = absurd (omega arith)
take-suc zero (x ∷ xs) h = refl
take-suc (suc n) [] h = absurd (omega arith)
take-suc (suc n) (x ∷ xs) h = ap (λ r. x ∷ r) (take-suc n xs (omega arith))

take-set : (n : ℕ) (xs : List ℕ) (i v : ℕ) → n ≤ i → take n (set xs i v) ≡ take n xs
take-set zero xs i v h = refl
take-set (suc n) [] i v h = refl
take-set (suc n) (x ∷ xs) zero v h = absurd (omega arith)
take-set (suc n) (x ∷ xs) (suc i) v h = ap (λ r. x ∷ r) (take-set n xs i v (omega arith))

get_or-set_self : (xs : List ℕ) (i v : ℕ) → i < length xs → get_or (set xs i v) i 0 ≡ v
get_or-set_self [] i v h = absurd (omega arith)
get_or-set_self (x ∷ xs) zero v h = refl
get_or-set_self (x ∷ xs) (suc i) v h = get_or-set_self xs i v (omega arith)

-- A range that was just copied in, with what stands before it.
pub take-blit :
    (dst : List ℕ) (off : ℕ) (src : List ℕ)
    → off + length src ≤ length dst
    → take (off + length src) (blit dst off src) ≡ take off dst ++ src
unfolding blit
take-blit dst off [] h =
    let e : off + 0 ≡ off = omega arith in rw e (sym (append-nil (take off dst)))
take-blit dst off (x ∷ src) h =
    let e : off + suc (length src) ≡ suc off + length src = omega arith in
    let ih = take-blit (set dst off x) (suc off) src (omega (arith, length-set dst off x)) in
    rw e (
      ih
      ∙ ap (λ r. r ++ src) (take-suc off (set dst off x) (omega (arith, length-set dst off x)))
      ∙ rw (take-set off dst off x (omega arith), get_or-set_self dst off x (omega arith))
          (append_assoc (take off dst) (x ∷ []) src))

-- Sealing a message leaves its frame, one check sum longer.
pub send_msg_pre-frame :
    (msg : Message)
    → msg.rsp_length + 2 ≤ length msg.rsp
    → (send_msg_pre msg).rsp_length ≡ msg.rsp_length + 2
      × take (msg.rsp_length + 2) (send_msg_pre msg).rsp ≡ frame (take msg.rsp_length msg.rsp)
unfolding send_msg_pre blit
send_msg_pre-frame msg room =
    let crc = crc16 (take msg.rsp_length msg.rsp) in
    let e : suc msg.rsp_length ≡ msg.rsp_length + 1 = omega arith in
    (refl, rw (← e) (take-blit msg.rsp msg.rsp_length (crc / 2 ^ 8 ∷ crc % 2 ^ 8 ∷ []) room))

get_or-append_left :
    (xs ys : List ℕ) (i : ℕ) → i < length xs → get_or (xs ++ ys) i 0 ≡ get_or xs i 0
get_or-append_left [] ys i h = absurd (omega arith)
get_or-append_left (x ∷ xs) ys zero h = refl
get_or-append_left (x ∷ xs) ys (suc i) h = get_or-append_left xs ys i (omega arith)

get_or-append_right :
    (xs ys : List ℕ) (i j : ℕ) → j ≡ length xs + i → get_or (xs ++ ys) j 0 ≡ get_or ys i 0
get_or-append_right [] ys i j h = ap (λ (n : ℕ). get_or ys n 0) (omega arith)
get_or-append_right (x ∷ xs) ys i zero h = absurd (omega arith)
get_or-append_right (x ∷ xs) ys i (suc j) h = get_or-append_right xs ys i j (omega arith)

take-append_prefix : (n : ℕ) (xs ys : List ℕ) → n ≤ length xs → take n (xs ++ ys) ≡ take n xs
take-append_prefix zero xs ys h = refl
take-append_prefix (suc n) [] ys h = absurd (omega arith)
take-append_prefix (suc n) (x ∷ xs) ys h =
    ap (λ r. x ∷ r) (take-append_prefix n xs ys (omega arith))

take-take : (n m : ℕ) (xs : List ℕ) → n ≤ m → take n (take m xs) ≡ take n xs
take-take zero m xs h = refl
take-take (suc n) zero xs h = absurd (omega arith)
take-take (suc n) (suc m) [] h = refl
take-take (suc n) (suc m) (x ∷ xs) h = ap (λ r. x ∷ r) (take-take n m xs (omega arith))

-- What `unpack` says of a message that carries the check sum `crc`.
unpack-tail :
    (m : Modbus) (buf xs : List ℕ) (len crc : ℕ)
    → 1 ≤ length xs
    → len ≡ length xs + 2
    → len ≤ 260
    → take len buf ≡ xs ++ (crc / 2 ^ 8 ∷ crc % 2 ^ 8 ∷ [])
    → (get_or xs 0 0 ≡ m.slave) ⊎ (get_or xs 0 0 ≡ 0)
    → unpack m buf len ≡ (if crc16 xs == crc then pos 0 else negsuc 1)
unfolding unpack
unpack-tail m buf xs len crc some_byte e short at to_us =
    let tail = crc / 2 ^ 8 ∷ crc % 2 ^ 8 ∷ [] in
    let n : len - 2 ≡ length xs = omega arith in
    let byte : (i : ℕ) → i < len → get_or buf i 0 ≡ get_or (xs ++ tail) i 0 =
      λ i h. sym (get_or-take len buf i 0 h) ∙ ap (λ (r : List ℕ). get_or r i 0) at in
    let body : take (len - 2) buf ≡ xs =
      sym (take-take (len - 2) len buf (omega arith))
      ∙ ap (take (len - 2)) at
      ∙ ap (λ (k : ℕ). take k (xs ++ tail)) n
      ∙ take-append xs tail in
    let first : get_or buf 0 0 ≡ get_or xs 0 0 =
      byte 0 (omega arith) ∙ get_or-append_left xs tail 0 (omega arith) in
    let high : get_or buf (len - 2) 0 ≡ crc / 2 ^ 8 =
      byte (len - 2) (omega arith) ∙ get_or-append_right xs tail 0 (len - 2) (omega arith) in
    let low : get_or buf (len - 1) 0 ≡ crc % 2 ^ 8 =
      byte (len - 1) (omega arith) ∙ get_or-append_right xs tail 1 (len - 1) (omega arith) in
    rw (body, first, high, low) (ground (arith, to_us))

-- `unpack` accepts a frame, at the front of any buffer, that is addressed to the slave or to all and
-- has at most 260 bytes.
pub unpack-frame :
    (m : Modbus) (buf xs : List ℕ) (len : ℕ)
    → 1 ≤ length xs
    → len ≡ length xs + 2
    → len ≤ 260
    → take len buf ≡ frame xs
    → (get_or xs 0 0 ≡ m.slave) ⊎ (get_or xs 0 0 ≡ 0)
    → unpack m buf len ≡ pos 0
unpack-frame m buf xs len some_byte e short at to_us =
    unpack-tail m buf xs len (crc16 xs) some_byte e short at to_us ∙ ground arith

-- A frame addressed to the slave, of at most 260 bytes, in which two neighbouring bytes `a`, `b`
-- between the address and the check sum arrived as other bytes `a'`, `b'`, is refused with -2.
pub unpack_burst :
    (m : Modbus) (buf xs ys : List ℕ) (a b a' b' len : ℕ)
    → IsByteList xs
    → IsByteList ys
    → (a < 256) × (b < 256)
    → (a' < 256) × (b' < 256)
    → (a ≢ a') ⊎ (b ≢ b')
    → 1 ≤ length xs
    → get_or xs 0 0 ≡ m.slave
    → len ≡ length (frame (xs ++ (a ∷ b ∷ ys)))
    → len ≤ 260
    → (let crc = crc16 (xs ++ (a ∷ b ∷ ys)) in
        take len buf ≡ (xs ++ (a' ∷ b' ∷ ys)) ++ (crc / 2 ^ 8 ∷ crc % 2 ^ 8 ∷ []))
    → unpack m buf len ≡ negsuc 1
unpack_burst m buf xs ys a b a' b' len hx hy p p' differ some_byte to_us e short at =
    let crc = crc16 (xs ++ (a ∷ b ∷ ys)) in
    let n = length-append xs (a ∷ b ∷ ys) in
    let n' = length-append xs (a' ∷ b' ∷ ys) in
    let nf = length-append (xs ++ (a ∷ b ∷ ys)) (crc / 2 ^ 8 ∷ crc % 2 ^ 8 ∷ []) in
    let first = get_or-append_left xs (a' ∷ b' ∷ ys) 0 some_byte in
    let same : crc16 (xs ++ (a' ∷ b' ∷ ys)) ≡ crc → (a ≡ a') × (b ≡ b') =
      λ h. crc16_burst xs ys a b a' b' hx hy p p' (sym h) in
    let t =
      unpack-tail m buf (xs ++ (a' ∷ b' ∷ ys)) len crc (omega arith) (omega arith) short at
        (inl (first ∙ to_us)) in
    t ∙ ground (arith, same, differ)
