-- ===== src/Modbus/Server/Loops.antt =====
-- The two loops of `package_event_handler` against the list of words that they move.
use project_sensor.Prelude.{
  ℕ, zero, suc, ◌+◌, ◌*◌, ◌/◌, ◌%◌, ◌≤◌, ◌<◌, ◌^◌, ◌≡◌, refl, ap, ◌∙◌, List, [], ◌∷◌, arith, length,
  get_or, set, take, drop, blit, set_self,
}
use project_sensor.Prelude.Int.{pos}
use project_sensor.Datum.{RegType, hold, ModelDatum, modbus_reg_get, modbus_reg_set}
use project_sensor.Modbus.Server.{read_loop, write_loop}
use project_sensor.Modbus.Server.Answer.{word_at, words_at, show_regs, assign}

-- Two different cells may be written in either order.
set_comm : (xs : List ℕ) (i v w : ℕ) → set (set xs (suc i) w) i v ≡ set (set xs i v) (suc i) w
set_comm [] i v w = refl
set_comm (x ∷ xs) zero v w = refl
set_comm (x ∷ xs) (suc i) v w = ap (λ r. x ∷ r) (set_comm xs i v w)

-- The loop that reads is a copy of the registers' bytes.
pub read_loop-blit :
    (junk : ℕ) (m : ModelDatum) (type : RegType) (reg i n buffer : ℕ) (buf : List ℕ)
    → reg + i + n < 2 ^ 16
    → read_loop junk m type reg i n buffer buf ≡ blit buf buffer (show_regs junk m type (reg + i) n)
unfolding read_loop show_regs blit
read_loop-blit junk m type reg i zero buffer buf h = refl
read_loop-blit junk m type reg i (suc n) buffer buf h =
    let at : (reg + i) % 65536 ≡ reg + i = omega arith in
    let next : reg + (i + 1) ≡ reg + i + 1 = omega arith in
    let one : buffer + 1 ≡ suc buffer = omega arith in
    let two : buffer + 2 ≡ suc (suc buffer) = omega arith in
    let v = modbus_reg_get m junk type (reg + i) in
    rw (at, one, set_comm buf buffer (v / 2 ^ 8 % 2 ^ 8) (v % 2 ^ 8))
      (read_loop-blit junk m type reg (i + 1) n (buffer + 2) _ (omega arith) ∙ rw (next, two))

pub length-show_regs :
    (junk : ℕ) (m : ModelDatum) (type : RegType) (reg n : ℕ)
    → length (show_regs junk m type reg n) ≡ 2 * n
unfolding show_regs
length-show_regs junk m type reg zero = refl
length-show_regs junk m type reg (suc n) = omega (arith, length-show_regs junk m type (reg + 1) n)

-- The loop that writes assigns the words that stand from `buffer` on.
pub write_loop-assign :
    (m : ModelDatum) (reg i n buffer : ℕ) (buf : List ℕ)
    → reg + i + n < 2 ^ 16
    → write_loop m reg i n buffer buf ≡ assign m (reg + i) (words_at buf buffer n)
unfolding write_loop assign words_at word_at
write_loop-assign m reg i zero buffer buf h = refl
write_loop-assign m reg i (suc n) buffer buf h =
    let at : (reg + i) % 65536 ≡ reg + i = omega arith in
    let next : reg + (i + 1) ≡ reg + i + 1 = omega arith in
    let value : get_or buf (buffer + 1) 0 + get_or buf buffer 0 * 256
        ≡ get_or buf buffer 0 * 256 + get_or buf (buffer + 1) 0 =
      omega arith in
    let ih =
      write_loop-assign
        ((modbus_reg_set m (pos 0) hold (reg + i)
          (get_or buf buffer 0 * 256 + get_or buf (buffer + 1) 0)).1)
        reg (i + 1) n (buffer + 2) buf (omega arith) in
    rw (at, value, ih, next)

drop-uncons :
    (xs : List ℕ) (off : ℕ) → off < length xs → drop off xs ≡ get_or xs off 0 ∷ drop (suc off) xs
drop-uncons [] off h = absurd (omega arith)
drop-uncons (x ∷ xs) zero h = refl
drop-uncons (x ∷ xs) (suc off) h = drop-uncons xs off (omega arith)

-- Copying a range onto itself.
pub blit_self :
    (buf : List ℕ) (off n : ℕ) → off + n ≤ length buf → blit buf off (take n (drop off buf)) ≡ buf
unfolding blit
blit_self buf off zero h = refl
blit_self buf off (suc n) h = rw (drop-uncons buf off (omega arith)) (
    ap (λ r. blit r (suc off) (take n (drop (suc off) buf))) (set_self buf off 0)
    ∙ blit_self buf (suc off) n (omega arith))
