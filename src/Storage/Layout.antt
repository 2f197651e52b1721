-- ===== src/Storage/Layout.antt =====
-- The memory image of the parameters: 112 bytes, from which the parameters can be read back.
use project_sensor.Prelude.{
  ℕ, zero, suc, ◌+◌, ◌*◌, ◌/◌, ◌%◌, ◌<◌, ◌^◌, ◌≡◌, refl, ap, ap₂, List, [], ◌∷◌, ◌++◌, arith,
  length, get_or, take, drop, length-append,
}
use project_sensor.Crc.Bitwise.{IsByteList}
use project_sensor.Datum.{SensorPara}
use project_sensor.Datum.Cell.{All, IsConfig, IsValid}
use project_sensor.Datum.Hold.{byte_cell}
use project_sensor.Storage.{words_out, longs_out, words_in, longs_in, para_bytes, image, from_image}

-- Parameters that memory can hold, within the ranges of their registers or not: every cell, the
-- padding and the check sum of its width.
pub record IsStored (p : SensorPara) : Type 0 where
  pub sum : p.chksum < 2 ^ 16
  pub seven : length p.uc ≡ 7
  pub bytes : IsByteList p.uc
  pub gap_1 : p.pad_1 < 2 ^ 8
  pub shorts : length p.us ≡ 24
  pub words : All (λ w. w < 2 ^ 16) p.us
  pub gap_2 : p.pad_2 < 2 ^ 16
  pub longs : length p.ul ≡ 13
  pub double_words : All (λ w. w < 2 ^ 32) p.ul

take_at : (n : ℕ) (xs ys : List ℕ) → length xs ≡ n → take n (xs ++ ys) ≡ xs
take_at zero [] ys h = refl
take_at zero (x ∷ xs) ys h = absurd (omega arith)
take_at (suc n) [] ys h = absurd (omega arith)
take_at (suc n) (x ∷ xs) ys h = ap (λ r. x ∷ r) (take_at n xs ys (omega arith))

drop_at : (n : ℕ) (xs ys : List ℕ) → length xs ≡ n → drop n (xs ++ ys) ≡ ys
drop_at zero [] ys h = refl
drop_at zero (x ∷ xs) ys h = absurd (omega arith)
drop_at (suc n) [] ys h = absurd (omega arith)
drop_at (suc n) (x ∷ xs) ys h = drop_at n xs ys (omega arith)

-- Words and double words survive their bytes.
words_in-words_out : (ws : List ℕ) → All (λ w. w < 2 ^ 16) ws → words_in (words_out ws) ≡ ws
unfolding words_in words_out
words_in-words_out [] h = refl
words_in-words_out (w ∷ ws) h =
    let fits : w < 65536 = h.0 in ap₂ ◌∷◌ (omega arith) (words_in-words_out ws h.1)

longs_in-longs_out : (ws : List ℕ) → All (λ w. w < 2 ^ 32) ws → longs_in (longs_out ws) ≡ ws
unfolding longs_in longs_out
longs_in-longs_out [] h = refl
longs_in-longs_out (w ∷ ws) h =
    let fits : w < 4294967296 = h.0 in ap₂ ◌∷◌ (omega arith) (longs_in-longs_out ws h.1)

length-words_out : (ws : List ℕ) → length (words_out ws) ≡ 2 * length ws
unfolding words_out
length-words_out [] = refl
length-words_out (w ∷ ws) = omega (arith, length-words_out ws)

length-longs_out : (ws : List ℕ) → length (longs_out ws) ≡ 4 * length ws
unfolding longs_out
length-longs_out [] = refl
length-longs_out (w ∷ ws) = omega (arith, length-longs_out ws)

words_out-IsByteList : (ws : List ℕ) → IsByteList (words_out ws)
unfolding words_out
words_out-IsByteList [] = tt
words_out-IsByteList (w ∷ ws) = (omega arith, (omega arith, words_out-IsByteList ws))

longs_out-IsByteList : (ws : List ℕ) → IsByteList (longs_out ws)
unfolding longs_out
longs_out-IsByteList [] = tt
longs_out-IsByteList (w ∷ ws) =
    (omega arith, (omega arith, (omega arith, (omega arith, longs_out-IsByteList ws))))

append-IsByteList : (xs ys : List ℕ) → IsByteList xs → IsByteList ys → IsByteList (xs ++ ys)
append-IsByteList [] ys h k = k
append-IsByteList (x ∷ xs) ys h k = (h.0, append-IsByteList xs ys h.1 k)

cells-IsByteList : (xs : List ℕ) → ((i : ℕ) → i < length xs → get_or xs i 0 < 256) → IsByteList xs
cells-IsByteList [] h = tt
cells-IsByteList (x ∷ xs) h =
    (h 0 (omega arith), cells-IsByteList xs (λ i below. h (suc i) (omega arith)))

config-IsByteList : (uc : List ℕ) → IsConfig uc → IsByteList uc
config-IsByteList uc v = cells-IsByteList uc (λ i below. byte_cell uc i v (omega (arith, v.seven)))

-- Valid parameters are such, with padding and check sum of their widths.
pub IsValid-IsStored :
    (p : SensorPara)
    → IsValid p
    → p.chksum < 2 ^ 16
    → p.pad_1 < 2 ^ 8
    → p.pad_2 < 2 ^ 16
    → IsStored p
IsValid-IsStored p v sum gap_1 gap_2 = record {
  sum = sum;
  seven = v.config.seven;
  bytes = config-IsByteList p.uc v.config;
  gap_1 = gap_1;
  shorts = v.shorts;
  words = v.words;
  gap_2 = gap_2;
  longs = v.longs;
  double_words = v.double_words;
}

-- What the check sum covers is a byte string.
pub para_bytes-IsByteList : (p : SensorPara) → IsStored p → IsByteList (para_bytes p)
unfolding para_bytes
para_bytes-IsByteList p s = append-IsByteList p.uc _ s.bytes (
  s.gap_1,
  append-IsByteList (words_out p.us) _ (words_out-IsByteList p.us) (
      append-IsByteList (words_out (p.pad_2 ∷ [])) (longs_out p.ul)
        (words_out-IsByteList (p.pad_2 ∷ [])) (longs_out-IsByteList p.ul)),
)

-- The image has the size that the code passes to the storage device.
pub length-image : (p : SensorPara) → IsStored p → length (image p) ≡ 112
unfolding image para_bytes words_out
length-image p s = omega (
  arith,
  s.seven,
  s.shorts,
  s.longs,
  length-append p.uc (p.pad_1 ∷ words_out p.us ++ (words_out (p.pad_2 ∷ []) ++ longs_out p.ul)),
  length-append (words_out p.us) (words_out (p.pad_2 ∷ []) ++ longs_out p.ul),
  length-words_out p.us,
  length-longs_out p.ul,
)

-- The image of stored parameters, read back, is those parameters.
pub from_image-image : (p : SensorPara) → IsStored p → from_image (image p) ≡ p
unfolding from_image image para_bytes words_out
from_image-image p s =
    let tail = words_out (p.pad_2 ∷ []) ++ longs_out p.ul in
    let rest = p.pad_1 ∷ words_out p.us ++ tail in
    let size : length (words_out p.us) ≡ 48 = omega (arith, length-words_out p.us, s.shorts) in
    let sum : p.chksum % 256 + p.chksum / 256 % 256 * 256 ≡ p.chksum = omega (arith, s.sum) in
    let gap : p.pad_2 % 256 + p.pad_2 / 256 % 256 * 256 ≡ p.pad_2 = omega (arith, s.gap_2) in
    rw (
      take_at 7 p.uc rest s.seven,
      drop_at 7 p.uc rest s.seven,
      take_at 48 (words_out p.us) tail size,
      drop_at 48 (words_out p.us) tail size,
      words_in-words_out p.us s.words,
      longs_in-longs_out p.ul s.double_words,
      sum,
      gap,
    )
