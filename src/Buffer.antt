-- ===== src/Buffer.antt =====
-- The class `buffer` of includes/service.h, in which an event carries its parameters: a byte array
-- with an index to read from and an index to write to.
pub mod Queue
pub mod Params
mod Tests
use project_sensor.Prelude.{
  ℕ, ◌+◌, ◌-◌, ◌*◌, ◌/◌, ◌%◌, ◌^◌, List, [], ◌∷◌, ltb, if◌then◌else◌, length, get_or, take, drop,
  blit,
}
use project_sensor.Prelude.Int.{ℤ, pos, negsuc}

-- The members; `bytes` is the array of `len` bytes at `buffer_`.
pub record Buffer : Type 0 where
  pub bytes : List ℕ
  pub len : ℕ
  pub cheap_prepend : ℕ
  pub reader_index : ℕ
  pub writer_index : ℕ

-- The constructor.
unfoldable pub over : List ℕ → ℕ → Buffer
over memory cheap = record {
  bytes = memory;
  len = length memory;
  cheap_prepend = cheap;
  reader_index = cheap;
  writer_index = cheap;
}

-- The reader never passes the writer, nor the writer the end, so that both differences are exact.
abbrev pub readable_bytes : Buffer → ℕ
readable_bytes b = b.writer_index - b.reader_index

abbrev pub writable_bytes : Buffer → ℕ
writable_bytes b = b.len - b.writer_index

pub retrieve_all : Buffer → Buffer
retrieve_all b = record b { reader_index = b.cheap_prepend; writer_index = b.cheap_prepend }

pub retrieve : Buffer → ℕ → Buffer
retrieve b n =
    if ltb n (readable_bytes b)
    then record b { reader_index = b.reader_index + n }
    else retrieve_all b

-- The bytes go out through `dst`.
pub retrieve_as_char_array : Buffer → ℕ → ℤ × List ℕ × Buffer
retrieve_as_char_array b n =
    if ltb (readable_bytes b) n
    then (negsuc 0, [], b)
    else (pos n, take n (drop b.reader_index b.bytes), retrieve b n)

-- `append` of all the bytes at `data`, with `hasWritten`.
pub append : Buffer → List ℕ → ℤ × Buffer
append b src = if ltb (writable_bytes b) (length src) then (negsuc 0, b) else (
  pos 0,
  record b { bytes = blit b.bytes b.writer_index src; writer_index = b.writer_index + length src },
)

-- `prepend` of at most `prependableBytes()` bytes.
pub prepend : Buffer → List ℕ → Buffer
prepend b src =
    let start = b.reader_index - length src in
    record b { reader_index = start; bytes = blit b.bytes start src }

-- `appendInt16` and `readInt16`, on the 16 bits of the value, in the order of the machine.
pub append_int16 : Buffer → ℕ → Buffer
append_int16 b x = (append b (x % 2 ^ 8 ∷ x / 2 ^ 8 % 2 ^ 8 ∷ [])).1

pub peek_int16 : Buffer → ℕ
peek_int16 b = get_or b.bytes b.reader_index 0 + get_or b.bytes (b.reader_index + 1) 0 * 2 ^ 8

pub read_int16 : Buffer → ℕ × Buffer
read_int16 b = (peek_int16 b, retrieve b 2)

-- The same for 8 and 32 bits.
pub append_int8 : Buffer → ℕ → Buffer
append_int8 b x = (append b (x % 2 ^ 8 ∷ [])).1

abbrev pub long_bytes : ℕ → List ℕ
long_bytes x = x % 2 ^ 8 ∷ x / 2 ^ 8 % 2 ^ 8 ∷ x / 2 ^ 16 % 2 ^ 8 ∷ x / 2 ^ 24 % 2 ^ 8 ∷ []

pub append_int32 : Buffer → ℕ → Buffer
append_int32 b x = (append b (long_bytes x)).1

pub peek_int8 : Buffer → ℕ
peek_int8 b = get_or b.bytes b.reader_index 0

pub peek_int32 : Buffer → ℕ
peek_int32 b =
    let at = λ (k : ℕ). get_or b.bytes (b.reader_index + k) 0 in
    at 0 + at 1 * 2 ^ 8 + at 2 * 2 ^ 16 + at 3 * 2 ^ 24

pub read_int8 : Buffer → ℕ × Buffer
read_int8 b = (peek_int8 b, retrieve b 1)

pub read_int32 : Buffer → ℕ × Buffer
read_int32 b = (peek_int32 b, retrieve b 4)

-- `prependInt8`, `prependInt16` and `prependInt32`.
pub prepend_int8 : Buffer → ℕ → Buffer
prepend_int8 b x = prepend b (x % 2 ^ 8 ∷ [])

pub prepend_int16 : Buffer → ℕ → Buffer
prepend_int16 b x = prepend b (x % 2 ^ 8 ∷ x / 2 ^ 8 % 2 ^ 8 ∷ [])

pub prepend_int32 : Buffer → ℕ → Buffer
prepend_int32 b x = prepend b (long_bytes x)

-- `retrieveAllAsCharArray`.
pub retrieve_all_as_char_array : Buffer → ℤ × List ℕ × Buffer
retrieve_all_as_char_array b = retrieve_as_char_array b (readable_bytes b)

-- `operator=` from another buffer: the array itself is not copied.
pub assign : Buffer → Buffer → Buffer
assign b other = record b {
  len = other.len;
  reader_index = other.reader_index;
  writer_index = other.writer_index;
  cheap_prepend = other.cheap_prepend;
}
