-- ===== src/Circular.antt =====
-- The byte ring `circular_buffer<CAPACITY>` of api/utils.h and api/utils.cpp.
pub mod Content
pub mod Store
pub mod Load
pub mod Laws
mod Tests
use project_sensor.Prelude.{
  ℕ, ◌+◌, ◌-◌, min, List, [], ◌++◌, leb, ◌==◌, if◌then◌else◌, replicate, take, drop, blit,
}

-- The members; `data` is the array `data_` of CAPACITY bytes.
pub record Circular : Type 0 where
  pub beg_index : ℕ
  pub end_index : ℕ
  pub size : ℕ
  pub bytes : List ℕ

-- The template's parameter.
module _ (capacity : ℕ) where
  -- The constructor leaves the array as the memory happens to be.
  pub fresh : List ℕ → Circular
  fresh memory = record { beg_index = 0; end_index = 0; size = 0; bytes = memory }

  -- `if (index == CAPACITY) index = 0;`
  abbrev pub back_to_start : ℕ → ℕ
  back_to_start i = if i == capacity then 0 else i

  -- The copies of `write`: `n` bytes from the front of `src`, in a single step or in two.
  pub store : Circular → ℕ → List ℕ → Circular
  store c n src =
      let size_1 = capacity - c.end_index in
      let size_2 = n - size_1 in
      if leb n size_1
      then record c {
        bytes = blit c.bytes c.end_index (take n src);
        end_index = back_to_start (c.end_index + n);
        size = c.size + n;
      }
      else record c {
        bytes = blit (blit c.bytes c.end_index (take size_1 src)) 0 (take size_2 (drop size_1 src));
        end_index = size_2;
        size = c.size + n;
      }

  -- Returns how many of the `len` bytes at `src` it took.
  pub write : Circular → List ℕ → ℕ → ℕ × Circular
  write c src len =
      let n = min len (capacity - c.size) in if len == 0 then (0, c) else (n, store c n src)

  -- The copies of `read`: the `n` bytes that go out, and the buffer without them.
  pub load : Circular → ℕ → List ℕ × Circular
  load c n =
      let size_1 = capacity - c.beg_index in
      let size_2 = n - size_1 in
      if leb n size_1
      then (
        take n (drop c.beg_index c.bytes),
        record c { beg_index = back_to_start (c.beg_index + n); size = c.size - n },
      )
      else (
        take size_1 (drop c.beg_index c.bytes) ++ take size_2 c.bytes,
        record c { beg_index = size_2; size = c.size - n },
      )

  -- Returns how many bytes it copied out, and those bytes.
  pub read : Circular → ℕ → ℕ × List ℕ × Circular
  read c len =
      let n = min len c.size in
      let (out, c') = load c n in if len == 0 then (0, [], c) else (n, out, c')
