-- ===== src/BufQueue/Fifo.antt =====
-- What the frame queue promises: a first-in first-out queue of at most `cap` frames of at most 130
-- bytes, and the sequences of calls that a client makes of one.
use project_sensor.Prelude.{
  ℕ, Option, none, some, List, [], ◌∷◌, ◌++◌, leb, if◌then◌else◌, length, take,
}
use project_sensor.Prelude.Int.{ℤ, pos, negsuc}
use project_sensor.BufQueue.{queue_buf_len}

abbrev pub Frames : Type 0
Frames = List (List ℕ)

-- A client's calls: `put` is given the bytes at `pbuf`, all of which it offers.
pub data Op : Type 0 where
  put : List ℕ → Op
  get pick pop : Op

-- What a call returns, and the frame that it hands out.
abbrev pub Reply : Type 0
Reply = ℤ × Option (List ℕ)

-- Appends the offered bytes, cut to the length of a buffer, unless the queue is full.
unfoldable pub offer : ℕ → Frames → List ℕ → Reply × Frames
offer cap fs bytes =
    if leb cap (length fs)
    then ((negsuc 0, none), fs)
    else ((pos 0, none), fs ++ (take queue_buf_len bytes ∷ []))

unfoldable pub fetch : Frames → Reply × Frames
fetch [] = ((negsuc 0, none), [])
fetch (f ∷ fs) = ((pos 0, some f), fs)

unfoldable pub peek : Frames → Reply × Frames
peek [] = ((negsuc 0, none), [])
peek (f ∷ fs) = ((pos 0, some f), f ∷ fs)

unfoldable pub discard : Frames → Reply × Frames
discard [] = ((negsuc 0, none), [])
discard (f ∷ fs) = ((pos 0, none), fs)

unfoldable pub call : ℕ → Frames → Op → Reply × Frames
call cap fs (put bytes) = offer cap fs bytes
call cap fs get = fetch fs
call cap fs pick = peek fs
call cap fs pop = discard fs

unfoldable pub replies : ℕ → Frames → List Op → List Reply
replies cap fs [] = []
replies cap fs (op ∷ ops) = let (r, fs') = call cap fs op in r ∷ replies cap fs' ops
