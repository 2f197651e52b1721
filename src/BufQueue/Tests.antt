-- ===== src/BufQueue/Tests.antt =====
-- The frame queue on a few calls.
use project_sensor.Prelude.{◌≡◌, refl, List, [], ◌∷◌, replicate}
use project_sensor.BufQueue.{RxBuf, BufQueue, init}
use project_sensor.BufQueue.Fifo.{Op, replies}
use project_sensor.BufQueue.Shape.{AllSlots, contents, IsValid}
use project_sensor.BufQueue.Refine.{perform_all, perform_all_refines, init-IsValid}

abbrev slot : RxBuf
slot = record { m_buf = replicate 130 0; m_len = 9 }

-- The queue as the memory was, and after `buf_queue_init`.
abbrev unset : BufQueue
unset = record { m_rx_buf = slot ∷ slot ∷ slot ∷ []; front = 5; rear = 7; size = 1; capacity = 0 }

abbrev empty : BufQueue
empty = init unset

unset-AllSlots : AllSlots unset.m_rx_buf
unset-AllSlots = (refl, (refl, (refl, tt)))

empty-IsValid : IsValid empty
empty-IsValid = (init-IsValid unset refl unset-AllSlots).0

abbrev ops : List Op
ops =
    Op.put (1 ∷ 2 ∷ [])
    ∷ Op.put []
    ∷ Op.pick
    ∷ Op.put (3 ∷ [])
    ∷ Op.put (4 ∷ [])
    ∷ Op.pop
    ∷ Op.get
    ∷ []

perform_all_refines_example : perform_all empty ops ≡ replies empty.capacity (contents empty) ops
perform_all_refines_example = perform_all_refines empty ops empty-IsValid
