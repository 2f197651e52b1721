-- ===== src/Links.antt =====
-- The doubly linked lists of includes/service.cpp, whose nodes stand inside timers, events and
-- channels. A node is its address, and the memory holds the two pointers of each node.
pub mod Seg
pub mod Ring
pub mod Splice
pub mod Find
mod Tests
use project_sensor.Prelude.{ℕ, zero, suc, Bool, Option, none, some, ◌==◌, if◌then◌else◌}

-- The fields `m_next` and `m_prev` of every node.
pub record Links : Type 0 where
  pub next : ℕ → ℕ
  pub prev : ℕ → ℕ

abbrev update : (ℕ → ℕ) → ℕ → ℕ → ℕ → ℕ
update f p v q = if q == p then v else f q

abbrev pub set_next : ℕ → ℕ → Links → Links
set_next p q h = record h { next = update h.next p q }

abbrev pub set_prev : ℕ → ℕ → Links → Links
set_prev p q h = record h { prev = update h.prev p q }

unfoldable pub init : ℕ → Links → Links
init l h = set_prev l l (set_next l l h)

unfoldable pub insert_after : ℕ → ℕ → Links → Links
insert_after l n h0 =
    let h1 = set_prev (h0.next l) n h0 in
    let h2 = set_next n (h1.next l) h1 in let h3 = set_next l n h2 in set_prev n l h3

unfoldable pub insert_before : ℕ → ℕ → Links → Links
insert_before l n h0 =
    let h1 = set_next (h0.prev l) n h0 in
    let h2 = set_prev n (h1.prev l) h1 in let h3 = set_prev l n h2 in set_next n l h3

unfoldable pub del : ℕ → Links → Links
del n h0 =
    let h1 = set_prev (h0.next n) (h0.prev n) h0 in
    let h2 = set_next (h1.prev n) (h1.next n) h1 in let h3 = set_next n n h2 in set_prev n n h3

unfoldable pub is_empty : ℕ → Links → Bool
is_empty l h = h.next l == l

-- The walk of `list_for_each` from `it`, in search of `node`.
unfoldable pub find_from : ℕ → ℕ → ℕ → ℕ → Links → Option ℕ
find_from zero head node it h = none
find_from (suc fuel) head node it h =
    let rest = find_from fuel head node (h.next it) h in
    if it == head then none else if it == node then some it else rest

-- `fuel` bounds the nodes on the list.
unfoldable pub find : ℕ → ℕ → ℕ → Links → Option ℕ
unfolding find_from
find fuel head node h = find_from fuel head node (h.next head) h

abbrev pub splice_between : ℕ → ℕ → ℕ → Links → Links
splice_between l before after h0 =
    let first = h0.next l in
    let last = h0.prev l in
    let h1 = set_prev first before h0 in
    let h2 = set_next before first h1 in let h3 = set_next last after h2 in set_prev after last h3

unfoldable pub splice : ℕ → ℕ → Links → Links
unfolding is_empty
splice l head h = if is_empty l h then h else splice_between l head (h.next head) h

unfoldable pub splice_init : ℕ → ℕ → Links → Links
unfolding is_empty init
splice_init l head h = if is_empty l h then h else init l (splice_between l head (h.next head) h)
