-- ===== src/Circular/Content.antt =====
-- The bytes in the ring, its invariant.
use project_sensor.Prelude.{
  ℕ, ◌+◌, ◌-◌, ◌≤◌, ◌<◌, ◌≡◌, List, ltb, if◌then◌else◌, length, get_or, gather, length-gather,
}
use project_sensor.Circular.{Circular}

-- The index `k` places behind `i`.
abbrev pub around : ℕ → ℕ → ℕ → ℕ
around capacity i k = if ltb (i + k) capacity then i + k else i + k - capacity

-- The bytes in the ring, oldest first.
unfoldable pub contents : ℕ → Circular → List ℕ
contents capacity c = gather (λ k. get_or c.bytes (around capacity c.beg_index k) 0) 0 c.size

pub record IsValid (capacity : ℕ) (c : Circular) : Type 0 where
  pub array : length c.bytes ≡ capacity
  pub beg_in : c.beg_index < capacity
  pub size_in : c.size ≤ capacity
  pub end_is : c.end_index ≡ around capacity c.beg_index c.size

pub length-contents : (capacity : ℕ) (c : Circular) → length (contents capacity c) ≡ c.size
unfolding contents
length-contents capacity c =
    length-gather (λ k. get_or c.bytes (around capacity c.beg_index k) 0) 0 c.size
