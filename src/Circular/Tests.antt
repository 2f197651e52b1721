-- ===== src/Circular/Tests.antt =====
-- A ring of four bytes that wraps.
use project_sensor.Prelude.{ℕ, ◌+◌, ◌≡◌, refl, List, [], ◌∷◌, ◌++◌, arith, length, gather}
use project_sensor.Circular.{Circular, write, read}
use project_sensor.Circular.Content.{contents, IsValid}
use project_sensor.Circular.Laws.{read-write}

-- The bytes 7 and 8, at the end of the array and at its start.
abbrev wrapped : Circular
wrapped = record { beg_index = 3; end_index = 1; size = 2; bytes = 8 ∷ 0 ∷ 0 ∷ 7 ∷ [] }

wrapped-IsValid : IsValid 4 wrapped
wrapped-IsValid = record {
  array = refl;
  beg_in = omega arith;
  size_in = omega arith;
  end_is = refl;
}

contents_test : contents 4 wrapped ≡ 7 ∷ 8 ∷ []
unfolding contents gather
contents_test = refl

abbrev two_bytes : List ℕ
two_bytes = 1 ∷ 2 ∷ []

read-write_example :
    let (n, c') = write 4 wrapped two_bytes (length two_bytes) in
    let (m, out, c'') = read 4 c' (2 + length two_bytes) in
    (n ≡ length two_bytes) × (out ≡ contents 4 wrapped ++ two_bytes) × (contents 4 c'' ≡ [])
read-write_example = read-write 4 wrapped two_bytes wrapped-IsValid (omega arith)
