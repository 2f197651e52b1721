-- ===== src/Links/Tests.antt =====
-- Lists at concrete nodes: 6 and 7 are heads, 0 is on the list of 6.
use project_sensor.Prelude.{ℕ, ◌≡◌, refl, ◌==◌, if◌then◌else◌, some}
use project_sensor.Links.{Links, insert_before, find, find_from}

abbrev other_end : ℕ → ℕ
other_end x = if x == 6 then 0 else if x == 0 then 6 else x

abbrev one_linked : Links
one_linked = record { next = other_end; prev = other_end }

find_test : find 3 6 0 (insert_before 0 1 one_linked) ≡ some 0
unfolding find find_from insert_before
find_test = refl
