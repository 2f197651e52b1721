-- ===== src/Crc/Tests.antt =====
-- The check sum at concrete byte strings.
use project_sensor.Prelude.{ℕ, ◌≡◌, refl, List, [], ◌∷◌, arith}
use project_sensor.Crc.{table_crc_hi, table_crc_lo, step, pass, crc16}
use project_sensor.Crc.Bitwise.{IsByteList, remainder, swap_bytes, crc16-remainder}

-- A request to read three holding registers from 10 on.
abbrev request : List ℕ
request = 1 ∷ 3 ∷ 0 ∷ 10 ∷ 0 ∷ 3 ∷ []

request-IsByteList : IsByteList request
request-IsByteList = omega arith

-- The check sum that such a frame carries on the line, from another implementation.
crc16_test : crc16 request ≡ 0x25c9
unfolding crc16 pass step table_crc_hi table_crc_lo
crc16_test = refl

crc16-remainder_example : crc16 request ≡ swap_bytes (remainder request)
crc16-remainder_example = crc16-remainder request request-IsByteList

abbrev count : ℕ
count = 3
