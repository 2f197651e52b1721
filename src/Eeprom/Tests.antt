-- ===== src/Eeprom/Tests.antt =====
-- The driver on a chip that is an array of cells, and on a bus that does not answer.
use project_sensor.Prelude.{ℕ, ◌+◌, ◌-◌, ◌*◌, ◌/◌, ◌<◌, ◌≡◌, refl, arith, [], ◌∷◌, length, gather}
use project_sensor.Prelude.Int.{pos, negsuc}
use project_sensor.Storage.Load.{IsReliable}
use project_sensor.Eeprom.{
  storage_geometry, IicAddr, iic_addr, Bus, capacity, storage_device, write_retry,
}
use project_sensor.Eeprom.Pages.{IsChip, over}
use project_sensor.Eeprom.Reliable.{storage_device-IsReliable, write_retry-silent}

-- The address on the chip, from that on the bus.
abbrev cell_addr : IicAddr → ℕ
cell_addr at = (at.sla_addr - 160) / 2 * 256 + at.sub_addr

abbrev cells : Bus (ℕ → ℕ)
cells = record {
  write = λ dev at bs. (pos (length bs), over dev (cell_addr at) bs);
  read = λ dev at bs. (pos (length bs), gather dev (cell_addr at) (length bs));
}

decode :
    (sub : ℕ)
    → sub < 2048
    → cell_addr (iic_addr storage_geometry storage_geometry.suba_type sub) ≡ sub
unfolding iic_addr
decode sub h = omega arith

cells-IsChip : IsChip storage_geometry cells (λ dev. dev)
unfolding capacity
cells-IsChip = record {
  page = omega arith;
  wrote = λ dev sub bs p. refl;
  stored = λ dev sub bs a p. rw (decode sub (omega (arith, p))) refl;
  shown = λ dev sub bs p. rw (decode sub (omega (arith, p))) refl;
}

storage_device-IsReliable_example : IsReliable (storage_device storage_geometry cells)
storage_device-IsReliable_example = storage_device-IsReliable cells (λ dev. dev) cells-IsChip

abbrev dead : Bus ℕ
dead = record { write = λ dev at bs. (negsuc 0, dev); read = λ dev at bs. (negsuc 0, bs) }

write_retry-silent_example : (write_retry storage_geometry dead 3 32 (1 ∷ 2 ∷ []) 0).0 ≡ pos 2
unfolding capacity
write_retry-silent_example =
    write_retry-silent storage_geometry dead (λ dev at bs. refl) 2 32 (1 ∷ 2 ∷ []) 0
      (omega arith, omega arith, omega arith)
