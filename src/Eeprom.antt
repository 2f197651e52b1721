-- ===== src/Eeprom.antt =====
-- The storage driver, bsp/driver/storage/drv_storage.cpp: transfers to an EEPROM on the IIC bus, cut
-- at the pages of the chip. The bus (`cpu_iic_transfer` with the chip behind it) is a parameter.
pub mod Pages
pub mod Reliable
mod Tests
use project_sensor.Prelude.{
  ℕ, zero, suc, ◌+◌, ◌-◌, ◌*◌, ◌/◌, ◌%◌, ◌^◌, Bool, true, false, ◌||◌, List, [], ◌∷◌, ◌++◌, length,
  take, drop, ltb, leb, ◌==◌, if◌then◌else◌,
}
use project_sensor.Prelude.Int.{ℤ, pos, negsuc}
use project_sensor.Storage.{Device}

-- How an address on the chip goes over the bus.
pub data SubaType : Type 0 where
  one_byte two_byte x_plus_byte : SubaType

pub record Geometry : Type 0 where
  pub dev_addr : ℕ
  pub suba_type : SubaType
  pub bytes_per_page : ℕ
  pub pages_per_dev : ℕ

-- `t_storage_geometry`.
abbrev pub storage_geometry : Geometry
storage_geometry = record {
  dev_addr = 0xa0;
  suba_type = x_plus_byte;
  bytes_per_page = 16;
  pages_per_dev = 128;
}

-- The address fields of `struct iic_transfer`.
pub record IicAddr : Type 0 where
  pub sla_addr : ℕ
  pub sub_addr : ℕ
  pub sub_addr_cnt : ℕ

pub iic_addr : Geometry → SubaType → ℕ → IicAddr
iic_addr g one_byte sub = record { sla_addr = g.dev_addr; sub_addr = sub; sub_addr_cnt = 1 }
iic_addr g two_byte sub = record { sla_addr = g.dev_addr; sub_addr = sub; sub_addr_cnt = 2 }
iic_addr g x_plus_byte sub = record {
  sla_addr = (g.dev_addr + sub / 2 ^ 8 % 8 * 2) % 2 ^ 8;
  sub_addr = sub % 2 ^ 8;
  sub_addr_cnt = 1;
}

-- Addresses and sizes are below 2^15 and a page is shorter than 2^8 bytes, so that they fit the fields
-- and the result.

-- `cpu_iic_transfer` for I2C_WRITE and I2C_READ: the size or -1, and what it leaves on the chip or in
-- the bytes at the destination.
pub record Bus {ℓ} (D : Type ℓ) : Type ℓ where
  pub write : D → IicAddr → List ℕ → ℤ × D
  pub read : D → IicAddr → List ℕ → ℤ × List ℕ

abbrev is_timeout : ℤ → Bool
is_timeout (pos n) = false
is_timeout (negsuc n) = n == 0

pub capacity : Geometry → ℕ
capacity g = g.pages_per_dev * g.bytes_per_page

-- The bytes of one transfer: up to the end of the page.
pub access_bytes : Geometry → ℕ → ℕ → ℕ
access_bytes g sub n =
    let offset = sub % g.bytes_per_page in
    if ltb g.bytes_per_page (offset + n) then g.bytes_per_page - offset else n

pub out_of_range : Geometry → ℕ → ℕ → Bool
unfolding capacity
out_of_range g sub n = leb (capacity g) sub || ltb (capacity g) (sub + n)

abbrev is_size : ℤ → ℕ → Bool
is_size (pos n) m = n == m
is_size (negsuc n) m = false

module _ {ℓ} {D : Type ℓ} (g : Geometry) (bus : Bus D) where
  -- The loop of `_i2c_access` with I2C_WRITE: the count `numbBytes` at its end, and the chip. The
  -- count is lowered before the transfer.
  pub write_pages : ℕ → ℕ → List ℕ → D → ℕ × D
  write_pages zero sub bs dev = (length bs, dev)
  write_pages (suc fuel) sub bs dev =
      let k = access_bytes g sub (length bs) in
      let (rt, dev') = bus.write dev (iic_addr g g.suba_type sub) (take k bs) in
      let later = write_pages fuel (sub + k) (drop k bs) dev' in
      if length bs == 0 then (0, dev) else if is_timeout rt then (length bs - k, dev') else later

  -- The loop with I2C_READ: the count, and the bytes at the destination.
  pub read_pages : ℕ → ℕ → List ℕ → D → ℕ × List ℕ
  read_pages zero sub bs dev = (length bs, bs)
  read_pages (suc fuel) sub bs dev =
      let k = access_bytes g sub (length bs) in
      let (rt, got) = bus.read dev (iic_addr g g.suba_type sub) (take k bs) in
      let later = read_pages fuel (sub + k) (drop k bs) dev in
      if length bs == 0
      then (0, [])
      else if is_timeout rt
      then (length bs - k, got ++ drop k bs)
      else (later.0, got ++ later.1)

  -- `_i2c_access`; a size fits a `portSSIZE_TYPE`.
  pub i2c_write : ℕ → List ℕ → D → ℤ × D
  unfolding out_of_range
  i2c_write sub bs dev =
      let (left, dev') = write_pages (length bs) sub bs dev in
      if length bs == 0
      then (pos 0, dev)
      else if out_of_range g sub (length bs)
      then (negsuc 0, dev)
      else (pos (length bs - left), dev')

  pub i2c_read : ℕ → List ℕ → D → ℤ × List ℕ
  unfolding out_of_range
  i2c_read sub bs dev =
      let (left, bs') = read_pages (length bs) sub bs dev in
      if length bs == 0
      then (pos 0, bs)
      else if out_of_range g sub (length bs)
      then (negsuc 0, bs)
      else (pos (length bs - left), bs')

  -- `_i2c_access_retry` with `retry_numb` tries left after the first.
  pub write_retry : ℕ → ℕ → List ℕ → D → ℤ × D
  write_retry zero sub bs dev = i2c_write sub bs dev
  write_retry (suc retry_numb) sub bs dev =
      let (size, dev') = i2c_write sub bs dev in
      let again = write_retry retry_numb sub bs dev' in
      if is_size size (length bs) then (size, dev') else again

  pub read_retry : ℕ → ℕ → List ℕ → D → ℤ × List ℕ
  read_retry zero sub bs dev = i2c_read sub bs dev
  read_retry (suc retry_numb) sub bs dev =
      let (size, bs') = i2c_read sub bs dev in
      let again = read_retry retry_numb sub bs' dev in
      if is_size size (length bs) then (size, bs') else again

  -- `_drv_devread` and `_drv_devwrite`, as the application's storage device.
  pub storage_device : Device D
  storage_device = record {
    read = λ dev addr bs. read_retry 3 addr bs dev;
    write = λ dev addr bs. write_retry 3 addr bs dev;
  }
