-- ===== src/Hal.antt =====
-- The device layer, bsp/hal/hal.cpp: devices on a linked list, found by name, with the functions of their drivers behind common guards.
pub mod Device
mod Register
mod Guards
mod Named
mod Tests
use project_sensor.Prelude.{
  ℕ, zero, suc, ◌+◌, ◌-◌, ◌/◌, ◌%◌, Bool, true, false, not, ◌&&◌, List, [], ◌∷◌, Option, none, some,
  length, ◌==◌, if◌then◌else◌,
}
use project_sensor.Prelude.Int.{ℤ, pos, negsuc}
use project_sensor.Links.{Links, init, insert_after, del}

pub data DeviceStatus : Type 0 where
  enull ok enosys ebusy eopen eparam_invalid ecmd_invalid eoflg_invalid eexec eagain etimeout
        enoexsited :
      DeviceStatus

-- The devices are nodes of `links`, with the list head `s_DeviceList`, here 0; `open_flag` is the
-- field `m_openFlag` of each, and `own` what the drivers keep.
pub record Hal {ℓ} (D : Type ℓ) : Type ℓ where
  pub links : Links
  pub open_flag : ℕ → ℕ
  pub error_info : DeviceStatus
  pub own : D

abbrev pub device_list : ℕ
device_list = 0

-- `struct DEVIVE_ABSTRACT_INFO`, with `none` for a NULL pointer. The buffer of `read` comes back with
-- what was read, and the argument of `control` is the number that it points to.
pub record Driver {ℓ} (D : Type ℓ) : Type ℓ where
  pub name : List ℕ
  pub flag : ℕ
  pub pf_init : Option (Hal D → DeviceStatus × Hal D)
  pub pf_open : Option (ℕ → Hal D → DeviceStatus × Hal D)
  pub pf_close : Option (Hal D → DeviceStatus × Hal D)
  pub pf_read : Option (ℕ → List ℕ → Hal D → ℤ × List ℕ × Hal D)
  pub pf_write : Option (ℕ → List ℕ → Hal D → ℤ × Hal D)
  pub pf_control : Option (ℕ → ℕ → Hal D → DeviceStatus × Hal D)
  pub pf_poll : Option (Hal D → ℤ)

abbrev pub standalone : ℕ
standalone = 8

abbrev pub activated : ℕ
activated = 16

abbrev pub nonblock : ℕ
nonblock = 64

abbrev pub oflag_open : ℕ
oflag_open = 8

abbrev pub name_max : ℕ
name_max = 8

abbrev pub is_ok : DeviceStatus → Bool
is_ok ok = true
is_ok _ = false

abbrev pub is_done : DeviceStatus → Bool
is_done ok = true
is_done enosys = true
is_done _ = false

-- A word with one bit tested, set or cleared.
abbrev pub has_flag : ℕ → ℕ → Bool
has_flag bit w = w / bit % 2 == 1

abbrev pub set_flag : ℕ → ℕ → ℕ
set_flag bit w = if has_flag bit w then w else w + bit

abbrev pub clear_flag : ℕ → ℕ → ℕ
clear_flag bit w = if has_flag bit w then w - bit else w

-- `strncmp` tells no difference in the first bytes of two names, given without their final 0.
pub same_name : ℕ → List ℕ → List ℕ → Bool
same_name zero a b = true
same_name (suc n) [] [] = true
same_name (suc n) [] (y ∷ b) = false
same_name (suc n) (x ∷ a) [] = false
same_name (suc n) (x ∷ a) (y ∷ b) = let rest = same_name n a b in x == y && rest

module _ {ℓ} {D : Type ℓ} where
  abbrev pub set_open_flag : ℕ → ℕ → Hal D → Hal D
  set_open_flag d w k = record k { open_flag = λ e. if e == d then w else k.open_flag e }

  pub manage_init : Hal D → Hal D
  unfolding init
  manage_init k = record k { links = init device_list k.links }

  pub register : Option ℕ → Hal D → Bool × Hal D
  register none k = (false, k)
  register (some d) k = (true, record k { links = insert_after device_list d k.links })

  pub unregister : Option ℕ → Hal D → Bool × Hal D
  unregister none k = (false, k)
  unregister (some d) k = (true, record k { links = del d k.links })

  pub error_info_set : DeviceStatus → Hal D → Hal D
  error_info_set e k = record k { error_info = e }

  pub error_info_get : Hal D → DeviceStatus × Hal D
  error_info_get k = (k.error_info, record k { error_info = ok })

  -- A function of the driver, or the answer where it has none.
  abbrev pub call :
      DeviceStatus → Option (Hal D → DeviceStatus × Hal D) → Hal D → DeviceStatus × Hal D
  call missing none k = (missing, k)
  call missing (some f) k = f k

  abbrev pub call_open :
      Option (ℕ → Hal D → DeviceStatus × Hal D) → ℕ → Hal D → DeviceStatus × Hal D
  call_open none oflag k = (enosys, k)
  call_open (some f) oflag k = f oflag k

module _ {ℓ} {D : Type ℓ} (info : ℕ → Driver D) where
  -- The loop of `API_DeviceFind`; `fuel` bounds the devices.
  pub find_from : ℕ → List ℕ → ℕ → Hal D → Option ℕ
  unfolding same_name
  find_from zero name d k = none
  find_from (suc fuel) name d k =
      let rest = find_from fuel name (k.links.next d) k in
      if d == device_list
      then none
      else if same_name name_max (info d).name name
      then some d
      else rest

  pub find : ℕ → List ℕ → Hal D → Option ℕ
  find fuel name k = find_from fuel name (k.links.next device_list) k

  abbrev pub activate : ℕ → DeviceStatus × Hal D → DeviceStatus × Hal D
  activate d (rt, k) =
      if is_ok rt then (rt, set_open_flag d (set_flag activated (k.open_flag d)) k) else (rt, k)

  abbrev pub run_init : ℕ → Hal D → DeviceStatus × Hal D
  run_init d k = elim (info d).pf_init [ none ↦ (ok, k) | some f ↦ activate d (f k) ]

  pub device_init : Option ℕ → Hal D → DeviceStatus × Hal D
  device_init none k = (enull, k)
  device_init (some d) k = if has_flag activated (k.open_flag d) then (ok, k) else run_init d k

  -- The loop of `API_DeviceInitAll`.
  pub init_from : ℕ → ℕ → Hal D → Hal D
  unfolding device_init
  init_from zero d k = k
  init_from (suc fuel) d k =
      let k' = (device_init (some d) k).1 in
      let rest = init_from fuel (k'.links.next d) k' in if d == device_list then k else rest

  pub init_all : ℕ → Hal D → DeviceStatus × Hal D
  init_all fuel k = (ok, init_from fuel (k.links.next device_list) k)

  -- `API_DeviceOpen` before the guard on the open device: an open without a driver's init is
  -- activated as well, and a failed init does not end it.
  abbrev pub prepare : ℕ → Hal D → Hal D
  prepare d k =
      let started = call ok (info d).pf_init k in
      if has_flag activated (k.open_flag d) then k else (activate d started).1

  abbrev pub opened : ℕ → ℕ → DeviceStatus × Hal D → DeviceStatus × Hal D
  opened d oflag (rt, k) =
      if is_done rt then (rt, set_open_flag d (set_flag oflag_open oflag) k) else (rt, k)

  pub device_open : Option ℕ → ℕ → Hal D → DeviceStatus × Hal D
  device_open none oflag k = (enull, k)
  device_open (some d) oflag k =
      let k1 = prepare d k in
      if has_flag standalone (info d).flag && has_flag oflag_open (k1.open_flag d)
      then (ebusy, k1)
      else opened d oflag (call_open (info d).pf_open oflag k1)

  abbrev pub closed : ℕ → DeviceStatus × Hal D → DeviceStatus × Hal D
  closed d (rt, k) = if is_done rt then (rt, set_open_flag d 0 k) else (rt, k)

  pub device_close : Option ℕ → Hal D → DeviceStatus × Hal D
  device_close none k = (enull, k)
  device_close (some d) k = closed d (call enosys (info d).pf_close k)

  pub hal_poll : Option ℕ → Hal D → ℤ
  hal_poll none k = negsuc 0
  hal_poll (some d) k = elim (info d).pf_poll [ none ↦ negsuc 1 | some f ↦ f k ]

  -- A buffer that is not NULL, of the size asked for.
  pub device_read : Option ℕ → ℕ → List ℕ → Hal D → ℤ × List ℕ × Hal D
  unfolding error_info_set
  device_read none at buffer k = (negsuc 0, buffer, error_info_set eparam_invalid k)
  device_read (some d) at buffer k =
      let result : ℤ × List ℕ × Hal D = elim (info d).pf_read [
        | none ↦ (negsuc 0, buffer, error_info_set enosys k)
        | some f ↦ f at buffer k
      ] in
      if length buffer == 0 then (negsuc 0, buffer, error_info_set eparam_invalid k) else result

  pub device_write : Option ℕ → ℕ → List ℕ → Hal D → ℤ × Hal D
  unfolding error_info_set
  device_write none at buffer k = (pos 0, error_info_set eparam_invalid k)
  device_write (some d) at buffer k =
      let result : ℤ × Hal D = elim (info d).pf_write [
        | none ↦ (negsuc 0, error_info_set enosys k)
        | some f ↦ f at buffer k
      ] in
      if length buffer == 0 then (pos 0, error_info_set eparam_invalid k) else result

  pub device_control : Option ℕ → ℕ → ℕ → Hal D → DeviceStatus × Hal D
  device_control none cmd arg k = (enull, k)
  device_control (some d) cmd arg k =
      let result : DeviceStatus × Hal D = elim (info d).pf_control [
        | none ↦ (enosys, k)
        | some f ↦ f cmd arg k
      ] in
      if cmd == 1
      then (ok, set_open_flag d (clear_flag nonblock (k.open_flag d)) k)
      else if cmd == 0
      then (ok, set_open_flag d (set_flag nonblock (k.open_flag d)) k)
      else result
