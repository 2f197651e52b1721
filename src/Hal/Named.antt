-- ===== src/Hal/Named.antt =====
-- Opening a device by its name, as the class `device` does.
use project_sensor.Prelude.{ℕ, ◌<◌, ◌≡◌, refl, true, false, List, Option, none, some, length}
use project_sensor.Prelude.Int.{ℤ, pos, negsuc}
use project_sensor.Links.Ring.{IsRing}
use project_sensor.Hal.{
  DeviceStatus, ok, enosys, eopen, enoexsited, Hal, Driver, device_list, oflag_open, set_flag,
  error_info_set, is_ok, is_done, device_open,
}
use project_sensor.Hal.Device.{open_found, open_device}
use project_sensor.Hal.Register.{first_named, find_lem}
use project_sensor.Hal.Guards.{device_open-open_flag}

module _ {ℓ} {D : Type ℓ} (info : ℕ → Driver D) where
  module _ (oflag : ℕ) (k : Hal D) where
    -- What `device::open` answers for the first device with the name, or where there is none.
    abbrev pub Answers : Option ℕ → ℤ × Option ℕ × Hal D → Type ℓ
    Answers none r = r ≡ (negsuc 0, none, error_info_set enoexsited k)
    Answers (some d) r =
        let (rt, k') = device_open info (some d) oflag k in
        (is_ok rt ≡ true → (r ≡ (pos 0, some d, k')) × (k'.open_flag d ≡ set_flag oflag_open oflag))
        × (is_ok rt ≡ false → r ≡ (negsuc 0, none, error_info_set eopen k'))

    ok-is_done : (rt : DeviceStatus) → is_ok rt ≡ true → is_done rt ≡ true
    ok-is_done ok h = refl
    ok-is_done enosys h = refl
    ok-is_done rt h = h

    open_found-Answers : (o : Option ℕ) → Answers o (open_found info o oflag k)
    unfolding open_found
    open_found-Answers none = refl
    open_found-Answers (some d) = (
      λ h. (
        rw h refl,
        device_open-open_flag info d oflag k (ok-is_done (device_open info (some d) oflag k).0 h),
      ),
      λ h. rw h refl,
    )

    -- `device::open` answers -1 and the reason where no listed device has the name; otherwise the first
    -- device with the name, with its flags and the mark, where its open is a plain success, and -1 and
    -- no device where not, in the state that the open left.
    pub open_device-Answers :
        (fuel : ℕ) (name xs : List ℕ)
        → IsRing k.links device_list xs
        → length xs < fuel
        → Answers (first_named info name xs) (open_device info fuel name oflag k)
    unfolding open_device
    open_device-Answers fuel name xs ring l =
        rw (find_lem info fuel name xs k ring l) (open_found-Answers (first_named info name xs))
