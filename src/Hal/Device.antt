-- ===== src/Hal/Device.antt =====
-- The class `device` of app/devices.cpp: opening by name, closing, control and polling.
use project_sensor.Prelude.{ℕ, List, Option, none, some, if◌then◌else◌}
use project_sensor.Prelude.Int.{ℤ, pos, negsuc}
use project_sensor.Hal.{
  DeviceStatus, enull, ok, eopen, ecmd_invalid, enoexsited, Hal, Driver, is_ok, find, device_open,
  device_close, hal_poll, device_control, error_info_set,
}

-- What `process_command` makes of a command.
pub data ProcCmdStat : Type 0 where
  proc_ok proc_err proc_capture : ProcCmdStat

module _ {ℓ} {D : Type ℓ} (info : ℕ → Driver D) where
  -- `device::open` with the device that was found; the second part is `m_pdevice` after it.
  unfoldable pub open_found : Option ℕ → ℕ → Hal D → ℤ × Option ℕ × Hal D
  unfolding device_open error_info_set
  open_found none oflag k = (negsuc 0, none, error_info_set enoexsited k)
  open_found (some d) oflag k =
      let (rt, k') = device_open info (some d) oflag k in
      if is_ok rt then (pos 0, some d, k') else (negsuc 0, none, error_info_set eopen k')

  unfoldable pub open_device : ℕ → List ℕ → ℕ → Hal D → ℤ × Option ℕ × Hal D
  unfolding find open_found
  open_device fuel name oflag k = open_found (find info fuel name k) oflag k

  -- `device::close` keeps `m_pdevice`.
  unfoldable pub close_device : Option ℕ → Hal D → ℤ × Hal D
  unfolding device_close
  close_device none k = (pos 0, k)
  close_device (some d) k = (pos 0, (device_close info (some d) k).1)

  -- `device::ioctl`, with the device's own `process_command` for CMD_IOC as a parameter.
  unfoldable pub ioctl_device :
      (ℕ → ℕ → Hal D → ProcCmdStat × Hal D) → Option ℕ → ℕ → ℕ → Hal D → DeviceStatus × Hal D
  unfolding device_control
  ioctl_device process_command none cmd arg k = (enull, k)
  ioctl_device process_command (some d) cmd arg k =
      let (stat, k') = process_command cmd arg k in
      elim stat [
        | proc_ok ↦ device_control info (some d) cmd arg k'
        | proc_err ↦ (ecmd_invalid, k')
        | proc_capture ↦ (ok, k')
      ]

  unfoldable pub poll_device : Option ℕ → Hal D → ℤ
  unfolding hal_poll
  poll_device none k = negsuc 0
  poll_device (some d) k = hal_poll info (some d) k
