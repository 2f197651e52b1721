-- ===== src/Hal/Tests.antt =====
-- Two devices, one of them standalone, with drivers that count their starts.
use project_sensor.Prelude.{
  ℕ, ◌+◌, ◌≡◌, refl, arith, List, [], ◌∷◌, none, some, ◌==◌, if◌then◌else◌,
}
use project_sensor.Prelude.Int.{pos, negsuc}
use project_sensor.Links.{init, insert_after, del}
use project_sensor.Links.Ring.{IsRing, init-IsRing, insert_after-IsRing}
use project_sensor.Hal.{
  DeviceStatus, ok, enosys, ebusy, eparam_invalid, Hal, Driver, device_list, same_name, nonblock,
  manage_init, register, unregister, find, find_from, prepare, device_open, hal_poll, device_read,
  device_write, device_control, error_info_set, error_info_get,
}
use project_sensor.Hal.Device.{proc_ok, open_device, close_device, ioctl_device, poll_device}
use project_sensor.Hal.Register.{Starts, first_named}
use project_sensor.Hal.Guards.{KeepsFlag, device_open-busy}
use project_sensor.Hal.Named.{Answers, open_device-Answers}

abbrev count : Hal ℕ → DeviceStatus × Hal ℕ
count k = (ok, record k { own = k.own + 1 })

abbrev driver : List ℕ → ℕ → Driver ℕ
driver name flag = record {
  name = name;
  flag = flag;
  pf_init = some count;
  pf_open = some (λ oflag k. (ok, k));
  pf_close = none;
  pf_read = none;
  pf_write = none;
  pf_control = none;
  pf_poll = none;
}

-- "AD" and "PIN".
abbrev info : ℕ → Driver ℕ
info d = if d == 1 then driver (65 ∷ 68 ∷ []) 11 else driver (80 ∷ 73 ∷ 78 ∷ []) 3

abbrev start : Hal ℕ
start = record {
  links = init device_list (record { next = λ n. n; prev = λ n. n });
  open_flag = λ d. 0;
  error_info = ok;
  own = 0;
}

abbrev one : Hal ℕ
one = record start { links = insert_after device_list 1 start.links }

start-IsRing : IsRing start.links device_list []
start-IsRing = init-IsRing device_list (record { next = λ n. n; prev = λ n. n })

one-IsRing : IsRing one.links device_list (1 ∷ [])
one-IsRing =
    insert_after-IsRing start.links 1 device_list [] start-IsRing
      ((λ e. absurd (omega (arith, e))), tt)

manage_init-unregister_test :
    find info 4 (65 ∷ 68 ∷ []) (unregister (some 1) (register (some 1) (manage_init start)).1).1
    ≡ none
unfolding find find_from manage_init register unregister init insert_after del same_name
manage_init-unregister_test = refl

-- A read of no bytes is -1 and a write of none 0, and both leave the reason, once.
no_bytes_test :
    let (n, got, k) = device_read info (some 1) 0 [] one in
    let (m, k') = device_write info (some 1) 0 [] one in
    (n ≡ negsuc 0)
    × (m ≡ pos 0)
    × ((error_info_get k).0 ≡ eparam_invalid)
    × ((error_info_get (error_info_get k').1).0 ≡ ok)
unfolding device_read device_write error_info_get error_info_set
no_bytes_test = (refl, refl, refl, refl)

-- A driver without the functions: the answers to control, and to polls by way of the class or not.
no_functions_test :
    let refused = ioctl_device info (λ cmd arg k. (proc_ok, k)) (some 1) 7 0 one in
    let non_block = ioctl_device info (λ cmd arg k. (proc_ok, k)) (some 1) 0 0 one in
    (refused.0 ≡ enosys)
    × (non_block.1.open_flag 1 ≡ nonblock)
    × (poll_device info (some 1) one ≡ negsuc 1)
    × ((close_device info (some 1) one).0 ≡ pos 0)
unfolding ioctl_device device_control poll_device hal_poll close_device
no_functions_test = (refl, refl, refl, refl)

abbrev starts : Starts info 1
starts = record {
  routine = count;
  is_init = refl;
  answers = λ k. refl;
  same_flags = λ k. refl;
  same_links = λ k. refl;
}

keeps : KeepsFlag info 1
keeps k = refl

device_open-busy_example :
    device_open info (some 1) 3 (device_open info (some 1) 3 one).1
    ≡ (ebusy, prepare info 1 (device_open info (some 1) 3 one).1)
unfolding device_open
device_open-busy_example = device_open-busy info 1 3 3 one refl keeps refl

open_device-Answers_example :
    Answers info 3 one
      (first_named info (65 ∷ 68 ∷ []) (1 ∷ []))
      (open_device info 2 (65 ∷ 68 ∷ []) 3 one)
open_device-Answers_example =
    open_device-Answers info 3 one 2 (65 ∷ 68 ∷ []) (1 ∷ []) one-IsRing (omega arith)
