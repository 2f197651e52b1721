-- ===== src/Iic.antt =====
-- The master of the I2C bus, bsp/cpu/cpu_iic.h and bsp/cpu/cpu_iic.cpp: `cpu_iic_transfer`, which
-- starts a transfer and waits for its end, and the interrupt handler that drives it. The registers of
-- the chip appear as the arguments of the handler and as the calls that it makes.
mod Writing
mod Reading
mod Whole
mod Tests
use project_sensor.Prelude.{
  ℕ, zero, suc, ◌+◌, ◌/◌, ◌%◌, ◌^◌, Bool, true, false, not, ◌&&◌, ◌||◌, Option, none, some, List,
  [], ◌∷◌, ◌++◌, ◌==◌, if◌then◌else◌, ltb, leb, get_or, set,
}
use project_sensor.Prelude.Int.{ℤ, pos, negsuc}
use project_sensor.Timers.{Kernel, Flag}
use project_sensor.Timers.Manager.{
  hard_timer_register, timer_start, timer_stop, timer_unregister, timer_expired,
}

-- `m_accessCtrl`, `i2c_none` once the address is on its way and data follow.
pub data AccessCtrl : Type 0 where
  i2c_none i2c_read i2c_write : AccessCtrl

-- `m_accessFinished`.
pub data AccessFinished : Type 0 where
  unfinished finished i2c_abnormal i2c_timeout : AccessFinished

-- The calls `I2cTx` with a byte, `I2cMWrCfg` with the address, and `I2cMRdCfg` with address and count.
pub data Call : Type 0 where
  i2c_tx i2c_wr_cfg : ℕ → Call
  i2c_rd_cfg : ℕ → ℕ → Call

-- The bits of the status register that the handler tests. `lost` is its test of `I2CMSTA_ALOST`,
-- which compares with the constant of another bit.
pub record Status : Type 0 where
  pub overflow : Bool
  pub nackdata : Bool
  pub lost : Bool
  pub nackaddr : Bool
  pub rxreq : Bool
  pub txreq : Bool
  pub tcomp : Bool

-- `t_iic_transfer`, with the bytes at `m_paccessAddr`, the calls, the latest first, and whether the
-- request for more bytes may interrupt.
pub record Iic : Type 0 where
  pub sub_addr : ℕ
  pub timeout : ℕ
  pub sla_addr : ℕ
  pub access_numb_bytes : ℕ
  pub index : ℕ
  pub lock : Bool
  pub access_finished : AccessFinished
  pub access_ctrl : AccessCtrl
  pub sub_addr_cnt : ℕ
  pub access_addr : List ℕ
  pub calls : List Call
  pub tx_enabled : Bool

abbrev pub is_none : AccessCtrl → Bool
is_none i2c_none = true
is_none i2c_read = false
is_none i2c_write = false

abbrev pub is_read : AccessCtrl → Bool
is_read i2c_none = false
is_read i2c_read = true
is_read i2c_write = false

abbrev pub after_address : AccessCtrl → AccessCtrl
after_address i2c_none = i2c_none
after_address i2c_read = i2c_read
after_address i2c_write = i2c_none

abbrev pub send : ℕ → Iic → Iic
send b t = record t { calls = i2c_tx b ∷ t.calls }

abbrev pub high_byte : ℕ → ℕ
high_byte a = a / 2 ^ 8 % 2 ^ 8

abbrev pub low_byte : ℕ → ℕ
low_byte a = a % 2 ^ 8

-- The next byte of the address within the chip, if one is left.
unfoldable pub send_sub_addr : Iic → Iic
send_sub_addr t =
    if t.sub_addr_cnt == 2
    then record (send (high_byte t.sub_addr) t) { sub_addr_cnt = 1 }
    else if t.sub_addr_cnt == 1
    then record (send (low_byte t.sub_addr) t) {
      sub_addr_cnt = 0;
      access_ctrl = after_address t.access_ctrl;
    }
    else t

-- A byte came in.
abbrev pub received : ℕ → Iic → Iic
received b t =
    let next = (t.index + 1) % 2 ^ 8 in
    record t {
      access_addr = set t.access_addr t.index b;
      index = if leb t.access_numb_bytes next then 0 else next;
    }

-- The repeated start of a read, once.
abbrev pub read_once : Iic → Iic
read_once t =
    if not t.lock && is_read t.access_ctrl
    then record t { calls = i2c_rd_cfg t.sla_addr t.access_numb_bytes ∷ t.calls; lock = true }
    else t

-- The next byte of the data, or no more requests.
abbrev pub send_data : Iic → Iic
send_data t =
    if ltb t.index t.access_numb_bytes
    then record (send (get_or t.access_addr t.index 0) t) { index = (t.index + 1) % 2 ^ 8 }
    else record t { tx_enabled = false }

-- There is room for a byte to send.
unfoldable pub requested : Iic → Iic
unfolding send_sub_addr
requested t =
    let t' = read_once t in if is_none t'.access_ctrl then send_data t' else send_sub_addr t'

abbrev pub completed : Iic → Iic
completed t = record t { tx_enabled = true; access_finished = finished }

abbrev pub has_failed : Status → Bool
has_failed s = s.overflow || s.nackdata || s.lost || s.nackaddr

-- `I2C0_Master_Int_Handler`, with the status and the byte in the receive register.
unfoldable pub interrupt : Status → ℕ → Iic → Iic
unfolding requested
interrupt s b t =
    let t1 = if s.rxreq then received b t else t in
    let t2 = if s.txreq then requested t1 else t1 in
    if has_failed s
    then record t { access_finished = i2c_abnormal }
    else if s.tcomp
    then completed t2
    else t2

-- `cpu_iic_transfer` up to its loop, without the timer.
unfoldable pub transfer_start : Iic → Iic
unfolding send_sub_addr
transfer_start t =
    let t' = send_sub_addr (record t { index = 0; lock = false; tx_enabled = true }) in
    record t' { calls = i2c_wr_cfg t'.sla_addr ∷ t'.calls }

-- The transfer and the timers.
pub record Bus : Type 0 where
  pub iic : Iic
  pub kernel : Kernel

abbrev pub is_unfinished : AccessFinished → Bool
is_unfinished unfinished = true
is_unfinished _ = false

abbrev pub is_zero : ℤ → Bool
is_zero (pos n) = n == 0
is_zero (negsuc n) = false

abbrev pub is_expired : ℕ → Bus → Bool
is_expired handle b = not (is_zero (timer_expired handle b.kernel))

abbrev pub expired : Bus → Bus
expired b = record b { iic = record b.iic { access_finished = i2c_timeout; tx_enabled = false } }

-- The wait, with what the interrupts do between the test of the timer and that of the end of the
-- transfer; nothing where the counted rounds do not end it.
unfoldable pub wait : ℕ → (ℕ → Bus → Bus) → ℕ → Bus → Option Bus
wait zero meanwhile handle b = none
wait (suc rounds) meanwhile handle b =
    let b' = meanwhile 0 b in
    let later = wait rounds (λ n. meanwhile (suc n)) handle b' in
    if is_expired handle b
    then some (expired b)
    else if is_unfinished b'.iic.access_finished
    then later
    else some b'

abbrev pub one_shot : Flag
one_shot = record {
  activated = false;
  periodic = false;
  soft = false;
  timed_out = false;
  handling = false;
}

-- The answer: -1 after a failure or the end of the time, the size otherwise.
abbrev pub answer : AccessFinished → ℕ → ℤ
answer unfinished n = pos n
answer finished n = pos n
answer i2c_abnormal n = negsuc 0
answer i2c_timeout n = negsuc 0

abbrev pub released : ℕ → Bus → Bus
released handle b = record b { kernel = (timer_unregister handle (timer_stop handle b.kernel).1).1 }

-- The end of `cpu_iic_transfer`, after the wait.
abbrev pub concluded : ℕ → Option Bus → Option (ℤ × Bus)
concluded handle none = none
concluded handle (some e) =
    some (answer e.iic.access_finished e.iic.access_numb_bytes, released handle e)

-- The handle of the timer, and what the wait starts with.
unfoldable pub prepared : Bus → ℕ × Bus
unfolding transfer_start
prepared b =
    let (handle, k) = hard_timer_register b.iic.timeout one_shot 0 0 b.kernel in
    (handle, record { iic = transfer_start b.iic; kernel = (timer_start handle k).1 })

-- `cpu_iic_transfer`; a count of one byte is never beyond 256.
unfoldable pub cpu_iic_transfer : ℕ → (ℕ → Bus → Bus) → Bus → Option (ℤ × Bus)
unfolding wait
cpu_iic_transfer rounds meanwhile b =
    let (handle, b') = prepared b in concluded handle (wait rounds meanwhile handle b')
