-- ===== src/Lib.antt =====
-- Firmware of a gas density and humidity sensor (app, api, bsp, includes, reactor): a Modbus RTU
-- slave on a serial line shows measurements and parameters as registers, keeps the parameters in a
-- storage device, and drives its devices from an event loop.
--
-- How the parts meet: the receive interrupt makes frames of bytes and queues them
-- (bsp/cpu/cpu_uart.cpp, api/utils.cpp); `device_commu` (app/commu.cpp) reads one, and asks
-- `protocol_modbus_rtu::unpack` whether to take it and `modbus_reply` (app/modbus.cpp) to turn the
-- buffer into the reply. `modbus_reply` calls the application's `package_event_handler`
-- (app/main.cpp), which reads and writes the registers of `model_datum` (app/datum.cpp). A write
-- posts an event, on which `datum_save` seals the parameters with `crc16` (api/utils.cpp) and
-- stores them; `datum_load` reads them back at the start and repairs them. Events wait on a linked
-- list of the event loop (reactor/event_loop.cpp); its timers are linked lists too, served by the
-- tick interrupt and, for soft timers, by the loop when the timer device is readable
-- (includes/service.cpp). The calendar (api/timestamp.cpp) sets the clock and prints it. The loop
-- also calls `event_handle_ad` (app/main.cpp) when the converter is readable, which starts one
-- conversion after the other and puts the results into the input registers, and a timer calls
-- `self_calib_handle`, which stops that, heats the sensor and takes single conversions.
--
-- Files, and the code that they model:
--   Prelude          shared names; lists over native numbers, bit operations, integers
--   Crc              `crc16` and its tables, api/utils.cpp
--   Crc/Bitwise      the division by the polynomial, bit by bit, and the tables against it
--   Crc/Burst        what the check sum detects
--   BufQueue         `buf_queue_init`, `put`, `get`, `pick`, `pop`, api/utils.h and api/utils.cpp
--   BufQueue/Fifo    the abstract queue of frames; Shape the invariant; Refine the refinement
--   Buffer           the class `buffer` of includes/service.h; Queue its content; Params values put in
--                    and read back, as app/main.cpp does with a save event
--   Calendar         `__isleap`, `gmtime_r` and `mktime` of api/timestamp.cpp
--   Calendar/Years   the years against the formula of `mktime`; Months the table of months and the
--                    carries; RoundTrip the two functions against each other
--   Circular         `circular_buffer<CAPACITY>`, api/utils.h and api/utils.cpp
--   Circular/Content the invariant; Store and Load the two copies; Laws the operations
--   Datum            `model_datum`: registers, ranges and factory settings, app/datum.h, app/datum.cpp
--   Datum/Cell       the invariant; Hold, Hold/Access, Write the holding registers; Input the input
--                    registers
--   Eeprom           the storage driver, bsp/driver/storage/drv_storage.cpp; Pages transfers over
--                    pages; Reliable the driver as the device of Storage
--   Events           the pool `event_manage`, `run_inloop` and `event_handle`, includes/service.cpp and
--                    reactor/event_loop.cpp; Pool what is posted; Drain what is run
--   Hal              `API_Device*` of bsp/hal/hal.cpp, with the drivers as parameters; Device the class
--                    `device` of app/devices.cpp over it
--   Hal/Register     the list of devices: search and start; Guards opening and closing; Named opening
--                    by name
--   Iic              `cpu_iic_transfer` and its interrupt handler, bsp/cpu/cpu_iic.cpp; Writing and Whole
--                    what a write sends and answers, Reading what a read stores
--   Links            `list_*` of includes/service.cpp, on a memory of two pointers for each node
--   Links/Seg        parts of a ring; Ring a list; Splice and Find the operations of these names
--   Measure          the measurement, over a parameter for the floating point arithmetic; Filter the
--                    filters of app/ad.cpp, Formula app/algorithm.cpp, Adc the state of
--                    bsp/driver/ad/drv_ad.cpp and the class `device_ad` over it
--   Measure/Run      `event_handle_ad`, `self_calib_handle` and the start of `run`, app/main.cpp; Round
--                    which conversion it waits for, Calib a calibration, Stall what follows one
--   Measure/Filter, Measure/Formula  History the samples of the mean; Segment the table of the pressure
--   Modbus           app/modbus.h and app/modbus.cpp, with the handler as a parameter
--   Modbus/Frame     a message with its check sum, and `unpack`
--   Modbus/Server    `application::package_event_handler`, app/main.cpp
--   Modbus/Server/*  Answer is the abstract slave; Loops, Regs, Writes and Refine show that the code
--                    implements it; Line, Effect and Errors what follows; Commu the cycle of
--                    app/commu.cpp and app/devices.cpp around one request
--   Poller           the channels that reactor/poller.cpp polls, and what reactor/channel.h asks for;
--                    Members the list as a set
--   Poller/Round     `poller::poll`, `handleEvent` of reactor/channel.cpp and a round of `loop` of
--                    reactor/event_loop.cpp; Scanned what a scan finds, Served which handlers run
--   Pwm              bsp/driver/pwm/drv_pwm.cpp, with `PwmTime` as a parameter; Bounded and Silent what
--                    its commands can and cannot set
--   Storage          `storage_param_*` of app/datum.cpp, `_datum_load`, `datum_load` and `datum_save` of
--                    app/main.cpp, Handler as the handler of an event; Layout, Load and Recover
--                    their proofs
--   Timers           `sv_timer_*` of includes/service.cpp; Manager the class `timer_manage` and the tick
--   Timers/Start     starting and stopping on the linked memory, against a sequence; Order the order
--                    of expiry; Live, Serve and Handle the loop over the timers that are due; Registry
--                    the handles and the ticks; Clock the time, and the wake-up of the event loop; Queue
--                    reactor/timer_queue.cpp, `run_after` and `run_every` over the timers
--   Uart             the class `transceiver_uart0` and its interrupt handlers, bsp/cpu/cpu_uart.cpp;
--                    Poll its loop, and the read of bsp/driver/commu/drv_commu.cpp
--   Uart/Replace     the queue behind the line, Frames how bytes become frames, Overflow a frame that
--                    is too long, Deaf a refused frame to send; Poll/Arrival from line to reader
--
-- Conventions. A byte array is a list of numbers; a buffer that the code writes in place is a list
-- of fixed length, a read past its end gives 0 and a write past it is lost, and the theorems ask
-- for a buffer that is long enough. Widths of machine words are written out as `% 2 ^ w`. A return
-- code is an integer, `negsuc n` for `-(n + 1)`. An uninitialised local is an argument called
-- `junk`. A loop with a count is by recursion on the count. The loops without one take fuel: over
-- years and months the number of days is enough (the calendar), over a list one more than its
-- nodes, and for `timer_handle` one more than the timers that are due; for `transceiver::poll`,
-- `poller::poll` and `cpu_iic_transfer`, which wait for an interrupt or the time, the rounds until
-- then, whatever the interrupts do in each. Request and reply share one buffer, as in
-- app/commu.cpp. A list node is the number of the timer or event that it stands in, 6, 7 and 8 are
-- heads. The bits of a bit map are a function of the slot. A `struct tm` has no negative field and
-- no day 0. The bits of a flag word of a device are read and written by arithmetic. Callbacks are
-- a parameter, which may change the timers or the loop and the rest of the program; theorems say
-- what they ask of it. `SENSOR_PARA` is the three arrays that the code walks by pointer
-- arithmetic, with the padding that the ARM ABI inserts.
--
-- The storage device is an interface, `Storage.Device`. The theorems that need it to keep what it
-- was given take `Storage.Load.IsReliable`, which `Eeprom` fills: there `cpu_iic_transfer` with
-- the chip behind it is a parameter, and `Eeprom.Pages.IsChip` says what it does within one page
-- of the chip. The loop over the pages has the number of bytes as its fuel, as each round moves at
-- least one.
--
-- Not modelled: interrupts between the statements of one operation, the arithmetic of float and
-- double (the parameter `Measure.Float`), the message queue (compiled out), `strptime` (a copy of
-- the OpenBSD routine), register access of the chip, and the vendor's library under lib/.
pub mod Prelude
pub mod Crc
pub mod BufQueue
pub mod Buffer
pub mod Calendar
pub mod Circular
pub mod Datum
pub mod Eeprom
pub mod Events
pub mod Hal
pub mod Iic
pub mod Links
pub mod Measure
pub mod Modbus
pub mod Poller
pub mod Pwm
pub mod Storage
pub mod Timers
pub mod Uart
