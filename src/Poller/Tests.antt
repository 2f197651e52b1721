-- ===== src/Poller/Tests.antt =====
-- One channel on the list, another not; two channels of which one has an event.
use project_sensor.Prelude.{
  ℕ, ◌&&◌, ltb, length, false, ◌≡◌, refl, arith, Option, none, some, List, [], ◌∷◌, ◌==◌,
  if◌then◌else◌, get_or, blit, replicate,
}
use project_sensor.Prelude.Int.{ℤ, pos}
use project_sensor.Links.{find, find_from, insert_after, init}
use project_sensor.Links.Ring.{IsRing}
use project_sensor.Poller.{
  Poller, channels, pollin, update_channel, enable_reading, disable_reading, enable_writing,
  disable_writing, disable_all,
}
use project_sensor.Buffer.{Buffer, readable_bytes, over}
use project_sensor.Timers.{Timer, sv_timer_start, find_place, list_of, tick_from_millisecond}
use project_sensor.Timers.Manager.{timer_expired, timer_start_with, timer_timeout, timer_start}
use project_sensor.Poller.Round.{
  Program, Reactor, started, loop_round, poll, poll_loop, scan, serve_from, handle_event,
}
use project_sensor.Poller.Round.Scanned.{handle_all}
use project_sensor.Poller.Round.Served.{program_of, loop_round-served}

abbrev other_end : ℕ → ℕ
other_end x = if x == 8 then 10 else if x == 10 then 8 else x

abbrev one : Poller
one = record { links = record { next = other_end; prev = other_end }; events = λ c. 0 }

events_test :
    ((enable_writing 2 10 (enable_reading 2 10 one)).events 10 ≡ 3)
    × ((disable_writing 2 10 (enable_writing 2 10 (enable_reading 2 10 one))).events 10 ≡ pollin)
    × ((disable_reading 2 10 (enable_reading 2 10 one)).events 10 ≡ 0)
    × ((disable_all 2 10 (enable_reading 2 10 one)).events 10 ≡ 0)
unfolding enable_reading enable_writing disable_reading disable_writing disable_all update_channel
    find find_from
events_test = (refl, refl, refl, refl)

-- The channels 10 and 12, which both ask to read.
abbrev turn : ℕ → ℕ
turn x = if x == 8 then 10 else if x == 10 then 12 else 8

abbrev turn_back : ℕ → ℕ
turn_back x = if x == 8 then 12 else if x == 12 then 10 else 8

abbrev timer : Timer
timer = record {
  flag = record {
    activated = false;
    periodic = false;
    soft = false;
    timed_out = false;
    handling = false;
  };
  init_tick = 1;
  timeout_tick = 0;
  func = 0;
  parameter = 0;
}

abbrev two : Program (List ℕ)
two = record {
  poller = record { links = record { next = turn; prev = turn_back }; events = λ c. pollin };
  kernel = record {
    tick = 0;
    tick_for_xtime = 0;
    xtime = 0;
    links = record { next = λ n. n; prev = λ n. n };
    timer = λ i. timer;
    used = λ i. i == 0;
    soft_handling = false;
    device_time = 0;
  };
  world = [];
}

-- Only the device of channel 12 can be read, and gives a byte; the handler notes channel and byte.
abbrev readable : ℕ → Program (List ℕ) → ℤ
readable c p = if c == 12 then pos 2 else pos 0

abbrev read_byte : ℕ → Program (List ℕ) → (ℤ × List ℕ) × Program (List ℕ)
read_byte c p = ((pos 1, 65 ∷ []), p)

abbrev note : ℕ → Option (ℕ → Buffer → Program (List ℕ) → Buffer × Program (List ℕ))
note c = some (λ e b p.
    (b, record p { world = c ∷ e ∷ get_or b.bytes b.reader_index 0 ∷ readable_bytes b ∷ p.world }))

abbrev idle : Reactor (List ℕ)
idle = record {
  program = two;
  revents = λ c. 0;
  active = record { next = λ n. n; prev = λ n. n };
  handle_timer = 0;
}

two-IsRing : IsRing two.poller.links channels (10 ∷ 12 ∷ [])
two-IsRing = record {
  seg = (refl, refl, (refl, refl, (refl, refl)));
  distinct = ((omega arith, (omega arith, tt)), ((omega arith, tt), (tt, tt)));
}

abbrev world_of : Option (Program (List ℕ)) → Option (List ℕ)
world_of none = none
world_of (some p) = some p.world

-- The handler of channel 12 gets the byte.
loop_round_test :
    world_of (program_of (loop_round readable read_byte note (replicate 100 0) 3 2 (λ n q. q) idle))
    ≡ some (12 ∷ 2 ∷ 65 ∷ 1 ∷ [])
unfolding blit loop_round poll poll_loop scan serve_from handle_event over insert_after init
    timer_expired timer_start_with timer_timeout timer_start sv_timer_start find_place list_of
    tick_from_millisecond
loop_round_test = refl

-- The byte comes in after one scan.
abbrev arrives : ℕ → Program (List ℕ) → Program (List ℕ)
arrives n p = if n == 1 then record p { world = 0 ∷ [] } else p

abbrev readable_later : ℕ → Program (List ℕ) → ℤ
readable_later c p = if c == 12 && ltb 0 (length p.world) then pos 2 else pos 0

loop_round-served_example :
    let q = (started readable_later read_byte note (replicate 100 0) idle).program in
    let p = record q { world = 0 ∷ [] } in
    program_of (loop_round readable_later read_byte note (replicate 100 0) 3 3 arrives idle)
    ≡ some (handle_all readable_later read_byte note (replicate 100 0) p (12 ∷ []) p)
unfolding timer_expired timer_start_with timer_timeout timer_start sv_timer_start find_place list_of
    tick_from_millisecond
loop_round-served_example =
    loop_round-served readable_later read_byte note (replicate 100 0) 3 3 1 arrives (10 ∷ 12 ∷ [])
      idle (omega arith, (omega arith, tt)) (omega arith) (omega arith)
      (refl, two-IsRing, refl, (refl, two-IsRing, refl))
