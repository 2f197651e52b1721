-- ===== src/Poller.antt =====
-- The channels of the event loop, reactor/poller.cpp and reactor/channel.h: the list of channels that
-- are polled, and the events that a channel asks for.
mod Members
pub mod Round
mod Tests
use project_sensor.Prelude.{
  ℕ, ◌+◌, ◌-◌, ◌/◌, ◌%◌, Bool, true, false, Option, none, some, ◌==◌, if◌then◌else◌,
}
use project_sensor.Links.{Links, find, insert_after, del}
use project_sensor.Hal.{has_flag, set_flag, clear_flag}

-- The channels are nodes of `links`, with the list head `m_channels`, here 8; `events` is the field
-- `events_` of each.
pub record Poller : Type 0 where
  pub links : Links
  pub events : ℕ → ℕ

abbrev pub channels : ℕ
channels = 8

abbrev pub pollout : ℕ
pollout = 1

abbrev pub pollin : ℕ
pollin = 2

abbrev pub link_unless : Option ℕ → ℕ → Poller → Poller
link_unless none c p = record p { links = insert_after channels c p.links }
link_unless (some n) c p = p

abbrev pub unlink_if : Option ℕ → ℕ → Poller → Poller
unlink_if none c p = p
unlink_if (some n) c p = record p { links = del c p.links }

-- `fuel` bounds the channels on the list.
pub update_channel : ℕ → ℕ → Poller → Poller
update_channel fuel c p = link_unless (find fuel channels c p.links) c p

pub remove_channel : ℕ → ℕ → Poller → Poller
remove_channel fuel c p = unlink_if (find fuel channels c p.links) c p

abbrev pub set_events : ℕ → ℕ → Poller → Poller
set_events c w p = record p { events = λ d. if d == c then w else p.events d }

pub enable_reading : ℕ → ℕ → Poller → Poller
unfolding update_channel
enable_reading fuel c p = update_channel fuel c (set_events c (set_flag pollin (p.events c)) p)

pub disable_reading : ℕ → ℕ → Poller → Poller
unfolding update_channel
disable_reading fuel c p = update_channel fuel c (set_events c (clear_flag pollin (p.events c)) p)

pub enable_writing : ℕ → ℕ → Poller → Poller
unfolding update_channel
enable_writing fuel c p = update_channel fuel c (set_events c (set_flag pollout (p.events c)) p)

pub disable_writing : ℕ → ℕ → Poller → Poller
unfolding update_channel
disable_writing fuel c p = update_channel fuel c (set_events c (clear_flag pollout (p.events c)) p)

pub disable_all : ℕ → ℕ → Poller → Poller
unfolding update_channel
disable_all fuel c p = update_channel fuel c (set_events c 0 p)
