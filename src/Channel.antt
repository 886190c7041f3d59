-- ===== src/Channel.antt =====
-- src/channel.h, src/channel.cpp, and EventLoop::update_channel and remove_channel of src/event_loop.cpp:
-- what a channel asks of epoll, and what epoll has for its descriptor. `epoll_ctl` is a parameter.
pub mod Registration
pub mod Dispatch
mod Tests
use game_frame.Prelude.{
  ℕ, ◌-◌, ◌^◌, Bool, true, false, not, List, [], ◌∷◌, Option, none, some, bit_or, bit_and, ◌==◌,
  if◌then◌else◌,
}

abbrev pub epollin : ℕ
epollin = 0x1

abbrev pub epollout : ℕ
epollout = 0x4

abbrev pub epollrdhup : ℕ
epollrdhup = 0x2000

abbrev pub epollet : ℕ
epollet = 2 ^ 31

abbrev pub read_event : ℕ
read_event = bit_or epollin epollrdhup

-- `~bits` of 32 bits
abbrev pub complement : ℕ → ℕ
complement bits = 2 ^ 32 - 1 - bits

pub data State : Type 0 where
  created added deleted : State

pub data Request : Type 0 where
  add modify : ℕ → Request
  delete : Request

-- `watched` is the event mask that epoll has for the descriptor; `refused`: the last call to add or modify it
-- failed.
pub record Channel : Type 0 where
  pub events : ℕ
  pub state : State
  pub watched : Option ℕ
  pub refused : Bool

pub new_channel : Channel
new_channel = record { events = 0; state = created; watched = none; refused = false }

pub is_reading : Channel → Bool
is_reading ch = not (bit_and ch.events read_event == 0)

pub is_writing : Channel → Bool
is_writing ch = not (bit_and ch.events epollout == 0)

-- Whether the call succeeds, and what epoll has for the descriptor then.
module _ (epoll_ctl : Request → Option ℕ → Bool × Option ℕ) where
  -- The branches of `update_channel`, by the state before.
  register : State → Channel → Channel
  register created ch =
      let (ok, w) = epoll_ctl (add (bit_or ch.events epollet)) ch.watched in
      record ch { watched = w; state = if ok then added else ch.state; refused = not ok }
  register deleted ch =
      let (ok, w) = epoll_ctl (add (bit_or ch.events epollet)) ch.watched in
      record ch { watched = w; state = if ok then added else ch.state; refused = not ok }
  register added ch =
      let (ok, w) = epoll_ctl (modify (bit_or ch.events epollet)) ch.watched in
      record ch { watched = w; refused = not ok }

  pub update_channel : Channel → Channel
  update_channel ch = register ch.state ch

  -- The branches of `remove_channel`.
  unregister : State → Channel → Channel
  unregister created ch = record ch { state = deleted; refused = false }
  unregister deleted ch = record ch { state = deleted; refused = false }
  unregister added ch = record ch {
    watched = (epoll_ctl delete ch.watched).1;
    state = deleted;
    refused = false;
  }

  pub remove_channel : Channel → Channel
  remove_channel ch = unregister ch.state ch

  pub enable_reading : Channel → Channel
  enable_reading ch = update_channel (record ch { events = bit_or ch.events read_event })

  pub disable_reading : Channel → Channel
  disable_reading ch =
      update_channel (record ch { events = bit_and ch.events (complement read_event) })

  pub enable_writing : Channel → Channel
  enable_writing ch = update_channel (record ch { events = bit_or ch.events epollout })

  pub disable_writing : Channel → Channel
  disable_writing ch =
      update_channel (record ch { events = bit_and ch.events (complement epollout) })

  pub disable_all : Channel → Channel
  disable_all ch = update_channel (record ch { events = 0 })
