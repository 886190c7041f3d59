-- ===== src/Connection/Events.antt =====
-- src/connection.cpp: the callbacks that the constructor gives the channel, the timer of
-- force_close_with_delay, and the destructor; and any sequence of these and of the client's calls.
use game_frame.Prelude.{ℕ, Bool, true, false, not, List, [], ◌∷◌, Option, none, some, if◌then◌else◌}
use game_frame.Channel.Dispatch.{Callbacks, handle_event}
use game_frame.Connection.{
  Connection, is_disconnected, Answer, close, handle_write, ReadAnswer, handle_read,
}
use game_frame.Connection.Delivery.{Event, handle}

-- The calls of the client, one after the other.
unfoldable pub make_calls : List Event → Connection → Connection
make_calls [] c = c
make_calls (e ∷ es) c = make_calls es (handle e c).1

-- A message callback, as the calls that it makes when it sees the connection.
abbrev pub MessageCallback : Type 0
MessageCallback = Connection → List Event

abbrev pub calling : Option MessageCallback → Option (Connection → Connection)
calling none = none
calling (some cb) = some (λ c. make_calls (cb c) c)

-- `reads` and `writes` are the kernel's answers to the calls of this dispatch.
unfoldable pub channel_callbacks :
    Option MessageCallback → List ReadAnswer → List Answer → Callbacks Connection
channel_callbacks cb reads writes = record {
  read_cb = some (λ c. (handle_read (calling cb) reads c).1);
  write_cb = some (λ c. (handle_write writes c).1);
  close_cb = some close;
  error_cb = some close;
}

-- Whether a timer is set.
unfoldable pub force_close_with_delay : Connection → Bool
force_close_with_delay c = not (is_disconnected c.state)

-- That timer: `lives` is whether the weak pointer finds the connection.
unfoldable pub on_force_close : Bool → Connection → Connection
on_force_close lives c = if lives then close c else c

unfoldable pub destroy : Connection → Connection
destroy c = if is_disconnected c.state then c else record c { writing = false; fd_closed = true }

-- What happens to a connection that has been started.
pub data Happening : Type 0 where
  calls : Event → Happening
  reported : Bool → ℕ → List ReadAnswer → List Answer → Happening
  times_out : Bool → Happening

unfoldable pub happen : Option MessageCallback → Happening → Connection → Connection
happen cb (calls e) c = (handle e c).1
happen cb (reported lives revents reads writes) c =
    handle_event true lives (channel_callbacks cb reads writes) revents c
happen cb (times_out lives) c = on_force_close lives c

unfoldable pub live_on : Option MessageCallback → List Happening → Connection → Connection
live_on cb [] c = c
live_on cb (h ∷ hs) c = live_on cb hs (happen cb h c)
