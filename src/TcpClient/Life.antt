-- ===== src/TcpClient/Life.antt =====
-- src/tcp_client.cpp: any calls and events, in any order, on the loop's thread.
use game_frame.Prelude.{
  ℕ, ◌≡◌, Bool, true, false, List, [], ◌∷◌, Option, none, some, if◌then◌else◌, arith, ==_refl,
}
use game_frame.TcpClient.{
  State, disconnected, connecting, connected, retrying, TcpClient, Reaction, Dial, without, is_open,
  close_fd, schedule_retry, drop_channel, notify_down, on_connection_closed, close_connection,
  close_connecting, disconnect_in_loop, handle_connect_writable, connect_in_loop, retry, destroy,
}
use game_frame.TcpClient.Invariant.{Owns, Inv}

-- `connect()`, `disconnect()`, an event of the temporary channel with the result of `getsockopt`, the end
-- of the connection, and a retry timer of this delay that goes off.
pub data Event : Type 0 where
  dials : Dial → Event
  hangs_up : Event
  handshakes : Bool → Event
  drops : Event
  fires : ℕ → Dial → Event

abbrev is_some : Option ℕ → Bool
is_some none = false
is_some (some fd) = true

module _ (reaction : Bool → Reaction) where
  -- Only a channel that is there reports an event, and only a timer that is set goes off.
  pub handle : Event → TcpClient → TcpClient
  handle (dials d) c = connect_in_loop reaction d c
  handle hangs_up c = disconnect_in_loop reaction c
  handle (handshakes ok) c =
      if is_some c.connect_channel then handle_connect_writable reaction ok c else c
  handle drops c = close_connection reaction c.connection c
  handle (fires delay d) c = if is_open delay c.timers then retry reaction delay d c else c

  -- The destructor of a client in any state that satisfies the invariant closes every descriptor, and no
  -- other.
  pub destroy-closes :
      (c : TcpClient)
      → Inv c
      → ((destroy reaction c).open_fds ≡ []) × ((destroy reaction c).bad_closes ≡ 0)
  unfolding destroy close_connection on_connection_closed notify_down schedule_retry
      close_connecting drop_channel close_fd is_open without
  destroy-closes c inv = by_state c.state inv.owns
    where
      by_state :
          (s : State)
          → Owns s c
          → ((destroy reaction c).open_fds ≡ []) × ((destroy reaction c).bad_closes ≡ 0)
      by_state disconnected (i, off) = ground (arith, inv.sound)
      by_state retrying (i, on, set) = ground (arith, inv.sound)
      by_state connecting ((fd, d), on) = ground (arith, inv.sound, ==_refl fd)
      by_state connected ((fd, u), on) = ground (arith, inv.sound, ==_refl fd)

-- What the callback does is chosen anew for each event.
pub run : List ((Bool → Reaction) × Event) → TcpClient → TcpClient
run [] c = c
run ((reaction, e) ∷ es) c = run es (handle reaction e c)
