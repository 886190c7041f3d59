-- ===== src/TcpClient.antt =====
-- src/tcp_client.h, src/tcp_client.cpp: a client that dials again when its connection fails, on its
-- loop's thread. Descriptors are numbers; which of the client's are open is part of the state.
pub mod Invariant
pub mod Descriptors
pub mod Life
pub mod Backoff
mod Tests
use game_frame.Prelude.{
  ℕ, zero, suc, ◌+◌, ◌*◌, min, Bool, true, false, List, [], ◌∷◌, ◌++◌, Option, none, some, ◌==◌,
  if◌then◌else◌, not,
}

pub data State : Type 0 where
  disconnected connecting connected retrying : State

-- `connect_channel` is the descriptor that the temporary channel watches, `connection` that of the
-- connection. `timers` are the delays of the retry timers that have not fired, in the order in which they
-- were set. `open_fds` are the descriptors opened and not closed, `bad_closes` counts the calls of `close`
-- for any other, `started` the descriptors that `Connection::start` handed to epoll, and `notices` the
-- calls of `connection_cb_`: true for a connection that is up.
pub record TcpClient : Type 0 where
  pub state : State
  pub retry_enabled : Bool
  pub connecting_fd : Option ℕ
  pub connect_channel : Option ℕ
  pub connection : Option ℕ
  pub backoff_ms : ℕ
  pub timers : List ℕ
  pub open_fds : List ℕ
  pub bad_closes : ℕ
  pub started : List ℕ
  pub notices : List Bool

abbrev pub initial_backoff_ms : ℕ
initial_backoff_ms = 500

abbrev pub max_backoff_ms : ℕ
max_backoff_ms = 30 * 1000

pub new_client : TcpClient
new_client = record {
  state = disconnected;
  retry_enabled = false;
  connecting_fd = none;
  connect_channel = none;
  connection = none;
  backoff_ms = 0;
  timers = [];
  open_fds = [];
  bad_closes = 0;
  started = [];
  notices = [];
}

-- What a call of `connection_cb_` does to the client: nothing, `connect()`, `conn->close()`, or `disconnect()`.
pub data Reaction : Type 0 where
  accepts connects closes disconnects : Reaction

-- How the calls of `start_connect` end: `socket` or `fcntl` fails, `connect` is in progress or fails, or it
-- succeeds at once and `getsockopt` then finds no error, or finds one.
pub data Dial : Type 0 where
  no_socket : Dial
  blocking : ℕ → Dial
  in_progress : ℕ → Dial
  refused : ℕ → Dial
  at_once : ℕ → Bool → Dial

-- the list without its first `fd`
pub without : ℕ → List ℕ → List ℕ
without fd [] = []
without fd (x ∷ xs) = let rest = without fd xs in if x == fd then xs else x ∷ rest

pub is_open : ℕ → List ℕ → Bool
is_open fd [] = false
is_open fd (x ∷ xs) = let rest = is_open fd xs in if x == fd then true else rest

-- `::close(fd)`, on the kernel's table of descriptors
pub close_fd : ℕ → TcpClient → TcpClient
close_fd fd c =
    if is_open fd c.open_fds
    then record c { open_fds = without fd c.open_fds }
    else record c { bad_closes = suc c.bad_closes }

pub schedule_retry : TcpClient → TcpClient
schedule_retry c =
    let this_wait = if c.backoff_ms == 0 then initial_backoff_ms else c.backoff_ms in
    if not c.retry_enabled then record c { state = disconnected } else record c {
      state = retrying;
      timers = c.timers ++ this_wait ∷ [];
      backoff_ms = min (this_wait * 2) max_backoff_ms;
    }

-- `disable_all`, `remove` and `reset` of the temporary channel
drop_channel : TcpClient → TcpClient
drop_channel c = record c { connect_channel = none }

module _ (reaction : Bool → Reaction) where
  -- The callback for a connection that is down, in the state kConnected, in which `connect_in_loop` returns: its
  -- `close` finds a closed connection, and
  -- `disconnect_in_loop` too, after it has taken back `retry_enabled_`.
  notify_down : TcpClient → TcpClient
  notify_down c =
      let told = record c { notices = c.notices ++ false ∷ [] } in
      elim (reaction false) as (λ _. TcpClient) [
        | accepts ↦ told
        | connects ↦ told
        | closes ↦ told
        | disconnects ↦ record told { retry_enabled = false }
      ]

  pub on_connection_closed : TcpClient → TcpClient
  on_connection_closed c = schedule_retry (record (notify_down c) { connection = none })

  -- `connection_->close()`, which calls `on_connection_closed`
  pub close_connection : Option ℕ → TcpClient → TcpClient
  close_connection none c = c
  close_connection (some fd) c = on_connection_closed (close_fd fd c)

  -- `if (connecting_fd_ >= 0) ::close(connecting_fd_)`
  close_connecting : Option ℕ → TcpClient → TcpClient
  close_connecting none c = c
  close_connecting (some fd) c = record (close_fd fd c) { connecting_fd = none }

  -- The branches of `disconnect_in_loop`, by the state.
  disconnect_from : State → TcpClient → TcpClient
  disconnect_from connected c = close_connection c.connection c
  disconnect_from connecting c = record (close_connecting c.connecting_fd (drop_channel c)) {
    state = disconnected;
  }
  disconnect_from retrying c = record c { state = disconnected }
  disconnect_from disconnected c = c

  pub disconnect_in_loop : TcpClient → TcpClient
  disconnect_in_loop c = disconnect_from c.state (record c { retry_enabled = false })

  -- the callback for a connection that is up, in the same state
  notify_up : TcpClient → TcpClient
  notify_up c =
      let told = record c { notices = c.notices ++ true ∷ [] } in
      elim (reaction true) as (λ _. TcpClient) [
        | accepts ↦ told
        | connects ↦ told
        | closes ↦ close_connection told.connection told
        | disconnects ↦ disconnect_in_loop told
      ]

  -- `conn->start()`
  start_connection : ℕ → TcpClient → TcpClient
  start_connection fd c = record c { started = c.started ++ fd ∷ [] }

  -- what `handle_connect_writable` does with the result of the handshake
  handshake_done : ℕ → Bool → TcpClient → TcpClient
  handshake_done fd ok c =
      if ok
      then start_connection fd (
          notify_up
            (record c { state = connected; backoff_ms = initial_backoff_ms; connection = some fd }))
      else schedule_retry (close_fd fd c)

  -- `ok` says that `getsockopt` finds no error.
  handle_writable : Option ℕ → Bool → TcpClient → TcpClient
  handle_writable none ok c = schedule_retry c
  handle_writable (some fd) ok c = handshake_done fd ok c

  pub handle_connect_writable : Bool → TcpClient → TcpClient
  handle_connect_writable ok c =
      handle_writable c.connecting_fd ok (drop_channel (record c { connecting_fd = none }))

  -- `socket()` and the kernel's table: the descriptor is open from now on.
  opened : ℕ → TcpClient → TcpClient
  opened fd c = record c { open_fds = fd ∷ c.open_fds }

  dial : Dial → TcpClient → TcpClient
  dial no_socket c = schedule_retry c
  dial (blocking fd) c = schedule_retry (close_fd fd (opened fd c))
  dial (refused fd) c = schedule_retry (close_fd fd (opened fd c))
  dial (at_once fd ok) c =
      handle_connect_writable ok
        (record (opened fd c) { connecting_fd = some fd; state = connecting })
  dial (in_progress fd) c = record (opened fd c) {
    connecting_fd = some fd;
    state = connecting;
    connect_channel = some fd;
  }

  pub start_connect : Dial → TcpClient → TcpClient
  start_connect d c = if not c.retry_enabled then record c { state = disconnected } else dial d c

  -- The branches of `connect_in_loop`, by the state.
  connect_from : State → Dial → TcpClient → TcpClient
  connect_from connecting d c = c
  connect_from connected d c = c
  connect_from disconnected d c =
      start_connect d (record c { retry_enabled = true; backoff_ms = initial_backoff_ms })
  connect_from retrying d c =
      start_connect d (record c { retry_enabled = true; backoff_ms = initial_backoff_ms })

  pub connect_in_loop : Dial → TcpClient → TcpClient
  connect_in_loop d c = connect_from c.state d c

  -- a retry timer that goes off: its functor looks at the state
  retry_from : State → Dial → TcpClient → TcpClient
  retry_from retrying d c = start_connect d c
  retry_from disconnected d c = c
  retry_from connecting d c = c
  retry_from connected d c = c

  -- `delay` is that of the timer that goes off.
  pub retry : ℕ → Dial → TcpClient → TcpClient
  retry delay d c = retry_from c.state d (record c { timers = without delay c.timers })

  -- `~TcpClient`
  pub destroy : TcpClient → TcpClient
  destroy c =
      let off = record c { retry_enabled = false } in
      let closed = record (close_connection off.connection off) { connection = none } in
      close_connecting closed.connecting_fd (drop_channel closed)
