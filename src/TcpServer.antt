-- ===== src/TcpServer.antt =====
-- src/server.h, src/server.cpp: the table of connections of the main loop, and the functors that the
-- server hands to its loops.
pub mod Queues
pub mod Table
pub mod Removal
pub mod Steps
pub mod Reachable
pub mod Balance
pub mod Shutdown
mod Tests
use game_frame.Prelude.{
  ℕ, zero, suc, ◌+◌, Bool, true, false, List, [], ◌∷◌, ◌++◌, Option, none, some, ◌==◌,
  if◌then◌else◌, not, assign,
}
use game_frame.EventLoopThreadPool.{EventLoopThreadPool, next_loop}

-- A connection object: `id` is its address, which no other object has while it is referred to.
pub record Conn : Type 0 where
  pub id : ℕ
  pub fd : ℕ
  pub loop : ℕ

-- The functors: `connection_cb_` and `start` of a new connection, `remove_connection_in_loop`, and
-- `connection_cb_` of a connection that is gone.
pub data Task : Type 0 where
  establishes removes reports : Conn → Task

-- `queues` are the pending functors of each loop, `live` the connections whose descriptor is open,
-- `notices` the calls of `connection_cb_`, true for a new connection, and `begun` the calls of
-- `Connection::start`.
pub record TcpServer : Type 0 where
  pub thread_pool : EventLoopThreadPool
  pub connections : ℕ → Option Conn
  pub has_connection_cb : Bool
  pub queues : ℕ → List Task
  pub live : List Conn
  pub next_id : ℕ
  pub notices : List (Conn × Bool)
  pub begun : List Conn

pub new_server : EventLoopThreadPool → Bool → TcpServer
new_server pool has_cb = record {
  thread_pool = pool;
  connections = λ fd. none;
  has_connection_cb = has_cb;
  queues = λ loop. [];
  live = [];
  next_id = 0;
  notices = [];
  begun = [];
}

abbrev pub main_loop : TcpServer → ℕ
main_loop s = s.thread_pool.main_loop

-- `EventLoop::run_in_loop`, called in the thread of the loop `here`, for a functor that does `f`.
pub run_in_loop : ℕ → ℕ → Task → (TcpServer → TcpServer) → TcpServer → TcpServer
run_in_loop here loop t f s =
    if here == loop
    then f s
    else record s { queues = assign s.queues loop (s.queues loop ++ t ∷ []) }

notify : Conn → Bool → TcpServer → TcpServer
notify c up s = if s.has_connection_cb then record s { notices = s.notices ++ (c, up) ∷ [] } else s

-- the functor of `handle_accept`
pub establish : Conn → TcpServer → TcpServer
establish c s = let told = notify c true s in record told { begun = told.begun ++ c ∷ [] }

pub report : Conn → TcpServer → TcpServer
report c s = record s { notices = s.notices ++ (c, false) ∷ [] }

-- What is left to do when the table has `entry` for the descriptor.
pub remove_found : Option Conn → Conn → TcpServer → TcpServer
remove_found none c s = s
remove_found (some d) c s =
    let erased = record s { connections = assign s.connections c.fd none } in
    if not (d.id == c.id)
    then s
    else if s.has_connection_cb
    then run_in_loop (main_loop s) c.loop (reports c) (report c) erased
    else erased

pub remove_connection_in_loop : Conn → TcpServer → TcpServer
remove_connection_in_loop c s = remove_found (s.connections c.fd) c s

-- `close_cb_`, which `Connection::close` calls in the thread of the connection's loop
pub close_cb : Conn → TcpServer → TcpServer
close_cb c s = run_in_loop c.loop (main_loop s) (removes c) (remove_connection_in_loop c) s

-- What a functor does when its loop runs it.
pub perform : Task → TcpServer → TcpServer
perform (establishes c) = establish c
perform (removes c) = remove_connection_in_loop c
perform (reports c) = report c

accept_on : Option ℕ → ℕ → TcpServer → TcpServer
accept_on none fd s = s
accept_on (some sub_loop) fd s =
    let c : Conn = record { id = s.next_id; fd = fd; loop = sub_loop } in
    run_in_loop (main_loop s) sub_loop (establishes c) (establish c) (record s {
      connections = assign s.connections fd (some c);
      live = c ∷ s.live;
      next_id = suc s.next_id;
    })

-- A round of `handle_accept` with a client's descriptor.
pub accept_client : ℕ → TcpServer → TcpServer
accept_client fd s =
    let r = next_loop s.thread_pool in accept_on r.0 fd (record s { thread_pool = r.1 })

-- What `accept` and then `set_nonblocking` answer.
pub data Answer : Type 0 where
  client : ℕ → Bool → Answer
  again interrupted failed : Answer

-- The loop over what `accept` answers. A descriptor that stays blocking is closed at once.
pub handle_accept : List Answer → TcpServer → TcpServer
handle_accept [] s = s
handle_accept (client fd true ∷ rest) s = handle_accept rest (accept_client fd s)
handle_accept (client fd false ∷ rest) s = handle_accept rest s
handle_accept (again ∷ rest) s = s
handle_accept (interrupted ∷ rest) s = handle_accept rest s
handle_accept (failed ∷ rest) s = s
