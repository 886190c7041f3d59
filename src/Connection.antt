-- ===== src/Connection.antt =====
-- src/connection.h, src/connection.cpp: a connection's two buffers, on its loop's thread. The bytes
-- that the kernel took, its side of the socket and the notices queued to the loop are part of the state.
pub mod Output
pub mod AfterClose
pub mod Reading
pub mod Sending
pub mod Delivery
pub mod Events
pub mod Once
pub mod Closing
pub mod ClosedWrites
mod Tests
use game_frame.Prelude.{
  Option, none, some, ℕ, suc, Bool, true, false, not, ◌&&◌, List, [], ◌∷◌, ◌++◌, min, ltb, leb,
  ◌==◌, if◌then◌else◌, length, take, drop,
}
use game_frame.Buffer.{
  ensure_writable, has_written, write_at_end, writable_bytes, Buffer, new, readable_bytes, is_empty,
  readable_view, append, retrieve,
}

pub data State : Type 0 where
  connected disconnecting disconnected : State

-- a callback queued to the loop
pub data Notice : Type 0 where
  high_water write_complete : Notice

-- The callbacks are there or not. `writing` is the channel's interest in EPOLLOUT; `incoming` are the bytes
-- that wait in the kernel to be read, `sent` the bytes
-- that `write` took, `write_shut` says that `::shutdown(fd_, SHUT_WR)` was called. What `write` took through the
-- descriptor after its close is `strayed`: it is not this socket's any more.
pub record Connection : Type 0 where
  pub state : State
  pub input_buffer : Buffer
  pub output_buffer : Buffer
  pub writing : Bool
  pub shutdown_pending : Bool
  pub high_water_mark : ℕ
  pub high_water_cb : Bool
  pub write_complete_cb : Bool
  pub close_cb : Bool
  pub incoming : List ℕ
  pub sent : List ℕ
  pub strayed : List ℕ
  pub write_shut : Bool
  pub fd_closed : Bool
  pub queued : List Notice
  pub close_calls : ℕ

unfoldable pub is_connected : State → Bool
is_connected connected = true
is_connected disconnecting = false
is_connected disconnected = false

pub is_disconnected : State → Bool
is_disconnected connected = false
is_disconnected disconnecting = false
is_disconnected disconnected = true

-- What the kernel answers to a `write`: it takes up to so many bytes, or says EINTR, EAGAIN, or another
-- error. Its answers to the calls to come are a list, a parameter of the handlers.
pub data Answer : Type 0 where
  takes : ℕ → Answer
  interrupted would_block failed : Answer

-- How a loop of writes ends; `waiting` is a loop whose next answer has not come.
pub data End : Type 0 where
  done blocked broken waiting : End

pub close : Connection → Connection
close c = if is_disconnected c.state then c else record c {
  state = disconnected;
  writing = false;
  fd_closed = true;
  close_calls = if c.close_cb then suc c.close_calls else c.close_calls;
}

-- one `write` of `output_buffer_` that takes up to `n` bytes
pub write_output : ℕ → Connection → Connection
write_output n c =
    let k = min n (readable_bytes c.output_buffer) in
    let taken = take k (readable_view c.output_buffer) in
    if k == 0 then c else record c {
      output_buffer = retrieve c.output_buffer k;
      sent = if c.fd_closed then c.sent else c.sent ++ taken;
      strayed = if c.fd_closed then c.strayed ++ taken else c.strayed;
    }

-- the loop of `handle_write`
pub write_loop : List Answer → Connection → End × Connection
write_loop [] c = if is_empty c.output_buffer then (done, c) else (waiting, c)
write_loop (takes n ∷ rs) c =
    let rest = write_loop rs (write_output n c) in
    if is_empty c.output_buffer then (done, c) else rest
write_loop (interrupted ∷ rs) c =
    let rest = write_loop rs c in if is_empty c.output_buffer then (done, c) else rest
write_loop (would_block ∷ rs) c = if is_empty c.output_buffer then (done, c) else (blocked, c)
write_loop (failed ∷ rs) c = if is_empty c.output_buffer then (done, c) else (broken, close c)

-- the end of `handle_write`, with nothing left to write
pub finish : Connection → Connection
finish c = record c {
  writing = false;
  shutdown_pending = false;
  write_shut = if c.shutdown_pending && not c.fd_closed then true else c.write_shut;
  queued = if c.write_complete_cb then c.queued ++ write_complete ∷ [] else c.queued;
}

-- what `handle_write` does when its loop has ended: an error or EAGAIN has returned before
pub after_loop : End × Connection → End × Connection
after_loop (done, c) = (done, finish c)
after_loop (blocked, c) = (blocked, c)
after_loop (broken, c) = (broken, c)
after_loop (waiting, c) = (waiting, c)

pub handle_write : List Answer → Connection → End × Connection
handle_write rs c =
    if is_empty c.output_buffer
    then (done, record c { writing = false })
    else after_loop (write_loop rs c)

-- The part of `send` that appends what is left: the high-water mark is noticed on its edge.
pub enqueue : List ℕ → Connection → Connection
enqueue bytes c =
    let old_len = readable_bytes c.output_buffer in
    let output = append c.output_buffer bytes in
    let new_len = readable_bytes output in
    let crossed =
      ltb 0 c.high_water_mark
      && c.high_water_cb
      && ltb old_len c.high_water_mark
      && leb c.high_water_mark new_len in
    if length bytes == 0 then c else record c {
      output_buffer = output;
      queued = if crossed then c.queued ++ high_water ∷ [] else c.queued;
      writing = true;
    }

-- the loop of `send`, with the bytes left
pub send_loop : List Answer → List ℕ → Connection → End × List ℕ × Connection
send_loop [] bytes c = if length bytes == 0 then (done, bytes, c) else (waiting, bytes, c)
send_loop (takes n ∷ rs) bytes c =
    let k = min n (length bytes) in
    let rest = send_loop rs (drop k bytes) (record c { sent = c.sent ++ take k bytes }) in
    if length bytes == 0 then (done, bytes, c) else rest
send_loop (interrupted ∷ rs) bytes c =
    let rest = send_loop rs bytes c in if length bytes == 0 then (done, bytes, c) else rest
send_loop (would_block ∷ rs) bytes c =
    if length bytes == 0 then (done, bytes, c) else (blocked, bytes, c)
send_loop (failed ∷ rs) bytes c =
    if length bytes == 0 then (done, bytes, c) else (broken, bytes, close c)

-- what `send` does when its loop has ended: EAGAIN leaves the loop with data left
pub keep_rest : End × List ℕ × Connection → End × Connection
keep_rest (done, left, c) = (done, enqueue left c)
keep_rest (blocked, left, c) = (done, enqueue left c)
keep_rest (broken, left, c) = (broken, c)
keep_rest (waiting, left, c) = (waiting, c)

pub send : List Answer → List ℕ → Connection → End × Connection
send rs bytes c =
    if is_connected c.state && not (length bytes == 0)
    then (if is_empty c.output_buffer
        then keep_rest (send_loop rs bytes c)
        else (done, enqueue bytes c))
    else (done, c)

pub shutdown_in_loop : Connection → Connection
shutdown_in_loop c =
    if is_disconnected c.state
    then c
    else if is_empty c.output_buffer
    then record c { write_shut = true }
    else record c { shutdown_pending = true }

-- On the loop's own thread `run_in_loop` calls its functor at once.
pub shutdown : Connection → Connection
shutdown c =
    if is_connected c.state then shutdown_in_loop (record c { state = disconnecting }) else c

-- A connection as the constructor leaves it, with the callbacks and the mark that are set before it starts.
unfoldable pub new_connection : ℕ → Bool → Bool → Bool → Connection
new_connection mark high_water_cb write_complete_cb close_cb = record {
  state = connected;
  input_buffer = new;
  output_buffer = new;
  writing = false;
  shutdown_pending = false;
  high_water_mark = mark;
  high_water_cb = high_water_cb;
  write_complete_cb = write_complete_cb;
  close_cb = close_cb;
  incoming = [];
  sent = [];
  strayed = [];
  write_shut = false;
  fd_closed = false;
  queued = [];
  close_calls = 0;
}

-- What the kernel answers to a `read`: it hands over up to so many of the bytes that wait, or says that
-- the peer has closed, or EINTR, EAGAIN, or another error.
pub data ReadAnswer : Type 0 where
  hands : ℕ → ReadAnswer
  ended read_interrupted drained read_failed : ReadAnswer

-- How the loop of reads ends; `pending` is a loop whose next answer has not come.
pub data ReadEnd : Type 0 where
  all_read peer_closed read_error pending : ReadEnd

-- `ensure_writable(4096)`
pub make_room : Connection → Connection
make_room c = record c { input_buffer = ensure_writable c.input_buffer 4096 }

-- one `read` that hands over `k` bytes
pub fill : ℕ → Connection → Connection
fill k c = record c {
  input_buffer = has_written (write_at_end c.input_buffer (take k c.incoming)) k;
  incoming = drop k c.incoming;
}

-- the loop of `handle_read`
pub read_loop : List ReadAnswer → Connection → ReadEnd × Connection
read_loop [] c = (pending, make_room c)
read_loop (hands n ∷ rs) c =
    let ready = make_room c in
    let k = min n (min (writable_bytes ready.input_buffer) (length c.incoming)) in
    let rest = read_loop rs (fill k ready) in if k == 0 then (peer_closed, ready) else rest
read_loop (ended ∷ rs) c = (peer_closed, make_room c)
read_loop (read_interrupted ∷ rs) c = read_loop rs (make_room c)
read_loop (drained ∷ rs) c = (all_read, make_room c)
read_loop (read_failed ∷ rs) c = (read_error, make_room c)

-- `if (message_cb_ && input_buffer_.readable_bytes() > 0) cb(...)`; what the callback does is a parameter.
pub deliver : Option (Connection → Connection) → Connection → Connection
deliver none c = c
deliver (some cb) c = if ltb 0 (readable_bytes c.input_buffer) then cb c else c

-- what `handle_read` does when its loop has ended
pub after_reads : Option (Connection → Connection) → ReadEnd × Connection → ReadEnd × Connection
after_reads cb (all_read, c) = (all_read, deliver cb c)
after_reads cb (peer_closed, c) = (peer_closed, close (deliver cb c))
after_reads cb (read_error, c) = (read_error, close c)
after_reads cb (pending, c) = (pending, c)

pub handle_read :
    Option (Connection → Connection) → List ReadAnswer → Connection → ReadEnd × Connection
handle_read cb rs c = after_reads cb (read_loop rs c)
