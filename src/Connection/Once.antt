-- ===== src/Connection/Once.antt =====
-- src/connection.cpp: what the operations of a connection do with its descriptor and its close callback.
use game_frame.Prelude.{
  ℕ, ◌≡◌, refl, inl, inr, true, false, ◌&&◌, List, [], ◌∷◌, Option, none, some, arith, Bool-cases,
  either, if◌then◌else◌, ◌==◌, length, drop, min, not, ltb, ap, ◌∙◌,
}
use game_frame.Buffer.{is_empty, readable_bytes}
use game_frame.Connection.{
  State, connected, disconnecting, disconnected, Connection, is_disconnected, is_connected, Answer,
  takes, interrupted, would_block, failed, End, done, blocked, broken, waiting, close, write_output,
  write_loop, finish, after_loop, handle_write, enqueue, send_loop, keep_rest, send,
  shutdown_in_loop, shutdown, ReadAnswer, hands, ended, read_interrupted, drained, read_failed,
  ReadEnd, all_read, peer_closed, read_error, pending, make_room, fill, read_loop, deliver,
  after_reads, handle_read,
}
use game_frame.Connection.Delivery.{Event, sends, writable, shuts, closes, handle}
use game_frame.Connection.Events.{make_calls, MessageCallback, calling}

-- The descriptor is closed exactly in the state kDisconnected, and the close callback, where there is one, has
-- then been called once, and never before.
abbrev pub Once : Connection → Type 0
Once c =
    (c.fd_closed ≡ is_disconnected c.state)
    × (c.close_calls ≡ (if is_disconnected c.state && c.close_cb then 1 else 0))

pub close-Once : (c : Connection) → Once c → Once (close c)
unfolding close is_disconnected
close-Once c o = elim (Bool-cases (is_disconnected c.state)) [
  | inl closed ↦ rw closed o
  | inr live ↦ rw live (refl, ground (arith, o.1, live))
]

write_output-Once : (n : ℕ) (c : Connection) → Once c → Once (write_output n c)
unfolding write_output
write_output-Once n c o = either Once (min n (readable_bytes c.output_buffer) == 0) o o

abbrev Leaves : {A : Type 0} → A × Connection → Type 0
Leaves r = Once r.1

write_loop-Once : (rs : List Answer) (c : Connection) → Once c → Leaves (write_loop rs c)
unfolding write_loop
write_loop-Once [] c o = either Leaves (is_empty c.output_buffer) o o
write_loop-Once (takes n ∷ rs) c o =
    either Leaves (is_empty c.output_buffer) o
      (write_loop-Once rs (write_output n c) (write_output-Once n c o))
write_loop-Once (interrupted ∷ rs) c o =
    either Leaves (is_empty c.output_buffer) o (write_loop-Once rs c o)
write_loop-Once (would_block ∷ rs) c o = either Leaves (is_empty c.output_buffer) o o
write_loop-Once (failed ∷ rs) c o = either Leaves (is_empty c.output_buffer) o (close-Once c o)

after_loop-Once : (r : End × Connection) → Leaves r → Leaves (after_loop r)
unfolding after_loop finish
after_loop-Once (done, c) o = o
after_loop-Once (blocked, c) o = o
after_loop-Once (broken, c) o = o
after_loop-Once (waiting, c) o = o

pub handle_write-Once : (rs : List Answer) (c : Connection) → Once c → Leaves (handle_write rs c)
unfolding handle_write
handle_write-Once rs c o =
    either Leaves (is_empty c.output_buffer) o
      (after_loop-Once (write_loop rs c) (write_loop-Once rs c o))

abbrev Left : End × List ℕ × Connection → Type 0
Left r = Once r.2

enqueue-Once : (bytes : List ℕ) (c : Connection) → Once c → Once (enqueue bytes c)
unfolding enqueue
enqueue-Once bytes c o = either Once (length bytes == 0) o o

send_loop-Once :
    (rs : List Answer) (bytes : List ℕ) (c : Connection) → Once c → Left (send_loop rs bytes c)
unfolding send_loop
send_loop-Once [] bytes c o = either Left (length bytes == 0) o o
send_loop-Once (takes n ∷ rs) bytes c o =
    either Left (length bytes == 0) o (send_loop-Once rs (drop (min n (length bytes)) bytes) _ o)
send_loop-Once (interrupted ∷ rs) bytes c o =
    either Left (length bytes == 0) o (send_loop-Once rs bytes c o)
send_loop-Once (would_block ∷ rs) bytes c o = either Left (length bytes == 0) o o
send_loop-Once (failed ∷ rs) bytes c o = either Left (length bytes == 0) o (close-Once c o)

keep_rest-Once : (r : End × List ℕ × Connection) → Left r → Leaves (keep_rest r)
unfolding keep_rest
keep_rest-Once (done, left, c) o = enqueue-Once left c o
keep_rest-Once (blocked, left, c) o = enqueue-Once left c o
keep_rest-Once (broken, left, c) o = o
keep_rest-Once (waiting, left, c) o = o

send-Once : (rs : List Answer) (bytes : List ℕ) (c : Connection) → Once c → Leaves (send rs bytes c)
unfolding send
send-Once rs bytes c o =
    either Leaves (is_connected c.state && not (length bytes == 0))
      (either Leaves (is_empty c.output_buffer)
        (keep_rest-Once (send_loop rs bytes c) (send_loop-Once rs bytes c o))
        (enqueue-Once bytes c o))
      o

shutdown_in_loop-Once : (c : Connection) → Once c → Once (shutdown_in_loop c)
unfolding shutdown_in_loop
shutdown_in_loop-Once c o =
    either Once (is_disconnected c.state) o (either Once (is_empty c.output_buffer) o o)

connected_is_live : (s : State) → is_connected s ≡ true → is_disconnected s ≡ false
unfolding is_connected is_disconnected
connected_is_live connected h = refl
connected_is_live disconnecting h = refl
connected_is_live disconnected h = cc

shutdown-Once : (c : Connection) → Once c → Once (shutdown c)
unfolding shutdown is_disconnected
shutdown-Once c o = elim (Bool-cases (is_connected c.state)) [
  | inl up ↦ rw up (
      shutdown_in_loop-Once (record c { state = disconnecting })
        (let live = connected_is_live c.state up in
          (o.0 ∙ live, o.1 ∙ ap (λ b. if b && c.close_cb then 1 else 0) live)))
  | inr down ↦ rw down o
]

pub handle-Once : (e : Event) (c : Connection) → Once c → Leaves (handle e c)
unfolding handle
handle-Once (sends rs bytes) c o = send-Once rs bytes c o
handle-Once (writable rs) c o = handle_write-Once rs c o
handle-Once shuts c o = shutdown-Once c o
handle-Once closes c o = close-Once c o

make_calls-Once : (es : List Event) (c : Connection) → Once c → Once (make_calls es c)
unfolding make_calls
make_calls-Once [] c o = o
make_calls-Once (e ∷ es) c o = make_calls-Once es (handle e c).1 (handle-Once e c o)

read_loop-Once : (rs : List ReadAnswer) (c : Connection) → Once c → Leaves (read_loop rs c)
unfolding read_loop make_room fill
read_loop-Once [] c o = o
read_loop-Once (hands n ∷ rs) c o = either Leaves (_ == 0) o (read_loop-Once rs _ o)
read_loop-Once (ended ∷ rs) c o = o
read_loop-Once (read_interrupted ∷ rs) c o = read_loop-Once rs _ o
read_loop-Once (drained ∷ rs) c o = o
read_loop-Once (read_failed ∷ rs) c o = o

deliver-Once :
    (cb : Option MessageCallback) (c : Connection) → Once c → Once (deliver (calling cb) c)
unfolding deliver
deliver-Once none c o = o
deliver-Once (some cb) c o =
    either Once (ltb 0 (readable_bytes c.input_buffer)) (make_calls-Once (cb c) c o) o

after_reads-Once :
    (cb : Option MessageCallback) (r : ReadEnd × Connection)
    → Leaves r
    → Leaves (after_reads (calling cb) r)
unfolding after_reads
after_reads-Once cb (all_read, c) o = deliver-Once cb c o
after_reads-Once cb (peer_closed, c) o = close-Once _ (deliver-Once cb c o)
after_reads-Once cb (read_error, c) o = close-Once c o
after_reads-Once cb (pending, c) o = o

pub handle_read-Once :
    (cb : Option MessageCallback) (rs : List ReadAnswer) (c : Connection)
    → Once c
    → Leaves (handle_read (calling cb) rs c)
unfolding handle_read
handle_read-Once cb rs c o = after_reads-Once cb (read_loop rs c) (read_loop-Once rs c o)
