-- ===== src/Connection/Tests.antt =====
-- src/connection.cpp: a message of which the kernel takes a part, then `shutdown`.
use game_frame.Prelude.{
  replicate, refl, bit_or, ◌+◌, ◌&&◌, none, some, if◌then◌else◌, ℕ, ◌≡◌, ◌≢◌, true, not, List, [],
  ◌∷◌, ◌++◌, arith,
}
use game_frame.Buffer.{new, is_empty, readable_view}
use game_frame.Buffer.Regions.{HasRoom}
use game_frame.Connection.{
  is_disconnected, ended, hands, read_interrupted, drained, read_loop, disconnected, Connection,
  takes, interrupted, would_block, Answer, waiting, send, handle_write, new_connection,
}
use game_frame.Connection.Reading.{Received, read_loop-Received}
use game_frame.Connection.Sending.{accepted}
use game_frame.Connection.Delivery.{
  handle, sends, shuts, closes, Reach, begin, next, Reach-delivers, handle-returns,
}
use game_frame.Channel.{epollin, epollout, epollrdhup}
use game_frame.Channel.Dispatch.{epollerr, epollhup, reports}
use game_frame.Connection.Events.{
  MessageCallback, destroy, Happening, calls, reported, times_out, happen, live_on,
}
use game_frame.Connection.Closing.{closes_once}
use game_frame.Connection.ClosedWrites.{strayed_some, writes_after_close}

abbrev fresh : Connection
fresh = new_connection 2 true true true

-- The kernel takes two bytes of the three and is full.
abbrev answers : List Answer
answers = interrupted ∷ takes 2 ∷ would_block ∷ []

abbrev message : List ℕ
message = 1 ∷ 2 ∷ 3 ∷ []

handle-returns_example :
    ((send answers message fresh).0 ≢ waiting) × ((handle_write answers fresh).0 ≢ waiting)
handle-returns_example = handle-returns answers message fresh tt

abbrev waits : Connection
waits = (handle (sends answers message) fresh).1

abbrev half_shut : Connection
half_shut = (handle shuts waits).1

room : HasRoom fresh.output_buffer 3
unfolding new_connection new
room = omega arith

half_shut-Reach : Reach half_shut (([] ++ accepted fresh message) ++ [])
unfolding handle
half_shut-Reach =
    next shuts (next (sends answers message) (begin 2 true true true) room handle-returns_example.0)
      tt (λ e. absurd (cc e))

Reach-delivers_example :
    (rest : List ℕ) × (half_shut.sent ++ rest ≡ ([] ++ accepted fresh message) ++ [])
    × (half_shut.write_shut ≡ true → half_shut.sent ≡ ([] ++ accepted fresh message) ++ [])
    × (half_shut.state ≢ disconnected
        → (rest ≡ readable_view half_shut.output_buffer)
          × (half_shut.writing ≡ not (is_empty half_shut.output_buffer)))
Reach-delivers_example = Reach-delivers half_shut-Reach

-- Three bytes of five wait in the kernel behind the two read before.
abbrev listening : Connection
listening = record fresh {
  input_buffer = record {
    storage = replicate 8 0 ++ 1 ∷ 2 ∷ [];
    reader_index = 8;
    writer_index = 10;
  };
  incoming = 3 ∷ 4 ∷ 5 ∷ [];
}

read_loop-Received_example :
    Received listening (read_loop (hands 2 ∷ read_interrupted ∷ hands 9 ∷ drained ∷ []) listening).1
read_loop-Received_example =
    read_loop-Received (hands 2 ∷ read_interrupted ∷ hands 9 ∷ drained ∷ []) listening (omega arith)
      (omega arith)

-- A client whose message callback answers and closes, and a peer that hangs up afterwards.
abbrev answering : MessageCallback
answering c = sends answers message ∷ closes ∷ []

abbrev episode : List Happening
episode =
    calls (sends answers message)
    ∷ reported true (epollin + epollout) (hands 9 ∷ drained ∷ []) (takes 1 ∷ would_block ∷ [])
    ∷ reported true (epollhup + epollerr) [] []
    ∷ times_out true
    ∷ []

closes_once_example :
    let c = live_on (some answering) episode (new_connection 2 true true true) in
    (c.fd_closed ≡ is_disconnected c.state)
    × (c.close_calls ≡ (if is_disconnected c.state && c.close_cb then 1 else 0))
    × ((destroy c).fd_closed ≡ true)
    × (is_disconnected c.state ≡ true → destroy c ≡ c)
closes_once_example = closes_once (some answering) episode 2 true true true

abbrev half_closed : ℕ
half_closed = bit_or (bit_or epollin epollrdhup) epollout

-- Two bytes are left to write.
abbrev behind : Connection
behind = record fresh {
  output_buffer = record {
    storage = replicate 8 0 ++ 1 ∷ 2 ∷ [];
    reader_index = 8;
    writer_index = 10;
  };
  writing = true;
}

writes_after_close_example :
    let d =
      happen none (reported true half_closed (ended ∷ []) (takes 5 ∷ would_block ∷ [])) behind in
    (d.fd_closed ≡ true) × (d.sent ≡ behind.sent) × (d.strayed ≡ strayed_some 5 behind)
unfolding reports new_connection is_disconnected
writes_after_close_example = writes_after_close half_closed 5 behind refl refl refl refl refl refl
