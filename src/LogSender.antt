-- ===== src/LogSender.antt =====
-- log_sender/log_sender.h, log_sender/log_sender.cpp: the lines of a queue, sent as frames by a timer, on the
-- sender's loop.
pub mod Batches
pub mod Ticks
mod Tests
use game_frame.Prelude.{
  ℕ, zero, suc, ◌+◌, ◌-◌, ◌*◌, Bool, true, false, not, ◌&&◌, ◌||◌, List, [], ◌∷◌, ◌++◌, Option,
  none, some, ltb, ◌==◌, if◌then◌else◌, codes,
}
use game_frame.Frame.{encode}
use game_frame.MpscQueue.{Queue, new, PushResult, push, drain, take_dropped}

pub record Options : Type 0 where
  pub queue_capacity : ℕ
  pub max_batch_per_tick : ℕ
  pub tick_interval_ms : ℕ
  pub high_water_mark : ℕ

abbrev pub default_options : Options
default_options = record {
  queue_capacity = 10000;
  max_batch_per_tick = 1000;
  tick_interval_ms = 50;
  high_water_mark = 4 * 1024 * 1024;
}

-- The calls of the TCP client and of the connection.
pub data Call : Type 0 where
  connects disconnects destroys shuts_down : Call
  sends : List ℕ → Call

-- `connection` is whether the connection that is held is up. `timers` are the tick timers that have not
-- fired, `functors` the wake-ups queued by `push`, `calls` the calls made, in order, and `null_sends` the calls
-- of `send` through the null pointer.
pub record LogSender : Type 0 where
  pub opts : Options
  pub queue : Queue (List ℕ)
  pub connection : Option Bool
  pub watched : Bool
  pub paused : Bool
  pub timers : ℕ
  pub functors : ℕ
  pub started : Bool
  pub stopped : Bool
  pub calls : List Call
  pub null_sends : ℕ

unfoldable pub new_sender : Options → LogSender
new_sender opts = record {
  opts = opts;
  queue = new opts.queue_capacity;
  connection = none;
  watched = false;
  paused = false;
  timers = 0;
  functors = 0;
  started = false;
  stopped = false;
  calls = [];
  null_sends = 0;
}

abbrev pub call : Call → LogSender → LogSender
call c s = record s { calls = s.calls ++ c ∷ [] }

pub schedule_next_tick : LogSender → LogSender
schedule_next_tick s = if s.stopped then s else record s { timers = s.timers + 1 }

pub start_in_loop : LogSender → LogSender
start_in_loop s =
    if s.started then s else schedule_next_tick (call connects (record s { started = true }))

-- `watched`: the callbacks for the high-water mark and for the empty buffer are set.
pub on_connection : Bool → LogSender → LogSender
on_connection true s = record s {
  watched = ltb 0 s.opts.high_water_mark;
  connection = some true;
  paused = false;
}
on_connection false s = record s { connection = none; paused = false }

pub on_high_water : LogSender → LogSender
on_high_water s = record s { paused = true }

pub on_write_complete : LogSender → LogSender
on_write_complete s = if s.paused then record s { paused = false } else s

pub push_line : List ℕ → LogSender → Bool × LogSender
push_line msg s =
    let (r, q) = push s.queue msg in
    (
      r.ok,
      if r.wake_up
          then record s { queue = q; functors = s.functors + 1 }
          else record s { queue = q },
    )

-- A call of `send`: when it fails it closes the connection, which calls `on_connection`. A call through the
-- null pointer is undefined behaviour: it is counted in `null_sends`, and what is said of a run with such a call is
-- said of no program.
send_on : Option Bool → Bool → List ℕ → LogSender → LogSender
send_on none survives payload s = record s { null_sends = s.null_sends + 1 }
send_on (some up) true payload s = call (sends (encode payload)) s
send_on (some up) false payload s = on_connection false (call (sends (encode payload)) s)

-- A slot that is handed out holds a line.
line_of : Option (List ℕ) → List ℕ
line_of none = []
line_of (some line) = line

-- `answers`: which calls of `send` leave the connection up; all do when it has ended.
pub send_batch : List Bool → List (Option (List ℕ)) → LogSender → LogSender
send_batch answers [] s = s
send_batch [] (p ∷ ps) s = send_batch [] ps (send_on s.connection true (line_of p) s)
send_batch (b ∷ answers) (p ∷ ps) s = send_batch answers ps (send_on s.connection b (line_of p) s)

pub is_up : Option Bool → Bool
is_up none = false
is_up (some up) = up

-- `to_string` is the library's.
module _ (to_string : ℕ → List ℕ) where
  pub loss_notice : ℕ → List (Option (List ℕ))
  loss_notice dropped =
      if ltb 0 dropped
      then some (codes "[LOG_DROPPED] " ++ to_string dropped ++ codes " messages lost") ∷ []
      else []

  pub do_drain_and_send : List Bool → LogSender → LogSender
  do_drain_and_send answers s =
      let (dropped, q) = take_dropped s.queue in
      let (took, batch, q') = drain q (loss_notice dropped) s.opts.max_batch_per_tick in
      if (took == 0) && (dropped == 0)
      then record s { queue = q' }
      else send_batch answers batch (record s { queue = q' })

  pub on_tick : List Bool → LogSender → LogSender
  on_tick answers s =
      if s.stopped
      then s
      else schedule_next_tick
          (if is_up s.connection && not s.paused then do_drain_and_send answers s else s)

  -- The callback of a tick timer, which has fired.
  pub fire_timer : List Bool → LogSender → LogSender
  fire_timer answers s = on_tick answers (record s { timers = s.timers - 1 })

  -- The functor that `push` queues.
  pub run_wake_up : List Bool → LogSender → LogSender
  run_wake_up answers s =
      let taken = record s { functors = s.functors - 1 } in
      if not s.started || s.stopped then taken else on_tick answers taken

  shut_down : Option Bool → LogSender → LogSender
  shut_down none s = s
  shut_down (some up) s = call shuts_down s

  -- The timer whose id was kept last is cancelled.
  pub stop_in_loop : List Bool → LogSender → LogSender
  stop_in_loop answers s =
      let quiet = record s { stopped = true; timers = s.timers - 1 } in
      let drained = if is_up s.connection then do_drain_and_send answers quiet else quiet in
      let shut = shut_down drained.connection drained in
      if s.stopped then s else call destroys (record (call disconnects shut) { connection = none })
