-- ===== src/LogSender/Tests.antt =====
-- log_sender/log_sender.cpp: two lines and a lost one.
use game_frame.Prelude.{ℕ, ◌+◌, ◌≤◌, ◌≡◌, refl, true, false, List, [], ◌∷◌, some, codes, arith}
use game_frame.MpscQueue.{
  Queue, push, push_locked, count_dropped, announce, drain, drain_loop, settle, take_dropped,
}
use game_frame.MpscQueue.Ring.{Holds}
use game_frame.LogSender.{
  LogSender, schedule_next_tick, is_up, send_on, call, line_of, send_batch, loss_notice,
  do_drain_and_send, on_tick, fire_timer, run_wake_up, push_line,
}
use game_frame.LogSender.Ticks.{Event, pushes, fires, wakes, run, handle, edges, run-timers}

abbrev digit : ℕ → List ℕ
digit n = (b'0' + n) ∷ []

-- two slots, both taken, and one line lost
abbrev full_queue : Queue (List ℕ)
full_queue = record {
  cap = 2;
  slots = some (codes "one") ∷ some (codes "two") ∷ [];
  head = 0;
  tail = 0;
  count = 2;
  dropped = 1;
  has_pending = true;
}

full_queue-Holds : Holds full_queue (codes "one" ∷ codes "two" ∷ [])
full_queue-Holds = record {
  positive = omega arith;
  small = omega arith;
  sized = refl;
  head_in = omega arith;
  tail_at = refl;
  counted = refl;
  bounded = omega arith;
  stored = (refl, (refl, tt));
}

abbrev busy : LogSender
busy = record {
  opts = record {
    queue_capacity = 2;
    max_batch_per_tick = 1;
    tick_interval_ms = 50;
    high_water_mark = 100;
  };
  queue = full_queue;
  connection = some true;
  watched = true;
  paused = false;
  timers = 1;
  functors = 0;
  started = true;
  stopped = false;
  calls = [];
  null_sends = 0;
}

-- The queue is emptied, a line asks for a wake-up, and the loop runs it.
abbrev quiet_day : List Event
quiet_day = fires [] ∷ fires [] ∷ pushes (codes "three") ∷ wakes [] ∷ fires [] ∷ []

nothing_null : (run digit quiet_day busy).null_sends ≡ busy.null_sends
unfolding run handle push_line fire_timer run_wake_up on_tick schedule_next_tick is_up
    do_drain_and_send loss_notice send_batch send_on line_of call push push_locked count_dropped
    announce drain drain_loop settle take_dropped
nothing_null = refl

run-timers_example :
    (busy.timers ≤ (run digit quiet_day busy).timers)
    × ((run digit quiet_day busy).timers + (run digit quiet_day busy).functors
        ≡ busy.timers + busy.functors + edges digit quiet_day busy)
run-timers_example = run-timers digit quiet_day busy refl refl nothing_null
