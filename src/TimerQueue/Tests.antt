-- ===== src/TimerQueue/Tests.antt =====
-- src/timer_queue.cpp on a queue of three timers.
use game_frame.Prelude.{ℕ, ◌*◌, ◌≡◌, refl, [], ◌∷◌, ◌++◌, none, some, arith, inl}
use game_frame.TimerQueue.{Script, finished, schedule, withdraw, Entry, TimerQueue, handle_read}
use game_frame.TimerQueue.Order.{find}
use game_frame.TimerQueue.Invariant.{Inv, Armed}
use game_frame.TimerQueue.Expiry.{due, calls}
use game_frame.TimerQueue.Firing.{handle_read-fired, handle_read-Inv}

-- the clock at its n-th reading
abbrev clock : ℕ → ℕ
clock n = 100 * n

-- It cancels timer 2, which is due at the same time, and adds one that is due at once.
abbrev meddler : Script
meddler = withdraw 2 (schedule 5 finished finished)

abbrev first : Entry
first = record { expiration = 150; id = 1; cb = some meddler }

abbrev second : Entry
second = record { expiration = 180; id = 2; cb = some finished }

abbrev third : Entry
third = record { expiration = 5000; id = 3; cb = none }

-- The timerfd was set at time 100.
abbrev three : TimerQueue
three = record {
  timers = first ∷ second ∷ third ∷ [];
  id_to_iter = λ id. find id (first ∷ second ∷ third ∷ []);
  next_id = 4;
  setting = some (100, record { tv_sec = 0; tv_nsec = 50 });
  readings = 2;
  fired = [];
}

three-Inv : Inv three
three-Inv = record {
  sorted = ((inl (omega arith), (inl (omega arith), tt)), ((inl (omega arith), tt), (tt, tt)));
  distinct = omega arith;
  indexed = λ id. refl;
  issued = omega arith;
}

-- Both expired timers fire, the cancelled one too; the one added waits for the next run.
fired_both : (handle_read clock three).fired ≡ 1 ∷ 2 ∷ []
fired_both = handle_read-fired clock three three-Inv

handle_read-fired_example :
    (handle_read clock three).fired ≡ [] ++ calls (due (clock 2) three.timers)
handle_read-fired_example = handle_read-fired clock three three-Inv

handle_read-Inv_example :
    Inv (handle_read clock three)
    × Armed (handle_read clock three).timers (handle_read clock three).setting
handle_read-Inv_example = handle_read-Inv clock three three-Inv
