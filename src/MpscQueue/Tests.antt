-- ===== src/MpscQueue/Tests.antt =====
-- util/mpsc_queue.h: a queue of two slots, and two threads at it.
use game_frame.Prelude.{ℕ, ◌+◌, ◌<◌, ◌⊎◌, refl, List, [], ◌∷◌, ◌++◌, arith, if◌then◌else◌}
use game_frame.MpscQueue.{new, push_locked, announce}
use game_frame.MpscQueue.Threads.{System, start, Reach, begin, next, enqueue, signal}
use game_frame.MpscQueue.Threads.Invariant.{Inv, Reach-Inv}
use game_frame.MpscQueue.Threads.Wakeups.{no_lost_wakeup}

abbrev initial : System ℕ
initial = start 2

-- A producer has put 7 in and has not come to the flag yet.
abbrev entered : System ℕ
entered = record initial {
  queue = (push_locked initial.queue 7).1;
  announcing = initial.announcing + 1;
  accepted = initial.accepted ++ 7 ∷ [];
  attempts = initial.attempts + 1;
}

-- Now it has.
abbrev announced : System ℕ
announced = record entered {
  queue = (announce entered.queue).1;
  announcing = 0;
  wakes = if (announce entered.queue).0 then entered.wakes + 1 else entered.wakes;
}

entered-Reach : Reach 2 4 entered
unfolding start new push_locked
entered-Reach = next begin (enqueue 7 refl)

announced-Reach : Reach 2 4 announced
unfolding start new push_locked announce
announced-Reach = next entered-Reach (signal 0 refl)

Reach-Inv_example : (xs : List ℕ) × Inv announced xs
Reach-Inv_example = Reach-Inv (omega arith) (omega arith) announced-Reach

one_left : 0 < announced.queue.count
unfolding start new push_locked announce
one_left = omega arith

no_lost_wakeup_example : (0 < announced.wakes) ⊎ (0 < announced.announcing)
no_lost_wakeup_example =
    no_lost_wakeup (omega arith) (omega arith) (omega arith) announced-Reach one_left
