-- ===== src/EventLoop/Tests.antt =====
-- src/event_loop.cpp: a functor that queues another one, while a thread queues a third.
use game_frame.Prelude.{ℕ, ◌+◌, ◌<◌, ◌≡◌, ◌≢◌, refl, true, false, [], ◌++◌, arith}
use game_frame.EventLoop.{
  polls, dispatches, EventLoop, new_loop, wakeup, handle_wakeup, push_functor, needs_wakeup,
  queue_own, swap_functors, run_functor, end_functors, is_polling, queues, writes, reports, reads,
  queues_own, swaps, runs_one, ends, Reach, begin, next,
}
use game_frame.EventLoop.Loop.{
  Running, started, test_quit, interrupt, quit_other, wake_other, tests, interrupts, quits_other,
  wakes_other, Later, now, later,
}
use game_frame.EventLoop.Loop.Stopping.{quit_ends}
use game_frame.EventLoop.Wakeups.{left_of, no_functor_sleeps}

abbrev first_batch : EventLoop ℕ
first_batch = swap_functors (
    handle_wakeup (record (wakeup (record (push_functor 1 new_loop) { announcing = 0 })) {
      phase = dispatches;
    }))

-- The second functor is queued by the first, the third by another thread.
abbrev busy : EventLoop ℕ
busy =
    end_functors
      (run_functor 1 [] (queue_own 2 (record (push_functor 3 first_batch) { announcing = 1 })))

busy-Reach : Reach busy
unfolding new_loop wakeup handle_wakeup push_functor needs_wakeup queue_own swap_functors
    run_functor end_functors is_polling
busy-Reach =
    next
      (next
        (next
          (next
            (next
              (next (next (next (next begin (queues 1)) (writes (omega arith))) (reports refl))
                (reads refl))
              (swaps refl))
            (queues 3))
          (queues_own 2 refl))
        (runs_one 1 [] refl))
      (ends refl)

no_functor_sleeps_example :
    (busy.accepted ≡ busy.done ++ left_of busy.phase ++ busy.pending_functors)
    × (busy.phase ≡ polls → busy.pending_functors ≢ [] → 0 < busy.counter + busy.announcing)
no_functor_sleeps_example = no_functor_sleeps busy busy-Reach

-- The loop's thread waits, another one calls `quit`, and the first returns from `epoll_wait`.
abbrev waiting : Running ℕ
waiting = test_quit started

abbrev told : Running ℕ
told = quit_other waiting

abbrev over : Running ℕ
over = interrupt (wake_other told)

waiting-Later : Later started waiting
unfolding started new_loop is_polling
waiting-Later = later now (tests refl refl refl)

told-Later : Later started told
told-Later = later waiting-Later quits_other

over-Later : Later told over
unfolding started test_quit quit_other wake_other
over-Later = later (later now (wakes_other (omega arith))) (interrupts refl)

quit_ends_example :
    (told.ended ≡ true → told.quit ≡ true)
    × (told.quit ≡ true → told.waits ≡ true → 0 < told.base.counter + told.waking)
    × (told.quit ≡ true → (over.quit ≡ true) × (told.waits ≡ false → over.waits ≡ false))
    × Reach told.base
quit_ends_example = quit_ends told over told-Later over-Later
