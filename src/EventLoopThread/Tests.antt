-- ===== src/EventLoopThread/Tests.antt =====
-- src/event_loop_thread.cpp: a thread that is started and destroyed.
use game_frame.Prelude.{◌≡◌, refl, true, false}
use game_frame.EventLoopThread.{
  EventLoopThread, new_thread, start_loop, publish, return_loop, quit_loop, leave_loop, clear_loop,
  end_thread, destroy_tests, is_over, destroy_stores, destroy_wakes, starts, publishes, returns,
  quits, leaves, clears, ends, dies, dies_stores, dies_wakes, Reach, begin, next,
}

abbrev started : EventLoopThread
started = return_loop (publish (start_loop new_thread))

started-Reach : Reach false started
unfolding new_thread start_loop publish
started-Reach = next (next (next begin (starts refl)) (publishes refl)) (returns refl refl)

-- When someone else calls `quit` and the thread ends before its owner, the destructor finds a null pointer
-- and destroys a thread that was not joined.
abbrev orphaned : EventLoopThread
orphaned = destroy_tests (
    end_thread
      (clear_loop (leave_loop (quit_loop (return_loop (publish (start_loop new_thread)))))))

orphaned-Reach : Reach true orphaned
unfolding new_thread start_loop publish return_loop quit_loop leave_loop clear_loop end_thread
    destroy_tests
orphaned-Reach =
    next
      (next
        (next
          (next
            (next (next (next (next begin (starts refl)) (publishes refl)) (returns refl refl))
              (quits refl refl))
            (leaves refl refl))
          (clears refl))
        (ends refl))
      (dies refl)

orphaned-terminated : orphaned.terminated ≡ true
unfolding new_thread start_loop publish return_loop quit_loop leave_loop clear_loop end_thread
    destroy_tests
orphaned-terminated = refl

-- When the thread sees the flag of the destructor's `quit` and ends before the wake-up behind it, the wake-up
-- uses a loop that is gone.
abbrev raced : EventLoopThread
raced =
    destroy_wakes (end_thread (clear_loop (leave_loop (destroy_stores (destroy_tests started)))))

raced-Reach : Reach false raced
unfolding new_thread start_loop publish return_loop leave_loop clear_loop end_thread destroy_tests
    destroy_stores
raced-Reach =
    next
      (next
        (next (next (next (next started-Reach (dies refl)) (dies_stores refl)) (leaves refl refl))
          (clears refl))
        (ends refl))
      (dies_wakes refl)

raced-dangling : raced.dangling ≡ true
unfolding new_thread start_loop publish return_loop leave_loop clear_loop end_thread destroy_tests
    destroy_stores destroy_wakes is_over
raced-dangling = refl
