-- ===== src/EventLoop/Loop.antt =====
-- src/event_loop.cpp: `loop()` around the steps of the loop's thread, and `quit()`.
pub mod Stopping
use game_frame.Prelude.{ℕ, ◌+◌, ◌-◌, ◌<◌, ◌≡◌, Bool, true, false, if◌then◌else◌}
use game_frame.EventLoop.{polls, dispatches, EventLoop, new_loop, wakeup, is_polling, Step}

-- `waits`: the loop's thread has found `quit_` unset and is about to call `epoll_wait`, or is in it; `ended`:
-- `loop()` has returned. `waking` are the threads in `quit()` that have set the flag and not written to the eventfd.
pub record Running {ℓ} (A : Type ℓ) : Type ℓ where
  pub base : EventLoop A
  pub quit : Bool
  pub waits : Bool
  pub ended : Bool
  pub waking : ℕ

module _ {ℓ} {A : Type ℓ} where
  unfoldable pub started : Running A
  started = record { base = new_loop; quit = false; waits = false; ended = false; waking = 0 }

  -- `while (!quit_.load())`
  unfoldable pub test_quit : Running A → Running A
  test_quit s = if s.quit then record s { ended = true } else record s { waits = true }

  -- `epoll_wait` has returned with events.
  pub events_come : Running A → Running A
  events_come s = record s { base = record s.base { phase = dispatches }; waits = false }

  -- EINTR
  unfoldable pub interrupt : Running A → Running A
  interrupt s = record s { waits = false }

  -- `quit()` by a callback or a functor
  pub quit_own : Running A → Running A
  quit_own s = record s { quit = true }

  -- `quit()` by another thread, in two parts
  unfoldable pub quit_other : Running A → Running A
  quit_other s = record s { quit = true; waking = s.waking + 1 }

  unfoldable pub wake_other : Running A → Running A
  wake_other s = record s { base = wakeup s.base; waking = s.waking - 1 }

  -- The thread of a loop and the others. Other threads queue functors and write to the eventfd at any time; the
  -- loop's thread works between `epoll_wait` and the next test of the flag.
  pub data Turn (s : Running A) : Running A → Type ℓ where
    tests :
        is_polling s.base.phase ≡ true → s.waits ≡ false → s.ended ≡ false → Turn s (test_quit s)
    interrupts : s.waits ≡ true → Turn s (interrupt s)
    returns : s.waits ≡ true → s.base.phase ≡ polls → Turn s (events_come s)
    works :
        {t : EventLoop A}
        → Step s.base t
        → (is_polling s.base.phase ≡ true → is_polling t.phase ≡ true)
        → Turn s (record s { base = t })
    quits_own : is_polling s.base.phase ≡ false → Turn s (quit_own s)
    quits_other : Turn s (quit_other s)
    wakes_other : 0 < s.waking → Turn s (wake_other s)

  -- The states that come about from another.
  pub data Later (s : Running A) : Running A → Type ℓ where
    now : Later s s
    later : {t u : Running A} → Later s t → Turn t u → Later s u
