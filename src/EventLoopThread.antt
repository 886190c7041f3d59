-- ===== src/EventLoopThread.antt =====
-- src/event_loop_thread.h, src/event_loop_thread.cpp: a thread with a loop of its own, and its owner.
pub mod Ending
mod Tests
use game_frame.Prelude.{◌≡◌, Bool, true, false, ◌||◌, if◌then◌else◌}

-- Where the thread is: not there yet, building its loop, in `loop()`, behind it, behind the clearing of `loop_`,
-- and at its end, when the loop object is gone.
pub data Child : Type 0 where
  unstarted building looping leaving clearing ended : Child

-- Where the owner is: before `start_loop`, waiting in it, behind it, in the destructor before `quit`, before
-- its wake-up of the loop, before `join`, and behind it.
pub data Owner : Type 0 where
  idle waiting returned quitting waking joining gone : Owner

-- `loop` is whether `loop_` is set, `quit` the flag of the loop. `terminated`: a thread that could be joined was
-- destroyed, which is `std::terminate`; `dangling`: a loop was used after its end.
pub record EventLoopThread : Type 0 where
  pub child : Child
  pub owner : Owner
  pub loop : Bool
  pub quit : Bool
  pub joinable : Bool
  pub terminated : Bool
  pub dangling : Bool

pub new_thread : EventLoopThread
new_thread = record {
  child = unstarted;
  owner = idle;
  loop = false;
  quit = false;
  joinable = false;
  terminated = false;
  dangling = false;
}

-- `start_loop` up to the wait
pub start_loop : EventLoopThread → EventLoopThread
start_loop t = record t { child = building; owner = waiting; joinable = true }

-- The loop's address is in `loop_`, and the condition is notified.
pub publish : EventLoopThread → EventLoopThread
publish t = record t { child = looping; loop = true }

-- `start_loop` behind the wait
pub return_loop : EventLoopThread → EventLoopThread
return_loop t = record t { owner = returned }

-- the flag that someone else's `quit()` of the loop sets
pub quit_loop : EventLoopThread → EventLoopThread
quit_loop t = record t { quit = true }

pub leave_loop : EventLoopThread → EventLoopThread
leave_loop t = record t { child = leaving }

pub clear_loop : EventLoopThread → EventLoopThread
clear_loop t = record t { child = clearing; loop = false }

pub end_thread : EventLoopThread → EventLoopThread
end_thread t = record t { child = ended }

-- the destructor's test of `loop_`, and, where it is null, the destructor of `thread_`
pub destroy_tests : EventLoopThread → EventLoopThread
destroy_tests t =
    if t.loop
    then record t { owner = quitting }
    else record t { owner = gone; terminated = t.joinable }

pub is_over : Child → Bool
is_over unstarted = false
is_over building = false
is_over looping = false
is_over leaving = false
is_over clearing = false
is_over ended = true

-- `loop_->quit()` of the destructor: the store of the flag, and then the wake-up, between which the thread may
-- leave its loop.
pub destroy_stores : EventLoopThread → EventLoopThread
destroy_stores t = record t { owner = waking; quit = true; dangling = is_over t.child }

pub destroy_wakes : EventLoopThread → EventLoopThread
destroy_wakes t = record t { owner = joining; dangling = t.dangling || is_over t.child }

-- `join`, when the thread has ended
pub destroy_joins : EventLoopThread → EventLoopThread
destroy_joins t = record t { owner = gone; joinable = false }

-- A step of the thread or of its owner. With `others`, someone else may call `quit` of the loop that
-- `start_loop` has returned.
pub data Step (others : Bool) (t : EventLoopThread) : EventLoopThread → Type 0 where
  starts : t.owner ≡ idle → Step others t (start_loop t)
  publishes : t.child ≡ building → Step others t (publish t)
  returns : t.owner ≡ waiting → t.loop ≡ true → Step others t (return_loop t)
  quits : others ≡ true → t.owner ≡ returned → Step others t (quit_loop t)
  leaves : t.child ≡ looping → t.quit ≡ true → Step others t (leave_loop t)
  clears : t.child ≡ leaving → Step others t (clear_loop t)
  ends : t.child ≡ clearing → Step others t (end_thread t)
  dies_idle : t.owner ≡ idle → Step others t (destroy_tests t)
  dies : t.owner ≡ returned → Step others t (destroy_tests t)
  dies_stores : t.owner ≡ quitting → Step others t (destroy_stores t)
  dies_wakes : t.owner ≡ waking → Step others t (destroy_wakes t)
  dies_joins : t.owner ≡ joining → t.child ≡ ended → Step others t (destroy_joins t)

pub data Reach (others : Bool) : EventLoopThread → Type 0 where
  begin : Reach others new_thread
  next : {t u : EventLoopThread} → Reach others t → Step others t u → Reach others u
