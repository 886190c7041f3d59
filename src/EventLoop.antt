-- ===== src/EventLoop.antt =====
-- src/event_loop.h, src/event_loop.cpp: the functors that threads hand to a loop, and the eventfd that wakes it.
pub mod Wakeups
pub mod Loop
mod Tests
use game_frame.Prelude.{
  ℕ, zero, suc, ◌+◌, ◌-◌, ◌<◌, ◌≡◌, Bool, true, false, not, ◌||◌, List, [], ◌∷◌, ◌++◌,
  if◌then◌else◌,
}

-- Where the loop's thread is: before or in `epoll_wait`, among the reported events, or in
-- `do_pending_functors` with these functors left.
pub data Phase {ℓ} (A : Type ℓ) : Type ℓ where
  polls dispatches : Phase A
  runs : List A → Phase A

-- `counter` is that of the eventfd. `announcing` are the threads that have queued a functor and not written to
-- it yet; `accepted` and `done` are the functors queued and run so far, in order.
pub record EventLoop {ℓ} (A : Type ℓ) : Type ℓ where
  pub pending_functors : List A
  pub calling_pending_functors : Bool
  pub counter : ℕ
  pub phase : Phase A
  pub announcing : ℕ
  pub accepted : List A
  pub done : List A

module _ {ℓ} {A : Type ℓ} where
  pub new_loop : EventLoop A
  new_loop = record {
    pending_functors = [];
    calling_pending_functors = false;
    counter = 0;
    phase = polls;
    announcing = 0;
    accepted = [];
    done = [];
  }

  pub wakeup : EventLoop A → EventLoop A
  wakeup s = record s { counter = s.counter + 1 }

  pub handle_wakeup : EventLoop A → EventLoop A
  handle_wakeup s = record s { counter = 0 }

  -- the part of `queue_in_loop` under the lock
  pub push_functor : A → EventLoop A → EventLoop A
  push_functor f s = record s {
    pending_functors = s.pending_functors ++ f ∷ [];
    accepted = s.accepted ++ f ∷ [];
  }

  -- `!in_loop_thread() || calling_pending_functors_`
  pub needs_wakeup : Bool → EventLoop A → Bool
  needs_wakeup in_loop_thread s = not in_loop_thread || s.calling_pending_functors

  -- `queue_in_loop` in the loop's own thread
  pub queue_own : A → EventLoop A → EventLoop A
  queue_own f s =
      let pushed = push_functor f s in if needs_wakeup true pushed then wakeup pushed else pushed

  -- `do_pending_functors` up to the swap, a functor of it, and its end
  pub swap_functors : EventLoop A → EventLoop A
  swap_functors s = record s {
    calling_pending_functors = true;
    phase = runs s.pending_functors;
    pending_functors = [];
  }

  pub run_functor : A → List A → EventLoop A → EventLoop A
  run_functor f rest s = record s { phase = runs rest; done = s.done ++ f ∷ [] }

  pub end_functors : EventLoop A → EventLoop A
  end_functors s = record s { calling_pending_functors = false; phase = polls }

  pub is_polling : Phase A → Bool
  is_polling polls = true
  is_polling dispatches = false
  is_polling (runs rest) = false

  -- A step of the loop's thread or of another one. Before `loop` nothing else in the loop's thread queues a
  -- functor.
  pub data Step (s : EventLoop A) : EventLoop A → Type ℓ where
    -- another thread's `queue_in_loop`: under the lock, and then the write
    queues : (f : A) → Step s (record (push_functor f s) { announcing = s.announcing + 1 })
    writes : 0 < s.announcing → Step s (wakeup (record s { announcing = s.announcing - 1 }))
    -- another thread's `quit` has set the flag
    stirs : Step s (wakeup s)
    -- `epoll_wait` returns, for the eventfd or for another event
    reports : s.phase ≡ polls → Step s (record s { phase = dispatches })
    reads : s.phase ≡ dispatches → Step s (handle_wakeup s)
    -- a callback or a functor queues another one
    queues_own : (f : A) → is_polling s.phase ≡ false → Step s (queue_own f s)
    swaps : s.phase ≡ dispatches → Step s (swap_functors s)
    runs_one : (f : A) (rest : List A) → s.phase ≡ runs (f ∷ rest) → Step s (run_functor f rest s)
    ends : s.phase ≡ runs [] → Step s (end_functors s)

  pub data Reach : EventLoop A → Type ℓ where
    begin : Reach new_loop
    next : {s t : EventLoop A} → Reach s → Step s t → Reach t
