-- ===== src/EventLoopThreadPool.antt =====
-- src/event_loop_thread_pool.h, src/event_loop_thread_pool.cpp: the loops of the I/O threads, handed out in
-- turn. A loop is the number that stands for its address.
pub mod Rotation
use game_frame.Prelude.{
  ℕ, zero, suc, ◌+◌, ◌%◌, Bool, true, false, List, [], ◌∷◌, ◌++◌, Option, none, some, length,
  get_elem?,
}

pub record EventLoopThreadPool : Type 0 where
  pub main_loop : ℕ
  pub num_threads : ℕ
  pub next : ℕ
  pub started : Bool
  pub loops : List ℕ

unfoldable pub new_pool : ℕ → ℕ → EventLoopThreadPool
new_pool main_loop num_threads = record {
  main_loop = main_loop;
  num_threads = num_threads;
  next = 0;
  started = false;
  loops = [];
}

module _ (start_loop : ℕ → ℕ) where
  -- The loop over the threads from the `i`-th on: `start_loop` is what the `EventLoopThread` of each
  -- number returns.
  unfoldable pub start_threads : ℕ → ℕ → EventLoopThreadPool → EventLoopThreadPool
  start_threads zero i p = p
  start_threads (suc n) i p =
      start_threads n (suc i) (record p { loops = p.loops ++ start_loop i ∷ [] })

  unfoldable pub start : EventLoopThreadPool → EventLoopThreadPool
  start p = start_threads p.num_threads 0 (record p { started = true })

-- `none` is an index that is out of range.
unfoldable pub next_from : List ℕ → EventLoopThreadPool → Option ℕ × EventLoopThreadPool
next_from [] p = (some p.main_loop, p)
next_from (l ∷ ls) p =
    (get_elem? (l ∷ ls) p.next, record p { next = (p.next + 1) % length (l ∷ ls) })

unfoldable pub next_loop : EventLoopThreadPool → Option ℕ × EventLoopThreadPool
next_loop p = next_from p.loops p
