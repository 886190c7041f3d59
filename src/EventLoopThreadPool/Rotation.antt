-- ===== src/EventLoopThreadPool/Rotation.antt =====
-- src/event_loop_thread_pool.cpp: which loop the `k`-th call of `next_loop` returns.
use game_frame.Prelude.{
  ℕ, zero, suc, ◌+◌, ◌%◌, ◌<◌, ◌≡◌, refl, sym, ap, ◌∙◌, true, List, [], ◌∷◌, ◌++◌, some, length,
  get_elem?, append-nil, append_assoc, arith,
}
use native.Mathlib.Nat.{mod-eq_of_lt, mod-lt}
use game_frame.MpscQueue.Ring.{next_slot}
use game_frame.EventLoopThreadPool.{
  EventLoopThreadPool, new_pool, start_threads, start, next_from, next_loop,
}

-- The pool after `k` calls of `next_loop`.
pub after : ℕ → EventLoopThreadPool → EventLoopThreadPool
after zero p = p
after (suc k) p = after k (next_loop p).1

pub next_loop_step :
    (p : EventLoopThreadPool)
    → p.next < length p.loops
    → next_loop p ≡ (get_elem? p.loops p.next, record p { next = (p.next + 1) % length p.loops })
unfolding next_loop next_from
next_loop_step p h = turn p.loops h
  where
    turn :
        (ls : List ℕ)
        → p.next < length ls
        → next_from ls p ≡ (get_elem? ls p.next, record p { next = (p.next + 1) % length ls })
    turn [] h = absurd (omega arith)
    turn (l ∷ ls) h = refl

pub next_loop-main : (p : EventLoopThreadPool) → (next_loop p).1.main_loop ≡ p.main_loop
unfolding next_loop next_from
next_loop-main p = turn p.loops
  where
    turn : (ls : List ℕ) → (next_from ls p).1.main_loop ≡ p.main_loop
    turn [] = refl
    turn (l ∷ ls) = refl

pub after-zero : (p : EventLoopThreadPool) → after 0 p ≡ p
unfolding after
after-zero p = refl

pub next_loop-after :
    (k : ℕ) (p : EventLoopThreadPool) → (next_loop (after k p)).1 ≡ after (suc k) p
unfolding after
next_loop-after zero p = refl
next_loop-after (suc k) p = next_loop-after k (next_loop p).1

-- The cursor goes round.
pub after_lem :
    (k : ℕ) (p : EventLoopThreadPool)
    → p.next < length p.loops
    → after k p ≡ record p { next = (p.next + k) % length p.loops }
unfolding after
after_lem zero p h =
    ap (λ i. record p { next = i }) {x = p.next} {y = (p.next + 0) % length p.loops}
      (sym
        (ap (λ n. n % length p.loops) {x = p.next + 0} {y = p.next} (omega arith) ∙ mod-eq_of_lt h))
after_lem (suc k) p h =
    let p' : EventLoopThreadPool = record p { next = (p.next + 1) % length p.loops } in
    ap (λ r. after k r.1) (next_loop_step p h)
    ∙ after_lem k p' (mod-lt (p.next + 1) (omega arith))
    ∙ ap (λ i. record p { next = i }) (next_slot (length p.loops) p.next k)

module _ (start_loop : ℕ → ℕ) where
  loops_from : ℕ → ℕ → List ℕ
  loops_from zero i = []
  loops_from (suc n) i = start_loop i ∷ loops_from n (suc i)

  start_threads_lem :
      (n i : ℕ) (p : EventLoopThreadPool)
      → start_threads start_loop n i p ≡ record p { loops = p.loops ++ loops_from n i }
  unfolding start_threads loops_from
  start_threads_lem zero i p = ap (λ ls. record p { loops = ls }) (sym (append-nil p.loops))
  start_threads_lem (suc n) i p =
      start_threads_lem n (suc i) (record p { loops = p.loops ++ start_loop i ∷ [] })
      ∙ ap (λ ls. record p { loops = ls })
          (append_assoc p.loops (start_loop i ∷ []) (loops_from n (suc i)))

  length-loops_from : (n i : ℕ) → length (loops_from n i) ≡ n
  unfolding loops_from
  length-loops_from zero i = refl
  length-loops_from (suc n) i = ap suc (length-loops_from n (suc i))

  get_elem?-loops_from :
      (n i k : ℕ) → k < n → get_elem? (loops_from n i) k ≡ some (start_loop (i + k))
  unfolding loops_from
  get_elem?-loops_from zero i k h = absurd (omega arith)
  get_elem?-loops_from (suc n) i zero h =
      ap (λ j. some (start_loop j)) {x = i} {y = i + 0} (omega arith)
  get_elem?-loops_from (suc n) i (suc k) h =
      get_elem?-loops_from n (suc i) k (omega arith)
      ∙ ap (λ j. some (start_loop j)) {x = suc i + k} {y = i + suc k} (omega arith)

  started_pool_lem :
      (main_loop n : ℕ)
      → start start_loop (new_pool main_loop n) ≡ record {
        main_loop = main_loop;
        num_threads = n;
        next = 0;
        started = true;
        loops = loops_from n 0;
      }
  unfolding start new_pool
  started_pool_lem main_loop n =
      start_threads_lem n 0 (record (new_pool main_loop n) { started = true })

  -- The main loop's own address, when the pool has no thread: every connection is on it.
  pub no_threads :
      (main_loop k : ℕ)
      → (next_loop (after k (start start_loop (new_pool main_loop 0)))).0 ≡ some main_loop
  unfolding after next_loop next_from start new_pool start_threads
  no_threads main_loop zero = refl
  no_threads main_loop (suc k) = no_threads main_loop k

  -- With at least one thread, the `k`-th call of `next_loop` on a started pool, counted from 0, returns the
  -- loop of thread `k mod n`: no call reads past the end of `loops_`, and the threads take turns.
  pub round_robin :
      (main_loop n k : ℕ)
      → 0 < n
      → (next_loop (after k (start start_loop (new_pool main_loop n)))).0
        ≡ some (start_loop (k % n))
  round_robin main_loop n k h =
      let p : EventLoopThreadPool = record {
        main_loop = main_loop;
        num_threads = n;
        next = 0;
        started = true;
        loops = loops_from n 0;
      } in
      let size : length (loops_from n 0) ≡ n = length-loops_from n 0 in
      let here : k % length (loops_from n 0) < length (loops_from n 0) = mod-lt k (omega arith) in
      ap (λ q. (next_loop (after k q)).0) (started_pool_lem main_loop n)
      ∙ ap (λ q. (next_loop q).0)
          (after_lem k p (omega arith)
            ∙ ap (λ i. record p { next = i % length (loops_from n 0) }) {x = 0 + k} {y = k}
                (omega arith))
      ∙ ap (λ r. r.0) (next_loop_step (record p { next = k % length (loops_from n 0) }) here)
      ∙ get_elem?-loops_from n 0 (k % length (loops_from n 0)) (omega arith)
      ∙ ap (λ i. some (start_loop i))
          (let e : 0 + k % length (loops_from n 0) ≡ k % length (loops_from n 0) = omega arith in
            e ∙ ap (λ s. k % s) size)
