-- ===== src/EventLoop/Wakeups.antt =====
-- src/event_loop.cpp: the loop does not sleep over a functor, and runs the functors in order.
use game_frame.Prelude.{
  ◌+◌, ◌-◌, ◌<◌, ◌≡◌, ◌≢◌, ◌⊎◌, inl, inr, refl, sym, ap, ◌∙◌, subst, true, false, ◌||◌, List, [],
  ◌∷◌, ◌++◌, append-nil, append_assoc, if◌then◌else◌, arith,
}
use game_frame.EventLoop.{
  Phase, polls, dispatches, runs, EventLoop, new_loop, wakeup, handle_wakeup, push_functor,
  needs_wakeup, queue_own, swap_functors, run_functor, end_functors, is_polling, Step, queues,
  writes, stirs, reports, reads, queues_own, swaps, runs_one, ends, Reach, begin, next,
}

module _ {ℓ} {A : Type ℓ} where
  -- The functors of the batch that are left.
  abbrev pub left_of : Phase A → List A
  left_of polls = []
  left_of dispatches = []
  left_of (runs rest) = rest

  -- Nothing is queued, or a wake-up is written or about to be.
  abbrev Woken : EventLoop A → Type ℓ
  Woken s = (s.pending_functors ≡ []) ⊎ (0 < s.counter + s.announcing)

  -- Among events the queue is looked at next, in any case.
  abbrev Covered : Phase A → EventLoop A → Type ℓ
  Covered polls s = Woken s × (s.calling_pending_functors ≡ false)
  Covered dispatches s = Unit × (s.calling_pending_functors ≡ false)
  Covered (runs rest) s = Woken s × (s.calling_pending_functors ≡ true)

  record Inv (s : EventLoop A) : Type ℓ where
    covered : Covered s.phase s
    ordered : s.accepted ≡ s.done ++ left_of s.phase ++ s.pending_functors

  new_loop-Inv : Inv new_loop
  unfolding new_loop
  new_loop-Inv = record { covered = (inl refl, refl); ordered = refl }

  push_ordered :
      (f : A) (s : EventLoop A)
      → s.accepted ≡ s.done ++ left_of s.phase ++ s.pending_functors
      → s.accepted ++ f ∷ [] ≡ s.done ++ left_of s.phase ++ (s.pending_functors ++ f ∷ [])
  push_ordered f s h =
      ap (λ xs. xs ++ f ∷ []) h
      ∙ append_assoc (s.done ++ left_of s.phase) s.pending_functors (f ∷ [])

  queues-Covered :
      (p : Phase A) (f : A) (s : EventLoop A)
      → Covered p s
      → Covered p (record (push_functor f s) { announcing = s.announcing + 1 })
  unfolding push_functor
  queues-Covered polls f s c = (inr (omega arith), c.1)
  queues-Covered dispatches f s c = c
  queues-Covered (runs rest) f s c = (inr (omega arith), c.1)

  stirs-Covered : (p : Phase A) (s : EventLoop A) → Covered p s → Covered p (wakeup s)
  unfolding wakeup
  stirs-Covered polls s c = (inr (omega arith), c.1)
  stirs-Covered dispatches s c = c
  stirs-Covered (runs rest) s c = (inr (omega arith), c.1)

  writes-Covered :
      (p : Phase A) (s : EventLoop A)
      → Covered p s
      → Covered p (wakeup (record s { announcing = s.announcing - 1 }))
  unfolding wakeup
  writes-Covered polls s c = (inr (omega arith), c.1)
  writes-Covered dispatches s c = c
  writes-Covered (runs rest) s c = (inr (omega arith), c.1)

  queue_own-Inv :
      (p : Phase A) (f : A) (s : EventLoop A)
      → s.phase ≡ p
      → is_polling p ≡ false
      → Inv s
      → Inv (queue_own f s)
  unfolding queue_own needs_wakeup push_functor wakeup is_polling
  queue_own-Inv polls f s e h i = cc
  queue_own-Inv dispatches f s e h i =
      let c = subst (λ p. Covered p s) e i.covered in
      let pushed : EventLoop A = push_functor f s in
      subst Inv (sym (ap (λ b. if false || b then wakeup pushed else pushed) c.1)) (record {
        covered = subst (λ p. Covered p pushed) (sym e) c;
        ordered = push_ordered f s i.ordered;
      })
  queue_own-Inv (runs rest) f s e h i =
      let c = subst (λ p. Covered p s) e i.covered in
      let pushed : EventLoop A = push_functor f s in
      subst Inv (sym (ap (λ b. if false || b then wakeup pushed else pushed) c.1)) (record {
        covered = subst (λ p. Covered p (wakeup pushed)) (sym e) (inr (omega arith), c.1);
        ordered = push_ordered f s i.ordered;
      })

  step-Inv : (s t : EventLoop A) → Step s t → Inv s → Inv t
  unfolding push_functor wakeup handle_wakeup swap_functors run_functor end_functors
  step-Inv s _ (queues f) i = record {
    covered = queues-Covered s.phase f s i.covered;
    ordered = push_ordered f s i.ordered;
  }
  step-Inv s _ (writes h) i = record {
    covered = writes-Covered s.phase s i.covered;
    ordered = i.ordered;
  }
  step-Inv s _ stirs i = record { covered = stirs-Covered s.phase s i.covered; ordered = i.ordered }
  step-Inv s _ (reports e) i =
      let c = subst (λ p. Covered p s) e i.covered in
      record {
        covered = (tt, c.1);
        ordered = subst (λ p. s.accepted ≡ s.done ++ left_of p ++ s.pending_functors) e i.ordered;
      }
  step-Inv s _ (reads e) i =
      let c = subst (λ p. Covered p s) e i.covered in
      record {
        covered = subst (λ p. Covered p (record s { counter = 0 })) (sym e) (tt, c.1);
        ordered = i.ordered;
      }
  step-Inv s _ (queues_own f e) i = queue_own-Inv s.phase f s refl e i
  step-Inv s _ (swaps e) i = record {
    covered = (inl refl, refl);
    ordered =
        subst (λ p. s.accepted ≡ s.done ++ left_of p ++ s.pending_functors) e i.ordered
        ∙ ap (λ xs. xs ++ s.pending_functors) (append-nil s.done)
        ∙ sym (append-nil (s.done ++ s.pending_functors));
  }
  step-Inv s _ (runs_one f rest e) i =
      let c = subst (λ p. Covered p s) e i.covered in
      record {
        covered = c;
        ordered =
            subst (λ p. s.accepted ≡ s.done ++ left_of p ++ s.pending_functors) e i.ordered
            ∙ ap (λ xs. xs ++ s.pending_functors) (sym (append_assoc s.done (f ∷ []) rest));
      }
  step-Inv s _ (ends e) i =
      let c = subst (λ p. Covered p s) e i.covered in
      record {
        covered = (c.0, refl);
        ordered = subst (λ p. s.accepted ≡ s.done ++ left_of p ++ s.pending_functors) e i.ordered;
      }

  Reach-Inv : (s : EventLoop A) → Reach s → Inv s
  Reach-Inv _ begin = new_loop-Inv
  Reach-Inv t (next {s = s} r st) = step-Inv s t st (Reach-Inv s r)

  -- In every state that is reached, in any interleaving of other threads with the loop's, which itself
  -- queues functors from callbacks and functors only: the functors have
  -- run in the order in which they were queued, and those that have not run are the rest of the batch
  -- followed by the queue, none lost or doubled; and when the loop's thread is about to wait or waits, with
  -- a functor queued, the eventfd has been written to since it was read, or a thread is about to write to it.
  pub no_functor_sleeps :
      (s : EventLoop A)
      → Reach s
      → (s.accepted ≡ s.done ++ left_of s.phase ++ s.pending_functors)
        × (s.phase ≡ polls → s.pending_functors ≢ [] → 0 < s.counter + s.announcing)
  no_functor_sleeps s r =
      let i = Reach-Inv s r in
      (
        i.ordered,
        λ e some_left. elim (subst (λ p. Covered p s) e i.covered).0 [
          | inl empty ↦ absurd (some_left empty)
          | inr woken ↦ woken
        ],
      )
