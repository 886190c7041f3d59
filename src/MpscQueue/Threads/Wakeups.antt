-- ===== src/MpscQueue/Threads/Wakeups.antt =====
-- util/mpsc_queue.h: the edge notification loses no wake-up, if a batch can empty the queue.
use game_frame.Prelude.{
  ℕ, ◌^◌, ◌≤◌, ◌<◌, ◌≡◌, ◌⊎◌, inl, inr, true, false, arith, length-drop, List, [],
}
use game_frame.MpscQueue.{Queue, new, count_dropped, announce, drain, take_dropped}
use game_frame.MpscQueue.Ring.{Holds, push_locked_keeps}
use game_frame.MpscQueue.Drain.{drain-Emptied}
use game_frame.MpscQueue.Threads.{
  System, start, Step, enqueue, refuse, signal, tally, woken, ticked, report, Reach, begin, next,
}
use game_frame.MpscQueue.Threads.Invariant.{Inv, Reach-Inv}

module _ {ℓ} {A : Type ℓ} where
  -- The flag stands only while a wake-up is on its way.
  record IsServed (max_batch : ℕ) (s : System A) : Type ℓ where
    whole_batch : s.queue.cap ≤ max_batch
    served : s.queue.has_pending ≡ true → 0 < s.wakes

  -- A batch that can take all takes the flag back.
  drained_unset :
      (max_batch : ℕ) (q : Queue A) (xs : List A)
      → 0 < max_batch
      → Holds q xs
      → q.cap ≤ max_batch
      → ((drain q [] max_batch).2.has_pending ≡ false) × ((drain q [] max_batch).2.cap ≡ q.cap)
  drained_unset max_batch q xs pos w big =
      let e = (drain-Emptied max_batch q xs pos w).1 in
      (
        elim e.pending [
          | inl (empty, unset) ↦ unset
          | inr (more, same) ↦
              absurd (
                omega (arith, more, e.left.counted, w.counted, w.bounded, length-drop max_batch xs))
        ],
        e.same_cap,
      )

  Step-IsServed :
      {max_batch : ℕ} {s t : System A} (xs : List A)
      → 0 < max_batch
      → Inv s xs
      → IsServed max_batch s
      → Step max_batch s t
      → IsServed max_batch t
  unfolding announce count_dropped take_dropped
  Step-IsServed {s = s} xs pos inv h (enqueue v e) = ground (arith, push_locked_keeps s.queue v)
  Step-IsServed {s = s} xs pos inv h (refuse v e) = ground (arith, push_locked_keeps s.queue v)
  Step-IsServed {s = s} xs pos inv h (signal n e) = ground arith
  Step-IsServed xs pos inv h (tally n e) = record { whole_batch = h.whole_batch; served = h.served }
  Step-IsServed {max_batch} {s = s} xs pos inv h (woken n e) =
      let d = drained_unset max_batch s.queue xs pos inv.holds h.whole_batch in
      record { whole_batch = omega (arith, d.1, h.whole_batch); served = λ p. absurd (cc (d.0)) }
  Step-IsServed {max_batch} {s = s} xs pos inv h ticked =
      let d = drained_unset max_batch s.queue xs pos inv.holds h.whole_batch in
      record { whole_batch = omega (arith, d.1, h.whole_batch); served = λ p. absurd (cc (d.0)) }
  Step-IsServed xs pos inv h report = record { whole_batch = h.whole_batch; served = h.served }

  Reach-IsServed :
      {capacity max_batch : ℕ} {s : System A}
      → capacity < 2 ^ 63
      → 0 < max_batch
      → capacity ≤ max_batch
      → Reach capacity max_batch s
      → IsServed max_batch s
  unfolding start new
  Reach-IsServed small pos big begin = record { whole_batch = ground arith; served = λ p. cc }
  Reach-IsServed small pos big (next r st) =
      let (xs, inv) = Reach-Inv small pos r in
      Step-IsServed xs pos inv (Reach-IsServed small pos big r) st

  -- Where one batch can take a full queue, in every reachable state with an item in the queue a wake-up
  -- is outstanding, or a producer still has its exchange of the flag before it.
  pub no_lost_wakeup :
      {capacity max_batch : ℕ} {s : System A}
      → capacity < 2 ^ 63
      → 0 < max_batch
      → capacity ≤ max_batch
      → Reach capacity max_batch s
      → 0 < s.queue.count
      → (0 < s.wakes) ⊎ (0 < s.announcing)
  no_lost_wakeup small pos big r some_left =
      let (xs, inv) = Reach-Inv small pos r in
      elim (inv.announced some_left) [
        | inl set ↦ inl ((Reach-IsServed small pos big r).served set)
        | inr later ↦ inr later
      ]
