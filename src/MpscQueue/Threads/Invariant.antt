-- ===== src/MpscQueue/Threads/Invariant.antt =====
-- util/mpsc_queue.h: what holds between any two steps of its threads.
use game_frame.Prelude.{
  ℕ, ◌+◌, ◌^◌, ◌<◌, ◌≡◌, refl, sym, ap, ◌∙◌, subst, ◌⊎◌, inl, inr, true, false, List, [], ◌∷◌, ◌++◌,
  Option, some, arith, map, append_assoc, length, length-append, take, drop, take-append-drop,
  length-drop, add_size,
}
use mathlib.Core.List.{map-append}
use game_frame.MpscQueue.{new, push_locked, count_dropped, announce, drain, take_dropped}
use game_frame.MpscQueue.Ring.{Holds, new-Holds, push_locked-Holds, Holds-flags, push_locked_keeps}
use game_frame.MpscQueue.Drain.{drain-Emptied}
use game_frame.MpscQueue.Threads.{
  System, start, drained, Step, enqueue, refuse, signal, tally, woken, ticked, report, Reach, begin,
  next,
}

module _ {ℓ} {A : Type ℓ} where
  -- The items in the queue, with those handed out, are those put in, in order; an item in the queue
  -- is announced or about to be; no call of `push` goes uncounted.
  pub record Inv (s : System A) (xs : List A) : Type ℓ where
    pub holds : Holds s.queue xs
    pub in_order : s.delivered ++ map some xs ≡ map some s.accepted
    pub announced : 0 < s.queue.count → (s.queue.has_pending ≡ true) ⊎ (0 < s.announcing)
    pub accounted :
        s.attempts < 2 ^ 64
        → s.attempts ≡ length s.accepted + s.refusing + s.queue.dropped + s.reported

  start-Inv : (capacity : ℕ) → capacity < 2 ^ 63 → Inv (start capacity) []
  unfolding start new
  start-Inv capacity h = record {
    holds = new-Holds capacity h;
    in_order = refl;
    announced = λ lt. absurd (omega arith);
    accounted = λ lt. refl;
  }

  append_one :
      (out : List (Option A)) (xs acc : List A) (v : A)
      → out ++ map some xs ≡ map some acc
      → out ++ map some (xs ++ v ∷ []) ≡ map some (acc ++ v ∷ [])
  append_one out xs acc v e =
      ap (λ ys. out ++ ys) (map-append some xs (v ∷ []))
      ∙ sym (append_assoc out (map some xs) (some v ∷ []))
      ∙ ap (λ ys. ys ++ some v ∷ []) e
      ∙ sym (map-append some acc (v ∷ []))

  -- The consumer's call, whoever woke it.
  drained-Inv :
      {s : System A} {xs : List A} (max_batch : ℕ)
      → 0 < max_batch
      → Inv s xs
      → Inv (drained max_batch s) (drop max_batch xs)
  drained-Inv {s} {xs} max_batch pos inv =
      let e = (drain-Emptied max_batch s.queue xs pos inv.holds).1 in
      record {
        holds = e.left;
        in_order =
            append_assoc s.delivered (drain s.queue [] max_batch).1 (map some (drop max_batch xs))
            ∙ ap (λ ys. s.delivered ++ ys)
                (ap (λ o. o ++ map some (drop max_batch xs)) e.items
                  ∙ sym (map-append some (take max_batch xs) (drop max_batch xs))
                  ∙ ap (map some) (take-append-drop max_batch xs))
            ∙ inv.in_order;
        announced = λ lt. elim e.pending [
          | inl (empty, unset) ↦ absurd (omega (arith, empty))
          | inr (more, same) ↦
              elim (inv.announced (
                omega (arith, more, e.left.counted, inv.holds.counted, length-drop max_batch xs))) [
                  | inl set ↦ inl (same ∙ set)
                  | inr later ↦ inr later
                ]
        ];
        accounted = λ lt.
            inv.accounted lt
            ∙ ap (λ d. length s.accepted + s.refusing + d + s.reported) (sym e.same_dropped);
      }

  enqueue-Inv :
      {s : System A} (xs : List A) (v : A)
      → Inv s xs
      → (push_locked s.queue v).0 ≡ true
      → (ys : List A) × Inv
          (record s {
            queue = (push_locked s.queue v).1;
            announcing = s.announcing + 1;
            accepted = s.accepted ++ v ∷ [];
            attempts = s.attempts + 1;
          })
          ys
  enqueue-Inv {s = s} xs v inv ok = elim (push_locked-Holds s.queue v xs inv.holds) [
    | inr (full, same) ↦ absurd (cc (ap (λ r. r.0) same))
    | inl (room, pushed, w) ↦ (
      xs ++ v ∷ [],
      record {
        holds = w;
        in_order = append_one s.delivered xs s.accepted v inv.in_order;
        announced = λ lt. inr (omega arith);
        accounted = λ lt. omega (
          arith,
          inv.accounted (omega arith),
          length-append s.accepted (v ∷ []),
          (push_locked_keeps s.queue v).1,
        );
      },
    )
  ]

  refuse-Inv :
      {s : System A} (xs : List A) (v : A)
      → Inv s xs
      → (push_locked s.queue v).0 ≡ false
      → Inv
          (record s {
            queue = (push_locked s.queue v).1;
            refusing = s.refusing + 1;
            attempts = s.attempts + 1;
          })
          xs
  refuse-Inv {s = s} xs v inv ok = elim (push_locked-Holds s.queue v xs inv.holds) [
    | inl (room, pushed, w) ↦ absurd (cc)
    | inr (full, same) ↦
        let unchanged : s.queue ≡ (push_locked s.queue v).1 = sym (ap (λ r. r.1) same) in
        record {
          holds = subst (λ q. Holds q xs) unchanged inv.holds;
          in_order = inv.in_order;
          announced =
              subst (λ q. 0 < q.count → (q.has_pending ≡ true) ⊎ (0 < s.announcing)) unchanged
                inv.announced;
          accounted =
              λ lt. omega (arith, inv.accounted (omega arith), (push_locked_keeps s.queue v).1);
        }
  ]

  -- Every step of any thread keeps the invariant, for the items that it leaves in the queue.
  pub Step-Inv :
      {max_batch : ℕ} {s t : System A} (xs : List A)
      → 0 < max_batch
      → Inv s xs
      → Step max_batch s t
      → (ys : List A) × Inv t ys
  unfolding announce count_dropped take_dropped
  Step-Inv {max_batch} {s = s} xs pos inv (enqueue v e) = enqueue-Inv xs v inv e
  Step-Inv {s = s} xs pos inv (refuse v e) = (xs, refuse-Inv xs v inv e)
  Step-Inv {s = s} xs pos inv (signal n e) = (
    xs,
    record {
      holds = Holds-flags s.queue xs s.queue.dropped true inv.holds;
      in_order = inv.in_order;
      announced = λ lt. inl refl;
      accounted = inv.accounted;
    },
  )
  Step-Inv {s = s} xs pos inv (tally n e) = (
    xs,
    record {
      holds = Holds-flags s.queue xs (add_size s.queue.dropped 1) s.queue.has_pending inv.holds;
      in_order = inv.in_order;
      announced = inv.announced;
      accounted = λ lt. omega (arith, inv.accounted lt, e);
    },
  )
  Step-Inv {max_batch} {s = s} xs pos inv (woken n e) =
      let d = drained-Inv max_batch pos inv in
      (
        drop max_batch xs,
        record {
          holds = d.holds;
          in_order = d.in_order;
          announced = d.announced;
          accounted = d.accounted;
        },
      )
  Step-Inv {max_batch} xs pos inv ticked = (drop max_batch xs, drained-Inv max_batch pos inv)
  Step-Inv {s = s} xs pos inv report = (
    xs,
    record {
      holds = Holds-flags s.queue xs 0 s.queue.has_pending inv.holds;
      in_order = inv.in_order;
      announced = inv.announced;
      accounted = λ lt. omega (arith, inv.accounted lt);
    },
  )

  -- In every state reachable with a capacity below 2^63 and a batch of one at least, the values handed out, then those in the queue, are the items put in, in
  -- the order of the lock; an item in the queue is announced, or a producer is about to announce one;
  -- and every call of `push` begun is an item put in, a loss counted or reported, or one about to be
  -- counted, as long as there are fewer than 2^64 of them.
  pub Reach-Inv :
      {capacity max_batch : ℕ} {s : System A}
      → capacity < 2 ^ 63
      → 0 < max_batch
      → Reach capacity max_batch s
      → (xs : List A) × Inv s xs
  Reach-Inv {capacity} small pos begin = ([], start-Inv capacity small)
  Reach-Inv small pos (next r st) = let (xs, inv) = Reach-Inv small pos r in Step-Inv xs pos inv st
