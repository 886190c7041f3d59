-- ===== src/MpscQueue/Drain.antt =====
-- util/mpsc_queue.h: `drain` takes the oldest items, in order, and `push` and `drain` together are a
-- first-in first-out queue that refuses what does not fit.
use game_frame.Prelude.{
  ℕ, zero, suc, ◌+◌, ◌-◌, ◌%◌, ◌<◌, ◌≡◌, refl, sym, ap, ◌∙◌, subst, inl, inr, true, false, List, [],
  ◌∷◌, ◌++◌, Option, none, some, arith, map, append-nil, append_assoc, min, ◌==◌, Bool-cases,
  add_size, length, length-set, take, drop, get_or, set, ◌⊎◌, ==_iff, ne→==, lt→ltb, if◌then◌else◌,
  le→ltb,
}
use game_frame.MpscQueue.{Queue, drain_loop, settle, drain}
use game_frame.MpscQueue.Ring.{Stored, Holds, next_slot, Stored-set_head, Holds-flags}

module _ {ℓ} {A : Type ℓ} where
  -- What `drain` takes under the lock, and what it leaves alone.
  pub record Drained (rounds : ℕ) (q : Queue A) (out : List (Option A)) (taken : ℕ) (xs : List A)
      (r : ℕ × List (Option A) × Queue A) : Type ℓ where
    pub took : r.0 ≡ taken + min rounds (length xs)
    pub items : r.1 ≡ out ++ map some (take rounds xs)
    pub left : Holds r.2 (drop rounds xs)
    pub same_cap : r.2.cap ≡ q.cap
    pub same_dropped : r.2.dropped ≡ q.dropped
    pub same_pending : r.2.has_pending ≡ q.has_pending

  -- the queue after one round of the loop
  abbrev popped : Queue A → Queue A
  popped q = record q {
    slots = set q.slots q.head none;
    head = add_size q.head 1 % q.cap;
    count = q.count - 1;
  }

  popped-Holds : (q : Queue A) (x : A) (xs : List A) → Holds q (x ∷ xs) → Holds (popped q) xs
  popped-Holds q x xs w = record {
    positive = w.positive;
    small = w.small;
    sized = length-set q.slots q.head none ∙ w.sized;
    head_in = omega (arith, w.positive);
    tail_at =
        w.tail_at
        ∙ ap (λ n. (q.head + n) % q.cap) {x = q.count} {y = suc (q.count - 1)}
            (omega (arith, w.counted))
        ∙ sym (next_slot q.cap q.head (q.count - 1))
        ∙ ap (λ n. (n % q.cap + (q.count - 1)) % q.cap) one_more;
    counted = omega (arith, w.counted);
    bounded = omega (arith, w.bounded);
    stored =
        subst (λ n. Stored (set q.slots q.head none) q.cap (n % q.cap) xs) one_more
          (Stored-set_head q.slots q.cap q.head xs w.head_in (omega (arith, w.counted, w.bounded))
            w.stored.1);
  }
    where
      one_more : q.head + 1 ≡ add_size q.head 1
      one_more = omega (arith, w.head_in, w.small)

  Drained-cons :
      (n : ℕ) (q : Queue A) (out : List (Option A)) (taken : ℕ) (x : A) (xs : List A)
      → Holds q (x ∷ xs)
      → (r : ℕ × List (Option A) × Queue A)
      → Drained n (popped q) (out ++ get_or q.slots q.head none ∷ []) (taken + 1) xs r
      → Drained (suc n) q out taken (x ∷ xs) r
  Drained-cons n q out taken x xs w r d = record {
    took = d.took ∙ omega arith;
    items =
        d.items
        ∙ append_assoc out (get_or q.slots q.head none ∷ []) (map some (take n xs))
        ∙ ap (λ v. out ++ v ∷ map some (take n xs)) w.stored.0;
    left = d.left;
    same_cap = d.same_cap;
    same_dropped = d.same_dropped;
    same_pending = d.same_pending;
  }

  pub drain_loop-Drained :
      (rounds : ℕ) (q : Queue A) (out : List (Option A)) (taken : ℕ) (xs : List A)
      → Holds q xs
      → Drained rounds q out taken xs (drain_loop rounds q out taken)
  unfolding drain_loop
  drain_loop-Drained zero q out taken xs w = record {
    took = omega arith;
    items = sym (append-nil out);
    left = w;
    same_cap = refl;
    same_dropped = refl;
    same_pending = refl;
  }
  drain_loop-Drained (suc n) q out taken [] w =
      rw (le→ltb 0 q.count (omega (arith, w.counted))) (record {
        took = omega arith;
        items = sym (append-nil out);
        left = w;
        same_cap = refl;
        same_dropped = refl;
        same_pending = refl;
      })
  drain_loop-Drained (suc n) q out taken (x ∷ xs) w =
      rw (lt→ltb 0 q.count (omega (arith, w.counted))) (
        Drained-cons n q out taken x xs w (drain_loop n (popped q) _ (taken + 1)) (
          drain_loop-Drained n (popped q) (out ++ get_or q.slots q.head none ∷ []) (taken + 1) xs
            (popped-Holds q x xs w)))

  -- What a call of `drain` with room for some items hands out and leaves.
  pub record Emptied (max_batch : ℕ) (q : Queue A) (xs : List A) (out : List (Option A))
      (q' : Queue A) : Type ℓ where
    pub items : out ≡ map some (take max_batch xs)
    pub left : Holds q' (drop max_batch xs)
    pub same_cap : q'.cap ≡ q.cap
    pub same_dropped : q'.dropped ≡ q.dropped
    pub pending :
        ((q'.count ≡ 0) × (q'.has_pending ≡ false))
        ⊎ ((0 < q'.count) × (q'.has_pending ≡ q.has_pending))

  settle-Emptied :
      (max_batch : ℕ) (q : Queue A) (xs : List A) (r : ℕ × List (Option A) × Queue A)
      → Drained max_batch q [] 0 xs r
      → Emptied max_batch q xs r.1 (settle r.2)
  unfolding settle
  settle-Emptied max_batch q xs r d = elim (Bool-cases (r.2.count == 0)) [
    | inl empty ↦ rw empty (record {
      items = d.items;
      left = Holds-flags r.2 _ r.2.dropped false d.left;
      same_cap = d.same_cap;
      same_dropped = d.same_dropped;
      pending = inl ((==_iff r.2.count 0).0 empty, refl);
    })
    | inr more ↦ rw more (record {
      items = d.items;
      left = d.left;
      same_cap = d.same_cap;
      same_dropped = d.same_dropped;
      pending = inr (ground arith, d.same_pending);
    })
  ]

  -- Of a queue that holds `xs`, `drain` with a positive batch size hands out the oldest items up to
  -- that size, in order, keeps the others, leaves the count of losses alone, and takes `has_pending_`
  -- back exactly if nothing is left.
  pub drain-Emptied :
      (max_batch : ℕ) (q : Queue A) (xs : List A)
      → 0 < max_batch
      → Holds q xs
      → let (taken, out, q') = drain q [] max_batch in
        (taken ≡ min max_batch (length xs)) × Emptied max_batch q xs out q'
  unfolding drain
  drain-Emptied max_batch q xs pos w =
      let d = drain_loop-Drained max_batch q [] 0 xs w in
      rw (ne→== max_batch 0 (omega arith))
        (omega (arith, d.took), settle-Emptied max_batch q xs _ d)

  settle-Holds : (q : Queue A) (xs : List A) → Holds q xs → Holds (settle q) xs
  unfolding settle
  settle-Holds q xs w =
      elim (q.count == 0) as (λ b. Holds (if b then record q { has_pending = false } else q) xs) [
        | true ↦ Holds-flags q xs q.dropped false w
        | false ↦ w
      ]

  settle-dropped : (q : Queue A) → (settle q).dropped ≡ q.dropped
  unfolding settle
  settle-dropped q = ground arith

  -- A call of `drain` behind the items that `out` has already.
  pub drain-behind :
      (max_batch : ℕ) (q : Queue A) (out : List (Option A)) (xs : List A)
      → 0 < max_batch
      → Holds q xs
      → let r = drain q out max_batch in
        (r.0 ≡ min max_batch (length xs))
        × (r.1 ≡ out ++ map some (take max_batch xs))
        × Holds r.2 (drop max_batch xs)
        × (r.2.dropped ≡ q.dropped)
  unfolding drain
  drain-behind max_batch q out xs pos w =
      let d = drain_loop-Drained max_batch q out 0 xs w in
      rw (ne→== max_batch 0 (omega arith))
        (omega (arith, d.took), d.items, settle-Holds _ _ d.left, settle-dropped _ ∙ d.same_dropped)
