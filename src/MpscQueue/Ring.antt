-- ===== src/MpscQueue/Ring.antt =====
-- util/mpsc_queue.h: the ring of slots holds a first-in first-out list of at most `cap` items.
use game_frame.Prelude.{
  ℕ, suc, ◌+◌, ◌-◌, ◌%◌, ◌^◌, ◌≤◌, ◌<◌, ◌≡◌, ◌≢◌, refl, sym, ap, ◌∙◌, inl, inr, Bool, true, false,
  List, [], ◌∷◌, ◌++◌, Option, none, some, arith, ◌==◌, Bool-cases, add_size, length, length-append,
  length-set, length-replicate, get_or, set, get_or-set_self, get_or-set_ne, ◌⊎◌, ==_iff,
}
use native.Mathlib.Nat.{mod-eq_of_lt, mod-eq-sub-mod, mod-add-mod, add-zero}
use native.Mathlib.Decide.{dec_lt}
use game_frame.MpscQueue.{Queue, allocate, new, push_locked, push, announce, count_dropped}

-- Fewer than `size` slots further on is another slot.
slot_differs : (size h k : ℕ) → h < size → 0 < k → k < size → (h + k) % size ≢ h
slot_differs size h k hh pos hk = elim (dec_lt (h + k) size) [
  | yes inside ↦ omega (arith, mod-eq_of_lt inside)
  | no round ↦ omega (
    arith,
    mod-eq-sub-mod {n = h + k} {m = size} (omega arith),
    mod-eq_of_lt {n = h + k - size} {m = size} (omega arith),
  )
]

pub next_slot : (size h k : ℕ) → ((h + 1) % size + k) % size ≡ (h + suc k) % size
next_slot size h k =
    rw mod-add-mod (ap (λ n. n % size) {x = h + 1 + k} {y = h + suc k} (omega arith))

-- `(i + 1) % size_`, which does not wrap.
advance :
    (size h c : ℕ)
    → 0 < size
    → size < 2 ^ 63
    → add_size ((h + c) % size) 1 % size ≡ (h + (c + 1)) % size
advance size h c pos small =
    ap (λ n. n % size) {x = add_size ((h + c) % size) 1} {y = (h + c) % size + 1} (omega arith)
    ∙ rw mod-add-mod (ap (λ n. n % size) {x = h + c + 1} {y = h + (c + 1)} (omega arith))

module _ {ℓ} {A : Type ℓ} where
  -- Going round from slot `h`, the slots hold these items.
  abbrev pub Stored : List (Option A) → ℕ → ℕ → List A → Type ℓ
  Stored slots cap h [] = Unit
  Stored slots cap h (x ∷ xs) = (get_or slots h none ≡ some x) × Stored slots cap ((h + 1) % cap) xs

  -- The queue holds the items `xs`, oldest first.
  pub record Holds (q : Queue A) (xs : List A) : Type ℓ where
    pub positive : 0 < q.cap
    pub small : q.cap < 2 ^ 63
    pub sized : length q.slots ≡ q.cap
    pub head_in : q.head < q.cap
    pub tail_at : q.tail ≡ (q.head + q.count) % q.cap
    pub counted : q.count ≡ length xs
    pub bounded : q.count ≤ q.cap
    pub stored : Stored q.slots q.cap q.head xs

  -- Writing a slot that none of the items is in.
  Stored-set_away :
      (slots : List (Option A)) (cap h i : ℕ) (w : Option A) (xs : List A)
      → ((k : ℕ) → k < length xs → i ≢ (h + k) % cap)
      → h < cap
      → Stored slots cap h xs
      → Stored (set slots i w) cap h xs
  Stored-set_away slots cap h i w [] away hh s = tt
  Stored-set_away slots cap h i w (x ∷ xs) away hh s = (
    get_or-set_ne slots i h w none
          (λ e. away 0 (omega arith) (e ∙ sym (rw add-zero (mod-eq_of_lt hh))))
        ∙ s.0,
    Stored-set_away slots cap ((h + 1) % cap) i w xs
        (λ k lt e. away (suc k) (omega arith) (e ∙ next_slot cap h k)) (omega arith) s.1,
  )

  -- Writing the slot behind the last item.
  Stored-set_tail :
      (slots : List (Option A)) (cap h i : ℕ) (v : A) (xs : List A)
      → i ≡ (h + length xs) % cap
      → h < cap
      → length xs < cap
      → length slots ≡ cap
      → Stored slots cap h xs
      → Stored (set slots i (some v)) cap h (xs ++ v ∷ [])
  Stored-set_tail slots cap h i v [] e hh room size s =
      let here : i ≡ h = e ∙ rw add-zero (mod-eq_of_lt hh) in
      (rw here (get_or-set_self slots h (some v) none (omega arith)), tt)
  Stored-set_tail slots cap h i v (x ∷ xs) e hh room size s = (
    get_or-set_ne slots i h (some v) none
          (rw e (slot_differs cap h (suc (length xs)) hh (omega arith) room))
        ∙ s.0,
    Stored-set_tail slots cap ((h + 1) % cap) i v xs (e ∙ sym (next_slot cap h (length xs)))
        (omega arith) (omega arith) size s.1,
  )

  -- Taking the first item out of its slot.
  pub Stored-set_head :
      (slots : List (Option A)) (cap h : ℕ) (xs : List A)
      → h < cap
      → suc (length xs) ≤ cap
      → Stored slots cap ((h + 1) % cap) xs
      → Stored (set slots h none) cap ((h + 1) % cap) xs
  Stored-set_head slots cap h xs hh room s =
      Stored-set_away slots cap ((h + 1) % cap) h none xs
        (λ k lt e.
          slot_differs cap h (suc k) hh (omega arith) (omega arith) (sym (e ∙ next_slot cap h k)))
        (omega arith) s

  allocate-Holds : (cap : ℕ) → 0 < cap → cap < 2 ^ 63 → Holds (allocate cap) []
  allocate-Holds cap pos h = record {
    positive = pos;
    small = h;
    sized = length-replicate cap none;
    head_in = pos;
    tail_at = omega (arith, mod-eq_of_lt pos);
    counted = refl;
    bounded = omega arith;
    stored = tt;
  }

  -- A new queue is empty, and has room for one item at least.
  pub new-Holds : (capacity : ℕ) → capacity < 2 ^ 63 → Holds (new capacity) []
  unfolding new
  new-Holds capacity h = allocate-Holds _ (ground arith) (ground arith)

  -- The two atomic fields say nothing of the ring.
  pub Holds-flags :
      (q : Queue A) (xs : List A) (d : ℕ) (p : Bool)
      → Holds q xs
      → Holds (record q { dropped = d; has_pending = p }) xs
  Holds-flags q xs d p w = record {
    positive = w.positive;
    small = w.small;
    sized = w.sized;
    head_in = w.head_in;
    tail_at = w.tail_at;
    counted = w.counted;
    bounded = w.bounded;
    stored = w.stored;
  }

  -- In a queue that holds `xs`, the part of `push` under the lock puts the item behind the others if
  -- there is room, and otherwise says false and leaves the queue as it was.
  pub push_locked-Holds :
      (q : Queue A) (v : A) (xs : List A)
      → Holds q xs
      → ((length xs < q.cap)
          × ((push_locked q v).0 ≡ true)
          × Holds (push_locked q v).1 (xs ++ v ∷ []))
        ⊎ ((length xs ≡ q.cap) × (push_locked q v ≡ (false, q)))
  unfolding push_locked
  push_locked-Holds q v xs w = elim (Bool-cases (q.count == q.cap)) [
    | inl full ↦ inr (omega (arith, w.counted, (==_iff q.count q.cap).0 full), rw full)
    | inr room ↦
        let less : q.count < q.cap = omega (arith, w.bounded, count_ne room) in
        inl (
          omega (arith, less, w.counted),
          rw room,
          rw room (record {
            positive = w.positive;
            small = w.small;
            sized = length-set q.slots q.tail (some v) ∙ w.sized;
            head_in = w.head_in;
            tail_at =
                ap (λ n. add_size n 1 % q.cap) w.tail_at
                ∙ advance q.cap q.head q.count w.positive w.small;
            counted = omega (arith, w.counted, length-append xs (v ∷ []));
            bounded = omega arith;
            stored =
                Stored-set_tail q.slots q.cap q.head q.tail v xs
                  (w.tail_at ∙ ap (λ n. (q.head + n) % q.cap) w.counted) w.head_in
                  (omega (arith, less, w.counted)) w.sized w.stored;
          }),
        )
  ]
    where
      count_ne : (q.count == q.cap) ≡ false → q.count ≢ q.cap
      count_ne = λ f e. ground arith

  -- The part under the lock leaves the capacity and the two atomic fields alone.
  pub push_locked_keeps :
      (q : Queue A) (v : A)
      → ((push_locked q v).1.cap ≡ q.cap)
        × ((push_locked q v).1.dropped ≡ q.dropped)
        × ((push_locked q v).1.has_pending ≡ q.has_pending)
  unfolding push_locked
  push_locked_keeps q v = ground arith

  -- `push` puts the item behind the others if there is room, and counts it as lost if there is none.
  pub push-Holds :
      (q : Queue A) (v : A) (xs : List A)
      → Holds q xs
      → ((length xs < q.cap)
          × Holds (push q v).1 (xs ++ v ∷ [])
          × ((push q v).1.dropped ≡ q.dropped))
        ⊎ ((length xs ≡ q.cap)
            × Holds (push q v).1 xs
            × ((push q v).1.dropped ≡ add_size q.dropped 1))
  unfolding push announce count_dropped
  push-Holds q v xs w = elim (push_locked-Holds q v xs w) [
    | inl (room, ok, held) ↦
        let p = (push_locked q v).1 in
        inl (
          rw ok (room, Holds-flags p (xs ++ v ∷ []) p.dropped true held, (push_locked_keeps q v).1))
    | inr (full, refused) ↦
        inr (rw refused (full, Holds-flags q xs (add_size q.dropped 1) q.has_pending w, refl))
  ]
