-- ===== src/TimerQueue/Invariant.antt =====
-- src/timer_queue.cpp: the set, the index and the timerfd agree after every call on the loop's thread.
use game_frame.Prelude.{
  ℕ, ◌+◌, ◌*◌, ◌≤◌, ◌<◌, ◌≡◌, refl, sym, ap, ◌∙◌, subst, false, List, [], ◌∷◌, max, Option, none,
  some, arith, ◌==◌, if◌then◌else◌, All, Bool-cases, Option-cases, inl, inr,
}
use game_frame.TimerQueue.{
  Entry, ItimerSpec, to_itimerspec, ns_per_sec, TimerQueue, new, insert, erase, before, is_earliest,
  is_first, emplace, forget, reset_timerfd, reset_to_first, add_timer_in_loop, cancel_in_loop,
}
use game_frame.TimerQueue.Order.{
  to_itimerspec_lem, IsSorted, IsFresh, IsDistinct, find, find_of_IsFresh, All-insert,
  insert-IsSorted, insert-IsDistinct, find-insert, All-erase, erase-IsSorted, erase-IsDistinct,
  find-erase,
}

-- The set is in order and holds an id once, the index leads from each id to its node and from no
-- other, and ids still to come are above those in use.
pub record Inv (q : TimerQueue) : Type 0 where
  pub sorted : IsSorted q.timers
  pub distinct : IsDistinct q.timers
  pub indexed : (id : ℕ) → q.id_to_iter id ≡ find id q.timers
  pub issued : All (λ e. e.id < q.next_id) q.timers

-- The timerfd was last set at a time `t` for the first entry: it goes off when that expires, or a
-- nanosecond after `t` if it had expired already.
abbrev pub Armed : List Entry → Option (ℕ × ItimerSpec) → Type 0
Armed [] setting = Unit {0}
Armed (e ∷ es) setting =
    (t : ℕ) × (s : ItimerSpec) × (setting ≡ some (t, s))
    × (t + (s.tv_sec * ns_per_sec + s.tv_nsec) ≡ max (t + 1) e.expiration)

pub new-Inv : Inv new
unfolding new
new-Inv = record { sorted = tt; distinct = tt; indexed = λ id. refl; issued = tt }

pub IsFresh-of_issued : (n : ℕ) (es : List Entry) → All (λ e. e.id < n) es → IsFresh n es
IsFresh-of_issued n [] h = tt
IsFresh-of_issued n (e ∷ es) h = (omega arith, IsFresh-of_issued n es h.1)

pub All-lt_mono :
    (m n : ℕ) (es : List Entry) → m ≤ n → All (λ e. e.id < m) es → All (λ e. e.id < n) es
All-lt_mono m n [] h k = tt
All-lt_mono m n (e ∷ es) h k = (omega arith, All-lt_mono m n es h k.1)

module _ (clock : ℕ → ℕ) where
  reset_timerfd-Armed :
      (q : TimerQueue) (e : Entry) (es : List Entry)
      → Armed (e ∷ es) (reset_timerfd clock q e.expiration).setting
  unfolding reset_timerfd
  reset_timerfd-Armed q e es =
      let l = to_itimerspec_lem (clock q.readings) e.expiration in
      (
        clock q.readings,
        to_itimerspec (clock q.readings) e.expiration,
        refl,
        grind (arith, l.2, l.3),
      )

  -- Setting the timerfd changes the setting and the count of readings.
  pub record Kept (q q' : TimerQueue) : Type 0 where
    pub timers : q'.timers ≡ q.timers
    pub id_to_iter : q'.id_to_iter ≡ q.id_to_iter
    pub next_id : q'.next_id ≡ q.next_id
    pub fired : q'.fired ≡ q.fired

  pub reset_to_first-Kept : (q : TimerQueue) (es : List Entry) → Kept q (reset_to_first clock q es)
  unfolding reset_to_first reset_timerfd
  reset_to_first-Kept q [] = record {
    timers = refl;
    id_to_iter = refl;
    next_id = refl;
    fired = refl;
  }
  reset_to_first-Kept q (e ∷ es) = record {
    timers = refl;
    id_to_iter = refl;
    next_id = refl;
    fired = refl;
  }

  pub Kept-Inv : {q q' : TimerQueue} → Kept q q' → Inv q → Inv q'
  Kept-Inv {q} {q'} k inv = record {
    sorted = subst IsSorted (sym k.timers) inv.sorted;
    distinct = subst IsDistinct (sym k.timers) inv.distinct;
    indexed = λ id. ap (λ f. f id) k.id_to_iter ∙ inv.indexed id ∙ ap (find id) (sym k.timers);
    issued = rw (k.timers, k.next_id) inv.issued;
  }

  pub reset_to_first-Armed :
      (q : TimerQueue) (es : List Entry)
      → q.timers ≡ es
      → Armed (reset_to_first clock q es).timers (reset_to_first clock q es).setting
  unfolding reset_to_first
  reset_to_first-Armed q [] e = rw e tt
  reset_to_first-Armed q (f ∷ fs) e =
      subst (λ ts. Armed ts (reset_timerfd clock q f.expiration).setting)
        (sym ((reset_to_first-Kept q (f ∷ fs)).timers ∙ e)) (reset_timerfd-Armed q f fs)

-- The set and the index behind an insertion, and behind an erasure.
abbrev pub added : TimerQueue → Entry → TimerQueue
added q entry = record q {
  timers = insert entry q.timers;
  id_to_iter = emplace q.id_to_iter entry.id entry.expiration;
}

abbrev pub erased : TimerQueue → ℕ → ℕ → TimerQueue
erased q expiration id = record q {
  timers = erase expiration id q.timers;
  id_to_iter = forget q.id_to_iter id;
}

added-Inv :
    (q : TimerQueue) (entry : Entry)
    → Inv q
    → IsFresh entry.id q.timers
    → entry.id < q.next_id
    → Inv (added q entry)
unfolding emplace
added-Inv q entry inv fresh small = record {
  sorted = insert-IsSorted entry q.timers fresh inv.sorted;
  distinct = insert-IsDistinct entry q.timers fresh inv.distinct;
  indexed = λ j. ground (
    arith,
    inv.indexed j,
    inv.indexed entry.id,
    find_of_IsFresh entry.id q.timers fresh,
    find-insert j entry q.timers fresh,
  );
  issued = All-insert (λ e. e.id < q.next_id) entry q.timers small inv.issued;
}

erased-Inv :
    (q : TimerQueue) (expiration id : ℕ)
    → Inv q
    → q.id_to_iter id ≡ some expiration
    → Inv (erased q expiration id)
unfolding forget
erased-Inv q expiration id inv e = record {
  sorted = erase-IsSorted expiration id q.timers inv.sorted;
  distinct = erase-IsDistinct expiration id q.timers inv.distinct;
  indexed = λ j. ground (
    arith,
    inv.indexed j,
    find-erase j expiration id q.timers inv.distinct (sym (inv.indexed id) ∙ e),
  );
  issued = All-erase (λ e. e.id < q.next_id) expiration id q.timers inv.issued;
}

insert_behind-Armed :
    (e : Entry) (es : List Entry) (s : Option (ℕ × ItimerSpec))
    → is_earliest e es ≡ false
    → Armed es s
    → Armed (insert e es) s
unfolding insert is_earliest
insert_behind-Armed e [] s h a = absurd (cc)
insert_behind-Armed e (f ∷ fs) s h a =
    rw h (elim (Bool-cases (before f e)) [ inl after ↦ rw after a | inr same ↦ rw same a ])

erase_later-Armed :
    (expiration id : ℕ) (es : List Entry) (s : Option (ℕ × ItimerSpec))
    → is_first expiration id es ≡ false
    → Armed es s
    → Armed (erase expiration id es) s
unfolding erase is_first
erase_later-Armed expiration id [] s h a = a
erase_later-Armed expiration id (f ∷ fs) s h a = rw h a

module _ (clock : ℕ → ℕ) where
  -- `add_timer_in_loop` of an id that was issued and is not in the set keeps the set sorted, the ids
  -- distinct, the index in agreement with the set and the ids below the next one.
  pub add_timer-Inv :
      (q : TimerQueue) (entry : Entry)
      → Inv q
      → IsFresh entry.id q.timers
      → entry.id < q.next_id
      → Inv (add_timer_in_loop clock q entry)
  unfolding add_timer_in_loop
  add_timer-Inv q entry inv fresh small =
      let inv' = added-Inv q entry inv fresh small in
      elim (Bool-cases (is_earliest entry q.timers)) [
        | inl first ↦ rw first (
            Kept-Inv clock (reset_to_first-Kept clock (added q entry) (insert entry q.timers)) inv')
        | inr behind ↦ rw behind inv'
      ]

  -- If the timerfd was set for the first entry, it is so after `add_timer_in_loop`.
  pub add_timer-Armed :
      (q : TimerQueue) (entry : Entry)
      → Armed q.timers q.setting
      → Armed (add_timer_in_loop clock q entry).timers (add_timer_in_loop clock q entry).setting
  unfolding add_timer_in_loop
  add_timer-Armed q entry armed = elim (Bool-cases (is_earliest entry q.timers)) [
    | inl first ↦ rw first (reset_to_first-Armed clock (added q entry) (insert entry q.timers) refl)
    | inr behind ↦ rw behind (insert_behind-Armed entry q.timers q.setting behind armed)
  ]

  -- In a queue whose set and index agree, after `cancel_in_loop` of an id no entry has that id, and every
  -- other id has the expiration that it had.
  pub find-cancel :
      (q : TimerQueue) (id j : ℕ)
      → Inv q
      → find j (cancel_in_loop clock q id).timers ≡ (if j == id then none else find j q.timers)
  unfolding cancel_in_loop
  find-cancel q id j inv = elim (Option-cases (q.id_to_iter id)) [
    | inl unknown ↦ rw (unknown, cancel_in_loop) (ground (arith, inv.indexed id))
    | inr (expiration, known) ↦
        let erases =
          find-erase j expiration id q.timers inv.distinct (sym (inv.indexed id) ∙ known) in
        elim (Bool-cases (is_first expiration id q.timers)) [
          | inl first ↦
              rw (known, cancel_in_loop, first)
                (ap (find j)
                    (reset_to_first-Kept clock (erased q expiration id)
                      (erase expiration id q.timers)).timers
                  ∙ erases)
          | inr later ↦ rw (known, cancel_in_loop, later) erases
        ]
  ]

  -- `cancel_in_loop` of any id keeps the set sorted, the ids distinct, the index in agreement with the
  -- set and the ids below the next one.
  pub cancel-Inv : (q : TimerQueue) (id : ℕ) → Inv q → Inv (cancel_in_loop clock q id)
  unfolding cancel_in_loop
  cancel-Inv q id inv = elim (Option-cases (q.id_to_iter id)) [
    | inl unknown ↦ rw (unknown, cancel_in_loop) inv
    | inr (expiration, known) ↦
        let inv' = erased-Inv q expiration id inv known in
        elim (Bool-cases (is_first expiration id q.timers)) [
          | inl first ↦
              rw (known, cancel_in_loop, first)
                (Kept-Inv clock
                  (reset_to_first-Kept clock (erased q expiration id)
                    (erase expiration id q.timers))
                  inv')
          | inr later ↦ rw (known, cancel_in_loop, later) inv'
        ]
  ]

  -- If the timerfd was set for the first entry, it is so for the one that is first after
  -- `cancel_in_loop`, if there is one.
  pub cancel-Armed :
      (q : TimerQueue) (id : ℕ)
      → Armed q.timers q.setting
      → Armed (cancel_in_loop clock q id).timers (cancel_in_loop clock q id).setting
  unfolding cancel_in_loop
  cancel-Armed q id armed = elim (Option-cases (q.id_to_iter id)) [
    | inl unknown ↦ rw (unknown, cancel_in_loop) armed
    | inr (expiration, known) ↦ elim (Bool-cases (is_first expiration id q.timers)) [
      | inl first ↦
          rw (known, cancel_in_loop, first)
            (reset_to_first-Armed clock (erased q expiration id) (erase expiration id q.timers)
              refl)
      | inr later ↦
          rw (known, cancel_in_loop, later)
            (erase_later-Armed expiration id q.timers q.setting later armed)
    ]
  ]
