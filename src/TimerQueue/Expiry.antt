-- ===== src/TimerQueue/Expiry.antt =====
-- src/timer_queue.cpp, the first loop of `handle_read`: which entries it takes out, and what is left.
use game_frame.Prelude.{
  ℕ, ◌<◌, ◌≡◌, refl, sym, ap, false, List, [], ◌∷◌, Option, none, some, arith, leb, if◌then◌else◌,
  All, Bool-cases, inl, inr, lt→leb, leb→lt,
}
use game_frame.TimerQueue.{Entry, forget, take_expired}
use game_frame.TimerQueue.Order.{IsSorted, IsFresh, IsDistinct, Before, find, find_of_IsFresh}

-- The entries that expire by `now`, and those that do not.
abbrev pub due : ℕ → List Entry → List Entry
due now [] = []
due now (e ∷ es) = if leb e.expiration now then e ∷ due now es else due now es

abbrev pub later : ℕ → List Entry → List Entry
later now [] = []
later now (e ∷ es) = if leb e.expiration now then later now es else e ∷ later now es

-- the ids of the entries that have a callback
abbrev pub calls : List Entry → List ℕ
calls [] = []
calls (e ∷ es) = elim e.cb [ none ↦ calls es | some script ↦ e.id ∷ calls es ]

-- Behind an entry that is not due nothing is.
none_due :
    (now : ℕ) (e : Entry) (es : List Entry)
    → now < e.expiration
    → All (Before e) es
    → (due now es ≡ []) × (later now es ≡ es)
none_due now e [] h k = (refl, refl)
none_due now e (f ∷ fs) h k =
    let late : leb f.expiration now ≡ false = lt→leb f.expiration now (ground (arith, h, k.0)) in
    let rest = none_due now e fs h k.1 in rw late (rest.0, ap (λ gs. f ∷ gs) rest.1)

-- What the loop of `handle_read` leaves, with the ids below `n`.
pub record Split (now n : ℕ) (ts : List Entry) (r : List Entry × List Entry × (ℕ → Option ℕ))
    : Type 0 where
  pub taken : r.0 ≡ due now ts
  pub kept : r.1 ≡ later now ts
  pub sorted : IsSorted r.1
  pub distinct : IsDistinct r.1
  pub indexed : (id : ℕ) → r.2 id ≡ find id r.1
  pub issued : All (λ e. e.id < n) r.1

-- Forgetting the first id leaves the index of the rest.
forget-find :
    (m : ℕ → Option ℕ) (e : Entry) (es : List Entry)
    → IsFresh e.id es
    → ((id : ℕ) → m id ≡ find id (e ∷ es))
    → (id : ℕ) → forget m e.id id ≡ find id es
unfolding forget
forget-find m e es fresh i id = ground (arith, i id, find_of_IsFresh e.id es fresh)

pub take_expired-Split :
    (now n : ℕ) (ts : List Entry) (m : ℕ → Option ℕ)
    → IsSorted ts
    → IsDistinct ts
    → ((id : ℕ) → m id ≡ find id ts)
    → All (λ e. e.id < n) ts
    → Split now n ts (take_expired now ts m)
unfolding take_expired
take_expired-Split now n [] m s d i b = record {
  taken = refl;
  kept = refl;
  sorted = tt;
  distinct = tt;
  indexed = i;
  issued = tt;
}
take_expired-Split now n (e ∷ es) m s d i b =
    let rest = take_expired-Split now n es (forget m e.id) s.1 d.1 (forget-find m e es d.0 i) b.1 in
    elim (Bool-cases (leb e.expiration now)) [
      | inl expired ↦ rw expired (record {
        taken = rw expired (ap (λ gs. e ∷ gs) rest.taken);
        kept = rw expired rest.kept;
        sorted = rest.sorted;
        distinct = rest.distinct;
        indexed = rest.indexed;
        issued = rest.issued;
      })
      | inr waits ↦
          let none = none_due now e es (leb→lt e.expiration now waits) s.0 in
          rw waits (record {
            taken = rw waits (sym none.0);
            kept = rw waits (ap (λ gs. e ∷ gs) (sym none.1));
            sorted = s;
            distinct = d;
            indexed = i;
            issued = b;
          })
    ]
