-- ===== src/TimerQueue/Order.antt =====
-- src/timer_queue.h: the set is sorted by expiration, then by id, and holds an id once.
use game_frame.Prelude.{
  ℕ, ◌+◌, ◌*◌, ◌≤◌, ◌<◌, ◌≡◌, ◌≢◌, refl, sym, ◌⊎◌, inl, inr, true, false, List, [], ◌∷◌, Option,
  none, some, arith, ◌==◌, if◌then◌else◌, All, Bool-cases, ne→==, ◌&&◌,
}
use game_frame.TimerQueue.{Entry, before, to_itimerspec, ns_per_sec, insert, erase}

-- The wait is never the zero that would disarm the timerfd, its nanoseconds are below a second, as the
-- kernel asks, and together they are the time left, or one nanosecond if there is none.
pub to_itimerspec_lem :
    (now expiration : ℕ)
    → let s = to_itimerspec now expiration in
      (s.tv_nsec < ns_per_sec)
      × (1 ≤ s.tv_sec * ns_per_sec + s.tv_nsec)
      × (now < expiration → now + (s.tv_sec * ns_per_sec + s.tv_nsec) ≡ expiration)
      × (expiration ≤ now → s.tv_sec * ns_per_sec + s.tv_nsec ≡ 1)
unfolding to_itimerspec
to_itimerspec_lem now expiration = ground arith

-- `Entry::operator<` as an order on keys.
abbrev pub Before : Entry → Entry → Type 0
Before e f = (e.expiration < f.expiration) ⊎ ((e.expiration ≡ f.expiration) × (e.id < f.id))

pub before→Before : (e f : Entry) → before e f ≡ true → Before e f
unfolding before
before→Before e f h = ground arith

pub before-total : (e f : Entry) → before e f ≡ false → e.id ≢ f.id → before f e ≡ true
unfolding before
before-total e f h ne = ground arith

pub Before-trans : (e f g : Entry) → Before e f → Before f g → Before e g
Before-trans e f g h k = ground arith

-- Strictly ascending.
abbrev pub IsSorted : List Entry → Type 0
IsSorted [] = Unit {0}
IsSorted (e ∷ es) = All (Before e) es × IsSorted es

-- the expiration of the entry with this id
abbrev pub find : ℕ → List Entry → Option ℕ
find id [] = none
find id (e ∷ es) = if e.id == id then some e.expiration else find id es

-- No entry has this id.
abbrev pub IsFresh : ℕ → List Entry → Type 0
IsFresh id = All (λ e. e.id ≢ id)

-- Every id once.
abbrev pub IsDistinct : List Entry → Type 0
IsDistinct [] = Unit {0}
IsDistinct (e ∷ es) = IsFresh e.id es × IsDistinct es

pub find_of_IsFresh : (id : ℕ) (es : List Entry) → IsFresh id es → find id es ≡ none
find_of_IsFresh id [] h = refl
find_of_IsFresh id (e ∷ es) h = rw (ne→== e.id id h.0) (find_of_IsFresh id es h.1)

pub All-insert :
    (P : Entry → Type 0) (e : Entry) (es : List Entry) → P e → All P es → All P (insert e es)
unfolding insert
All-insert P e [] h k = (h, tt)
All-insert P e (f ∷ fs) h k = elim (Bool-cases (before e f)) [
  | inl first ↦ rw first (h, k)
  | inr behind ↦ rw behind (elim (Bool-cases (before f e)) [
    | inl after ↦ rw after (k.0, All-insert P e fs h k.1)
    | inr same ↦ rw same k
  ])
]

All-Before : (e f : Entry) (es : List Entry) → Before e f → All (Before f) es → All (Before e) es
All-Before e f [] h k = tt
All-Before e f (g ∷ gs) h k = (Before-trans e f g h k.0, All-Before e f gs h k.1)

-- Where the new entry goes, by the tests of the code.
pub insert-IsSorted :
    (e : Entry) (es : List Entry) → IsFresh e.id es → IsSorted es → IsSorted (insert e es)
unfolding insert
insert-IsSorted e [] fresh s = (tt, tt)
insert-IsSorted e (f ∷ fs) fresh s = elim (Bool-cases (before e f)) [
  | inl first ↦ let h = before→Before e f first in rw first ((h, All-Before e f fs h s.0), s)
  | inr behind ↦
      let after : before f e ≡ true = before-total e f behind (λ p. fresh.0 (sym p)) in
      rw (behind, after)
        (All-insert (Before f) e fs (before→Before f e after) s.0, insert-IsSorted e fs fresh.1 s.1)
]

pub insert-IsDistinct :
    (e : Entry) (es : List Entry) → IsFresh e.id es → IsDistinct es → IsDistinct (insert e es)
unfolding insert
insert-IsDistinct e [] fresh d = (tt, tt)
insert-IsDistinct e (f ∷ fs) fresh d = elim (Bool-cases (before e f)) [
  | inl first ↦ rw first (fresh, d)
  | inr behind ↦
      let after : before f e ≡ true = before-total e f behind (λ p. fresh.0 (sym p)) in
      rw (behind, after)
        (
          All-insert (λ g. g.id ≢ f.id) e fs (λ p. fresh.0 (sym p)) d.0,
          insert-IsDistinct e fs fresh.1 d.1,
        )
]

pub find-insert :
    (j : ℕ) (e : Entry) (es : List Entry)
    → IsFresh e.id es
    → find j (insert e es) ≡ (if e.id == j then some e.expiration else find j es)
unfolding insert
find-insert j e [] fresh = refl
find-insert j e (f ∷ fs) fresh = elim (Bool-cases (before e f)) [
  | inl first ↦ rw first
  | inr behind ↦
      let after : before f e ≡ true = before-total e f behind (λ p. fresh.0 (sym p)) in
      rw (behind, after) (ground (arith, find-insert j e fs fresh.1, fresh.0))
]

pub All-erase :
    (P : Entry → Type 0) (expiration id : ℕ) (es : List Entry)
    → All P es
    → All P (erase expiration id es)
unfolding erase
All-erase P expiration id [] h = h
All-erase P expiration id (f ∷ fs) h =
    elim (Bool-cases ((f.expiration == expiration) && (f.id == id))) [
      | inl hit ↦ rw hit h.1
      | inr miss ↦ rw miss (h.0, All-erase P expiration id fs h.1)
    ]

pub erase-IsSorted :
    (expiration id : ℕ) (es : List Entry) → IsSorted es → IsSorted (erase expiration id es)
unfolding erase
erase-IsSorted expiration id [] s = s
erase-IsSorted expiration id (f ∷ fs) s =
    elim (Bool-cases ((f.expiration == expiration) && (f.id == id))) [
      | inl hit ↦ rw hit s.1
      | inr miss ↦
          rw miss (All-erase (Before f) expiration id fs s.0, erase-IsSorted expiration id fs s.1)
    ]

pub erase-IsDistinct :
    (expiration id : ℕ) (es : List Entry) → IsDistinct es → IsDistinct (erase expiration id es)
unfolding erase
erase-IsDistinct expiration id [] d = d
erase-IsDistinct expiration id (f ∷ fs) d =
    elim (Bool-cases ((f.expiration == expiration) && (f.id == id))) [
      | inl hit ↦ rw hit d.1
      | inr miss ↦
          rw miss (
            All-erase (λ g. g.id ≢ f.id) expiration id fs d.0,
            erase-IsDistinct expiration id fs d.1,
          )
    ]

-- Erasing the node that an id has removes that id and no other.
pub find-erase :
    (j expiration id : ℕ) (es : List Entry)
    → IsDistinct es
    → find id es ≡ some expiration
    → find j (erase expiration id es) ≡ (if j == id then none else find j es)
unfolding erase
find-erase j expiration id [] d e = cc
find-erase j expiration id (f ∷ fs) d e =
    ground (arith, find-erase j expiration id fs d.1, find_of_IsFresh f.id fs d.0)
