-- ===== src/MpscQueue/Threads.antt =====
-- util/mpsc_queue.h under any interleaving: producers stop between the lock and the atomic operation
-- behind it, and the consumer may come in there.
pub mod Invariant
pub mod Wakeups
use game_frame.Prelude.{
  ℕ, suc, ◌+◌, ◌≡◌, Bool, true, false, List, [], ◌∷◌, ◌++◌, Option, if◌then◌else◌,
}
use game_frame.MpscQueue.{Queue, new, push_locked, count_dropped, announce, drain, take_dropped}

-- `announcing` producers have put an item in and not yet tried `has_pending_`; `refusing` ones have
-- found the queue full and not yet counted it; `wakes` wake-ups were asked for and not yet served.
-- The last four fields record what has happened: the items put in, in the order of the lock, the
-- values handed to the consumer, the calls of `push` begun, the losses that `take_dropped` returned.
pub record System {ℓ} (A : Type ℓ) : Type ℓ where
  pub queue : Queue A
  pub announcing : ℕ
  pub refusing : ℕ
  pub wakes : ℕ
  pub accepted : List A
  pub delivered : List (Option A)
  pub attempts : ℕ
  pub reported : ℕ

module _ {ℓ} {A : Type ℓ} where
  unfoldable pub start : ℕ → System A
  start capacity = record {
    queue = new capacity;
    announcing = 0;
    refusing = 0;
    wakes = 0;
    accepted = [];
    delivered = [];
    attempts = 0;
    reported = 0;
  }

  -- the consumer's call of `drain`
  abbrev pub drained : ℕ → System A → System A
  drained max_batch s =
      let (taken, out, q) = drain s.queue [] max_batch in
      record s { queue = q; delivered = s.delivered ++ out }

  pub data Step (max_batch : ℕ) (s : System A) : System A → Type ℓ where
    -- `push` under the lock, with room
    enqueue :
        (v : A)
        → (push_locked s.queue v).0 ≡ true
        → Step max_batch s (record s {
          queue = (push_locked s.queue v).1;
          announcing = s.announcing + 1;
          accepted = s.accepted ++ v ∷ [];
          attempts = s.attempts + 1;
        })
    -- `push` under the lock, when full
    refuse :
        (v : A)
        → (push_locked s.queue v).0 ≡ false
        → Step max_batch s (record s {
          queue = (push_locked s.queue v).1;
          refusing = s.refusing + 1;
          attempts = s.attempts + 1;
        })
    -- the exchange behind the lock
    signal :
        (n : ℕ)
        → s.announcing ≡ suc n
        → Step max_batch s (record s {
          queue = (announce s.queue).1;
          announcing = n;
          wakes = if (announce s.queue).0 then s.wakes + 1 else s.wakes;
        })
    -- the count behind the lock
    tally :
        (n : ℕ)
        → s.refusing ≡ suc n
        → Step max_batch s (record s { queue = count_dropped s.queue; refusing = n })
    -- the consumer drains because it was woken
    woken :
        (n : ℕ) → s.wakes ≡ suc n → Step max_batch s (record (drained max_batch s) { wakes = n })
    -- the consumer drains because its timer went off
    ticked : Step max_batch s (drained max_batch s)
    -- the consumer asks for the losses
    report : Step max_batch s (record s {
      queue = (take_dropped s.queue).1;
      reported = s.reported + (take_dropped s.queue).0;
    })

  pub data Reach (capacity max_batch : ℕ) : System A → Type ℓ where
    begin : Reach capacity max_batch (start capacity)
    next :
        {s t : System A}
        → Reach capacity max_batch s
        → Step max_batch s t
        → Reach capacity max_batch t
