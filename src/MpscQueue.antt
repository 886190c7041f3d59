-- ===== src/MpscQueue.antt =====
-- util/mpsc_queue.h: the bounded queue from many producers to one consumer. What a mutex guards is one
-- function; what a producer does after unlocking is another, so that threads can come in between.
pub mod Ring
pub mod Drain
pub mod Threads
mod Tests
use game_frame.Prelude.{
  ℕ, zero, suc, ◌+◌, ◌-◌, ◌%◌, Bool, true, false, not, List, [], ◌∷◌, ◌++◌, Option, none, some, ltb,
  ◌==◌, if◌then◌else◌, add_size, get_or, set, replicate,
}

-- `none` in a slot is the value that `T()` or a move leaves there, of which nothing is known.
pub record Queue {ℓ} (A : Type ℓ) : Type ℓ where
  pub cap : ℕ
  pub slots : List (Option A)
  pub head : ℕ
  pub tail : ℕ
  pub count : ℕ
  pub dropped : ℕ
  pub has_pending : Bool

pub record PushResult : Type 0 where
  pub ok : Bool
  pub wake_up : Bool

module _ {ℓ} {A : Type ℓ} where
  -- the member initialisers, for a `cap_`
  abbrev pub allocate : ℕ → Queue A
  allocate cap = record {
    cap = cap;
    slots = replicate cap none;
    head = 0;
    tail = 0;
    count = 0;
    dropped = 0;
    has_pending = false;
  }

  pub new : ℕ → Queue A
  new capacity = allocate (if capacity == 0 then 1 else capacity)

  -- the part of `push` under the lock
  unfoldable pub push_locked : Queue A → A → Bool × Queue A
  push_locked q v = if q.count == q.cap then (false, q) else (
    true,
    record q {
      slots = set q.slots q.tail (some v);
      tail = add_size q.tail 1 % q.cap;
      count = q.count + 1;
    },
  )

  -- `dropped_.fetch_add(1)`
  unfoldable pub count_dropped : Queue A → Queue A
  count_dropped q = record q { dropped = add_size q.dropped 1 }

  -- the exchange of `has_pending_` from false to true: whether it was made, which is the wake-up
  unfoldable pub announce : Queue A → Bool × Queue A
  announce q = (not q.has_pending, record q { has_pending = true })

  unfoldable pub push : Queue A → A → PushResult × Queue A
  push q v =
      let (ok, q') = push_locked q v in
      if ok
      then (record { ok = true; wake_up = (announce q').0 }, (announce q').1)
      else (record { ok = false; wake_up = false }, count_dropped q')

  -- The loop of `drain` with `rounds` of `max_batch - taken` left.
  unfoldable pub drain_loop : ℕ → Queue A → List (Option A) → ℕ → ℕ × List (Option A) × Queue A
  drain_loop zero q out taken = (taken, out, q)
  drain_loop (suc rounds) q out taken =
      let rest =
        drain_loop rounds
          (record q {
            slots = set q.slots q.head none;
            head = add_size q.head 1 % q.cap;
            count = q.count - 1;
          })
          (out ++ get_or q.slots q.head none ∷ []) (taken + 1) in
      if ltb 0 q.count then rest else (taken, out, q)

  -- the end of `drain`, still under the lock
  unfoldable pub settle : Queue A → Queue A
  settle q = if q.count == 0 then record q { has_pending = false } else q

  unfoldable pub drain : Queue A → List (Option A) → ℕ → ℕ × List (Option A) × Queue A
  drain q out max_batch =
      if max_batch == 0
      then (0, out, q)
      else let (taken, out', q') = drain_loop max_batch q out 0 in (taken, out', settle q')

  unfoldable pub take_dropped : Queue A → ℕ × Queue A
  take_dropped q = (q.dropped, record q { dropped = 0 })
