-- ===== src/EchoServer/Timers.antt =====
-- src/main.cpp: the idle timers of a connection, over TimerQueue.
use game_frame.Prelude.{
  ℕ, ◌<◌, ◌≡◌, ◌⊎◌, inl, inr, ap, ◌∙◌, Bool, true, false, List, [], ◌∷◌, none, some, arith, All,
  ==_iff, if◌then◌else◌,
}
use game_frame.Connection.{Connection, is_connected, Answer}
use game_frame.TimerQueue.{Script, TimerQueue, cancel_in_loop, call, handle_read}
use game_frame.TimerQueue.Order.{find}
use game_frame.TimerQueue.Invariant.{Inv, find-cancel}
use game_frame.TimerQueue.Gone.{Calm, cancel-Calm}
use game_frame.EchoServer.{Client, on_idle, on_connection, on_message}

-- Before its first connection callback, between the two, and after the second.
pub data Stage : Type 0 where
  before up down : Stage

module _ (clock : ℕ → ℕ) where
  -- What a connection lives through: its callbacks, whatever else is done with it, its own idle timer, and
  -- whatever else happens to the timers of its loop.
  pub data Life : Stage → Client → Type 0 where
    begins :
        (c : Client)
        → Inv c.queue
        → 0 < c.queue.next_id
        → c.context ≡ none
        → c.owned ≡ []
        → Life before c
    rises :
        {c d : Client}
        → Life before c
        → is_connected c.conn.state ≡ true
        → on_connection clock c ≡ some d
        → Life up d
    hears :
        {c d : Client} (writes : List Answer)
        → Life up c
        → on_message clock writes c ≡ some d
        → Life up d
    falls :
        {c d : Client}
        → Life up c
        → is_connected c.conn.state ≡ false
        → on_connection clock c ≡ some d
        → Life down d
    acts :
        {s : Stage} {c : Client} (conn : Connection) → Life s c → Life s (record c { conn = conn })
    idles : {s : Stage} {c : Client} (lives : Bool) → Life s c → Life s (on_idle clock lives c)
    calls :
        {s : Stage} {c : Client} (script : Script)
        → Life s c
        → Life s (record c { queue = call clock script c.queue })
    passes :
        {s : Stage} {c : Client}
        → Life s c
        → Life s (record c { queue = handle_read clock c.queue })

  -- An id that was given to the connection is the one that is kept, or no longer in the set.
  abbrev pub Own : TimerQueue → ℕ → ℕ → Type 0
  Own q id j = (0 < j) × (j < q.next_id) × ((j ≡ id) ⊎ (find j q.timers ≡ none))

  -- No id that was given to the connection is in the set.
  abbrev pub Gone : TimerQueue → ℕ → Type 0
  Gone q j = (0 < j) × (j < q.next_id) × (find j q.timers ≡ none)

  abbrev pub Timers : Stage → Client → Type 0
  Timers before c = (c.context ≡ none) × (c.owned ≡ [])
  Timers up c = (id : ℕ) × (c.context ≡ some id) × All (Own c.queue id) c.owned
  Timers down c = All (Gone c.queue) c.owned

  abbrev pub State : Stage → Client → Type 0
  State s c = Inv c.queue × (0 < c.queue.next_id) × Timers s c

  pub Own-Calm :
      (q q' : TimerQueue) (id : ℕ) (js : List ℕ)
      → Calm q q'
      → All (Own q id) js
      → All (Own q' id) js
  Own-Calm q q' id [] c h = tt
  Own-Calm q q' id (j ∷ js) c ((pos, old, inl e), h) =
      ((pos, omega (arith, old, c.0), inl e), Own-Calm q q' id js c h)
  Own-Calm q q' id (j ∷ js) c ((pos, old, inr gone), h) =
      ((pos, omega (arith, old, c.0), inr (c.1 j old gone)), Own-Calm q q' id js c h)

  Gone-Calm : (q q' : TimerQueue) (js : List ℕ) → Calm q q' → All (Gone q) js → All (Gone q') js
  Gone-Calm q q' [] c h = tt
  Gone-Calm q q' (j ∷ js) c ((pos, old, gone), h) =
      ((pos, omega (arith, old, c.0), c.1 j old gone), Gone-Calm q q' js c h)

  -- The queue may do anything that brings no id back.
  pub State-Calm :
      (s : Stage) (c : Client) (q : TimerQueue)
      → Inv q
      → Calm c.queue q
      → State s c
      → State s (record c { queue = q })
  State-Calm before c q inv calm (old, pos, t) = (inv, omega (arith, pos, calm.0), t)
  State-Calm up c q inv calm (old, pos, (id, e, own)) =
      (inv, omega (arith, pos, calm.0), (id, e, Own-Calm c.queue q id c.owned calm own))
  State-Calm down c q inv calm (old, pos, gone) =
      (inv, omega (arith, pos, calm.0), Gone-Calm c.queue q c.owned calm gone)

  pub cancel-Gone :
      (q : TimerQueue) (id : ℕ) (js : List ℕ)
      → Inv q
      → All (Own q id) js
      → All (Gone (cancel_in_loop clock q id)) js
  cancel-Gone q id [] inv h = tt
  cancel-Gone q id (j ∷ js) inv ((pos, old, inl e), h) = (
    (
      pos,
      omega (arith, old, (cancel-Calm clock q id inv).0),
      find-cancel clock q id j inv
          ∙ ap (λ b. if b then none else find j q.timers) ((==_iff j id).1 e),
    ),
    cancel-Gone q id js inv h,
  )
  cancel-Gone q id (j ∷ js) inv ((pos, old, inr gone), h) = (
    (
      pos,
      omega (arith, old, (cancel-Calm clock q id inv).0),
      (cancel-Calm clock q id inv).1 j old gone,
    ),
    cancel-Gone q id js inv h,
  )

  pub zero-Gone : (q : TimerQueue) (js : List ℕ) → All (Own q 0) js → All (Gone q) js
  zero-Gone q [] h = tt
  zero-Gone q (j ∷ js) ((pos, old, inl e), h) = absurd (omega arith)
  zero-Gone q (j ∷ js) ((pos, old, inr gone), h) = ((pos, old, gone), zero-Gone q js h)

  pub Gone-Own : (q : TimerQueue) (id : ℕ) (js : List ℕ) → All (Gone q) js → All (Own q id) js
  Gone-Own q id [] h = tt
  Gone-Own q id (j ∷ js) ((pos, old, gone), h) = ((pos, old, inr gone), Gone-Own q id js h)
