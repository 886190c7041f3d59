-- ===== src/EchoServer/Idle.antt =====
-- src/main.cpp: at most one idle timer of a connection waits, and none after its end.
use game_frame.Prelude.{
  ℕ, ◌<◌, ◌≡◌, ◌⊎◌, inl, inr, refl, sym, ap, ◌∙◌, subst, Bool, true, false, ◌&&◌, List, [], ◌∷◌,
  Option, none, some, arith, All, Bool-cases, either, ==_iff, ◌==◌, if◌then◌else◌, codes, some-inj,
  length,
}
use game_frame.Buffer.{retrieve_all_as_string}
use game_frame.Connection.{Connection, is_connected, Answer, send}
use game_frame.TimerQueue.{finished, TimerQueue, run_after, call, handle_read}
use game_frame.TimerQueue.Order.{find}
use game_frame.TimerQueue.Invariant.{Inv, cancel-Inv}
use game_frame.TimerQueue.Firing.{run_after-Inv, call-Inv, handle_read-Inv}
use game_frame.TimerQueue.Gone.{
  run_after-Calm, cancel-Calm, call-Calm, handle_read-Calm, run_after_id,
}
use game_frame.EchoServer.{
  idle_timeout_ms, Client, log, disarm, set_timer, arm_idle_timer, on_idle, on_up, on_down,
  on_connection, on_message, connected_line, disconnected_line, received_line, boom_line, occurs,
  preview_of,
}
use game_frame.EchoServer.Timers.{
  Stage, before, up, down, Life, begins, rises, hears, falls, acts, idles, calls, passes, Own, Gone,
  State, Own-Calm, State-Calm, cancel-Gone, zero-Gone, Gone-Own,
}

module _ (clock : ℕ → ℕ) where
  -- A connection none of whose ids is in the set.
  abbrev Quiet : Client → Type 0
  Quiet c = Inv c.queue × (0 < c.queue.next_id) × All (Gone clock c.queue) c.owned

  disarm-Quiet :
      (id : ℕ) (c : Client)
      → Inv c.queue
      → 0 < c.queue.next_id
      → All (Own clock c.queue id) c.owned
      → Quiet (disarm clock id c)
  unfolding disarm
  disarm-Quiet id c inv pos own = elim (Bool-cases (id == 0)) [
    | inl none_set ↦
        let zero_id = (==_iff id 0).0 none_set in
        rw none_set (
          inv,
          pos,
          zero-Gone clock c.queue c.owned
              (subst (λ i. All (Own clock c.queue i) c.owned) zero_id own),
        )
    | inr set ↦ rw set (
      cancel-Inv clock c.queue id inv,
      omega (arith, pos, (cancel-Calm clock c.queue id inv).0),
      cancel-Gone clock c.queue id c.owned inv own,
    )
  ]

  set_timer-State : (c : Client) → Quiet c → State clock up (set_timer clock c)
  unfolding set_timer
  set_timer-State c (inv, pos, gone) =
      let r = run_after clock c.queue idle_timeout_ms (some finished) in
      let ids = run_after_id clock c.queue idle_timeout_ms (some finished) in
      let calm = run_after-Calm clock c.queue idle_timeout_ms (some finished) inv in
      (
        run_after-Inv clock c.queue idle_timeout_ms (some finished) inv,
        omega (arith, pos, calm.0),
        (
          r.0,
          refl,
          (
            (omega (arith, ids, pos), omega (arith, ids), inl refl),
            Own-Calm clock c.queue r.1 r.0 c.owned calm (Gone-Own clock c.queue r.0 c.owned gone),
          ),
        ),
      )

  -- `arm_idle_timer` finds its context, and afterwards only the new timer can be in the set.
  arm-State :
      (c : Client) (id : ℕ)
      → Inv c.queue
      → 0 < c.queue.next_id
      → c.context ≡ some id
      → All (Own clock c.queue id) c.owned
      → (d : Client) × (arm_idle_timer clock c ≡ some d) × State clock up d
  unfolding arm_idle_timer
  arm-State c id inv pos here own = (
    set_timer clock (disarm clock id c),
    ap
        (λ o. elim o as (λ _. Option Client) [
          | none ↦ none
          | some i ↦ some (set_timer clock (disarm clock i c))
        ])
        here,
    set_timer-State (disarm clock id c) (disarm-Quiet id c inv pos own),
  )

  -- What is given back when a call is known to give `d`.
  given :
      (s : Stage) (o : Option Client) (d : Client)
      → ((e : Client) × (o ≡ some e) × State clock s e)
      → o ≡ some d
      → State clock s d
  given s o d (e, found, state) h = subst (State clock s) (some-inj (sym found ∙ h)) state

  rises-State :
      (c : Client)
      → State clock before c
      → is_connected c.conn.state ≡ true
      → (d : Client) × (on_connection clock c ≡ some d) × State clock up d
  unfolding on_connection on_up
  rises-State c (inv, pos, (fresh, nothing)) connected =
      let ready : Client = record c { context = some 0 } in
      let (armed, found, state) =
        arm-State ready 0 inv pos refl (subst (All (Own clock c.queue 0)) (sym nothing) tt) in
      (
        log connected_line armed,
        ap (λ b. if b then on_up clock c else some (on_down clock c)) connected
            ∙ ap
                (λ o. elim o as (λ _. Option Client) [
                  | none ↦ none
                  | some a ↦ some (log connected_line a)
                ])
                found,
        state,
      )

  falls-State :
      (c : Client)
      → State clock up c
      → is_connected c.conn.state ≡ false
      → (d : Client) × (on_connection clock c ≡ some d) × State clock down d
  unfolding on_connection on_down
  falls-State c (inv, pos, (id, here, own)) gone = (
    log disconnected_line (disarm clock id c),
    ap (λ b. if b then on_up clock c else some (on_down clock c)) gone
        ∙ ap
            (λ o. some (elim o as (λ _. Client) [
              | none ↦ log disconnected_line c
              | some i ↦ log disconnected_line (disarm clock i c)
            ]))
            here,
    disarm-Quiet id c inv pos own,
  )

  hears-State :
      (writes : List Answer) (c : Client)
      → State clock up c
      → (d : Client) × (on_message clock writes c ≡ some d) × State clock up d
  unfolding on_message
  hears-State writes c (inv, pos, (id, here, own)) =
      let r = retrieve_all_as_string c.conn.input_buffer in
      let heard = log (received_line (length r.0) (preview_of r.0)) c in
      let told = if occurs (codes "BOOM") r.0 then log boom_line heard else heard in
      let after = record told {
        conn = (send writes r.0 (record c.conn { input_buffer = r.1 })).1;
      } in
      either
        (λ (t : Client).
          (d : Client) × (arm_idle_timer clock
              (record t { conn = (send writes r.0 (record c.conn { input_buffer = r.1 })).1 })
            ≡ some d)
          × State clock up d)
        (occurs (codes "BOOM") r.0) (arm-State _ id inv pos here own)
        (arm-State _ id inv pos here own)

  idles-State :
      (s : Stage) (c : Client) (lives : Bool)
      → State clock s c
      → State clock s (on_idle clock lives c)
  unfolding on_idle
  idles-State before c lives h =
      either (State clock before) (lives && is_connected c.conn.state) h h
  idles-State up c lives h = either (State clock up) (lives && is_connected c.conn.state) h h
  idles-State down c lives h = either (State clock down) (lives && is_connected c.conn.state) h h

  acts-State :
      (s : Stage) (c : Client) (conn : Connection)
      → State clock s c
      → State clock s (record c { conn = conn })
  acts-State before c conn h = h
  acts-State up c conn h = h
  acts-State down c conn h = h

  Life-State : {s : Stage} {c : Client} → Life clock s c → State clock s c
  Life-State (begins c inv pos fresh nothing) = (inv, pos, (fresh, nothing))
  Life-State (rises {c} {d} l connected e) =
      given up (on_connection clock c) d (rises-State c (Life-State l) connected) e
  Life-State (hears {c} {d} writes l e) =
      given up (on_message clock writes c) d (hears-State writes c (Life-State l)) e
  Life-State (falls {c} {d} l gone e) =
      given down (on_connection clock c) d (falls-State c (Life-State l) gone) e
  Life-State (acts {s} {c} conn l) = acts-State s c conn (Life-State l)
  Life-State (idles {s} {c} lives l) = idles-State s c lives (Life-State l)
  Life-State (calls {s} {c} script l) =
      let h = Life-State l in
      State-Calm clock s c (call clock script c.queue) (call-Inv clock script c.queue h.0)
        (call-Calm clock script c.queue h.0) h
  Life-State (passes {s} {c} l) =
      let h = Life-State l in
      State-Calm clock s c (handle_read clock c.queue) (handle_read-Inv clock c.queue h.0).0
        (handle_read-Calm clock c.queue h.0) h

  one_left :
      (q : TimerQueue) (id : ℕ) (js : List ℕ)
      → All (Own clock q id) js
      → All (λ j. (some id ≡ some j) ⊎ (find j q.timers ≡ none)) js
  one_left q id [] h = tt
  one_left q id (j ∷ js) ((pos, old, inl e), h) = (inl (ap some (sym e)), one_left q id js h)
  one_left q id (j ∷ js) ((pos, old, inr gone), h) = (inr gone, one_left q id js h)

  none_left :
      (q : TimerQueue) (js : List ℕ) → All (Gone clock q) js → All (λ j. find j q.timers ≡ none) js
  none_left q [] h = tt
  none_left q (j ∷ js) ((pos, old, gone), h) = (gone, none_left q js h)

  -- Between the callbacks only the timer whose id is kept can be in the set, and the context is there; after
  -- the second one no timer of the connection is.
  abbrev pub Timed : Stage → Client → Type 0
  Timed before c = c.owned ≡ []
  Timed up c =
      (id : ℕ) × (c.context ≡ some id)
      × All (λ j. (some id ≡ some j) ⊎ (find j c.queue.timers ≡ none)) c.owned
      × ((d : Client) × (arm_idle_timer clock c ≡ some d))
  Timed down c = All (λ j. find j c.queue.timers ≡ none) c.owned

  -- Whatever messages come, whatever the kernel takes of the answers, whenever the connection is closed and
  -- its timer goes off, and whatever other connections do with the timers of the loop: between its two
  -- connection callbacks a connection has a context, so that `arm_idle_timer` does not follow a null pointer,
  -- and of all the timers that were set for it only the one whose id is kept there can be in the set; after
  -- the second callback none of them is.
  pub Life-Timed : {s : Stage} {c : Client} → Life clock s c → Timed s c
  Life-Timed {s} {c} l = by_stage s (Life-State l)
    where
      by_stage : (s : Stage) → State clock s c → Timed s c
      by_stage before (inv, pos, (fresh, nothing)) = nothing
      by_stage up (inv, pos, (id, here, own)) =
          let (d, found, state) = arm-State c id inv pos here own in
          (id, here, one_left c.queue id c.owned own, (d, found))
      by_stage down (inv, pos, gone) = none_left c.queue c.owned gone
