-- ===== src/LogSender/Ticks.antt =====
-- log_sender/log_sender.cpp: how many tick timers are pending.
use game_frame.Prelude.{
  ℕ, ◌+◌, ◌-◌, ◌≤◌, ◌≡◌, inl, inr, refl, sym, ap, ◌∙◌, subst, Bool, true, false, not, ◌&&◌, ◌||◌,
  List, [], ◌∷◌, Option, none, some, ltb, ltb→lt, Bool-cases, ◌==◌, if◌then◌else◌, arith,
}
use game_frame.MpscQueue.{push, drain, take_dropped}
use game_frame.LogSender.{
  LogSender, schedule_next_tick, on_connection, on_high_water, on_write_complete, send_on, line_of,
  send_batch, is_up, do_drain_and_send, on_tick, fire_timer, run_wake_up, push_line, loss_notice,
}

-- A line that is pushed, a tick timer that fires, a wake-up that the loop runs, a connection that is up or
-- down, the high-water mark, and the empty output buffer.
pub data Event : Type 0 where
  pushes : List ℕ → Event
  fires wakes : List Bool → Event
  links : Bool → Event
  floods drains : Event

-- What decides on the timers is as it was.
record Keeps (s t : LogSender) : Type 0 where
  started : t.started ≡ s.started
  stopped : t.stopped ≡ s.stopped
  timers : t.timers ≡ s.timers
  functors : t.functors ≡ s.functors

keeps : {s : LogSender} → Keeps s s
keeps = record { started = refl; stopped = refl; timers = refl; functors = refl }

Keeps-trans : {s t u : LogSender} → Keeps s t → Keeps t u → Keeps s u
Keeps-trans h k = record {
  started = k.started ∙ h.started;
  stopped = k.stopped ∙ h.stopped;
  timers = k.timers ∙ h.timers;
  functors = k.functors ∙ h.functors;
}

send_on-Keeps :
    (o : Option Bool) (b : Bool) (p : List ℕ) (s : LogSender) → Keeps s (send_on o b p s)
unfolding send_on on_connection
send_on-Keeps none b p s = record { started = refl; stopped = refl; timers = refl; functors = refl }
send_on-Keeps (some up) true p s = record {
  started = refl;
  stopped = refl;
  timers = refl;
  functors = refl;
}
send_on-Keeps (some up) false p s = record {
  started = refl;
  stopped = refl;
  timers = refl;
  functors = refl;
}

send_batch-Keeps :
    (answers : List Bool) (ps : List (Option (List ℕ))) (s : LogSender)
    → Keeps s (send_batch answers ps s)
unfolding send_batch
send_batch-Keeps answers [] s = keeps
send_batch-Keeps [] (p ∷ ps) s =
    Keeps-trans (send_on-Keeps s.connection true (line_of p) s)
      (send_batch-Keeps [] ps (send_on s.connection true (line_of p) s))
send_batch-Keeps (b ∷ answers) (p ∷ ps) s =
    Keeps-trans (send_on-Keeps s.connection b (line_of p) s)
      (send_batch-Keeps answers ps (send_on s.connection b (line_of p) s))

on_connection-Keeps : (up : Bool) (s : LogSender) → Keeps s (on_connection up s)
unfolding on_connection
on_connection-Keeps true s = record {
  started = refl;
  stopped = refl;
  timers = refl;
  functors = refl;
}
on_connection-Keeps false s = record {
  started = refl;
  stopped = refl;
  timers = refl;
  functors = refl;
}

on_write_complete-Keeps : (s : LogSender) → Keeps s (on_write_complete s)
unfolding on_write_complete
on_write_complete-Keeps s =
    elim s.paused as (λ b. Keeps s (if b then record s { paused = false } else s)) [
      | true ↦ record { started = refl; stopped = refl; timers = refl; functors = refl }
      | false ↦ keeps
    ]

-- The wake-ups that the queue asks for at a push: 1 or none.
abbrev pub edge : List ℕ → LogSender → ℕ
edge line s = if (push s.queue line).0.wake_up then 1 else 0

module _ (to_string : ℕ → List ℕ) where
  do_drain_and_send-Keeps :
      (answers : List Bool) (s : LogSender) → Keeps s (do_drain_and_send to_string answers s)
  unfolding do_drain_and_send
  do_drain_and_send-Keeps answers s =
      let taken = take_dropped s.queue in
      let r = drain taken.1 (loss_notice to_string taken.0) s.opts.max_batch_per_tick in
      elim ((r.0 == 0) && (taken.0 == 0))
        as (λ b. Keeps s (
          if b
          then record s { queue = r.2 }
          else send_batch answers r.1 (record s { queue = r.2 }))) [
            | true ↦ record { started = refl; stopped = refl; timers = refl; functors = refl }
            | false ↦
                let k = send_batch-Keeps answers r.1 (record s { queue = r.2 }) in
                record {
                  started = k.started;
                  stopped = k.stopped;
                  timers = k.timers;
                  functors = k.functors;
                }
          ]

  -- A tick sends, or does not, and sets one timer.
  on_tick_lem :
      (answers : List Bool) (s : LogSender)
      → s.stopped ≡ false
      → ((on_tick to_string answers s).started ≡ s.started)
        × ((on_tick to_string answers s).stopped ≡ false)
        × ((on_tick to_string answers s).timers ≡ s.timers + 1)
        × ((on_tick to_string answers s).functors ≡ s.functors)
  unfolding on_tick schedule_next_tick
  on_tick_lem answers s running =
      subst
        (λ t.
          (t.started ≡ s.started)
          × (t.stopped ≡ false)
          × (t.timers ≡ s.timers + 1)
          × (t.functors ≡ s.functors))
        (sym (
          ap
            (λ b.
              if b
              then s
              else schedule_next_tick (
                  if is_up s.connection && not s.paused
                  then do_drain_and_send to_string answers s
                  else s))
            running))
        (elim (is_up s.connection && not s.paused)
          as (λ b.
            let t = schedule_next_tick (if b then do_drain_and_send to_string answers s else s) in
            (t.started ≡ s.started)
            × (t.stopped ≡ false)
            × (t.timers ≡ s.timers + 1)
            × (t.functors ≡ s.functors)) [
              | true ↦
                  scheduled (do_drain_and_send to_string answers s)
                    (do_drain_and_send-Keeps answers s)
              | false ↦ scheduled s keeps
            ])
    where
      scheduled :
          (t : LogSender)
          → Keeps s t
          → ((schedule_next_tick t).started ≡ s.started)
            × ((schedule_next_tick t).stopped ≡ false)
            × ((schedule_next_tick t).timers ≡ s.timers + 1)
            × ((schedule_next_tick t).functors ≡ s.functors)
      scheduled t k =
          subst
            (λ u.
              (u.started ≡ s.started)
              × (u.stopped ≡ false)
              × (u.timers ≡ s.timers + 1)
              × (u.functors ≡ s.functors))
            (sym
              (ap (λ b. if b then t else record t { timers = t.timers + 1 }) (k.stopped ∙ running)))
            (k.started, k.stopped ∙ running, ap (λ n. n + 1) k.timers, k.functors)

  -- Only a pending timer fires, and only a queued functor runs.
  unfoldable pub handle : Event → LogSender → LogSender
  handle (pushes line) s = (push_line line s).1
  handle (fires answers) s = if ltb 0 s.timers then fire_timer to_string answers s else s
  handle (wakes answers) s = if ltb 0 s.functors then run_wake_up to_string answers s else s
  handle (links up) s = on_connection up s
  handle floods s = on_high_water s
  handle drains s = on_write_complete s

  unfoldable pub run : List Event → LogSender → LogSender
  run [] s = s
  run (e ∷ es) s = run es (handle e s)

  edge_of : Event → LogSender → ℕ
  edge_of (pushes line) s = edge line s
  edge_of e s = 0

  -- How many pushes of a run asked for a wake-up.
  pub edges : List Event → LogSender → ℕ
  edges [] s = 0
  edges (e ∷ es) s = edge_of e s + edges es (handle e s)

  -- Running, with no fewer timers, and as many timers and functors as that.
  abbrev Grown : ℕ → ℕ → LogSender → Type 0
  Grown timers sum t =
      (t.started ≡ true) × (t.stopped ≡ false) × (timers ≤ t.timers) × (t.timers + t.functors ≡ sum)

  Keeps-Grown :
      (s t : LogSender)
      → Keeps s t
      → s.started ≡ true
      → s.stopped ≡ false
      → Grown s.timers (s.timers + s.functors + 0) t
  Keeps-Grown s t k on off = (
    k.started ∙ on,
    k.stopped ∙ off,
    omega (arith, k.timers),
    omega (arith, k.timers, k.functors),
  )

  handle-Grown :
      (e : Event) (s : LogSender)
      → s.started ≡ true
      → s.stopped ≡ false
      → Grown s.timers (s.timers + s.functors + edge_of e s) (handle e s)
  unfolding handle edge_of push_line fire_timer run_wake_up on_high_water
  handle-Grown (pushes line) s on off =
      elim (push s.queue line).0.wake_up
        as (λ b. Grown s.timers (s.timers + s.functors + (if b then 1 else 0)) (
          if b
          then record s { queue = (push s.queue line).1; functors = s.functors + 1 }
          else record s { queue = (push s.queue line).1 })) [
            | true ↦ (on, off, omega arith, omega arith)
            | false ↦ (on, off, omega arith, omega arith)
          ]
  handle-Grown (fires answers) s on off = elim (Bool-cases (ltb 0 s.timers)) [
    | inl pending ↦
        let fired : LogSender = record s { timers = s.timers - 1 } in
        let t = on_tick_lem answers fired off in
        subst
          (λ b.
            Grown s.timers (s.timers + s.functors + 0)
              (if b then on_tick to_string answers fired else s))
          (sym pending)
          (
            t.0 ∙ on,
            t.1,
            omega (arith, t.2, ltb→lt 0 s.timers pending),
            omega (arith, t.2, t.3, ltb→lt 0 s.timers pending),
          )
    | inr no_timer ↦
        subst
          (λ b.
            Grown s.timers (s.timers + s.functors + 0)
              (if b then on_tick to_string answers (record s { timers = s.timers - 1 }) else s))
          (sym no_timer) (Keeps-Grown s s keeps on off)
  ]
  handle-Grown (wakes answers) s on off =
      let taken : LogSender = record s { functors = s.functors - 1 } in
      let ran : LogSender =
        if not s.started || s.stopped then taken else on_tick to_string answers taken in
      let t = on_tick_lem answers taken off in
      let does : ran ≡ on_tick to_string answers taken =
        ap (λ b. if not b || s.stopped then taken else on_tick to_string answers taken) on
        ∙ ap (λ b. if b then taken else on_tick to_string answers taken) off in
      elim (Bool-cases (ltb 0 s.functors)) [
        | inl queued ↦
            subst (λ b. Grown s.timers (s.timers + s.functors + 0) (if b then ran else s))
              (sym queued)
              (subst (Grown s.timers (s.timers + s.functors + 0)) (sym does) (
                t.0 ∙ on,
                t.1,
                omega (arith, t.2),
                omega (arith, t.2, t.3, ltb→lt 0 s.functors queued),
              ))
        | inr none_queued ↦
            subst (λ b. Grown s.timers (s.timers + s.functors + 0) (if b then ran else s))
              (sym none_queued) (Keeps-Grown s s keeps on off)
      ]
  handle-Grown (links up) s on off = Keeps-Grown s _ (on_connection-Keeps up s) on off
  handle-Grown floods s on off = (on, off, omega arith, omega arith)
  handle-Grown drains s on off = Keeps-Grown s _ (on_write_complete-Keeps s) on off

  timers_kept :
      (es : List Event) (s : LogSender)
      → s.started ≡ true
      → s.stopped ≡ false
      → (s.timers ≤ (run es s).timers)
        × ((run es s).timers + (run es s).functors ≡ s.timers + s.functors + edges es s)
  unfolding run edges
  timers_kept [] s on off = (omega arith, omega arith)
  timers_kept (e ∷ es) s on off =
      let g = handle-Grown e s on off in
      let rest = timers_kept es (handle e s) g.0 g.1 in
      (omega (arith, g.2, rest.0), omega (arith, g.3, rest.1))

  -- From a sender that is started and not stopped, through any pushes, timers, wake-ups and events of the
  -- connection, with sends that fail or not, as long as none goes through the null pointer that a failed send
  -- leaves: it has as many tick timers pending at the end as at the beginning or more, so that the ticks do not
  -- cease; and each push that asked for a wake-up adds one for good, to the pending timers or to the functors
  -- that become one.
  pub run-timers :
      (es : List Event) (s : LogSender)
      → s.started ≡ true
      → s.stopped ≡ false
      → (run es s).null_sends ≡ s.null_sends
      → (s.timers ≤ (run es s).timers)
        × ((run es s).timers + (run es s).functors ≡ s.timers + s.functors + edges es s)
  run-timers es s on off sound = timers_kept es s on off
