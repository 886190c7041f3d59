-- ===== src/TimerQueue/Firing.antt =====
-- src/timer_queue.cpp, `handle_read`: the callbacks it calls, and what they may do to the queue meanwhile.
use game_frame.Prelude.{
  ℕ, suc, ◌+◌, ◌*◌, ◌≡◌, refl, sym, ap, ◌∙◌, List, [], ◌∷◌, ◌++◌, Option, some, arith, Bool-cases,
  Option-cases, inl, inr, append_assoc, append-nil,
}
use game_frame.TimerQueue.{
  Entry, Script, finished, schedule, schedule_after, withdraw, TimerQueue, take_expired,
  add_timer_in_loop, cancel_in_loop, run_at, run_after, call, fire, fire_all, handle_read, is_first,
  is_earliest,
}
use game_frame.TimerQueue.Invariant.{
  Inv, Armed, Kept-Inv, reset_to_first-Kept, reset_to_first-Armed, IsFresh-of_issued, All-lt_mono,
  add_timer-Inv, cancel-Inv, added, erased,
}
use game_frame.TimerQueue.Expiry.{due, calls, Split, take_expired-Split}

module _ (clock : ℕ → ℕ) where
  pub run_at-Inv :
      (q : TimerQueue) (t : ℕ) (cb : Option Script) → Inv q → Inv (run_at clock q t cb).1
  unfolding run_at
  run_at-Inv q t cb inv =
      let entry : Entry = record { expiration = t; id = q.next_id; cb = cb } in
      let bumped : Inv (record q { next_id = suc q.next_id }) = record {
        sorted = inv.sorted;
        distinct = inv.distinct;
        indexed = inv.indexed;
        issued = All-lt_mono q.next_id (suc q.next_id) q.timers (omega arith) inv.issued;
      } in
      add_timer-Inv clock (record q { next_id = suc q.next_id }) entry bumped
        (IsFresh-of_issued q.next_id q.timers inv.issued) (omega arith)

  pub run_after-Inv :
      (q : TimerQueue) (delay : ℕ) (cb : Option Script) → Inv q → Inv (run_after clock q delay cb).1
  unfolding run_after
  run_after-Inv q delay cb inv =
      run_at-Inv (record q { readings = suc q.readings }) (clock q.readings + delay * 1_000_000) cb
        (record {
          sorted = inv.sorted;
          distinct = inv.distinct;
          indexed = inv.indexed;
          issued = inv.issued;
        })

  pub call-Inv : (script : Script) (q : TimerQueue) → Inv q → Inv (call clock script q)
  unfolding call
  call-Inv finished q inv = inv
  call-Inv (schedule t cb rest) q inv =
      call-Inv rest (run_at clock q t (some cb)).1 (run_at-Inv q t (some cb) inv)
  call-Inv (schedule_after delay cb rest) q inv =
      call-Inv rest (run_after clock q delay (some cb)).1 (run_after-Inv q delay (some cb) inv)
  call-Inv (withdraw id rest) q inv =
      call-Inv rest (cancel_in_loop clock q id) (cancel-Inv clock q id inv)

  pub fire-Inv : (e : Entry) (q : TimerQueue) → Inv q → Inv (fire clock e q)
  unfolding fire
  fire-Inv e q inv = elim (Option-cases e.cb) [
    | inl empty ↦ rw (empty, fire) inv
    | inr (script, callback) ↦
        rw (callback, fire)
          (call-Inv script (record q { fired = q.fired ++ e.id ∷ [] })
            (record {
              sorted = inv.sorted;
              distinct = inv.distinct;
              indexed = inv.indexed;
              issued = inv.issued;
            }))
  ]

  pub fire_all-Inv : (es : List Entry) (q : TimerQueue) → Inv q → Inv (fire_all clock es q)
  unfolding fire_all
  fire_all-Inv [] q inv = inv
  fire_all-Inv (e ∷ es) q inv = fire_all-Inv es (fire clock e q) (fire-Inv e q inv)

  add_timer-fired : (q : TimerQueue) (e : Entry) → (add_timer_in_loop clock q e).fired ≡ q.fired
  unfolding add_timer_in_loop
  add_timer-fired q e = elim (Bool-cases (is_earliest e q.timers)) [
    | inl first ↦ rw first (reset_to_first-Kept clock (added q e) (added q e).timers).fired
    | inr behind ↦ rw behind
  ]

  cancel-fired : (q : TimerQueue) (id : ℕ) → (cancel_in_loop clock q id).fired ≡ q.fired
  unfolding cancel_in_loop
  cancel-fired q id = elim (Option-cases (q.id_to_iter id)) [
    | inl unknown ↦ rw (unknown, cancel_in_loop)
    | inr (expiration, known) ↦ elim (Bool-cases (is_first expiration id q.timers)) [
      | inl first ↦
          rw (known, cancel_in_loop, first)
            (reset_to_first-Kept clock (erased q expiration id)
              (erased q expiration id).timers).fired
      | inr behind ↦ rw (known, cancel_in_loop, behind)
    ]
  ]

  -- A callback calls no other callback, whatever it schedules.
  call-fired : (script : Script) (q : TimerQueue) → (call clock script q).fired ≡ q.fired
  unfolding call run_at run_after
  call-fired finished q = refl
  call-fired (schedule t cb rest) q =
      call-fired rest (run_at clock q t (some cb)).1
      ∙ add_timer-fired (record q { next_id = suc q.next_id })
          (record { expiration = t; id = q.next_id; cb = some cb })
  call-fired (schedule_after delay cb rest) q =
      call-fired rest (run_after clock q delay (some cb)).1
      ∙ add_timer-fired (record q { next_id = suc q.next_id; readings = suc q.readings })
          (record {
            expiration = clock q.readings + delay * 1_000_000;
            id = q.next_id;
            cb = some cb;
          })
  call-fired (withdraw id rest) q = call-fired rest (cancel_in_loop clock q id) ∙ cancel-fired q id

  fire_all-fired :
      (es : List Entry) (q : TimerQueue) → (fire_all clock es q).fired ≡ q.fired ++ calls es
  unfolding fire_all fire
  fire_all-fired [] q = sym (append-nil q.fired)
  fire_all-fired (e ∷ es) q = elim (Option-cases e.cb) [
    | inl empty ↦ rw (empty, fire, fire_all) (fire_all-fired es q)
    | inr (script, callback) ↦
        let marked = record q { fired = q.fired ++ e.id ∷ [] } in
        rw (callback, fire, fire_all)
          (fire_all-fired es (call clock script marked)
            ∙ ap (λ l. l ++ calls es) (call-fired script marked)
            ∙ append_assoc q.fired (e.id ∷ []) (calls es))
  ]

  -- the queue that the callbacks of `handle_read` see
  abbrev pub taken_from : TimerQueue → TimerQueue
  taken_from q =
      let (expired, kept, index) = take_expired (clock q.readings) q.timers q.id_to_iter in
      record q { timers = kept; id_to_iter = index; readings = suc q.readings }

  pub taken_from-Split :
      (q : TimerQueue)
      → Inv q
      → Split
          (clock q.readings)
          q.next_id
          q.timers
          (take_expired (clock q.readings) q.timers q.id_to_iter)
  taken_from-Split q inv =
      take_expired-Split (clock q.readings) q.next_id q.timers q.id_to_iter inv.sorted inv.distinct
        inv.indexed inv.issued

  -- In a queue whose set and index agree, `handle_read` calls the callbacks of the entries that had expired
  -- when it read the clock, each once, in the order of the set, and no others, whatever timers these
  -- callbacks add or cancel: one that had expired too is still called after a callback cancels it.
  pub handle_read-fired :
      (q : TimerQueue)
      → Inv q
      → (handle_read clock q).fired ≡ q.fired ++ calls (due (clock q.readings) q.timers)
  unfolding handle_read
  handle_read-fired q inv =
      let expired = (take_expired (clock q.readings) q.timers q.id_to_iter).0 in
      let fired = fire_all clock expired (taken_from q) in
      (reset_to_first-Kept clock fired fired.timers).fired
      ∙ fire_all-fired expired (taken_from q)
      ∙ ap (λ es. q.fired ++ calls es) (taken_from-Split q inv).taken

  -- Whatever timers the callbacks add or cancel, `handle_read` keeps the set sorted, the ids distinct, the
  -- index in agreement with the set and the ids below the next one, and leaves the timerfd set for the
  -- first entry, if there is one.
  pub handle_read-Inv :
      (q : TimerQueue)
      → Inv q
      → Inv (handle_read clock q) × Armed (handle_read clock q).timers (handle_read clock q).setting
  unfolding handle_read
  handle_read-Inv q inv =
      let expired = (take_expired (clock q.readings) q.timers q.id_to_iter).0 in
      let fired = fire_all clock expired (taken_from q) in
      let split = taken_from-Split q inv in
      let taken : Inv (taken_from q) = record {
        sorted = split.sorted;
        distinct = split.distinct;
        indexed = split.indexed;
        issued = split.issued;
      } in
      (
        Kept-Inv clock (reset_to_first-Kept clock fired fired.timers)
            (fire_all-Inv expired (taken_from q) taken),
        reset_to_first-Armed clock fired fired.timers refl,
      )
