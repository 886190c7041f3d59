-- ===== src/TimerQueue/Gone.antt =====
-- src/timer_queue.cpp: the id of a timer that has fired or was cancelled never comes back.
use game_frame.Prelude.{
  ℕ, suc, ◌+◌, ◌*◌, ◌≤◌, ◌<◌, ◌≡◌, refl, sym, ap, ◌∙◌, List, [], ◌∷◌, ◌++◌, Option, none, some,
  arith, Bool-cases, Option-cases, inl, inr, ◌==◌, if◌then◌else◌, leb, ne→==,
}
use game_frame.TimerQueue.{
  Entry, Script, finished, schedule, schedule_after, withdraw, TimerQueue, insert, take_expired,
  add_timer_in_loop, cancel_in_loop, run_at, run_after, call, fire, fire_all, handle_read, is_first,
  is_earliest,
}
use game_frame.TimerQueue.Order.{find, find-insert}
use game_frame.TimerQueue.Invariant.{
  Inv, reset_to_first-Kept, IsFresh-of_issued, cancel-Inv, find-cancel, added, erased,
}
use game_frame.TimerQueue.Expiry.{later}
use game_frame.TimerQueue.Firing.{run_at-Inv, run_after-Inv, fire-Inv, taken_from, taken_from-Split}

-- Ids below the next one that are not in the set stay out of it.
abbrev pub Calm : TimerQueue → TimerQueue → Type 0
Calm q q' =
    (q.next_id ≤ q'.next_id)
    × ((id : ℕ) → id < q.next_id → find id q.timers ≡ none → find id q'.timers ≡ none)

Calm-trans : (q r s : TimerQueue) → Calm q r → Calm r s → Calm q s
Calm-trans q r s c d =
    (omega (arith, c.0, d.0), λ id old gone. d.1 id (omega (arith, c.0, old)) (c.1 id old gone))

module _ (clock : ℕ → ℕ) where
  add_timer-timers :
      (q : TimerQueue) (e : Entry)
      → ((add_timer_in_loop clock q e).timers ≡ insert e q.timers)
        × ((add_timer_in_loop clock q e).next_id ≡ q.next_id)
  unfolding add_timer_in_loop
  add_timer-timers q e = elim (Bool-cases (is_earliest e q.timers)) [
    | inl first ↦
        let k = reset_to_first-Kept clock (added q e) (added q e).timers in
        rw first (k.timers, k.next_id)
    | inr behind ↦ rw behind (refl, refl)
  ]

  cancel-next_id : (q : TimerQueue) (id : ℕ) → (cancel_in_loop clock q id).next_id ≡ q.next_id
  unfolding cancel_in_loop
  cancel-next_id q id = elim (Option-cases (q.id_to_iter id)) [
    | inl unknown ↦ rw (unknown, cancel_in_loop)
    | inr (expiration, known) ↦ elim (Bool-cases (is_first expiration id q.timers)) [
      | inl first ↦
          rw (known, cancel_in_loop, first)
            (reset_to_first-Kept clock (erased q expiration id)
              (erased q expiration id).timers).next_id
      | inr behind ↦ rw (known, cancel_in_loop, behind)
    ]
  ]

  -- A new timer has an id of its own, and the others are as they were.
  pub find-run_at :
      (q : TimerQueue) (t : ℕ) (cb : Option Script) (j : ℕ)
      → Inv q
      → find j (run_at clock q t cb).1.timers ≡ (if q.next_id == j then some t else find j q.timers)
  unfolding run_at
  find-run_at q t cb j inv =
      let entry : Entry = record { expiration = t; id = q.next_id; cb = cb } in
      ap (find j) (add_timer-timers (record q { next_id = suc q.next_id }) entry).0
      ∙ find-insert j entry q.timers (IsFresh-of_issued q.next_id q.timers inv.issued)

  run_at-next_id :
      (q : TimerQueue) (t : ℕ) (cb : Option Script)
      → (run_at clock q t cb).1.next_id ≡ suc q.next_id
  unfolding run_at
  run_at-next_id q t cb =
      (add_timer-timers (record q { next_id = suc q.next_id })
        (record { expiration = t; id = q.next_id; cb = cb })).1

  pub run_at-Calm :
      (q : TimerQueue) (t : ℕ) (cb : Option Script) → Inv q → Calm q (run_at clock q t cb).1
  run_at-Calm q t cb inv = (
    omega (arith, run_at-next_id q t cb),
    λ id old gone.
        find-run_at q t cb id inv
        ∙ ap (λ b. if b then some t else find id q.timers) (ne→== q.next_id id (omega (arith, old)))
        ∙ gone,
  )

  pub run_after-Calm :
      (q : TimerQueue) (delay : ℕ) (cb : Option Script)
      → Inv q
      → Calm q (run_after clock q delay cb).1
  unfolding run_after
  run_after-Calm q delay cb inv =
      run_at-Calm (record q { readings = suc q.readings }) (clock q.readings + delay * 1_000_000) cb
        (record {
          sorted = inv.sorted;
          distinct = inv.distinct;
          indexed = inv.indexed;
          issued = inv.issued;
        })

  -- The id that is returned is the next one.
  pub run_after_id :
      (q : TimerQueue) (delay : ℕ) (cb : Option Script)
      → ((run_after clock q delay cb).0 ≡ q.next_id)
        × ((run_after clock q delay cb).1.next_id ≡ suc q.next_id)
  unfolding run_after run_at
  run_after_id q delay cb = (
    refl,
    run_at-next_id (record q { readings = suc q.readings }) (clock q.readings + delay * 1_000_000)
        cb,
  )

  pub cancel-Calm : (q : TimerQueue) (id : ℕ) → Inv q → Calm q (cancel_in_loop clock q id)
  cancel-Calm q id inv = (
    omega (arith, cancel-next_id q id),
    λ j old gone.
        find-cancel clock q id j inv ∙ ap (λ o. if j == id then none else o) gone ∙ ground arith,
  )

  pub call-Calm : (script : Script) (q : TimerQueue) → Inv q → Calm q (call clock script q)
  unfolding call
  call-Calm finished q inv = (omega arith, λ id old gone. gone)
  call-Calm (schedule t cb rest) q inv =
      let q' = (run_at clock q t (some cb)).1 in
      Calm-trans q q' (call clock rest q') (run_at-Calm q t (some cb) inv)
        (call-Calm rest (run_at clock q t (some cb)).1 (run_at-Inv clock q t (some cb) inv))
  call-Calm (schedule_after delay cb rest) q inv =
      let q' = (run_after clock q delay (some cb)).1 in
      Calm-trans q q' (call clock rest q') (run_after-Calm q delay (some cb) inv) (
        call-Calm rest (run_after clock q delay (some cb)).1
          (run_after-Inv clock q delay (some cb) inv))
  call-Calm (withdraw id rest) q inv =
      let q' = cancel_in_loop clock q id in
      Calm-trans q q' (call clock rest q') (cancel-Calm q id inv)
        (call-Calm rest (cancel_in_loop clock q id) (cancel-Inv clock q id inv))

  fire-Calm : (e : Entry) (q : TimerQueue) → Inv q → Calm q (fire clock e q)
  unfolding fire
  fire-Calm e q inv = elim (Option-cases e.cb) [
    | inl empty ↦ rw (empty, fire) (omega arith, λ id old gone. gone)
    | inr (script, callback) ↦
        rw (callback, fire)
          (call-Calm script (record q { fired = q.fired ++ e.id ∷ [] })
            (record {
              sorted = inv.sorted;
              distinct = inv.distinct;
              indexed = inv.indexed;
              issued = inv.issued;
            }))
  ]

  fire_all-Calm : (es : List Entry) (q : TimerQueue) → Inv q → Calm q (fire_all clock es q)
  unfolding fire_all
  fire_all-Calm [] q inv = (omega arith, λ id old gone. gone)
  fire_all-Calm (e ∷ es) q inv =
      let q' = fire clock e q in
      Calm-trans q q' (fire_all clock es q') (fire-Calm e q inv)
        (fire_all-Calm es q' (fire-Inv clock e q inv))

  find-later : (now id : ℕ) (es : List Entry) → find id es ≡ none → find id (later now es) ≡ none
  find-later now id [] h = refl
  find-later now id (e ∷ es) h = elim (Bool-cases (e.id == id)) [
    | inl hit ↦
        let bad : some e.expiration ≡ none =
          sym (ap (λ b. if b then some e.expiration else find id es) hit) ∙ h in
        cc
    | inr miss ↦
        let rest =
          find-later now id es
            (sym (ap (λ b. if b then some e.expiration else find id es) miss) ∙ h) in
        elim (Bool-cases (leb e.expiration now)) [
          | inl expired ↦ rw expired rest
          | inr waits ↦ rw (waits, miss) rest
        ]
  ]

  -- Whatever the callbacks do, `handle_read` brings no id back.
  pub handle_read-Calm : (q : TimerQueue) → Inv q → Calm q (handle_read clock q)
  unfolding handle_read
  handle_read-Calm q inv =
      let expired = (take_expired (clock q.readings) q.timers q.id_to_iter).0 in
      let fired = fire_all clock expired (taken_from clock q) in
      let split = taken_from-Split clock q inv in
      let k = reset_to_first-Kept clock fired fired.timers in
      let c = fire_all-Calm expired (taken_from clock q) (record {
        sorted = split.sorted;
        distinct = split.distinct;
        indexed = split.indexed;
        issued = split.issued;
      }) in
      (
        omega (arith, k.next_id, c.0),
        λ id old gone.
            ap (find id) k.timers
            ∙ c.1 id old (ap (find id) split.kept ∙ find-later (clock q.readings) id q.timers gone),
      )
