-- ===== src/EventLoop/Loop/Stopping.antt =====
-- src/event_loop.cpp: `quit()` ends `loop()`.
use game_frame.Prelude.{
  ◌+◌, ◌≤◌, ◌<◌, ◌≡◌, inl, inr, refl, sym, ap, ◌∙◌, subst, true, false, [], arith, Bool-cases,
  if◌then◌else◌,
}
use game_frame.EventLoop.{
  Phase, polls, dispatches, runs, EventLoop, new_loop, wakeup, handle_wakeup, push_functor,
  swap_functors, run_functor, end_functors, is_polling, Step, queues, writes, stirs, reports, reads,
  queues_own, swaps, runs_one, ends, Reach, begin, next,
}
use game_frame.EventLoop.Loop.{
  Running, started, test_quit, events_come, interrupt, quit_own, quit_other, wake_other, Turn,
  tests, interrupts, returns, works, quits_own, quits_other, wakes_other, Later, now, later,
}

module _ {ℓ} {A : Type ℓ} where
  polling-phase : (p : Phase A) → is_polling p ≡ true → p ≡ polls
  unfolding is_polling
  polling-phase polls h = refl
  polling-phase dispatches h = cc
  polling-phase (runs rest) h = cc

  -- Nothing that happens while the loop's thread waits takes from the eventfd.
  counter_grows :
      (s t : EventLoop A)
      → Step s t
      → s.phase ≡ polls
      → is_polling t.phase ≡ true
      → s.counter ≤ t.counter
  unfolding push_functor wakeup handle_wakeup swap_functors run_functor end_functors is_polling
  counter_grows s _ (queues f) e p = omega arith
  counter_grows s _ (writes h) e p = omega arith
  counter_grows s _ stirs e p = omega arith
  counter_grows s _ (reports h) e p = cc
  counter_grows s _ (reads h) e p = let bad : polls ≡ dispatches = sym e ∙ h in cc
  counter_grows s _ (queues_own f h) e p = let bad : true ≡ false = sym (ap is_polling e) ∙ h in cc
  counter_grows s _ (swaps h) e p = cc
  counter_grows s _ (runs_one f rest h) e p = cc
  counter_grows s _ (ends h) e p = let bad : polls ≡ runs [] = sym e ∙ h in cc

  record Inv (s : Running A) : Type ℓ where
    reached : Reach s.base
    polling : s.waits ≡ true → is_polling s.base.phase ≡ true
    told : s.ended ≡ true → s.quit ≡ true
    woken : s.waits ≡ true → s.quit ≡ true → 0 < s.base.counter + s.waking

  test_quit-Inv :
      (s : Running A) → is_polling s.base.phase ≡ true → s.waits ≡ false → Inv s → Inv (test_quit s)
  unfolding test_quit
  test_quit-Inv s p w i = elim (Bool-cases s.quit) [
    | inl on ↦
        subst Inv
          (sym (ap (λ b. if b then record s { ended = true } else record s { waits = true }) on))
          (record { reached = i.reached; polling = i.polling; told = λ e. on; woken = i.woken })
    | inr off ↦
        subst Inv
          (sym (ap (λ b. if b then record s { ended = true } else record s { waits = true }) off))
          (record {
            reached = i.reached;
            polling = λ e. p;
            told = i.told;
            woken = λ e q. let bad : true ≡ false = sym q ∙ off in cc;
          })
  ]

  Turn-Inv : (s t : Running A) → Turn s t → Inv s → Inv t
  unfolding events_come interrupt quit_own quit_other wake_other wakeup
  Turn-Inv s _ (tests p w n) i = test_quit-Inv s p w i
  Turn-Inv s _ (interrupts w) i = record {
    reached = i.reached;
    polling = λ e. cc;
    told = i.told;
    woken = λ e q. cc;
  }
  Turn-Inv s _ (returns w e) i = record {
    reached = next i.reached (reports e);
    polling = λ e. cc;
    told = i.told;
    woken = λ e q. cc;
  }
  Turn-Inv s _ (works {t} st keeps) i = record {
    reached = next i.reached st;
    polling = λ e. keeps (i.polling e);
    told = i.told;
    woken = λ e q.
        let grown =
          counter_grows s.base t st (polling-phase s.base.phase (i.polling e))
            (keeps (i.polling e)) in
        omega (arith, grown, i.woken e q);
  }
  Turn-Inv s _ (quits_own p) i = record {
    reached = i.reached;
    polling = i.polling;
    told = λ e. refl;
    woken = λ e q. let bad : true ≡ false = sym (i.polling e) ∙ p in cc;
  }
  Turn-Inv s _ quits_other i = record {
    reached = i.reached;
    polling = i.polling;
    told = λ e. refl;
    woken = λ e q. omega arith;
  }
  Turn-Inv s _ (wakes_other h) i = record {
    reached = next i.reached stirs;
    polling = i.polling;
    told = i.told;
    woken = λ e q. omega (arith, i.woken e q);
  }

  start-Inv : Inv (started {A = A})
  unfolding started is_polling new_loop
  start-Inv = record { reached = begin; polling = λ e. cc; told = λ e. cc; woken = λ e q. cc }

  Later-Inv : (s t : Running A) → Later s t → Inv s → Inv t
  Later-Inv s _ now i = i
  Later-Inv s u (later {t = t} l turn) i = Turn-Inv t u turn (Later-Inv s t l i)

  -- Once the flag is set it stays, and a thread that does not wait then never does.
  abbrev Final : Running A → Running A → Type 0
  Final s t = (t.quit ≡ true) × (s.waits ≡ false → t.waits ≡ false)

  Turn-Final : (s t u : Running A) → Turn t u → Final s t → Final s u
  unfolding events_come interrupt quit_own quit_other wake_other test_quit
  Turn-Final s t _ (tests p w n) f =
      subst (λ (u : Running A). (u.quit ≡ true) × (s.waits ≡ false → u.waits ≡ false))
        (sym (ap (λ b. if b then record t { ended = true } else record t { waits = true }) f.0)) f
  Turn-Final s t _ (interrupts w) f = (f.0, λ e. refl)
  Turn-Final s t _ (returns w e) f = (f.0, λ e. refl)
  Turn-Final s t _ (works st keeps) f = f
  Turn-Final s t _ (quits_own p) f = (refl, f.1)
  Turn-Final s t _ quits_other f = (refl, f.1)
  Turn-Final s t _ (wakes_other h) f = f

  Later-Final : (s t : Running A) → Later s t → s.quit ≡ true → Final s t
  Later-Final s _ now q = (q, λ e. e)
  Later-Final s u (later {t = t} l turn) q = Turn-Final s t u turn (Later-Final s t l q)

  -- In every state that is reached, in any interleaving of other threads, which may call `quit`, with the
  -- loop's, which calls it from callbacks and functors only: `loop` has returned only if the flag is set; when
  -- the flag is set and the loop's thread is about to wait or waits, the eventfd has been written to or a
  -- thread is about to write to it; and in every later state the flag is still set, and a thread that was not
  -- waiting when it was set never waits again. The functors are as if there were no `quit`.
  pub quit_ends :
      (s t : Running A)
      → Later started s
      → Later s t
      → (s.ended ≡ true → s.quit ≡ true)
        × (s.quit ≡ true → s.waits ≡ true → 0 < s.base.counter + s.waking)
        × (s.quit ≡ true → (t.quit ≡ true) × (s.waits ≡ false → t.waits ≡ false))
        × Reach s.base
  quit_ends s t r l =
      let i = Later-Inv started s r start-Inv in
      (i.told, λ q w. i.woken w q, λ q. Later-Final s t l q, i.reached)
