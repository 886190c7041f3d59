-- ===== src/EventLoopThread/Ending.antt =====
-- src/event_loop_thread.cpp: how a thread and its owner end.
use game_frame.Prelude.{
  ◌≡◌, refl, sym, ap, ◌∙◌, subst, ◌⊎◌, inl, inr, Bool, true, false, if◌then◌else◌,
}
use game_frame.EventLoopThread.{
  Child, unstarted, building, looping, leaving, clearing, ended, Owner, idle, waiting, returned,
  quitting, waking, joining, gone, EventLoopThread, new_thread, start_loop, publish, return_loop,
  quit_loop, leave_loop, clear_loop, end_thread, destroy_tests, is_over, destroy_stores,
  destroy_wakes, destroy_joins, Step, starts, publishes, returns, quits, leaves, clears, ends,
  dies_idle, dies, dies_stores, dies_wakes, dies_joins, Reach, begin, next,
}

-- What the owner's place says, when only the owner calls `quit`.
abbrev At : Owner → EventLoopThread → Type 0
At idle t = (t.child ≡ unstarted) × (t.loop ≡ false) × (t.joinable ≡ false) × (t.quit ≡ false)
At waiting t =
    ((t.child ≡ building) × (t.loop ≡ false) ⊎ (t.child ≡ looping) × (t.loop ≡ true))
    × (t.joinable ≡ true)
    × (t.quit ≡ false)
At returned t = (t.child ≡ looping) × (t.loop ≡ true) × (t.joinable ≡ true) × (t.quit ≡ false)
At quitting t = (t.child ≡ looping) × (t.loop ≡ true) × (t.joinable ≡ true) × (t.quit ≡ false)
At waking t = (t.joinable ≡ true) × (t.dangling ≡ false)
At joining t = t.joinable ≡ true
At gone t = t.joinable ≡ false

record Inv (t : EventLoopThread) : Type 0 where
  at : At t.owner t
  unharmed : t.terminated ≡ false

-- The steps of the thread, wherever the owner is.
publish-At : (o : Owner) (t : EventLoopThread) → t.child ≡ building → At o t → At o (publish t)
unfolding publish
publish-At idle t e a = let bad : building ≡ unstarted = sym e ∙ a.0 in cc
publish-At waiting t e (w, j, q) = (inr (refl, refl), j, q)
publish-At returned t e a = let bad : building ≡ looping = sym e ∙ a.0 in cc
publish-At quitting t e a = let bad : building ≡ looping = sym e ∙ a.0 in cc
publish-At waking t e a = a
publish-At joining t e a = a
publish-At gone t e a = a

leave_loop-At : (o : Owner) (t : EventLoopThread) → t.quit ≡ true → At o t → At o (leave_loop t)
unfolding leave_loop
leave_loop-At idle t e a = let bad : true ≡ false = sym e ∙ a.3 in cc
leave_loop-At waiting t e a = let bad : true ≡ false = sym e ∙ a.2 in cc
leave_loop-At returned t e a = let bad : true ≡ false = sym e ∙ a.3 in cc
leave_loop-At quitting t e a = let bad : true ≡ false = sym e ∙ a.3 in cc
leave_loop-At waking t e a = a
leave_loop-At joining t e a = a
leave_loop-At gone t e a = a

-- A place of the thread that is behind `loop()`.
behind_loop : Child → Bool
behind_loop unstarted = false
behind_loop building = false
behind_loop looping = false
behind_loop leaving = true
behind_loop clearing = true
behind_loop ended = true

in_front : {A : Type 0} {p q : Child} → behind_loop q ≡ true → behind_loop p ≡ false → q ≡ p → A
in_front h k e = let bad : true ≡ false = sym h ∙ ap behind_loop e ∙ k in cc

-- It ends only when the owner waits for it, or has.
end-At :
    (o : Owner) (t u : EventLoopThread)
    → behind_loop t.child ≡ true
    → u.joinable ≡ t.joinable
    → u.dangling ≡ t.dangling
    → At o t
    → At o u
unfolding behind_loop
end-At idle t u e j d a = in_front e refl a.0
end-At waiting t u e j d (inl w, r, q) = in_front e refl w.0
end-At waiting t u e j d (inr w, r, q) = in_front e refl w.0
end-At returned t u e j d a = in_front e refl a.0
end-At quitting t u e j d a = in_front e refl a.0
end-At waking t u e j d a = (j ∙ a.0, d ∙ a.1)
end-At joining t u e j d a = j ∙ a
end-At gone t u e j d a = j ∙ a

destroy_tests_lem :
    (t : EventLoopThread) (b : Bool)
    → t.loop ≡ b
    → destroy_tests t ≡ (
        if b
        then record t { owner = quitting }
        else record t { owner = gone; terminated = t.joinable })
unfolding destroy_tests
destroy_tests_lem t b e =
    ap
      (λ c.
        if c
        then record t { owner = quitting }
        else record t { owner = gone; terminated = t.joinable })
      e

thread_place : (t : EventLoopThread) (o : Owner) → t.owner ≡ o → Inv t → At o t
thread_place t o e i = subst (λ p. At p t) e i.at

step-Inv : (t u : EventLoopThread) → Step false t u → Inv t → Inv u
unfolding start_loop publish return_loop quit_loop leave_loop clear_loop end_thread destroy_stores
    destroy_wakes destroy_joins is_over behind_loop
step-Inv t _ (starts e) i =
    let a = thread_place t idle e i in
    record { at = (inl (refl, a.1), refl, a.3); unharmed = i.unharmed }
step-Inv t _ (publishes e) i = record { at = publish-At t.owner t e i.at; unharmed = i.unharmed }
step-Inv t _ (returns e l) i =
    let (w, j, q) = thread_place t waiting e i in
    record {
      at = elim w [
        | inl early ↦ (let bad : true ≡ false = sym l ∙ early.1 in cc)
        | inr ready ↦ (ready.0, ready.1, j, q)
      ];
      unharmed = i.unharmed;
    }
step-Inv t _ (quits h e) i = cc
step-Inv t _ (leaves e q) i = record { at = leave_loop-At t.owner t q i.at; unharmed = i.unharmed }
step-Inv t _ (clears e) i = record {
  at = end-At t.owner t (clear_loop t) (ap behind_loop e) refl refl i.at;
  unharmed = i.unharmed;
}
step-Inv t _ (ends e) i = record {
  at = end-At t.owner t (end_thread t) (ap behind_loop e) refl refl i.at;
  unharmed = i.unharmed;
}
step-Inv t _ (dies_idle e) i =
    let a = thread_place t idle e i in
    subst Inv (sym (destroy_tests_lem t false a.1)) (record { at = a.2; unharmed = a.2 })
step-Inv t _ (dies e) i =
    let a = thread_place t returned e i in
    subst Inv (sym (destroy_tests_lem t true a.1)) (record { at = a; unharmed = i.unharmed })
step-Inv t _ (dies_stores e) i =
    let a = thread_place t quitting e i in
    record { at = (a.2, ap is_over a.0); unharmed = i.unharmed }
step-Inv t _ (dies_wakes e) i = record { at = (thread_place t waking e i).0; unharmed = i.unharmed }
step-Inv t _ (dies_joins e c) i = record { at = refl; unharmed = i.unharmed }

Reach-Inv : (t : EventLoopThread) → Reach false t → Inv t
unfolding new_thread
Reach-Inv _ begin = record { at = (refl, refl, refl, refl); unharmed = refl }
Reach-Inv u (next {t = t} r st) = step-Inv t u st (Reach-Inv t r)

-- What the owner relies on.
abbrev pub IsServed : Owner → EventLoopThread → Type 0
IsServed idle t = t.joinable ≡ false
IsServed waiting t = t.joinable ≡ true
IsServed returned t = (t.child ≡ looping) × (t.loop ≡ true)
IsServed quitting t = (t.child ≡ looping) × (t.loop ≡ true)
IsServed waking t = (t.joinable ≡ true) × (t.dangling ≡ false)
IsServed joining t = t.joinable ≡ true
IsServed gone t = t.joinable ≡ false

At-IsServed : (o : Owner) (t : EventLoopThread) → At o t → IsServed o t
At-IsServed idle t a = a.2
At-IsServed waiting t a = a.1
At-IsServed returned t a = (a.0, a.1)
At-IsServed quitting t a = (a.0, a.1)
At-IsServed waking t a = a
At-IsServed joining t a = a
At-IsServed gone t a = a

pub Reach-IsServed :
    (t : EventLoopThread) → Reach false t → IsServed t.owner t × (t.terminated ≡ false)
Reach-IsServed t r = let i = Reach-Inv t r in (At-IsServed t.owner t i.at, i.unharmed)
