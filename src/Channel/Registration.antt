-- ===== src/Channel/Registration.antt =====
-- src/channel.h, src/event_loop.cpp: what epoll watches, after any calls on a channel.
use game_frame.Prelude.{
  ℕ, ◌≡◌, refl, sym, ap, ◌∙◌, subst, ◌⊎◌, inl, inr, Bool, true, false, not, List, [], ◌∷◌, Option,
  none, some, bit_or, bit_and, ◌==◌,
}
use game_frame.Channel.{
  epollet, epollout, read_event, complement, State, created, added, deleted, Request, add, modify,
  delete, Channel, new_channel, is_reading, is_writing, register, unregister, update_channel,
  remove_channel, enable_reading, disable_reading, enable_writing, disable_writing, disable_all,
}

-- epoll(7): a descriptor that is not watched can be added, one that is watched can be modified, or the call
-- fails and changes nothing; one that is watched can be deleted. Nothing is said of adding a watched
-- descriptor, or of modifying or deleting one that is not.
pub record IsEpoll (epoll_ctl : Request → Option ℕ → Bool × Option ℕ) : Type 0 where
  pub adds :
      (mask : ℕ)
      → (epoll_ctl (add mask) none ≡ (true, some mask))
        ⊎ (epoll_ctl (add mask) none ≡ (false, none))
  pub modifies :
      (mask old : ℕ)
      → (epoll_ctl (modify mask) (some old) ≡ (true, some mask))
        ⊎ (epoll_ctl (modify mask) (some old) ≡ (false, some old))
  pub deletes : (old : ℕ) → epoll_ctl delete (some old) ≡ (true, none)

-- epoll watches the descriptor in the state `kAdded` alone.
abbrev pub IsWatched : State → Option ℕ → Type 0
IsWatched created w = w ≡ none
IsWatched deleted w = w ≡ none
IsWatched added w = (mask : ℕ) × (w ≡ some mask)

-- What is wanted of epoll: the two kinds of events, and whether the descriptor is to be registered at all.
pub record Wanted : Type 0 where
  pub reading : Bool
  pub writing : Bool
  pub registered : Bool

-- EPOLLIN is 1, EPOLLOUT 4 and EPOLLRDHUP 0x2000.
abbrev mask_of : Bool → Bool → ℕ
mask_of true true = 0x2005
mask_of true false = 0x2001
mask_of false true = 0x4
mask_of false false = 0

-- What epoll has been told, unless its last answer was an error: the mask that is wanted, edge-triggered
-- (2 ^ 31), or nothing.
abbrev pub IsTold : (registered refused : Bool) → State → ℕ → Option ℕ → Type 0
IsTold true false s mask w = (s ≡ added) × (w ≡ some (bit_or mask 0x80000000))
IsTold true true s mask w = Unit {0}
IsTold false refused s mask w = w ≡ none

pub record Agrees (v : Wanted) (ch : Channel) : Type 0 where
  pub events : ch.events ≡ mask_of v.reading v.writing
  pub watched : IsWatched ch.state ch.watched
  pub told : IsTold v.registered ch.refused ch.state (mask_of v.reading v.writing) ch.watched

-- The calls that a channel's owner makes, and what each of them asks for.
pub data Call : Type 0 where
  reading_on reading_off writing_on writing_off all_off removal : Call

abbrev pub want : Call → Wanted → Wanted
want reading_on v = record v { reading = true; registered = true }
want reading_off v = record v { reading = false; registered = true }
want writing_on v = record v { writing = true; registered = true }
want writing_off v = record v { writing = false; registered = true }
want all_off v = record { reading = false; writing = false; registered = true }
want removal v = record v { registered = false }

abbrev pub want_all : List Call → Wanted → Wanted
want_all [] v = v
want_all (x ∷ xs) v = want_all xs (want x v)

abbrev pub nothing : Wanted
nothing = record { reading = false; writing = false; registered = false }

-- The arithmetic of the masks.
reading_on_mask : (r w : Bool) → bit_or (mask_of r w) read_event ≡ mask_of true w
reading_on_mask true true = refl
reading_on_mask true false = refl
reading_on_mask false true = refl
reading_on_mask false false = refl

reading_off_mask : (r w : Bool) → bit_and (mask_of r w) (complement read_event) ≡ mask_of false w
reading_off_mask true true = refl
reading_off_mask true false = refl
reading_off_mask false true = refl
reading_off_mask false false = refl

writing_on_mask : (r w : Bool) → bit_or (mask_of r w) epollout ≡ mask_of r true
writing_on_mask true true = refl
writing_on_mask true false = refl
writing_on_mask false true = refl
writing_on_mask false false = refl

writing_off_mask : (r w : Bool) → bit_and (mask_of r w) (complement epollout) ≡ mask_of r false
writing_off_mask true true = refl
writing_off_mask true false = refl
writing_off_mask false true = refl
writing_off_mask false false = refl

asks_reading : (r w : Bool) → not (bit_and (mask_of r w) read_event == 0) ≡ r
asks_reading true true = refl
asks_reading true false = refl
asks_reading false true = refl
asks_reading false false = refl

asks_writing : (r w : Bool) → not (bit_and (mask_of r w) epollout == 0) ≡ w
asks_writing true true = refl
asks_writing true false = refl
asks_writing false true = refl
asks_writing false false = refl

module _ (epoll_ctl : Request → Option ℕ → Bool × Option ℕ) where
  pub perform : Call → Channel → Channel
  perform reading_on ch = enable_reading epoll_ctl ch
  perform reading_off ch = disable_reading epoll_ctl ch
  perform writing_on ch = enable_writing epoll_ctl ch
  perform writing_off ch = disable_writing epoll_ctl ch
  perform all_off ch = disable_all epoll_ctl ch
  perform removal ch = remove_channel epoll_ctl ch

  pub perform_all : List Call → Channel → Channel
  perform_all [] ch = ch
  perform_all (x ∷ xs) ch = perform_all xs (perform x ch)

  module _ (h : IsEpoll epoll_ctl) where
    abbrev Told : Channel → Type 0
    Told ch = IsWatched ch.state ch.watched × IsTold true ch.refused ch.state ch.events ch.watched

    register-Told :
        (s : State) (ch : Channel)
        → ch.state ≡ s
        → IsWatched s ch.watched
        → Told (register epoll_ctl s ch)
    unfolding register
    register-Told created ch e k = elim (h.adds (bit_or ch.events epollet)) [
      | inl ok ↦ rw (k, ok) ((_, refl), (refl, refl))
      | inr failed ↦ rw (k, failed, e) (refl, tt)
    ]
    register-Told deleted ch e k = elim (h.adds (bit_or ch.events epollet)) [
      | inl ok ↦ rw (k, ok) ((_, refl), (refl, refl))
      | inr failed ↦ rw (k, failed, e) (refl, tt)
    ]
    register-Told added ch e (old, k) = elim (h.modifies (bit_or ch.events epollet) old) [
      | inl ok ↦ rw (e, k, ok) ((_, refl), (refl, refl))
      | inr failed ↦ rw (e, k, failed) ((_, refl), tt)
    ]

    register-events : (s : State) (ch : Channel) → (register epoll_ctl s ch).events ≡ ch.events
    unfolding register
    register-events created ch = refl
    register-events deleted ch = refl
    register-events added ch = refl

    update_channel-Agrees :
        (v : Wanted) (ch : Channel) (events : ℕ)
        → IsWatched ch.state ch.watched
        → events ≡ mask_of v.reading v.writing
        → v.registered ≡ true
        → Agrees v (update_channel epoll_ctl (record ch { events = events }))
    unfolding update_channel
    update_channel-Agrees v ch events k e r =
        let asked : Channel = record ch { events = events } in
        let (watched, told) = register-Told ch.state asked refl k in
        let same = register-events ch.state asked ∙ e in
        let now : Channel = register epoll_ctl ch.state asked in
        record {
          events = same;
          watched = watched;
          told =
              subst (λ b. IsTold b now.refused now.state (mask_of v.reading v.writing) now.watched)
                (sym r) (subst (λ m. IsTold true now.refused now.state m now.watched) same told);
        }

    unregister-Agrees :
        (v : Wanted) (s : State) (ch : Channel)
        → IsWatched s ch.watched
        → ch.events ≡ mask_of v.reading v.writing
        → Agrees (record v { registered = false }) (unregister epoll_ctl s ch)
    unfolding unregister
    unregister-Agrees v created ch k e = record { events = e; watched = k; told = k }
    unregister-Agrees v deleted ch k e = record { events = e; watched = k; told = k }
    unregister-Agrees v added ch (old, k) e =
        let gone : (epoll_ctl delete ch.watched).1 ≡ none =
          ap (λ w. (epoll_ctl delete w).1) k ∙ ap (λ t. t.1) (h.deletes old) in
        record { events = e; watched = gone; told = gone }

    perform-Agrees :
        (x : Call) (v : Wanted) (ch : Channel) → Agrees v ch → Agrees (want x v) (perform x ch)
    unfolding perform enable_reading disable_reading enable_writing disable_writing disable_all
        remove_channel
    perform-Agrees reading_on v ch a =
        update_channel-Agrees _ ch _ a.watched
          (ap (λ n. bit_or n read_event) a.events ∙ reading_on_mask v.reading v.writing) refl
    perform-Agrees reading_off v ch a =
        update_channel-Agrees _ ch _ a.watched
          (ap (λ n. bit_and n (complement read_event)) a.events
            ∙ reading_off_mask v.reading v.writing)
          refl
    perform-Agrees writing_on v ch a =
        update_channel-Agrees _ ch _ a.watched
          (ap (λ n. bit_or n epollout) a.events ∙ writing_on_mask v.reading v.writing) refl
    perform-Agrees writing_off v ch a =
        update_channel-Agrees _ ch _ a.watched
          (ap (λ n. bit_and n (complement epollout)) a.events
            ∙ writing_off_mask v.reading v.writing)
          refl
    perform-Agrees all_off v ch a = update_channel-Agrees _ ch _ a.watched refl refl
    perform-Agrees removal v ch a = unregister-Agrees v ch.state ch a.watched a.events

    run-Agrees :
        (xs : List Call) (v : Wanted) (ch : Channel)
        → Agrees v ch
        → Agrees (want_all xs v) (perform_all xs ch)
    unfolding perform_all
    run-Agrees [] v ch a = a
    run-Agrees (x ∷ xs) v ch a = run-Agrees xs (want x v) (perform x ch) (perform-Agrees x v ch a)

    -- After any calls on a new channel, where epoll behaves as documented and any call to add or modify may
    -- fail: the channel's mask, `is_reading` and `is_writing` say what the calls asked for last; epoll watches
    -- the descriptor exactly in the state `kAdded`; it does not watch it after a removal; and otherwise, unless
    -- the last call to add or modify it failed, it watches it for exactly that mask, edge-triggered.
    pub perform_all-Agrees :
        (xs : List Call)
        → let ch = perform_all xs new_channel in
          let v = want_all xs nothing in
          Agrees v ch × (is_reading ch ≡ v.reading) × (is_writing ch ≡ v.writing)
    unfolding new_channel is_reading is_writing
    perform_all-Agrees xs =
        let v = want_all xs nothing in
        let a =
          run-Agrees xs nothing new_channel
            (record { events = refl; watched = refl; told = refl }) in
        (
          a,
          ap (λ n. not (bit_and n read_event == 0)) a.events ∙ asks_reading v.reading v.writing,
          ap (λ n. not (bit_and n epollout == 0)) a.events ∙ asks_writing v.reading v.writing,
        )
