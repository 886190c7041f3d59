-- ===== src/Channel/Tests.antt =====
-- src/channel.h with an epoll that never fails.
use game_frame.Prelude.{ℕ, ◌≡◌, refl, inl, Bool, true, false, List, [], ◌∷◌, Option, none, some}
use game_frame.Channel.{Request, add, modify, delete, new_channel, is_reading, is_writing}
use game_frame.Channel.Registration.{
  IsEpoll, Agrees, want_all, nothing, Call, reading_on, writing_on, writing_off, all_off, removal,
  perform_all, perform_all-Agrees,
}

abbrev willing : Request → Option ℕ → Bool × Option ℕ
willing (add mask) none = (true, some mask)
willing (add mask) (some old) = (false, some old)
willing (modify mask) none = (false, none)
willing (modify mask) (some old) = (true, some mask)
willing delete none = (false, none)
willing delete (some old) = (true, none)

willing-IsEpoll : IsEpoll willing
willing-IsEpoll = record {
  adds = λ mask. inl refl;
  modifies = λ mask old. inl refl;
  deletes = λ old. refl;
}

-- a connection's channel, that is closed and used again
abbrev life : List Call
life = reading_on ∷ writing_on ∷ writing_off ∷ all_off ∷ removal ∷ removal ∷ reading_on ∷ []

perform_all-Agrees_example :
    let ch = perform_all willing life new_channel in
    let v = want_all life nothing in
    Agrees v ch × (is_reading ch ≡ v.reading) × (is_writing ch ≡ v.writing)
perform_all-Agrees_example = perform_all-Agrees willing willing-IsEpoll life
