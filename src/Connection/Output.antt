-- ===== src/Connection/Output.antt =====
-- src/connection.cpp: what `send`, `handle_write`, `shutdown` and `close` keep of the bytes that a
-- connection was given.
use game_frame.Prelude.{
  ℕ, ◌≡◌, ◌≢◌, refl, sym, ap, ◌∙◌, subst, ◌⊎◌, inl, inr, true, false, not, List, [], ◌∷◌, ◌++◌, min,
  append_assoc, append-nil, Bool-cases, ◌==◌, take, drop, take-append-drop, ==_iff,
}
use game_frame.Buffer.{Buffer, readable_bytes, is_empty, readable_view}
use game_frame.Buffer.Regions.{IsValid, retrieve-IsValid}
use game_frame.Buffer.Contents.{view-retrieve}
use game_frame.Connection.{
  State, connected, disconnecting, disconnected, Connection, is_disconnected, Answer, takes,
  interrupted, would_block, failed, End, done, blocked, broken, waiting, close, write_output,
  write_loop, finish, handle_write, after_loop,
}

-- An open connection that was given the bytes `given`: they are the bytes sent and the output buffer, in
-- order; it asks for EPOLLOUT exactly while the buffer holds some; the write side is shut, or about to be,
-- only after `shutdown`, and shut only once the buffer is empty.
pub record Open (c : Connection) (given : List ℕ) : Type 0 where
  pub unclosed : c.fd_closed ≡ false
  pub valid : IsValid c.output_buffer
  pub whole : c.sent ++ readable_view c.output_buffer ≡ given
  pub asks : c.writing ≡ not (is_empty c.output_buffer)
  pub fresh : c.state ≡ connected → (c.shutdown_pending ≡ false) × (c.write_shut ≡ false)
  pub emptied : c.write_shut ≡ true → is_empty c.output_buffer ≡ true

-- A closed one: what it sent is the beginning of what it was given, and all of it if the write side was
-- shut before.
pub record Closed (c : Connection) (given : List ℕ) : Type 0 where
  pub is_closed : c.state ≡ disconnected
  pub shut : c.fd_closed ≡ true
  pub silent : c.writing ≡ false
  pub prefix : (rest : List ℕ) × (c.sent ++ rest ≡ given)
  pub all : c.write_shut ≡ true → c.sent ≡ given

abbrev pub Inv : Connection → List ℕ → Type 0
Inv c given = ((c.state ≢ disconnected) × Open c given) ⊎ Closed c given

pub empty_view : (b : Buffer) → is_empty b ≡ true → readable_view b ≡ []
empty_view b e =
    ap (λ n. take n (drop b.reader_index b.storage)) ((==_iff (readable_bytes b) 0).0 e)

pub Open-sent_all :
    {c : Connection} {given : List ℕ}
    → Open c given
    → is_empty c.output_buffer ≡ true
    → c.sent ≡ given
Open-sent_all {c} o e =
    sym (append-nil c.sent) ∙ ap (λ xs. c.sent ++ xs) (sym (empty_view c.output_buffer e)) ∙ o.whole

pub live-is_disconnected : (s : State) → s ≢ disconnected → is_disconnected s ≡ false
unfolding is_disconnected
live-is_disconnected connected h = refl
live-is_disconnected disconnecting h = refl
live-is_disconnected disconnected h = absurd (h refl)

pub closed_already : (c : Connection) → is_disconnected c.state ≡ true → close c ≡ c
unfolding close
closed_already c h = rw h

pub close-Inv : (c : Connection) (given : List ℕ) → Inv c given → Closed (close c) given
unfolding close is_disconnected
close-Inv c given (inr k) =
    subst (λ d. Closed d given) (sym (closed_already c (ap is_disconnected k.is_closed))) k
close-Inv c given (inl (live, o)) = rw (live-is_disconnected c.state live) (record {
  is_closed = refl;
  shut = refl;
  silent = refl;
  prefix = (readable_view c.output_buffer, o.whole);
  all = λ s. Open-sent_all o (o.emptied s);
})

-- Inside `handle_write`: EPOLLOUT stays asked for, and the write side is open.
record Writing (c : Connection) (given : List ℕ) : Type 0 where
  unclosed : c.fd_closed ≡ false
  live : c.state ≢ disconnected
  valid : IsValid c.output_buffer
  whole : c.sent ++ readable_view c.output_buffer ≡ given
  asking : c.writing ≡ true
  fresh : c.state ≡ connected → c.shutdown_pending ≡ false
  unshut : c.write_shut ≡ false

abbrev Written : List ℕ → End × Connection → Type 0
Written given r = elim r.0 [
  | done ↦ Writing r.1 given × (is_empty r.1.output_buffer ≡ true)
  | blocked ↦ Writing r.1 given × (is_empty r.1.output_buffer ≡ false)
  | broken ↦ Closed r.1 given
  | waiting ↦ Unit {0}
]

write_output-Writing :
    (n : ℕ) (c : Connection) (given : List ℕ) → Writing c given → Writing (write_output n c) given
unfolding write_output
write_output-Writing n c given w =
    let k = min n (readable_bytes c.output_buffer) in
    let v = readable_view c.output_buffer in
    elim (Bool-cases (k == 0)) [
      | inl none ↦ rw none w
      | inr some ↦
          rw (some, w.unclosed)
            (record {
              unclosed = refl;
              live = w.live;
              valid = retrieve-IsValid k w.valid;
              whole =
                  ap (λ xs. (c.sent ++ take k v) ++ xs) (view-retrieve k w.valid)
                  ∙ append_assoc c.sent (take k v) (drop k v)
                  ∙ ap (λ xs. c.sent ++ xs) (take-append-drop k v)
                  ∙ w.whole;
              asking = w.asking;
              fresh = w.fresh;
              unshut = w.unshut;
            })
    ]

close-Writing : (c : Connection) (given : List ℕ) → Writing c given → Closed (close c) given
unfolding close
close-Writing c given w = rw (live-is_disconnected c.state w.live) (record {
  is_closed = refl;
  shut = refl;
  silent = refl;
  prefix = (readable_view c.output_buffer, w.whole);
  all = λ s. absurd (cc (s, w.unshut));
})

write_loop-Written :
    (rs : List Answer) (c : Connection) (given : List ℕ)
    → Writing c given
    → Written given (write_loop rs c)
unfolding write_loop
write_loop-Written [] c given w = elim (Bool-cases (is_empty c.output_buffer)) [
  | inl empty ↦ rw empty (w, empty)
  | inr more ↦ rw more tt
]
write_loop-Written (takes n ∷ rs) c given w = elim (Bool-cases (is_empty c.output_buffer)) [
  | inl empty ↦ rw empty (w, empty)
  | inr more ↦
      rw more (write_loop-Written rs (write_output n c) given (write_output-Writing n c given w))
]
write_loop-Written (interrupted ∷ rs) c given w = elim (Bool-cases (is_empty c.output_buffer)) [
  | inl empty ↦ rw empty (w, empty)
  | inr more ↦ rw more (write_loop-Written rs c given w)
]
write_loop-Written (would_block ∷ rs) c given w = elim (Bool-cases (is_empty c.output_buffer)) [
  | inl empty ↦ rw empty (w, empty)
  | inr more ↦ rw more (w, more)
]
write_loop-Written (failed ∷ rs) c given w = elim (Bool-cases (is_empty c.output_buffer)) [
  | inl empty ↦ rw empty (w, empty)
  | inr more ↦ rw more (close-Writing c given w)
]

finish-Open :
    (c : Connection) (given : List ℕ)
    → Writing c given
    → is_empty c.output_buffer ≡ true
    → Open (finish c) given
unfolding finish
finish-Open c given w empty = record {
  unclosed = w.unclosed;
  valid = w.valid;
  whole = w.whole;
  asks = ap not (sym empty);
  fresh = λ s. (refl, rw (w.fresh s) w.unshut);
  emptied = λ s. empty;
}

blocked-Open :
    (c : Connection) (given : List ℕ)
    → Writing c given
    → is_empty c.output_buffer ≡ false
    → Open c given
blocked-Open c given w more = record {
  unclosed = w.unclosed;
  valid = w.valid;
  whole = w.whole;
  asks = w.asking ∙ ap not (sym more);
  fresh = λ s. (w.fresh s, w.unshut);
  emptied = λ s. absurd (cc (s, w.unshut));
}

after_loop-Inv :
    (r : End × Connection) (given : List ℕ)
    → Written given r
    → r.0 ≢ waiting
    → Inv (after_loop r).1 given
unfolding after_loop finish
after_loop-Inv (done, c) given (w, empty) h = inl (w.live, finish-Open c given w empty)
after_loop-Inv (blocked, c) given (w, more) h = inl (w.live, blocked-Open c given w more)
after_loop-Inv (broken, c) given k h = inr k
after_loop-Inv (waiting, c) given w h = absurd (h refl)

ends : (r : End × Connection) → r.0 ≡ waiting → (after_loop r).0 ≡ waiting
unfolding after_loop
ends (done, c) e = e
ends (blocked, c) e = e
ends (broken, c) e = e
ends (waiting, c) e = e

-- An `EPOLLOUT` on an open connection that asks for it, once `handle_write` returns.
pub handle_write-Inv :
    (rs : List Answer) (c : Connection) (given : List ℕ)
    → c.state ≢ disconnected
    → Open c given
    → (handle_write rs c).0 ≢ waiting
    → Inv (handle_write rs c).1 given
unfolding handle_write
handle_write-Inv rs c given live o returns = elim (Bool-cases (is_empty c.output_buffer)) [
  | inl empty ↦ rw empty (
      inl (
        live,
        record {
          unclosed = o.unclosed;
          valid = o.valid;
          whole = o.whole;
          asks = ap not (sym empty);
          fresh = o.fresh;
          emptied = λ s. empty;
        },
      ))
  | inr more ↦
      let writing : Writing c given = record {
        unclosed = o.unclosed;
        live = live;
        valid = o.valid;
        whole = o.whole;
        asking = o.asks ∙ ap not more;
        fresh = λ s. (o.fresh s).0;
        unshut = elim (Bool-cases c.write_shut) [
          | inl s ↦ absurd (cc (o.emptied s, more))
          | inr unshut ↦ unshut
        ];
      } in
      rw more (
        after_loop-Inv (write_loop rs c) given (write_loop-Written rs c given writing)
          (λ e. returns (rw more (ends (write_loop rs c) e))))
]
