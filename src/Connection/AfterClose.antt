-- ===== src/Connection/AfterClose.antt =====
-- src/connection.cpp: `handle_write` on a closed connection, which is told of an `EPOLLOUT` that was reported
-- before its close.
use game_frame.Prelude.{
  ℕ, Bool, ◌≡◌, refl, sym, ap, ◌∙◌, inl, inr, true, false, not, List, [], ◌∷◌, min, Bool-cases,
  either, if◌then◌else◌, ◌&&◌, ◌==◌,
}
use game_frame.Buffer.{readable_bytes, is_empty}
use game_frame.Connection.{
  Connection, Answer, takes, interrupted, would_block, failed, End, done, blocked, broken, waiting,
  write_output, write_loop, finish, handle_write, after_loop,
}
use game_frame.Connection.Output.{Closed, close-Inv}

write_output-Closed :
    (n : ℕ) (c : Connection) (given : List ℕ) → Closed c given → Closed (write_output n c) given
unfolding write_output
write_output-Closed n c given k = elim (Bool-cases (min n (readable_bytes c.output_buffer) == 0)) [
  | inl none ↦ rw none k
  | inr some ↦
      rw (some, k.shut)
        (record {
          is_closed = k.is_closed;
          shut = refl;
          silent = k.silent;
          prefix = k.prefix;
          all = k.all;
        })
]

write_loop-Closed :
    (rs : List Answer) (c : Connection) (given : List ℕ)
    → Closed c given
    → Closed (write_loop rs c).1 given
unfolding write_loop
write_loop-Closed [] c given k =
    either (λ (r : End × Connection). Closed r.1 given) (is_empty c.output_buffer) k k
write_loop-Closed (takes n ∷ rs) c given k =
    either (λ (r : End × Connection). Closed r.1 given) (is_empty c.output_buffer) k
      (write_loop-Closed rs (write_output n c) given (write_output-Closed n c given k))
write_loop-Closed (interrupted ∷ rs) c given k =
    either (λ (r : End × Connection). Closed r.1 given) (is_empty c.output_buffer) k
      (write_loop-Closed rs c given k)
write_loop-Closed (would_block ∷ rs) c given k =
    either (λ (r : End × Connection). Closed r.1 given) (is_empty c.output_buffer) k k
write_loop-Closed (failed ∷ rs) c given k =
    either (λ (r : End × Connection). Closed r.1 given) (is_empty c.output_buffer) k
      (close-Inv c given (inr k))

and_false : (p b : Bool) → b ≡ true → (p && not b) ≡ false
and_false true b e = ap not e
and_false false b e = refl

after_loop-Closed :
    (r : End × Connection) (given : List ℕ) → Closed r.1 given → Closed (after_loop r).1 given
unfolding after_loop finish
after_loop-Closed (done, c) given k = record {
  is_closed = k.is_closed;
  shut = k.shut;
  silent = refl;
  prefix = k.prefix;
  all = λ h. k.all (
      sym (
        ap (λ b. if b then true else c.write_shut)
          (and_false c.shutdown_pending c.fd_closed k.shut))
      ∙ h);
}
after_loop-Closed (blocked, c) given k = k
after_loop-Closed (broken, c) given k = k
after_loop-Closed (waiting, c) given k = k

pub handle_write-Closed :
    (rs : List Answer) (c : Connection) (given : List ℕ)
    → Closed c given
    → Closed (handle_write rs c).1 given
unfolding handle_write
handle_write-Closed rs c given k =
    either (λ (r : End × Connection). Closed r.1 given) (is_empty c.output_buffer)
      (record {
        is_closed = k.is_closed;
        shut = k.shut;
        silent = refl;
        prefix = k.prefix;
        all = k.all;
      })
      (after_loop-Closed (write_loop rs c) given (write_loop-Closed rs c given k))
