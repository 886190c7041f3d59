-- ===== src/Connection/ClosedWrites.antt =====
-- src/channel.cpp, src/connection.cpp: a second callback for one reported event, after the first has closed the
-- connection.
use game_frame.Prelude.{
  ℕ, ◌≡◌, refl, inl, inr, true, false, ◌&&◌, List, [], ◌∷◌, none, Bool-cases, either, if◌then◌else◌,
  ◌==◌, take, ◌++◌, sym, append-nil, ==_iff, suc, min, not, ap, ◌∙◌,
}
use game_frame.Buffer.{is_empty, readable_bytes, readable_view}
use game_frame.Channel.Dispatch.{handle_event_with_guard, handle_event, reports, epollerr, epollhup}
use game_frame.Channel.{epollin, epollout, read_event}
use game_frame.Connection.{
  End, disconnected, Connection, is_disconnected, takes, would_block, close, write_output,
  write_loop, finish, after_loop, handle_write, ended, make_room, read_loop, deliver, after_reads,
  handle_read,
}
use game_frame.Connection.Events.{channel_callbacks, reported, happen}

-- what one `write` takes of the output buffer through a closed descriptor, behind what was taken so before
abbrev pub strayed_some : ℕ → Connection → List ℕ
strayed_some n c =
    c.strayed ++ take (min n (readable_bytes c.output_buffer)) (readable_view c.output_buffer)

abbrev Strayed : ℕ → Connection → Connection → Type 0
Strayed n c d = (d.fd_closed ≡ true) × (d.sent ≡ c.sent) × (d.strayed ≡ strayed_some n c)

-- one `write`
write_output-Strayed :
    (n : ℕ) (c : Connection) → c.fd_closed ≡ true → Strayed n c (write_output n c)
unfolding write_output
write_output-Strayed n c shut =
    let k = min n (readable_bytes c.output_buffer) in
    elim (Bool-cases (k == 0)) [
      | inl zero ↦ rw zero (
        shut,
        refl,
        sym (append-nil c.strayed)
            ∙ ap (λ j. c.strayed ++ take j (readable_view c.output_buffer))
                (sym ((==_iff k 0).0 zero)),
      )
      | inr more ↦ rw (more, shut) (refl, refl, refl)
    ]

-- one `write` that takes up to `n` bytes, and then EAGAIN, on a closed connection
write_some :
    (n : ℕ) (c : Connection)
    → c.fd_closed ≡ true
    → is_empty c.output_buffer ≡ false
    → Strayed n c (handle_write (takes n ∷ would_block ∷ []) c).1
unfolding handle_write write_loop after_loop finish
write_some n c shut more =
    let wrote = write_output-Strayed n c shut in
    rw more (
      either (λ (r : End × Connection). Strayed n c (after_loop r).1)
        (is_empty (write_output n c).output_buffer) wrote wrote)

-- When a connection with bytes left to write is told of the peer's end and of EPOLLOUT at once, it is closed
-- first, and its bytes are then written all the same, through the descriptor that is closed: nothing more is
-- sent to the peer, and what `write` takes has strayed.
pub writes_after_close :
    (revents n : ℕ) (c : Connection)
    → reports revents epollhup && not (reports revents epollin) ≡ false
    → reports revents epollerr ≡ false
    → reports revents read_event ≡ true
    → reports revents epollout ≡ true
    → is_disconnected c.state ≡ false
    → is_empty c.output_buffer ≡ false
    → let d = happen none (reported true revents (ended ∷ []) (takes n ∷ would_block ∷ [])) c in
      (d.fd_closed ≡ true) × (d.sent ≡ c.sent) × (d.strayed ≡ strayed_some n c)
unfolding happen handle_event handle_event_with_guard channel_callbacks handle_read read_loop
    after_reads deliver make_room close
writes_after_close revents n c hup err reads writes live more =
    rw (hup, err, reads, writes, live)
      (write_some n
        (record (make_room c) {
          state = disconnected;
          writing = false;
          fd_closed = true;
          close_calls = if c.close_cb then suc c.close_calls else c.close_calls;
        })
        refl more)
