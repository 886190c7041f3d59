-- ===== src/Connection/Reading.antt =====
-- src/connection.cpp, `handle_read`: the bytes go to the input buffer in the order of the stream.
use game_frame.Prelude.{
  ℕ, suc, ◌+◌, ◌*◌, ◌^◌, ◌≤◌, ◌<◌, ◌≡◌, refl, ap, ◌∙◌, subst, inl, inr, List, [], ◌∷◌, ◌++◌, min,
  arith, append_assoc, Bool-cases, ◌==◌, length, take, drop, take-append-drop, length-take,
}
use game_frame.Buffer.{readable_view, writable_bytes, has_written, write_at_end}
use game_frame.Buffer.Regions.{
  IsValid, HasRoom, ensure_writable-Ensured, has_written-IsValid, length-written_storage,
}
use game_frame.Buffer.Contents.{view-ensure_writable, view-has_written}
use game_frame.Connection.{
  Connection, ReadAnswer, hands, ended, read_interrupted, drained, read_failed, make_room, fill,
  read_loop,
}

-- The buffer has room for so many rounds of the loop.
abbrev pub HasRounds : ℕ → Connection → Type 0
HasRounds n c = length c.input_buffer.storage + 4096 * n < 2 ^ 63

-- What a loop of reads, however it ends, makes of a connection: the bytes read stand behind those that
-- were there, and with those that still wait in the kernel they are the stream as it came.
pub record Received (c c' : Connection) : Type 0 where
  pub valid : IsValid c'.input_buffer
  pub stream :
      readable_view c'.input_buffer ++ c'.incoming ≡ readable_view c.input_buffer ++ c.incoming
  pub output : (c'.output_buffer ≡ c.output_buffer) × (c'.sent ≡ c.sent) × (c'.state ≡ c.state)

incoming-make_room : (c : Connection) → (make_room c).incoming ≡ c.incoming
unfolding make_room
incoming-make_room c = refl

make_room-Received :
    (n : ℕ) (c : Connection)
    → IsValid c.input_buffer
    → HasRounds (suc n) c
    → Received c (make_room c) × HasRounds n (make_room c)
unfolding make_room
make_room-Received n c v room =
    let r : HasRoom c.input_buffer 4096 = omega arith in
    let e = ensure_writable-Ensured 4096 v r in
    (
      record {
        valid = e.valid;
        stream = ap (λ xs. xs ++ c.incoming) (view-ensure_writable 4096 v r);
        output = (refl, refl, refl);
      },
      omega (arith, e.growth),
    )

fill-Received :
    (k n : ℕ) (c : Connection)
    → IsValid c.input_buffer
    → k ≤ writable_bytes c.input_buffer
    → k ≤ length c.incoming
    → HasRounds n c
    → Received c (fill k c) × HasRounds n (fill k c)
unfolding fill
fill-Received k n c v fits there room =
    let bytes = take k c.incoming in
    let e : length bytes ≡ k = omega (arith, length-take k c.incoming) in
    let inside : c.input_buffer.writer_index + length bytes ≤ length c.input_buffer.storage =
      omega arith in
    let same = length-written_storage c.input_buffer bytes k in
    (
      record {
        valid =
            subst (λ j. IsValid (has_written (write_at_end c.input_buffer bytes) j)) e
              (has_written-IsValid bytes v inside);
        stream =
            ap (λ xs. xs ++ drop k c.incoming)
              (subst
                (λ j.
                  readable_view (has_written (write_at_end c.input_buffer bytes) j)
                  ≡ readable_view c.input_buffer ++ bytes)
                e (view-has_written bytes v inside))
            ∙ append_assoc (readable_view c.input_buffer) bytes (drop k c.incoming)
            ∙ ap (λ xs. readable_view c.input_buffer ++ xs) (take-append-drop k c.incoming);
        output = (refl, refl, refl);
      },
      omega (arith, same),
    )

Received-trans : {a b c : Connection} → Received a b → Received b c → Received a c
Received-trans p q = record {
  valid = q.valid;
  stream = q.stream ∙ p.stream;
  output = (q.output.0 ∙ p.output.0, q.output.1 ∙ p.output.1, q.output.2 ∙ p.output.2);
}

-- However the loop of `handle_read` ends, on a connection with a valid input buffer that has room for its
-- rounds, no byte of the stream is lost, doubled or moved, and the output side is as it was.
pub read_loop-Received :
    (rs : List ReadAnswer) (c : Connection)
    → IsValid c.input_buffer
    → HasRounds (suc (length rs)) c
    → Received c (read_loop rs c).1
unfolding read_loop
read_loop-Received [] c v room = (make_room-Received 0 c v (omega arith)).0
read_loop-Received (hands m ∷ rs) c v room =
    let (ready, more) = make_room-Received (suc (length rs)) c v (omega arith) in
    let k = min m (min (writable_bytes (make_room c).input_buffer) (length c.incoming)) in
    elim (Bool-cases (k == 0)) [
      | inl none ↦ rw none ready
      | inr some ↦
          let (filled, left) =
            fill-Received k (suc (length rs)) (make_room c) ready.valid (omega arith)
              (omega (arith, ap length (incoming-make_room c))) more in
          rw some (
            Received-trans ready (
              Received-trans filled
                (read_loop-Received rs (fill k (make_room c)) filled.valid left)))
    ]
read_loop-Received (ended ∷ rs) c v room = (make_room-Received 0 c v (omega arith)).0
read_loop-Received (read_interrupted ∷ rs) c v room =
    let (ready, more) = make_room-Received (suc (length rs)) c v (omega arith) in
    Received-trans ready (read_loop-Received rs (make_room c) ready.valid more)
read_loop-Received (drained ∷ rs) c v room = (make_room-Received 0 c v (omega arith)).0
read_loop-Received (read_failed ∷ rs) c v room = (make_room-Received 0 c v (omega arith)).0
