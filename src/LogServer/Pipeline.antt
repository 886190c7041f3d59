-- ===== src/LogServer/Pipeline.antt =====
-- log_sender/log_sender.cpp, util/length_prefixed_codec.h and log_server/main.cpp together: the lines that
-- threads push at one end and the lines that are stored at the other.
use game_frame.Prelude.{
  ℕ, ◌+◌, ◌^◌, ◌<◌, ◌≡◌, refl, sym, ap, ◌∙◌, inl, true, false, List, [], ◌∷◌, ◌++◌, some, arith,
  append-nil, IsByte, All, length, take, drop, drop-length_append, subst,
}
use game_frame.Buffer.{readable_view}
use game_frame.Buffer.Regions.{IsValid}
use game_frame.Frame.{encode}
use game_frame.Frame.Grammar.{encode_all, Fits}
use game_frame.MpscQueue.Ring.{Holds}
use game_frame.LogSender.{
  Call, connects, disconnects, destroys, shuts_down, sends, LogSender, do_drain_and_send,
}
use game_frame.LogSender.Batches.{frames, loss_lines, do_drain_and_send-frames}
use game_frame.LogServer.{max_frame_size, LineAnswers, Session}
use game_frame.LogServer.Arrival.{bytes_of, Stored, receive_chunks-Stored}

-- The bytes that these calls give the connection.
abbrev pub wire : List Call → List ℕ
wire [] = []
wire (sends bytes ∷ cs) = bytes ++ wire cs
wire (connects ∷ cs) = wire cs
wire (disconnects ∷ cs) = wire cs
wire (destroys ∷ cs) = wire cs
wire (shuts_down ∷ cs) = wire cs

wire-frames : (lines : List (List ℕ)) → wire (frames lines) ≡ encode_all lines
unfolding encode_all
wire-frames [] = refl
wire-frames (line ∷ lines) = ap (◌++◌ (encode line)) (wire-frames lines)

module _ (to_string : ℕ → List ℕ) (strtol : List ℕ → ℕ × ℕ) (system : ℕ → LineAnswers) where
  -- A sender whose connection is up and keeps up drains a batch of a queue of lines, and the bytes of its new
  -- calls arrive in any pieces at a log server's connection with an empty buffer that has room for them:
  -- then the server stores the line that tells of lost ones, if any were lost, and the oldest lines of the
  -- queue, up to the batch size, in the order in which they were pushed, and nothing else. The lines are not
  -- empty and within a mebibyte.
  pub do_drain_and_send-Stored :
      (s : LogSender) (xs : List (List ℕ)) (server : Session) (chunks : List (List ℕ))
      → s.connection ≡ some true
      → 0 < s.opts.max_batch_per_tick
      → Holds s.queue xs
      → All
          (Fits max_frame_size)
          (loss_lines to_string s.queue.dropped ++ take s.opts.max_batch_per_tick xs)
      → server.closed ≡ false
      → IsValid server.input
      → readable_view server.input ≡ []
      → length server.input.storage + length (bytes_of chunks) < 2 ^ 63
      → All IsByte (bytes_of chunks)
      → bytes_of chunks ≡ wire (drop (length s.calls) (do_drain_and_send to_string [] s).calls)
      → Stored to_string strtol system server chunks
          (loss_lines to_string s.queue.dropped ++ take s.opts.max_batch_per_tick xs)
          []
  do_drain_and_send-Stored s xs server chunks up pos w fits up' v nothing room are_bytes arrived =
      let lines = loss_lines to_string s.queue.dropped ++ take s.opts.max_batch_per_tick xs in
      let (q, e, kept, reset) = do_drain_and_send-frames to_string s xs up pos w in
      let sent : bytes_of chunks ≡ encode_all lines =
        arrived
        ∙ ap (λ t. wire (drop (length s.calls) t.calls)) e
        ∙ ap wire (drop-length_append (length s.calls) s.calls (frames lines) refl)
        ∙ wire-frames lines in
      receive_chunks-Stored to_string strtol system chunks lines server [] up' v
        (inl (subst (λ t. length t < 4) (sym nothing) (omega arith))) room
        (subst (λ t. All IsByte (t ++ bytes_of chunks)) (sym nothing) are_bytes) fits
        (inl (omega arith))
        (ap (λ t. t ++ bytes_of chunks) nothing ∙ sent ∙ sym (append-nil (encode_all lines)))
