-- ===== src/LogServer/Arrival.antt =====
-- log_server/main.cpp: which lines are stored, however the bytes of the frames arrive.
use game_frame.Prelude.{
  ℕ, suc, ◌+◌, ◌^◌, ◌<◌, ◌≤◌, ◌≡◌, refl, sym, ap, ◌∙◌, subst, Bool, true, false, List, [], ◌∷◌,
  ◌++◌, Option, none, some, arith, append-nil, append_assoc, IsByte, All, All-append, All-split,
  length, length-append, if◌then◌else◌, codes,
}
use game_frame.Buffer.{Buffer, readable_view, append}
use game_frame.Buffer.Regions.{IsValid, HasRoom, append-IsValid, length-append_storage}
use game_frame.Buffer.Contents.{view-append}
use game_frame.Frame.{answer, decode}
use game_frame.Frame.Decode.{IsSafeLimit}
use game_frame.Frame.Grammar.{
  IsPartial, Frames, partial, All-Frames, encode_all, Fits, Frames-unique, Frames-encode_all,
}
use game_frame.Frame.Pieces.{Frames-IsPartial, Frames-split, decode-storage}
use game_frame.Frame.Stream.{decode-Reads}
use game_frame.LogFile.{LogFile, Answers, append_line}
use game_frame.LogFile.Appending.{append_each, append_line_lem}
use game_frame.LogServer.{
  max_frame_size, LineAnswers, Session, append_lines, after_decode, on_message, receive,
  receive_chunks,
}

abbrev pub bytes_of : List (List ℕ) → List ℕ
bytes_of [] = []
bytes_of (chunk ∷ chunks) = chunk ++ bytes_of chunks

safe : IsSafeLimit max_frame_size
safe = omega arith

module _ (to_string : ℕ → List ℕ) (strtol : List ℕ → ℕ × ℕ) (system : ℕ → LineAnswers) where
  append_lines-append :
      (k : ℕ) (ps qs : List (List ℕ)) (f : LogFile)
      → append_lines to_string strtol system k (ps ++ qs) f
        ≡ append_lines to_string strtol system
            (k + length ps)
            qs
            (append_lines to_string strtol system k ps f)
  unfolding append_lines
  append_lines-append k [] qs f =
      ap (λ j. append_lines to_string strtol system j qs f) (omega arith)
  append_lines-append k (p ∷ ps) qs f =
      let a = system k in
      let g : LogFile =
        append_line to_string strtol a.for_stamp a.for_payload a.for_newline a.stamp p f in
      append_lines-append (suc k) ps qs g
      ∙ ap
          (λ j.
            append_lines to_string strtol system j qs
              (append_lines to_string strtol system (suc k) ps g))
          (omega arith)

  -- What storing these lines, from the k-th on, is to append to the log: for each its stamp, its bytes and a
  -- newline.
  abbrev pub texts_of : ℕ → List (List ℕ) → List (Answers × List ℕ)
  texts_of k [] = []
  texts_of k (p ∷ ps) =
      let a = system k in
      (a.for_stamp, a.stamp)
      ∷ (a.for_payload, p)
      ∷ (a.for_newline, codes "\n")
      ∷ texts_of (suc k) ps

  -- The log behind these lines.
  abbrev pub log_behind : Session → List (List ℕ) → LogFile
  log_behind s ps = append_each to_string strtol (texts_of s.stored ps) s.log_file

  pub append_lines_lem :
      (k : ℕ) (ps : List (List ℕ)) (f : LogFile)
      → append_lines to_string strtol system k ps f ≡ append_each to_string strtol (texts_of k ps) f
  unfolding append_lines
  append_lines_lem k [] f = refl
  append_lines_lem k (p ∷ ps) f =
      let a = system k in
      append_lines_lem (suc k) ps _
      ∙ ap (append_each to_string strtol (texts_of (suc k) ps))
          (append_line_lem to_string strtol a.for_stamp a.for_payload a.for_newline a.stamp p f)

  -- A session that has taken these messages out of its buffer, or met an illegal frame behind them.
  abbrev pub served : Session → Bool → List (List ℕ) → Buffer → Session
  served s true ms c = record s {
    input = c;
    log_file = append_lines to_string strtol system s.stored ms s.log_file;
    stored = s.stored + length ms;
  }
  served s false ms c = record s { input = c; closed = true }

  -- What one call of the message callback comes to.
  abbrev pub Serves : Session → List ℕ → Type 0
  Serves s bytes =
      (ok : Bool) × (ms : List (List ℕ)) × (c : Buffer) × (receive to_string strtol system bytes s
        ≡ some (served s ok ms c))
      × Frames max_frame_size (readable_view s.input ++ bytes) ok ms (readable_view c)
      × IsValid c
      × (length c.storage ≤ length s.input.storage + length bytes)

  pub receive-Serves :
      (s : Session) (bytes : List ℕ)
      → s.closed ≡ false
      → IsValid s.input
      → HasRoom s.input (length bytes)
      → All IsByte (readable_view s.input ++ bytes)
      → Serves s bytes
  unfolding receive on_message after_decode
  receive-Serves s bytes up v room are_bytes =
      let b : Buffer = append s.input bytes in
      let seen : readable_view b ≡ readable_view s.input ++ bytes = view-append bytes v room in
      let (ok, c, ms, e, f, w) =
        decode-Reads max_frame_size b [] safe (append-IsValid bytes v room)
          (subst (All IsByte) (sym seen) are_bytes) in
      let kept = decode-storage max_frame_size b [] e in
      let grown = length-append_storage bytes v room in
      (
        ok,
        ms,
        c,
        ap
              (λ q.
                if q
                then some s
                else after_decode to_string strtol system (record s { input = b })
                    (decode b [] max_frame_size))
              up
            ∙ ap (after_decode to_string strtol system (record s { input = b })) e
            ∙ outcome b ok c ms,
        subst (λ t. Frames max_frame_size t ok ms (readable_view c)) seen f,
        w,
        omega (arith, kept, grown),
      )
    where
      outcome :
          (b : Buffer) (ok : Bool) (c : Buffer) (ms : List (List ℕ))
          → after_decode to_string strtol system (record s { input = b }) (answer ok c ms)
            ≡ some (served s ok ms c)
      outcome b true c ms = refl
      outcome b false c ms = refl

  -- What a session makes of the rest of a stream whose reading is known: it is not closed, the log has the lines
  -- behind what it had, and the bytes of no whole frame are left.
  abbrev pub Stored : Session → List (List ℕ) → List (List ℕ) → List ℕ → Type 0
  Stored s chunks ms left =
      (s' : Session) × (receive_chunks to_string strtol system chunks s ≡ some s')
      × (s'.closed ≡ false)
      × (s'.log_file ≡ log_behind s ms)
      × (readable_view s'.input ≡ left)

  abbrev Ran : Session → List (List ℕ) → List (List ℕ) → List ℕ → Type 0
  Ran s chunks ms left =
      (s' : Session) × (receive_chunks to_string strtol system chunks s ≡ some s')
      × (s'.closed ≡ false)
      × (s'.log_file ≡ append_lines to_string strtol system s.stored ms s.log_file)
      × (readable_view s'.input ≡ left)

  Ran-of_Frames :
      (chunks : List (List ℕ)) (s : Session) (ms : List (List ℕ)) (left : List ℕ)
      → s.closed ≡ false
      → IsValid s.input
      → IsPartial max_frame_size (readable_view s.input)
      → length s.input.storage + length (bytes_of chunks) < 2 ^ 63
      → All IsByte (readable_view s.input ++ bytes_of chunks)
      → Frames max_frame_size (readable_view s.input ++ bytes_of chunks) true ms left
      → Ran s chunks ms left
  unfolding receive_chunks append_lines
  Ran-of_Frames [] s ms left up v part room are_bytes f =
      let same =
        Frames-unique (omega arith)
          (subst (λ t. Frames max_frame_size t true ms left) (append-nil (readable_view s.input)) f)
          (partial part) in
      (
        s,
        refl,
        up,
        ap (λ ps. append_lines to_string strtol system s.stored ps s.log_file) (sym same.1),
        sym same.2,
      )
  Ran-of_Frames (y ∷ ys) s ms left up v part room are_bytes f =
      let view : List ℕ = readable_view s.input in
      let joined : (view ++ y) ++ bytes_of ys ≡ view ++ (y ++ bytes_of ys) =
        append_assoc view y (bytes_of ys) in
      let sizes = length-append y (bytes_of ys) in
      let read_now =
        All-split IsByte (view ++ y) (bytes_of ys) (subst (All IsByte) (sym joined) are_bytes) in
      let (ok, ms1, c, e, g, w, grown) =
        receive-Serves s y up v (omega (arith, sizes, room)) read_now.0 in
      let (legal, (more, split, behind)) =
        Frames-split (bytes_of ys) (view ++ (y ++ bytes_of ys)) (omega arith) g f (sym joined) in
      let now : Session = served s true ms1 c in
      let (s', run, open_still, log, rest) =
        Ran-of_Frames ys now more left up w (Frames-IsPartial g legal)
          (omega (arith, sizes, room, grown))
          (All-append IsByte (readable_view c) (bytes_of ys) (All-Frames IsByte g read_now.0)
            read_now.1)
          behind in
      (
        s',
        ap
              (λ (o : Option Session). elim o as (λ _. Option Session) [
                | none ↦ none
                | some t ↦ receive_chunks to_string strtol system ys t
              ])
              (e ∙ ap (λ q. some (served s q ms1 c)) legal)
            ∙ run,
        open_still,
        log
            ∙ sym (append_lines-append s.stored ms1 more s.log_file)
            ∙ ap (λ ps. append_lines to_string strtol system s.stored ps s.log_file) (sym split),
        rest,
      )

  -- Frames of non-empty messages within a mebibyte that arrive in any pieces whatsoever, at a connection
  -- that has no whole frame in its buffer and room in it for all of them: no piece is refused, exactly the
  -- messages are stored, in order, each as its stamp, its bytes and a newline that are appended to the log one
  -- after the other, and an incomplete frame behind them waits in the buffer.
  pub receive_chunks-Stored :
      (chunks ps : List (List ℕ)) (s : Session) (rest : List ℕ)
      → s.closed ≡ false
      → IsValid s.input
      → IsPartial max_frame_size (readable_view s.input)
      → length s.input.storage + length (bytes_of chunks) < 2 ^ 63
      → All IsByte (readable_view s.input ++ bytes_of chunks)
      → All (Fits max_frame_size) ps
      → IsPartial max_frame_size rest
      → readable_view s.input ++ bytes_of chunks ≡ encode_all ps ++ rest
      → Stored s chunks ps rest
  receive_chunks-Stored chunks ps s rest up v part room are_bytes fits left e =
      let (s', run, live, log, kept) = Ran-of_Frames chunks s ps rest up v part room are_bytes (
        subst (λ t. Frames max_frame_size t true ps rest) (sym e)
          (Frames-encode_all ps rest fits (partial left))) in
      (s', run, live, log ∙ append_lines_lem s.stored ps s.log_file, kept)
