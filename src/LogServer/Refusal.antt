-- ===== src/LogServer/Refusal.antt =====
-- log_server/main.cpp: messages in front of an illegal frame.
use game_frame.Prelude.{
  ℕ, ◌+◌, ◌≤◌, Bool, ◌^◌, ◌<◌, ◌≡◌, refl, sym, ap, ◌∙◌, subst, inl, true, false, List, [], ◌∷◌,
  ◌++◌, Option, none, some, arith, append-nil, IsByte, All, All-split, length, length-append,
}
use game_frame.Buffer.{Buffer, readable_view}
use game_frame.Buffer.Regions.{IsValid}
use game_frame.Frame.Grammar.{
  IsIllegal, Frames, partial, illegal, encode_all, Fits, Frames-unique, Frames-encode_all,
}
use game_frame.LogServer.{
  max_frame_size, LineAnswers, Session, append_lines, receive, receive_chunks,
}
use game_frame.LogServer.Arrival.{log_behind, append_lines_lem, served, receive-Serves}

module _ (to_string : ℕ → List ℕ) (strtol : List ℕ → ℕ × ℕ) (system : ℕ → LineAnswers) where
  -- A closed connection with these lines stored.
  abbrev pub ClosedWith : Session → Option Session → List (List ℕ) → Type 0
  ClosedWith s r ps =
      (s' : Session) × (r ≡ some s')
      × (s'.closed ≡ true)
      × (s'.log_file ≡ log_behind to_string strtol system s ps)

  -- What the callback does with bytes whose frames are known, when the buffer has none before.
  receive-Frames :
      (s : Session) (bytes : List ℕ) (ok : Bool) (ps : List (List ℕ)) (left : List ℕ)
      → s.closed ≡ false
      → IsValid s.input
      → readable_view s.input ≡ []
      → length s.input.storage + length bytes < 2 ^ 63
      → All IsByte bytes
      → Frames max_frame_size bytes ok ps left
      → (c : Buffer) × (receive to_string strtol system bytes s
          ≡ some (served to_string strtol system s ok ps c))
        × (readable_view c ≡ left)
        × IsValid c
        × (length c.storage ≤ length s.input.storage + length bytes)
  receive-Frames s bytes ok ps left up v nothing room are_bytes f =
      let all : bytes ≡ readable_view s.input ++ bytes = ap (λ u. u ++ bytes) (sym nothing) in
      let (ok', ms, c, e, g, w, grown) =
        receive-Serves to_string strtol system s bytes up v room
          (subst (All IsByte) all are_bytes) in
      let same =
        Frames-unique (omega arith)
          (subst (λ t. Frames max_frame_size t ok' ms (readable_view c)) (sym all) g) f in
      (
        c,
        e
            ∙ ap (λ q. some (served to_string strtol system s q ms c)) same.0
            ∙ ap (λ qs. some (served to_string strtol system s ok qs c)) same.1,
        same.2,
        w,
        grown,
      )

  -- Messages in front of an illegal frame are all lost when they arrive together with it: the log is as it
  -- was. They are all stored when they arrive before it: the log has the stamp, the bytes and a newline of each
  -- appended, in order. The connection, with an empty buffer that has room for them, is closed in both cases.
  pub refusal_loses :
      (ps : List (List ℕ)) (bad : List ℕ) (s : Session)
      → s.closed ≡ false
      → IsValid s.input
      → readable_view s.input ≡ []
      → length s.input.storage + length (encode_all ps ++ bad) < 2 ^ 63
      → All IsByte (encode_all ps ++ bad)
      → All (Fits max_frame_size) ps
      → IsIllegal max_frame_size bad
      → ClosedWith s (receive to_string strtol system (encode_all ps ++ bad) s) []
        × ClosedWith s (receive_chunks to_string strtol system (encode_all ps ∷ bad ∷ []) s) ps
  unfolding append_lines receive_chunks
  refusal_loses ps bad s up v nothing room are_bytes fits ill =
      let sizes = length-append (encode_all ps) bad in
      let each = All-split IsByte (encode_all ps) bad are_bytes in
      let (c, e, seen, w, grown) =
        receive-Frames s (encode_all ps ++ bad) false ps bad up v nothing room are_bytes
          (Frames-encode_all ps bad fits (illegal ill)) in
      let (c1, e1, seen1, w1, grown1) =
        receive-Frames s (encode_all ps) true ps [] up v nothing (omega (arith, sizes, room)) each.0
          (subst (λ t. Frames max_frame_size t true ps []) (append-nil (encode_all ps))
            (Frames-encode_all ps [] fits (partial (inl (omega arith))))) in
      let now : Session = served to_string strtol system s true ps c1 in
      let (c2, e2, seen2, w2, grown2) =
        receive-Frames now bad false [] bad up w1 seen1 (omega (arith, sizes, room, grown1)) each.1
          (illegal ill) in
      (
        (served to_string strtol system s false ps c, e, refl, refl),
        (
          served to_string strtol system now false [] c2,
          ap
                (λ (o : Option Session). elim o as (λ _. Option Session) [
                  | none ↦ none
                  | some t ↦ receive_chunks to_string strtol system (bad ∷ []) t
                ])
                e1
              ∙ ap
                  (λ (o : Option Session). elim o as (λ _. Option Session) [
                    | none ↦ none
                    | some t ↦ some t
                  ])
                  e2,
          refl,
          append_lines_lem to_string strtol system s.stored ps s.log_file,
        ),
      )
