-- ===== src/Frame/Decode.antt =====
-- util/length_prefixed_codec.h: `decode` reads a stream as the grammar says, on every input.
use game_frame.Prelude.{
  ℕ, zero, suc, ◌+◌, ◌-◌, ◌^◌, ◌≤◌, ◌<◌, ◌≡◌, sym, ap, ◌∙◌, subst, inl, inr, Bool, true, false,
  List, [], ◌∷◌, ◌++◌, some, arith, append-nil, append_assoc, add_u32, IsByte, All, All-drop,
  length, take, drop, length-drop, length-take, lt→ltb, le→ltb, ne→==, ◌⊎◌,
}
use game_frame.Buffer.{Buffer, readable_bytes, readable_view, retrieve, retrieve_as_string}
use game_frame.Buffer.Regions.{IsValid, length-readable_view, retrieve-IsValid}
use game_frame.Buffer.Contents.{view-retrieve, retrieve_as_string_lem}
use game_frame.Frame.{Decoded, answer, peek_uint32_be, decode_loop}
use game_frame.Frame.Header.{length_of, peek_uint32_be-eq, encode-split}
use game_frame.Frame.Grammar.{
  IsLegal, Start, headless, refused, waiting, whole, start, Frames, partial, illegal, frame,
}

-- The largest limit with which `4u + len` cannot wrap.
abbrev pub IsSafeLimit : ℕ → Type 0
IsSafeLimit max_len = max_len + 4 < 2 ^ 32

-- A call that returns has found the messages that the grammar finds, appended them to `out`, and
-- left the buffer valid with what the grammar leaves.
abbrev pub Reads : ℕ → Buffer → List (List ℕ) → Decoded → Type 0
Reads max_len b out r =
    (ok : Bool) × (c : Buffer) × (ms : List (List ℕ)) × (r ≡ answer ok c (out ++ ms))
    × Frames max_len (readable_view b) ok ms (readable_view c)
    × IsValid c

module _ (max_len : ℕ) (b : Buffer) (v : IsValid b) (bytes : All IsByte (readable_view b)) where
  -- the buffer behind the first frame
  abbrev after : Buffer
  after = retrieve (retrieve b 4) (length_of (readable_view b))

  view-after : readable_view after ≡ drop (length_of (readable_view b)) (drop 4 (readable_view b))
  view-after =
      view-retrieve (length_of (readable_view b)) (retrieve-IsValid 4 v)
      ∙ ap (drop (length_of (readable_view b))) (view-retrieve 4 v)

  readable_bytes-retrieve : readable_bytes (retrieve b 4) ≡ readable_bytes b - 4
  readable_bytes-retrieve =
      sym (length-readable_view (retrieve b 4) (retrieve-IsValid 4 v))
      ∙ ap length (view-retrieve 4 v)
      ∙ length-drop 4 (readable_view b)
      ∙ ap (λ n. n - 4) (length-readable_view b v)

  body_read :
      4 + length_of (readable_view b) ≤ readable_bytes b
      → retrieve_as_string (retrieve b 4) (length_of (readable_view b))
        ≡ some (take (length_of (readable_view b)) (drop 4 (readable_view b)), after)
  body_read h =
      retrieve_as_string_lem (length_of (readable_view b)) (retrieve-IsValid 4 v)
        (omega (arith, readable_bytes-retrieve))
      ∙ ap (λ xs. some (take (length_of (readable_view b)) xs, after)) (view-retrieve 4 v)

  readable_bytes-after : readable_bytes after ≡ readable_bytes b - 4 - length_of (readable_view b)
  readable_bytes-after =
      sym (length-readable_view after (retrieve-IsValid _ (retrieve-IsValid 4 v)))
      ∙ ap length view-after
      ∙ length-drop (length_of (readable_view b)) (drop 4 (readable_view b))
      ∙ ap (λ n. n - length_of (readable_view b))
          (length-drop 4 (readable_view b) ∙ ap (λ n. n - 4) (length-readable_view b v))

  -- The four ways a round goes, by the readable bytes alone.
  module _ (rounds : ℕ) (out : List (List ℕ)) where
    round-short : readable_bytes b < 4 → decode_loop (suc rounds) max_len b out ≡ answer true b out
    unfolding decode_loop
    round-short h = rw (lt→ltb _ _ h, decode_loop)

    module _ (h : 4 ≤ readable_bytes b) where
      peeked : peek_uint32_be b ≡ length_of (readable_view b)
      peeked = peek_uint32_be-eq b bytes h

      round-illegal :
          (length_of (readable_view b) ≡ 0) ⊎ (max_len < length_of (readable_view b))
          → decode_loop (suc rounds) max_len b out ≡ answer false b out
      unfolding decode_loop
      round-illegal bad = rw (le→ltb _ _ h, peeked, decode_loop) (ground arith)

      round-wait :
          IsSafeLimit max_len
          → IsLegal max_len (readable_view b)
          → readable_bytes b < 4 + length_of (readable_view b)
          → decode_loop (suc rounds) max_len b out ≡ answer true b out
      unfolding decode_loop
      round-wait safe legal less = rw (le→ltb _ _ h, peeked, decode_loop) (ground arith)

      round-frame :
          IsSafeLimit max_len
          → IsLegal max_len (readable_view b)
          → 4 + length_of (readable_view b) ≤ readable_bytes b
          → decode_loop (suc rounds) max_len b out
            ≡ decode_loop rounds max_len after
                (out ++ take (length_of (readable_view b)) (drop 4 (readable_view b)) ∷ [])
      unfolding decode_loop
      round-frame safe legal enough = rw (
        le→ltb _ _ h,
        peeked,
        ne→== (length_of (readable_view b)) 0 (omega arith),
        le→ltb max_len (length_of (readable_view b)) legal.1,
        le→ltb (readable_bytes b) (add_u32 4 (length_of (readable_view b))) (omega arith),
        body_read enough,
        decode_loop,
      )

-- The loop, given more rounds than readable bytes.
pub decode_loop-Reads :
    (rounds max_len : ℕ) (b : Buffer) (out : List (List ℕ))
    → IsSafeLimit max_len
    → IsValid b
    → All IsByte (readable_view b)
    → readable_bytes b < rounds
    → Reads max_len b out (decode_loop rounds max_len b out)
decode_loop-Reads zero max_len b out safe v bytes h = absurd (omega arith)
decode_loop-Reads (suc rounds) max_len b out safe v bytes h =
    by_start (start max_len (readable_view b)) (
      decode_loop-Reads rounds max_len rest_of (out ++ payload ∷ []) safe
        (retrieve-IsValid n (retrieve-IsValid 4 v))
        (subst (All IsByte) (sym (view-after max_len b v bytes)) (
          All-drop IsByte n (drop 4 (readable_view b))
            (All-drop IsByte 4 (readable_view b) bytes))))
  where
    n : ℕ
    n = length_of (readable_view b)

    rest_of : Buffer
    rest_of = after max_len b v bytes

    payload : List ℕ
    payload = take n (drop 4 (readable_view b))

    view_length : length (readable_view b) ≡ readable_bytes b
    view_length = length-readable_view b v

    stop :
        (ok : Bool)
        → decode_loop (suc rounds) max_len b out ≡ answer ok b out
        → Frames max_len (readable_view b) ok [] (readable_view b)
        → Reads max_len b out (decode_loop (suc rounds) max_len b out)
    stop ok e f = (ok, b, [], e ∙ ap (answer ok b) (sym (append-nil out)), f, v)

    go_on :
        IsLegal max_len (readable_view b)
        → 4 + n ≤ length (readable_view b)
        → decode_loop (suc rounds) max_len b out
          ≡ decode_loop rounds max_len rest_of (out ++ payload ∷ [])
        → Reads max_len rest_of
            (out ++ payload ∷ [])
            (decode_loop rounds max_len rest_of (out ++ payload ∷ []))
        → Reads max_len b out (decode_loop (suc rounds) max_len b out)
    go_on legal enough e (ok, c, ms, r, f, w) = (
      ok,
      c,
      payload ∷ ms,
      e ∙ r ∙ ap (answer ok c) (append_assoc out (payload ∷ []) ms),
      frame payload (omega (arith, length-payload)) (omega (arith, length-payload))
          (encode-split (readable_view b) bytes enough (omega arith))
          (subst (λ t. Frames max_len t ok ms (readable_view c)) (view-after max_len b v bytes) f),
      w,
    )
      where
        length-payload : length payload ≡ n
        length-payload =
            omega (arith, length-take n (drop 4 (readable_view b)), length-drop 4 (readable_view b))

    by_start :
        Start max_len (readable_view b)
        → (readable_bytes rest_of < rounds
            → Reads max_len rest_of
                (out ++ payload ∷ [])
                (decode_loop rounds max_len rest_of (out ++ payload ∷ [])))
        → Reads max_len b out (decode_loop (suc rounds) max_len b out)
    by_start (headless short) later =
        stop true (round-short max_len b v bytes rounds out (omega (arith, view_length)))
          (partial (inl short))
    by_start (refused bad) later =
        stop false (round-illegal max_len b v bytes rounds out (omega (arith, view_length)) bad.1)
          (illegal bad)
    by_start (waiting long legal less) later =
        stop true
          (round-wait max_len b v bytes rounds out (omega (arith, view_length)) safe legal
            (omega (arith, view_length)))
          (partial (inr (long, legal, less)))
    by_start (whole long legal enough) later =
        go_on legal enough
          (round-frame max_len b v bytes rounds out (omega (arith, view_length)) safe legal
            (omega (arith, view_length)))
          (later (omega (arith, readable_bytes-after max_len b v bytes, view_length)))
