-- ===== src/Frame/Stream.antt =====
-- util/length_prefixed_codec.h: what a receiver sees of the messages that a sender encodes, in one
-- piece or in several.
use game_frame.Prelude.{
  ℕ, ◌^◌, ◌<◌, ◌≡◌, sym, ap, ◌∙◌, subst, inl, inr, ◌⊎◌, Bool, true, false, List, ◌++◌, arith,
  append_assoc, IsByte, All, All-append, All-split, length, length-append,
}
use game_frame.Buffer.{Buffer, readable_view, append}
use game_frame.Buffer.Regions.{IsValid, HasRoom, append-IsValid}
use game_frame.Buffer.Contents.{view-append}
use game_frame.Frame.{answer, encode, decode}
use game_frame.Frame.Grammar.{
  Frames, IsPartial, IsIllegal, partial, illegal, All-Frames, encode_all, Fits, Frames-unique,
  Frames-append, Frames-encode_all, length_of-encode, length-encode,
}
use game_frame.Frame.Decode.{IsSafeLimit, Reads, decode_loop-Reads}

-- Every call of `decode` returns, reads nothing past the end of the storage, and finds exactly the
-- messages of the stream; the buffer keeps what is left.
pub decode-Reads :
    (max_len : ℕ) (b : Buffer) (out : List (List ℕ))
    → IsSafeLimit max_len
    → IsValid b
    → All IsByte (readable_view b)
    → Reads max_len b out (decode b out max_len)
unfolding decode
decode-Reads max_len b out safe v bytes =
    decode_loop-Reads _ max_len b out safe v bytes (omega arith)

-- The call's answer for a stream whose reading is known.
decode_of_Frames :
    {max_len : ℕ} {ok : Bool} {ms : List (List ℕ)} {left : List ℕ} (b : Buffer)
    (out : List (List ℕ))
    → IsSafeLimit max_len
    → IsValid b
    → All IsByte (readable_view b)
    → Frames max_len (readable_view b) ok ms left
    → (c : Buffer) × (decode b out max_len ≡ answer ok c (out ++ ms))
      × (readable_view c ≡ left)
      × IsValid c
decode_of_Frames {max_len} {ok} {ms} b out safe v bytes f =
    let (ok', c, ms', e, g, w) = decode-Reads max_len b out safe v bytes in
    let same = Frames-unique (omega arith) g f in
    (
      c,
      e ∙ ap (λ o. answer o c (out ++ ms')) same.0 ∙ ap (λ m. answer ok c (out ++ m)) same.1,
      same.2,
      w,
    )

-- Messages that were encoded one after the other come out whole and in order, and an incomplete
-- frame behind them stays in the buffer.
pub decode-encode_all :
    (max_len : ℕ) (b : Buffer) (out ps : List (List ℕ)) (rest : List ℕ)
    → IsSafeLimit max_len
    → IsValid b
    → All IsByte (readable_view b)
    → All (Fits max_len) ps
    → IsPartial max_len rest
    → readable_view b ≡ encode_all ps ++ rest
    → (c : Buffer) × (decode b out max_len ≡ answer true c (out ++ ps))
      × (readable_view c ≡ rest)
      × IsValid c
decode-encode_all max_len b out ps rest safe v bytes fits part e =
    decode_of_Frames b out safe v bytes (
      subst (λ t. Frames max_len t true ps rest) (sym e)
        (Frames-encode_all ps rest fits (partial part)))

-- An empty payload, or one over the limit, makes the receiver refuse the stream from its frame on,
-- although the sender encodes it without complaint.
pub decode-encode_illegal :
    (max_len : ℕ) (b : Buffer) (out ps : List (List ℕ)) (payload rest : List ℕ)
    → IsSafeLimit max_len
    → IsValid b
    → All IsByte (readable_view b)
    → All (Fits max_len) ps
    → (length payload ≡ 0) ⊎ (max_len < length payload)
    → length payload < 2 ^ 32
    → readable_view b ≡ encode_all ps ++ (encode payload ++ rest)
    → (c : Buffer) × (decode b out max_len ≡ answer false c (out ++ ps))
      × (readable_view c ≡ encode payload ++ rest)
      × IsValid c
decode-encode_illegal max_len b out ps payload rest safe v bytes fits bad small e =
    decode_of_Frames b out safe v bytes (
      subst (λ t. Frames max_len t false ps (encode payload ++ rest)) (sym e)
        (Frames-encode_all ps (encode payload ++ rest) fits (illegal (refused bad))))
  where
    refused :
        (length payload ≡ 0) ⊎ (max_len < length payload)
        → IsIllegal max_len (encode payload ++ rest)
    refused =
        let n = length_of-encode payload rest small in
        let m = length-append (encode payload) rest in
        let k = length-encode payload in
        elim [
          | inl z ↦ (omega (arith, m, k), inl (omega (arith, n)))
          | inr over ↦ (omega (arith, m, k), inr (omega (arith, n)))
        ]

-- What an answer of `decode` says of the stream.
decode-eq_answer :
    {max_len : ℕ} {ok : Bool} {c : Buffer} {out' : List (List ℕ)} (b : Buffer) (out : List (List ℕ))
    → IsSafeLimit max_len
    → IsValid b
    → All IsByte (readable_view b)
    → decode b out max_len ≡ answer ok c out'
    → (ms : List (List ℕ)) × (out' ≡ out ++ ms)
      × Frames max_len (readable_view b) ok ms (readable_view c)
      × IsValid c
decode-eq_answer {max_len} {ok} {c} b out safe v bytes first =
    let (ok', c', ms, e, f, w) = decode-Reads max_len b out safe v bytes in
    let same_ok : ok' ≡ ok = cc in
    let same_c : c' ≡ c = cc in
    (
      ms,
      cc,
      subst (λ d. Frames max_len (readable_view b) ok ms (readable_view d)) same_c
          (subst (λ o. Frames max_len (readable_view b) o ms (readable_view c')) same_ok f),
      subst IsValid same_c w,
    )

-- A stream may arrive in any two pieces: decoding the first, receiving the second behind what was
-- left and decoding again gives the answer, the messages and the rest that the whole stream gives.
pub decode-append :
    (max_len : ℕ) (b c whole : Buffer) (out out' : List (List ℕ)) (ys : List ℕ)
    → IsSafeLimit max_len
    → IsValid b
    → All IsByte (readable_view b ++ ys)
    → decode b out max_len ≡ answer true c out'
    → HasRoom c (length ys)
    → IsValid whole
    → readable_view whole ≡ readable_view b ++ ys
    → (ok : Bool) × (d : Buffer) × (d' : Buffer) × (ms : List (List ℕ)) × (decode
          (append c ys)
          out'
          max_len
        ≡ answer ok d ms)
      × (decode whole out max_len ≡ answer ok d' ms)
      × (readable_view d ≡ readable_view d')
decode-append max_len b c whole out out' ys safe v bytes first room w e =
    let (ms, o, f, wc) =
      decode-eq_answer b out safe v (All-split IsByte (readable_view b) ys bytes).0 first in
    let received : readable_view (append c ys) ≡ readable_view c ++ ys = view-append ys wc room in
    let more : All IsByte (readable_view c ++ ys) =
      All-append IsByte (readable_view c) ys
        (All-Frames IsByte f (All-split IsByte (readable_view b) ys bytes).0)
        (All-split IsByte (readable_view b) ys bytes).1 in
    let (ok, d, ms', e2, g, wd) =
      decode-Reads max_len (append c ys) out' safe (append-IsValid ys wc room)
        (subst (All IsByte) (sym received) more) in
    let both =
      Frames-append ys f (subst (λ t. Frames max_len t ok ms' (readable_view d)) received g) in
    let (d', e3, r3, w3) =
      decode_of_Frames whole out safe w (subst (All IsByte) (sym e) bytes)
        (subst (λ t. Frames max_len t ok (ms ++ ms') (readable_view d)) (sym e) both) in
    (
      ok,
      d,
      d',
      out' ++ ms',
      e2,
      e3 ∙ ap (answer ok d') (sym (append_assoc out ms ms') ∙ ap (λ t. t ++ ms') (sym o)),
      sym r3,
    )
