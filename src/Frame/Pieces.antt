-- ===== src/Frame/Pieces.antt =====
-- util/length_prefixed_codec.h: the readings of a stream and of its first piece, and the storage of the buffer.
use game_frame.Prelude.{
  ℕ, zero, suc, ◌+◌, ◌^◌, ◌≤◌, ◌<◌, ◌≡◌, refl, sym, ap, ap₂, ◌∙◌, subst, Bool, true, false, ◌||◌,
  List, [], ◌∷◌, ◌++◌, Option, none, some, arith, append_assoc, either, ltb, leb, ◌==◌, add_u32,
  length, length-append, take, drop,
}
use game_frame.Buffer.{Buffer, readable_bytes, retrieve, retrieve_all, retrieve_as_string}
use game_frame.Frame.{
  encode, peek_uint32_be, Decoded, answer, out_of_bounds, out_of_rounds, decode_loop, decode,
}
use game_frame.Frame.Header.{length_of}
use game_frame.Frame.Grammar.{
  IsPartial, IsIllegal, Frames, partial, illegal, frame, Frames-unique, encode-IsLegal, frame_parts,
}

-- What is left of a stream without an illegal header is an incomplete frame.
pub Frames-IsPartial :
    {max_len : ℕ} {xs left : List ℕ} {ms : List (List ℕ)} {ok : Bool}
    → Frames max_len xs ok ms left
    → ok ≡ true
    → IsPartial max_len left
Frames-IsPartial (partial p) e = p
Frames-IsPartial (illegal p) e = cc
Frames-IsPartial (frame payload pos small h f) e = Frames-IsPartial f e

length_of-append : (xs ys : List ℕ) → 4 ≤ length xs → length_of (xs ++ ys) ≡ length_of xs
length_of-append [] ys h = absurd (omega (arith, h))
length_of-append (a ∷ []) ys h = absurd (omega (arith, h))
length_of-append (a ∷ b ∷ []) ys h = absurd (omega (arith, h))
length_of-append (a ∷ b ∷ c ∷ []) ys h = absurd (omega (arith, h))
length_of-append (a ∷ b ∷ c ∷ d ∷ rest) ys h = refl

IsIllegal-append :
    {max_len : ℕ} (xs ys : List ℕ) → IsIllegal max_len xs → IsIllegal max_len (xs ++ ys)
IsIllegal-append xs ys h =
    let same = length_of-append xs ys h.0 in (omega (arith, h.0, length-append xs ys), rw same h.1)

-- The first piece of a stream without an illegal header has none either, and its messages come first.
pub Frames-split :
    {max_len : ℕ} {xs left left' : List ℕ} {ms ms' : List (List ℕ)} {ok : Bool} (ys t : List ℕ)
    → max_len < 2 ^ 32
    → Frames max_len xs ok ms left
    → Frames max_len t true ms' left'
    → t ≡ xs ++ ys
    → (ok ≡ true)
      × ((more : List (List ℕ)) × (ms' ≡ ms ++ more) × Frames max_len (left ++ ys) true more left')
Frames-split {max_len} {left' = left'} {ms' = ms'} ys t bound (partial p) g e =
    (refl, (ms', refl, subst (λ u. Frames max_len u true ms' left') e g))
Frames-split {max_len} {xs = xs} {left' = left'} {ms' = ms'} ys t bound (illegal p) g e =
    let bad : false ≡ true =
      (Frames-unique bound (illegal (IsIllegal-append xs ys p))
        (subst (λ u. Frames max_len u true ms' left') e g)).0 in
    cc
Frames-split {xs = xs} ys t bound (frame {rest = rest} payload pos small h f) (partial q) e =
    let whole : encode payload ++ (rest ++ ys) ≡ t =
      sym (append_assoc (encode payload) rest ys) ∙ ap (λ u. u ++ ys) h ∙ sym e in
    absurd (omega (arith, encode-IsLegal payload (rest ++ ys) t bound pos small whole))
Frames-split {max_len} {left = left} {left' = left'} ys t bound
      (frame {rest = rest} {ms = ms} payload pos small h f)
      (frame {rest = rest'} {ms = ms'} payload' pos' small' h' g) e =
    let whole : encode payload ++ (rest ++ ys) ≡ t =
      sym (append_assoc (encode payload) rest ys) ∙ ap (λ u. u ++ ys) h ∙ sym e in
    let mine = frame_parts payload (rest ++ ys) t (omega arith) whole in
    let theirs = frame_parts payload' rest' t (omega arith) h' in
    let (legal, (more, split, behind)) = Frames-split ys rest' bound f g (theirs.1 ∙ sym mine.1) in
    (legal, (more, ap₂ ◌∷◌ (theirs.0 ∙ sym mine.0) split, behind))

-- An answer leaves the storage as long as it was.
abbrev Stores : ℕ → Decoded → Type 0
Stores n (answer ok c out) = length c.storage ≡ n
Stores n out_of_bounds = Unit {0}
Stores n out_of_rounds = Unit {0}

retrieve-storage : (b : Buffer) (n : ℕ) → length (retrieve b n).storage ≡ length b.storage
unfolding retrieve retrieve_all
retrieve-storage b n =
    either (λ (c : Buffer). length c.storage ≡ length b.storage) (leb (readable_bytes b) n) refl
      refl

decode_loop-storage :
    (rounds max_len : ℕ) (b : Buffer) (out : List (List ℕ))
    → Stores (length b.storage) (decode_loop rounds max_len b out)
unfolding decode_loop retrieve_as_string
decode_loop-storage zero max_len b out = tt
decode_loop-storage (suc rounds) max_len b out =
    let n = length b.storage in
    let len = peek_uint32_be b in
    let payload' = take len (drop (retrieve b 4).reader_index (retrieve b 4).storage) in
    either (Stores n) (ltb (readable_bytes b) 4) refl (
      either (Stores n) ((len == 0) || ltb max_len len) refl (
        either (Stores n) (ltb (readable_bytes b) (add_u32 4 len)) refl (
          either
            (λ (o : Option (List ℕ × Buffer)). Stores n (elim o as (λ _. Decoded) [
              | none ↦ out_of_bounds
              | some (payload, input') ↦ decode_loop rounds max_len input' (out ++ payload ∷ [])
            ]))
            (leb ((retrieve b 4).reader_index + len) (length (retrieve b 4).storage))
            (subst
              (λ k.
                Stores k
                  (decode_loop rounds max_len (retrieve (retrieve b 4) len) (out ++ payload' ∷ [])))
              (retrieve-storage (retrieve b 4) len ∙ retrieve-storage b 4)
              (decode_loop-storage rounds max_len (retrieve (retrieve b 4) len)
                (out ++ payload' ∷ [])))
            tt)))

pub decode-storage :
    {ok : Bool} {c : Buffer} {out' : List (List ℕ)} (max_len : ℕ) (b : Buffer) (out : List (List ℕ))
    → decode b out max_len ≡ answer ok c out'
    → length c.storage ≡ length b.storage
unfolding decode
decode-storage max_len b out e =
    subst (Stores (length b.storage)) e (decode_loop-storage (suc (readable_bytes b)) max_len b out)
