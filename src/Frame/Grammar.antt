-- ===== src/Frame/Grammar.antt =====
-- util/length_prefixed_codec.h: which messages a stream of bytes holds, as an inductive relation that
-- says nothing of buffers or loops.
use game_frame.Prelude.{
  ℕ, ◌+◌, ◌^◌, ◌%◌, ◌≤◌, ◌<◌, ◌≡◌, refl, sym, ap, ap₂, ◌∙◌, ◌⊎◌, inl, inr, Bool, true, false, List,
  [], ◌∷◌, ◌++◌, arith, append_assoc, All, All-split, length, length-append, subst, take, drop,
  take-length_append, drop-length_append,
}
use native.Mathlib.Decide.{dec_lt}
use game_frame.Frame.{header, encode}
use game_frame.Frame.Header.{length_of, length_of-header}

-- The length in front is one that `decode` accepts.
abbrev pub IsLegal : ℕ → List ℕ → Type 0
IsLegal max_len xs = (0 < length_of xs) × (length_of xs ≤ max_len)

-- Not a whole frame yet: the header is not complete, or it is legal and the payload is not complete.
abbrev pub IsPartial : ℕ → List ℕ → Type 0
IsPartial max_len xs =
    (length xs < 4) ⊎ ((4 ≤ length xs) × IsLegal max_len xs × (length xs < 4 + length_of xs))

-- A header whose length is 0 or over the limit.
abbrev pub IsIllegal : ℕ → List ℕ → Type 0
IsIllegal max_len xs = (4 ≤ length xs) × ((length_of xs ≡ 0) ⊎ (max_len < length_of xs))

-- `Frames m xs ok ms rest`: from `xs` come the messages `ms`, and `rest` is left; `ok` is false if
-- what is left begins with an illegal header.
pub data Frames (max_len : ℕ) : List ℕ → Bool → List (List ℕ) → List ℕ → Type 0 where
  partial : {xs : List ℕ} → IsPartial max_len xs → Frames max_len xs true [] xs
  illegal : {xs : List ℕ} → IsIllegal max_len xs → Frames max_len xs false [] xs
  frame :
      {xs rest left : List ℕ} {ok : Bool} {ms : List (List ℕ)} (payload : List ℕ)
      → 0 < length payload
      → length payload ≤ max_len
      → encode payload ++ rest ≡ xs
      → Frames max_len rest ok ms left
      → Frames max_len xs ok (payload ∷ ms) left

-- How a stream begins.
pub data Start (max_len : ℕ) (xs : List ℕ) : Type 0 where
  headless : length xs < 4 → Start max_len xs
  refused : IsIllegal max_len xs → Start max_len xs
  waiting : 4 ≤ length xs → IsLegal max_len xs → length xs < 4 + length_of xs → Start max_len xs
  whole : 4 ≤ length xs → IsLegal max_len xs → 4 + length_of xs ≤ length xs → Start max_len xs

pub start : (max_len : ℕ) (xs : List ℕ) → Start max_len xs
start max_len xs = elim (dec_lt (length xs) 4) [
  | yes h ↦ headless h
  | no h ↦ elim (dec_lt 0 (length_of xs)) [
    | no z ↦ refused (omega arith, inl (omega arith))
    | yes p ↦ elim (dec_lt max_len (length_of xs)) [
      | yes over ↦ refused (omega arith, inr over)
      | no within ↦ elim (dec_lt (length xs) (4 + length_of xs)) [
        | yes less ↦ waiting (omega arith) (omega arith) less
        | no enough ↦ whole (omega arith) (omega arith) (omega arith)
      ]
    ]
  ]
]

pub length-encode : (payload : List ℕ) → length (encode payload) ≡ 4 + length payload
unfolding encode
length-encode payload = omega arith

-- A payload within 32 bits is announced by its own length.
pub length_of-encode :
    (payload rest : List ℕ)
    → length payload < 2 ^ 32
    → length_of (encode payload ++ rest) ≡ length payload
unfolding encode
length_of-encode payload rest h =
    ap length_of (append_assoc (header (length payload % 2 ^ 32)) payload rest)
    ∙ length_of-header (length payload % 2 ^ 32) (payload ++ rest) (omega arith)
    ∙ omega arith

-- The bytes of several messages sent one after the other.
unfoldable pub encode_all : List (List ℕ) → List ℕ
encode_all [] = []
encode_all (p ∷ ps) = encode p ++ encode_all ps

-- A payload that `decode` accepts under the limit.
abbrev pub Fits : ℕ → List ℕ → Type 0
Fits max_len payload = (0 < length payload) × (length payload ≤ max_len)

-- Messages sent one after the other come before what is read behind them.
pub Frames-encode_all :
    {max_len : ℕ} {ok : Bool} (ps : List (List ℕ)) (rest : List ℕ)
    → All (Fits max_len) ps
    → Frames max_len rest ok [] rest
    → Frames max_len (encode_all ps ++ rest) ok ps rest
unfolding encode_all
Frames-encode_all [] rest fits f = f
Frames-encode_all (p ∷ ps) rest fits f =
    frame p fits.0.0 fits.0.1 (sym (append_assoc (encode p) (encode_all ps) rest))
      (Frames-encode_all ps rest fits.1 f)

-- What is left is a piece of the stream.
pub All-Frames {κ} :
    (P : ℕ → Type κ) {max_len : ℕ} {xs left : List ℕ} {ms : List (List ℕ)} {ok : Bool}
    → Frames max_len xs ok ms left
    → All P xs
    → All P left
All-Frames P (partial p) h = h
All-Frames P (illegal p) h = h
All-Frames P (frame {rest = rest} payload pos small e f) h =
    All-Frames P f (All-split P (encode payload) rest (subst (All P) (sym e) h)).1

-- The messages of a stream that comes in two pieces are those of the first piece, then those of
-- what it left together with the second.
pub Frames-append :
    {max_len : ℕ} {xs left left' : List ℕ} {ms ms' : List (List ℕ)} {ok : Bool} (ys : List ℕ)
    → Frames max_len xs true ms left
    → Frames max_len (left ++ ys) ok ms' left'
    → Frames max_len (xs ++ ys) ok (ms ++ ms') left'
Frames-append ys (partial p) g = g
Frames-append ys (frame {rest = rest} payload pos small e f) g =
    frame payload pos small (sym (append_assoc (encode payload) rest ys) ∙ ap (λ t. t ++ ys) e)
      (Frames-append ys f g)

-- A frame in front of a stream is determined by the stream.
pub frame_parts :
    (payload rest xs : List ℕ)
    → length payload < 2 ^ 32
    → encode payload ++ rest ≡ xs
    → (payload ≡ take (length_of xs) (drop 4 xs)) × (rest ≡ drop (length_of xs) (drop 4 xs))
frame_parts payload rest xs small e =
    let n : length_of xs ≡ length payload =
      ap length_of (sym e) ∙ length_of-encode payload rest small in
    let tail : drop 4 xs ≡ payload ++ rest = ap (drop 4) (sym e) ∙ behind in
    rw (n, tail)
      (
        sym (take-length_append (length payload) payload rest refl),
        sym (drop-length_append (length payload) payload rest refl),
      )
  where
    behind : drop 4 (encode payload ++ rest) ≡ payload ++ rest
    behind = unfold encode in refl

pub encode-IsLegal :
    {max_len : ℕ} (payload rest xs : List ℕ)
    → max_len < 2 ^ 32
    → 0 < length payload
    → length payload ≤ max_len
    → encode payload ++ rest ≡ xs
    → IsLegal max_len xs × (4 + length_of xs ≤ length xs)
encode-IsLegal payload rest xs bound pos small e = omega (
  arith,
  ap length_of e,
  length_of-encode payload rest (omega arith),
  ap length e,
  length-append (encode payload) rest,
  length-encode payload,
)

-- A stream has one reading: its messages, its rest and whether it is legal are determined.
pub Frames-unique :
    {max_len : ℕ} {xs left left' : List ℕ} {ms ms' : List (List ℕ)} {ok ok' : Bool}
    → max_len < 2 ^ 32
    → Frames max_len xs ok ms left
    → Frames max_len xs ok' ms' left'
    → (ok ≡ ok') × (ms ≡ ms') × (left ≡ left')
Frames-unique bound (partial p) (partial q) = (refl, refl, refl)
Frames-unique bound (partial p) (illegal q) = absurd (omega arith)
Frames-unique {xs = xs} bound (partial p) (frame {rest = rest} payload pos small e g) =
    absurd (omega (arith, encode-IsLegal payload rest xs bound pos small e))
Frames-unique bound (illegal p) (partial q) = absurd (omega arith)
Frames-unique bound (illegal p) (illegal q) = (refl, refl, refl)
Frames-unique {xs = xs} bound (illegal p) (frame {rest = rest} payload pos small e g) =
    absurd (omega (arith, encode-IsLegal payload rest xs bound pos small e))
Frames-unique {xs = xs} bound (frame {rest = rest} payload pos small e f) (partial q) =
    absurd (omega (arith, encode-IsLegal payload rest xs bound pos small e))
Frames-unique {xs = xs} bound (frame {rest = rest} payload pos small e f) (illegal q) =
    absurd (omega (arith, encode-IsLegal payload rest xs bound pos small e))
Frames-unique {max_len} {xs = xs} bound (frame {rest = rest} p pos small e f)
      (frame {rest = rest'} {left = left'} {ok = ok'} {ms = ms'} p' pos' small' e' g) =
    let a = frame_parts p rest xs (omega arith) e in
    let b = frame_parts p' rest' xs (omega arith) e' in
    let same : rest' ≡ rest = b.1 ∙ sym a.1 in
    let ih = Frames-unique bound f (subst (λ t. Frames max_len t ok' ms' left') same g) in
    (ih.0, ap₂ ◌∷◌ (a.0 ∙ sym b.0) ih.1, ih.2)
