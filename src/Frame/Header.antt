-- ===== src/Frame/Header.antt =====
-- util/length_prefixed_codec.h: the four header bytes and the length are one another's inverse.
use game_frame.Prelude.{
  ℕ, ◌+◌, ◌*◌, ◌%◌, ◌^◌, ◌≤◌, ◌<◌, ◌≡◌, refl, ap, ap₂, ◌∙◌, List, [], ◌∷◌, ◌++◌, arith, bit_or,
  bit_or_fields, zero-bit_or, IsByte, All, All-get_or, length, take, drop, get_or, get_or-take,
  length-take, take-append-drop,
}
use game_frame.Buffer.{Buffer, readable_bytes, readable_view}
use game_frame.Frame.{header, encode, peek_uint32_be}

-- the length that four header bytes stand for
abbrev pub length_of : List ℕ → ℕ
length_of xs =
    get_or xs 0 0 * 2 ^ 24 + get_or xs 1 0 * 2 ^ 16 + get_or xs 2 0 * 2 ^ 8 + get_or xs 3 0

or_bytes :
    (a b c d : ℕ)
    → IsByte b
    → IsByte c
    → IsByte d
    → bit_or (bit_or (bit_or (bit_or 0 (a * 2 ^ 24)) (b * 2 ^ 16)) (c * 2 ^ 8)) d
      ≡ a * 2 ^ 24 + b * 2 ^ 16 + c * 2 ^ 8 + d
or_bytes a b c d hb hc hd =
    ap (λ (t : ℕ). bit_or (bit_or (bit_or t (b * 2 ^ 16)) (c * 2 ^ 8)) d) (zero-bit_or (a * 2 ^ 24))
    ∙ ap (λ (t : ℕ). bit_or (bit_or t (c * 2 ^ 8)) d)
        (bit_or_fields 24 a (b * 2 ^ 16) (omega arith))
    ∙ ap (λ (t : ℕ). bit_or (bit_or t (c * 2 ^ 8)) d) e16
    ∙ ap (λ (t : ℕ). bit_or t d) (bit_or_fields 16 (a * 2 ^ 8 + b) (c * 2 ^ 8) (omega arith))
    ∙ ap (λ (t : ℕ). bit_or t d) e8
    ∙ bit_or_fields 8 (a * 2 ^ 16 + b * 2 ^ 8 + c) d (omega arith)
    ∙ omega arith
  where
    e16 : a * 2 ^ 24 + b * 2 ^ 16 ≡ (a * 2 ^ 8 + b) * 2 ^ 16
    e16 = omega arith

    e8 : (a * 2 ^ 8 + b) * 2 ^ 16 + c * 2 ^ 8 ≡ (a * 2 ^ 16 + b * 2 ^ 8 + c) * 2 ^ 8
    e8 = omega arith

-- `peek_uint32_be` reads the length that the first four readable bytes stand for.
pub peek_uint32_be-eq :
    (b : Buffer)
    → All IsByte (readable_view b)
    → 4 ≤ readable_bytes b
    → peek_uint32_be b ≡ length_of (readable_view b)
unfolding peek_uint32_be
peek_uint32_be-eq b bytes h = cc (
  seen 0 (omega arith),
  seen 1 (omega arith),
  seen 2 (omega arith),
  seen 3 (omega arith),
  or_bytes (at 0) (at 1) (at 2) (at 3) (is_byte 1) (is_byte 2) (is_byte 3),
)
  where
    at : ℕ → ℕ
    at i = get_or (readable_view b) i 0

    is_byte : (i : ℕ) → IsByte (at i)
    is_byte i = All-get_or IsByte (readable_view b) i 0 (omega arith) bytes

    seen : (i : ℕ) → i < 4 → at i ≡ get_or (drop b.reader_index b.storage) i 0
    seen i lt = get_or-take (drop b.reader_index b.storage) (readable_bytes b) i 0 (omega arith)

-- A length of 32 bits is read back from its header, whatever follows.
pub length_of-header : (n : ℕ) (rest : List ℕ) → n < 2 ^ 32 → length_of (header n ++ rest) ≡ n
length_of-header n rest h = omega arith

pub header-length_of :
    (a b c d : ℕ) (rest : List ℕ)
    → All IsByte (a ∷ b ∷ c ∷ d ∷ rest)
    → header (length_of (a ∷ b ∷ c ∷ d ∷ rest)) ≡ a ∷ b ∷ c ∷ d ∷ []
header-length_of a b c d rest h =
    ap₂ ◌∷◌ (omega arith)
      (ap₂ ◌∷◌ (omega arith) (ap₂ ◌∷◌ (omega arith) (ap₂ ◌∷◌ (omega arith) refl)))

-- Four header bytes and as many bytes as they announce are the encoding of those bytes.
pub encode-split :
    (xs : List ℕ)
    → All IsByte xs
    → 4 + length_of xs ≤ length xs
    → length_of xs < 2 ^ 32
    → encode (take (length_of xs) (drop 4 xs)) ++ drop (length_of xs) (drop 4 xs) ≡ xs
unfolding encode
encode-split (a ∷ b ∷ c ∷ d ∷ rest) bytes h small =
    ap (λ k. (header k ++ take n rest) ++ drop n rest) whole
    ∙ ap₂ ◌++◌ (header-length_of a b c d rest bytes) (take-append-drop n rest)
  where
    n : ℕ
    n = length_of (a ∷ b ∷ c ∷ d ∷ rest)

    whole : length (take n rest) % 2 ^ 32 ≡ n
    whole = omega (arith, length-take n rest)
encode-split [] bytes h small = absurd (omega arith)
encode-split (a ∷ []) bytes h small = absurd (omega arith)
encode-split (a ∷ b ∷ []) bytes h small = absurd (omega arith)
encode-split (a ∷ b ∷ c ∷ []) bytes h small = absurd (omega arith)
