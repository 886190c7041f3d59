-- ===== src/Frame.antt =====
-- util/length_prefixed_codec.h: frames of a 4-byte big-endian length and a payload.
pub mod Header
pub mod Grammar
pub mod Decode
pub mod Pieces
pub mod Stream
pub mod Overflow
mod Tests
use game_frame.Prelude.{
  ℕ, zero, suc, ◌+◌, ◌*◌, ◌/◌, ◌%◌, ◌^◌, Bool, true, false, ◌||◌, List, [], ◌∷◌, ◌++◌, none, some,
  bit_or, ltb, ◌==◌, if◌then◌else◌, add_u32, length, drop, get_or,
}
use game_frame.Buffer.{Buffer, readable_bytes, retrieve, retrieve_as_string}

abbrev pub default_max_frame_len : ℕ
default_max_frame_len = 16 * 1024 * 1024

-- `(n >> 8 * i) & 0xFF`
abbrev pub byte_of : ℕ → ℕ → ℕ
byte_of n i = n / 2 ^ (8 * i) % 256

-- the four header bytes of a length
abbrev pub header : ℕ → List ℕ
header len = byte_of len 3 ∷ byte_of len 2 ∷ byte_of len 1 ∷ byte_of len 0 ∷ []

-- `encode`: the length is cut to 32 bits.
unfoldable pub encode : List ℕ → List ℕ
encode payload = header (length payload % 2 ^ 32) ++ payload

-- `peek_uint32_be`: the shifted bytes are joined by `|=`.
pub peek_uint32_be : Buffer → ℕ
peek_uint32_be b =
    let p = λ (i : ℕ). get_or (drop b.reader_index b.storage) i 0 in
    bit_or (bit_or (bit_or (bit_or 0 (p 0 * 2 ^ 24)) (p 1 * 2 ^ 16)) (p 2 * 2 ^ 8)) (p 3)

-- What a call of `decode` comes to: its answer with the buffer and `out` as it leaves them, a read
-- past the end of the storage, or (of the model only) a loop that ran out of rounds.
pub data Decoded : Type 0 where
  answer : Bool → Buffer → List (List ℕ) → Decoded
  out_of_bounds : Decoded
  out_of_rounds : Decoded

pub decode_loop : ℕ → ℕ → Buffer → List (List ℕ) → Decoded
decode_loop zero max_frame_len input out = out_of_rounds
decode_loop (suc rounds) max_frame_len input out =
    let len = peek_uint32_be input in
    let body = elim (retrieve_as_string (retrieve input 4) len) as (λ _. Decoded) [
      | none ↦ out_of_bounds
      | some (payload, input') ↦ decode_loop rounds max_frame_len input' (out ++ payload ∷ [])
    ] in
    if ltb (readable_bytes input) 4
    then answer true input out
    else if (len == 0) || ltb max_frame_len len
    then answer false input out
    else if ltb (readable_bytes input) (add_u32 4 len)
    then answer true input out
    else body

-- A frame takes five bytes at least, so the readable bytes bound the rounds.
pub decode : Buffer → List (List ℕ) → ℕ → Decoded
decode input out max_frame_len = decode_loop (suc (readable_bytes input)) max_frame_len input out
