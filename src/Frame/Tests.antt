-- ===== src/Frame/Tests.antt =====
-- util/length_prefixed_codec.h on concrete streams.
use game_frame.Prelude.{
  ℕ, ◌+◌, ◌^◌, ◌-◌, ◌≡◌, refl, inl, Bool, true, false, List, [], ◌∷◌, ◌++◌, replicate, arith,
  IsByte, All, length,
}
use game_frame.Buffer.{Buffer, readable_view, append, retrieve, retrieve_all, retrieve_as_string}
use game_frame.Buffer.Regions.{IsValid}
use game_frame.Frame.{answer, out_of_bounds, encode, decode, decode_loop, peek_uint32_be}
use game_frame.Frame.Grammar.{encode_all}
use game_frame.Frame.Decode.{Reads}
use game_frame.Frame.Stream.{decode-Reads, decode-encode_all, decode-append}
use game_frame.Frame.Overflow.{decode_overreads}

-- a buffer that holds these bytes behind the room for a header
abbrev holding : List ℕ → Buffer
holding xs = record {
  storage = replicate 8 0 ++ xs ++ replicate 16 0;
  reader_index = 8;
  writer_index = 8 + length xs;
}

-- "hi", "!" and half a header
abbrev stream : List ℕ
stream = 0 ∷ 0 ∷ 0 ∷ 2 ∷ 104 ∷ 105 ∷ 0 ∷ 0 ∷ 0 ∷ 1 ∷ 33 ∷ 0 ∷ 0 ∷ []

abbrev messages : List (List ℕ)
messages = (104 ∷ 105 ∷ []) ∷ (33 ∷ []) ∷ []

stream_bytes : All IsByte (readable_view (holding stream))
stream_bytes = omega arith

stream_encoded : readable_view (holding stream) ≡ encode_all messages ++ 0 ∷ 0 ∷ []
unfolding encode_all encode
stream_encoded = refl

-- what `decode` leaves of it
abbrev behind : Buffer
behind = record (holding stream) { reader_index = 19 }

decode-stream : decode (holding stream) [] 64 ≡ answer true behind messages
unfolding decode decode_loop peek_uint32_be retrieve retrieve_all retrieve_as_string
decode-stream = refl

-- The stream's first frame is refused under a limit of 1.
decode-stream_over : decode (holding stream) [] 1 ≡ answer false (holding stream) []
unfolding decode decode_loop peek_uint32_be
decode-stream_over = refl

decode-Reads_example : Reads 64 (holding stream) [] (decode (holding stream) [] 64)
decode-Reads_example = decode-Reads 64 (holding stream) [] (omega arith) (omega arith) stream_bytes

decode-encode_all_example :
    (c : Buffer) × (decode (holding stream) [] 64 ≡ answer true c messages)
    × (readable_view c ≡ 0 ∷ 0 ∷ [])
    × IsValid c
decode-encode_all_example =
    decode-encode_all 64 (holding stream) [] messages (0 ∷ 0 ∷ []) (omega arith) (omega arith)
      stream_bytes (omega arith) (inl (omega arith)) stream_encoded

-- The rest of the header, and a payload of one byte.
abbrev second : List ℕ
second = 0 ∷ 1 ∷ 46 ∷ []

decode-append_example :
    (ok : Bool) × (d : Buffer) × (d' : Buffer) × (ms : List (List ℕ)) × (decode
        (append behind second)
        messages
        64
      ≡ answer ok d ms)
    × (decode (holding (stream ++ second)) [] 64 ≡ answer ok d' ms)
    × (readable_view d ≡ readable_view d')
decode-append_example =
    decode-append 64 (holding stream) behind (holding (stream ++ second)) [] messages second
      (omega arith) (omega arith) (omega arith) decode-stream (omega arith) (omega arith) refl

-- a header that announces 2^32 - 1 bytes
abbrev greedy : Buffer
greedy = holding (255 ∷ 255 ∷ 255 ∷ 255 ∷ [])

decode_overreads_example : decode greedy [] (2 ^ 32 - 1) ≡ out_of_bounds
decode_overreads_example =
    decode_overreads (2 ^ 32 - 1) greedy [] (omega arith) (omega arith) (omega arith) (omega arith)
      (omega arith) (omega arith) (omega arith)
