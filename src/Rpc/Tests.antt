-- ===== src/Rpc/Tests.antt =====
-- rpc/rpc_message.h on concrete messages.
use game_frame.Prelude.{ℕ, ◌≡◌, refl, ap, List, [], ◌∷◌, some, arith, length}
use game_frame.Rpc.{RpcMessage, request, encode, decode, append_be, read_be, read_be_from}
use game_frame.Rpc.RoundTrip.{IsWellFormed, decode-encode, encode-decode}

-- a request "add" with a body of two bytes
abbrev call : RpcMessage
call = record {
  type = request;
  request_id = 258;
  status = 0;
  method = 97 ∷ 100 ∷ 100 ∷ [];
  body = 1 ∷ 255 ∷ [];
}

abbrev call_bytes : List ℕ
call_bytes =
    0 ∷ 0 ∷ 0 ∷ 0 ∷ 0 ∷ 0 ∷ 0 ∷ 1 ∷ 2 ∷ 0 ∷ 0 ∷ 0 ∷ 0 ∷ 0 ∷ 3 ∷ 97 ∷ 100 ∷ 100 ∷ 1 ∷ 255 ∷ []

encode-call : encode call ≡ call_bytes
unfolding encode append_be
encode-call = refl

decode-call : decode call_bytes ≡ some call
unfolding decode read_be read_be_from
decode-call = refl

decode-encode_example : decode (encode call) ≡ some call
decode-encode_example =
    decode-encode call
      (record {
        id_fits = omega arith;
        status_fits = omega arith;
        method_fits = omega arith;
        method_bytes = omega arith;
        body_bytes = omega arith;
      })
      (omega (arith, ap length encode-call))

encode-decode_example : (encode call ≡ call_bytes) × IsWellFormed call
encode-decode_example = encode-decode call_bytes (omega arith) (omega arith) decode-call
