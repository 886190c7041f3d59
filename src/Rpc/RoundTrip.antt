-- ===== src/Rpc/RoundTrip.antt =====
-- rpc/rpc_message.h: `encode` and `decode` are inverse.
use game_frame.Prelude.{
  ℕ, zero, suc, ◌^◌, ◌%◌, ◌≤◌, ◌<◌, ◌≡◌, refl, sym, ap, ◌∙◌, List, [], ◌∷◌, ◌++◌, some, arith,
  IsByte, All, All-append, All-drop, All-take, some-inj, subst, length, length-append, length-take,
  take, drop, le→ltb, take-length_append, drop-length_append, take-append-drop,
}
use game_frame.Rpc.{
  RpcMessage, RpcType, request, response, type_code, type_of_code, header_len, max_method_len,
  encode, decode,
}
use game_frame.Rpc.Integers.{
  be_bytes, be_value, append_be-eq, be_value-be_bytes_2, be_value-be_bytes_4, be_value-be_bytes_8,
  be_bytes-be_value_2, be_bytes-be_value_4, be_bytes-be_value_8, value_2-lt, value_4-lt, value_8-lt,
}
use game_frame.Rpc.Payload.{
  method_len_of, reading, IsAcceptable, decode-accepts, dec_acceptable, decode_refuses,
}

-- Every field fits its width, and the strings hold bytes.
pub record IsWellFormed (msg : RpcMessage) : Type 0 where
  pub id_fits : msg.request_id < 2 ^ 64
  pub status_fits : msg.status < 2 ^ 32
  pub method_fits : length msg.method ≤ max_method_len
  pub method_bytes : All IsByte msg.method
  pub body_bytes : All IsByte msg.body

-- the fixed header of a message
abbrev pub head_bytes : RpcMessage → List ℕ
head_bytes msg =
    type_code msg.type ∷ be_bytes 8 msg.request_id
    ++ be_bytes 4 msg.status
    ++ be_bytes 2 (length msg.method % 2 ^ 16)

-- `encode` is the header, the method and the body, one behind the other.
pub encode-eq :
    (msg : RpcMessage)
    → length msg.method ≤ max_method_len
    → encode msg ≡ head_bytes msg ++ msg.method ++ msg.body
unfolding encode
encode-eq msg h = rw (
  le→ltb max_method_len (length msg.method) h,
  append_be-eq 8 (type_code msg.type ∷ []) msg.request_id,
  append_be-eq 4 (type_code msg.type ∷ be_bytes 8 msg.request_id) msg.status,
  append_be-eq 2 (type_code msg.type ∷ be_bytes 8 msg.request_id ++ be_bytes 4 msg.status)
      (length msg.method % 2 ^ 16),
)

be_bytes-IsByte : (width v : ℕ) → All IsByte (be_bytes width v)
be_bytes-IsByte zero v = tt
be_bytes-IsByte (suc width) v = (omega arith, be_bytes-IsByte width v)

type_code-lt : (t : RpcType) → type_code t < 2
type_code-lt request = omega arith
type_code-lt response = omega arith

type_of_code-type_code : (t : RpcType) → type_of_code (type_code t) ≡ t
type_of_code-type_code request = refl
type_of_code-type_code response = refl

head_bytes-IsByte : (msg : RpcMessage) → All IsByte (head_bytes msg)
head_bytes-IsByte msg = (
  omega (arith, type_code-lt msg.type),
  All-append IsByte (be_bytes 8 msg.request_id ++ be_bytes 4 msg.status)
      (be_bytes 2 (length msg.method % 2 ^ 16))
      (All-append IsByte (be_bytes 8 msg.request_id) (be_bytes 4 msg.status)
        (be_bytes-IsByte 8 msg.request_id) (be_bytes-IsByte 4 msg.status))
      (be_bytes-IsByte 2 (length msg.method % 2 ^ 16)),
)

module _ (msg : RpcMessage) (w : IsWellFormed msg) where
  abbrev sent : List ℕ
  sent = head_bytes msg ++ msg.method ++ msg.body

  sent_method_len : method_len_of sent ≡ length msg.method
  sent_method_len =
      be_value-be_bytes_2 (length msg.method % 2 ^ 16) (msg.method ++ msg.body) (omega arith)
      ∙ omega (arith, w.method_fits)

  reading-sent : reading sent ≡ msg
  reading-sent = λ i. record {
    type = type_of_code-type_code msg.type i;
    request_id =
        be_value-be_bytes_8 msg.request_id
          (be_bytes 4 msg.status
            ++ (be_bytes 2 (length msg.method % 2 ^ 16) ++ (msg.method ++ msg.body)))
          w.id_fits i;
    status =
        be_value-be_bytes_4 msg.status
          (be_bytes 2 (length msg.method % 2 ^ 16) ++ (msg.method ++ msg.body)) w.status_fits i;
    method =
        (ap (λ n. take n (msg.method ++ msg.body)) sent_method_len
            ∙ take-length_append (length msg.method) msg.method msg.body refl)
          i;
    body =
        (ap (λ n. drop n (msg.method ++ msg.body)) sent_method_len
            ∙ drop-length_append (length msg.method) msg.method msg.body refl)
          i;
  }

  sent-IsByte : All IsByte sent
  sent-IsByte =
      All-append IsByte (head_bytes msg ++ msg.method) msg.body
        (All-append IsByte (head_bytes msg) msg.method (head_bytes-IsByte msg) w.method_bytes)
        w.body_bytes

  sent-IsAcceptable : IsAcceptable sent
  sent-IsAcceptable =
      let n = length-append (msg.method) msg.body in
      (omega arith, type_code-lt msg.type, omega (arith, sent_method_len, n))

-- A message whose fields fit their widths, whose method fits 16 bits and whose encoding is below
-- 2^64 bytes is decoded from its encoding as it was.
pub decode-encode :
    (msg : RpcMessage)
    → IsWellFormed msg
    → length (encode msg) < 2 ^ 64
    → decode (encode msg) ≡ some msg
decode-encode msg w small =
    let e = encode-eq msg w.method_fits in
    ap decode e
    ∙ decode-accepts (sent msg w) (sent-IsByte msg w) (omega (arith, ap length e))
        (sent-IsAcceptable msg w)
    ∙ ap some (reading-sent msg w)

type_code-type_of_code : (n : ℕ) → n < 2 → type_code (type_of_code n) ≡ n
type_code-type_of_code zero h = refl
type_code-type_of_code (suc zero) h = refl
type_code-type_of_code (suc (suc n)) h = absurd (omega arith)

reading-IsWellFormed : (p : List ℕ) → All IsByte p → IsAcceptable p → IsWellFormed (reading p)
reading-IsWellFormed p bytes ok = record {
  id_fits = value_8-lt (drop 1 p) (All-drop IsByte 1 p bytes);
  status_fits = value_4-lt (drop 9 p) (All-drop IsByte 9 p bytes);
  method_fits = omega (
    arith,
    length-take (method_len_of p) (drop header_len p),
    value_2-lt (drop 13 p) (All-drop IsByte 13 p bytes),
  );
  method_bytes = All-take IsByte (method_len_of p) (drop header_len p) rest_bytes;
  body_bytes = All-drop IsByte (method_len_of p) (drop header_len p) rest_bytes;
}
  where
    rest_bytes : All IsByte (drop header_len p)
    rest_bytes = All-drop IsByte header_len p bytes

-- Encoding what the header and the rest say gives the payload again.
encode-reading : (p : List ℕ) → All IsByte p → IsAcceptable p → encode (reading p) ≡ p
encode-reading (t ∷ a ∷ b ∷ c ∷ d ∷ e ∷ f ∷ g ∷ h ∷ i ∷ j ∷ k ∷ l ∷ m ∷ n ∷ rest) bytes ok =
    encode-eq (reading p) (reading-IsWellFormed p bytes ok).method_fits
    ∙ (λ r.
        (type_code-type_of_code t ok.1 r
            ∷ be_bytes-be_value_8 a b c d e f g h (i ∷ j ∷ k ∷ l ∷ m ∷ n ∷ rest) (omega arith) r
          ++ be_bytes-be_value_4 i j k l (m ∷ n ∷ rest) (omega arith) r
          ++ two r)
        ++ take (method_len_of p) rest
        ++ drop (method_len_of p) rest)
    ∙ ap (λ xs. t ∷ a ∷ b ∷ c ∷ d ∷ e ∷ f ∷ g ∷ h ∷ i ∷ j ∷ k ∷ l ∷ m ∷ n ∷ xs)
        (take-append-drop (method_len_of p) rest)
  where
    p : List ℕ
    p = t ∷ a ∷ b ∷ c ∷ d ∷ e ∷ f ∷ g ∷ h ∷ i ∷ j ∷ k ∷ l ∷ m ∷ n ∷ rest

    announced : length (take (method_len_of p) rest) % 2 ^ 16 ≡ be_value 2 (m ∷ n ∷ rest) 0
    announced = omega (arith, length-take (method_len_of p) rest)

    two : be_bytes 2 (length (take (method_len_of p) rest) % 2 ^ 16) ≡ m ∷ n ∷ []
    two = ap (be_bytes 2) announced ∙ be_bytes-be_value_2 m n rest (omega arith) (omega arith)
encode-reading _ bytes ok = absurd (omega arith)

-- Of a payload of bytes, below 2^64 of them, that `decode` accepts, the message it returns is well
-- formed and is encoded as that payload, byte for byte.
pub encode-decode :
    (p : List ℕ) {msg : RpcMessage}
    → All IsByte p
    → length p < 2 ^ 64
    → decode p ≡ some msg
    → (encode msg ≡ p) × IsWellFormed msg
encode-decode p {msg} bytes small e = elim (dec_acceptable p) [
  | no bad ↦ absurd (cc (decode_refuses p bytes small bad))
  | yes ok ↦
      let same : reading p ≡ msg = some-inj (sym (decode-accepts p bytes small ok) ∙ e) in
      (
        ap encode (sym same) ∙ encode-reading p bytes ok,
        subst IsWellFormed same (reading-IsWellFormed p bytes ok),
      )
]
