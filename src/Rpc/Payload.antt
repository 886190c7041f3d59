-- ===== src/Rpc/Payload.antt =====
-- rpc/rpc_message.h, `decode`: which payloads it accepts, and what it reads from them.
use game_frame.Prelude.{
  ℕ, ◌+◌, ◌^◌, ◌≤◌, ◌<◌, ◌≡◌, sym, ap, ◌∙◌, List, some, none, arith, IsByte, All, All-drop, length,
  length-drop, take-all, drop-drop, take, drop, get_or, lt→ltb, le→ltb, lt→leb, le→leb, sub_size,
}
use native.Mathlib.Decide.{dec_lt}
use game_frame.Rpc.{RpcMessage, type_of_code, header_len, type_count, decode}
use game_frame.Rpc.Integers.{be_value, read_be-eq_2, read_be-eq_4, read_be-eq_8}

-- the length that the header announces for the method
abbrev pub method_len_of : List ℕ → ℕ
method_len_of p = be_value 2 (drop 13 p) 0

-- what the 15 header bytes and the rest say
abbrev pub reading : List ℕ → RpcMessage
reading p = record {
  type = type_of_code (get_or p 0 0);
  request_id = be_value 8 (drop 1 p) 0;
  status = be_value 4 (drop 9 p) 0;
  method = take (method_len_of p) (drop header_len p);
  body = drop (method_len_of p) (drop header_len p);
}

-- The payload has a whole header, a known type, and room for its method.
abbrev pub IsAcceptable : List ℕ → Type 0
IsAcceptable p =
    (header_len ≤ length p)
    × (get_or p 0 0 < type_count)
    × (header_len + be_value 2 (drop 13 p) 0 ≤ length p)

pub decode-accepts :
    (p : List ℕ) → All IsByte p → length p < 2 ^ 64 → IsAcceptable p → decode p ≡ some (reading p)
unfolding decode
decode-accepts p bytes small (long, known, fits) =
    rw
      (
        read_be-eq_2 (drop 13 p) (All-drop IsByte 13 p bytes),
        read_be-eq_4 (drop 9 p) (All-drop IsByte 9 p bytes),
        read_be-eq_8 (drop 1 p) (All-drop IsByte 1 p bytes),
        le→ltb (length p) header_len long,
        lt→leb type_count (get_or p 0 0) known,
        le→ltb (sub_size (length p) header_len) (method_len_of p) (omega arith),
      )
      (ap (λ t. some (record (reading p) { body = t })) whole_body)
  where
    whole_body :
        take
          (sub_size (sub_size (length p) header_len) (method_len_of p))
          (drop (header_len + method_len_of p) p)
        ≡ drop (method_len_of p) (drop header_len p)
    whole_body =
        take-all _ (drop (header_len + method_len_of p) p)
          (omega (arith, length-drop (header_len + method_len_of p) p))
        ∙ sym (drop-drop (method_len_of p) header_len p)

pub dec_acceptable : (p : List ℕ) → Dec (IsAcceptable p)
dec_acceptable p = elim (dec_lt (length p) header_len) [
  | yes short ↦ no (λ ok. omega arith)
  | no long ↦ elim (dec_lt (get_or p 0 0) type_count) [
    | no unknown ↦ no (λ ok. unknown ok.1)
    | yes known ↦ elim (dec_lt (length p) (header_len + method_len_of p)) [
      | yes over ↦ no (λ ok. omega arith)
      | no fits ↦ yes (omega arith, known, omega arith)
    ]
  ]
]

-- Of bytes that are not an acceptable payload (a whole header, a known type, room for the announced
-- method) `decode` says false.
pub decode_refuses :
    (p : List ℕ) → All IsByte p → length p < 2 ^ 64 → ¬ IsAcceptable p → decode p ≡ none
unfolding decode
decode_refuses p bytes small bad = elim (dec_lt (length p) header_len) [
  | yes short ↦ rw (lt→ltb (length p) header_len short)
  | no long ↦
      rw (le→ltb (length p) header_len (omega arith)) (elim (dec_lt (get_or p 0 0) type_count) [
        | no unknown ↦ rw (le→leb type_count (get_or p 0 0) (omega arith))
        | yes known ↦ rw (
          lt→leb type_count (get_or p 0 0) known,
          read_be-eq_2 (drop 13 p) (All-drop IsByte 13 p bytes),
          lt→ltb (sub_size (length p) header_len) (method_len_of p)
              (elim (dec_lt (length p) (header_len + method_len_of p)) [
                | yes over ↦ omega arith
                | no fits ↦ absurd (bad (omega arith, known, omega arith))
              ]),
        )
      ])
]
