-- ===== src/Rpc.antt =====
-- rpc/rpc_message.h: a request or response as the payload of a frame. An integer field is a number
-- below its width; a string is a list of bytes.
pub mod Integers
pub mod Payload
pub mod RoundTrip
mod Tests
use game_frame.Prelude.{
  ℕ, zero, suc, ◌+◌, ◌-◌, ◌*◌, ◌/◌, ◌%◌, ◌^◌, Bool, List, [], ◌∷◌, ◌++◌, Option, none, some, bit_or,
  ltb, leb, if◌then◌else◌, sub_size, length, take, drop, get_or,
}

-- `RpcType` without its sentinel `kTypeCount`
pub data RpcType : Type 0 where
  request response : RpcType

-- `kTypeCount`
abbrev pub type_count : ℕ
type_count = 2

abbrev pub type_code : RpcType → ℕ
type_code request = 0
type_code response = 1

-- `static_cast<RpcType>` of a byte below `type_count`
abbrev pub type_of_code : ℕ → RpcType
type_of_code zero = request
type_of_code (suc n) = response

-- `status` is the number in the field, which may lie outside the `RpcStatus` enumeration.
pub record RpcMessage : Type 0 where
  pub type : RpcType
  pub request_id : ℕ
  pub status : ℕ
  pub method : List ℕ
  pub body : List ℕ

abbrev pub header_len : ℕ
header_len = 15

abbrev pub max_method_len : ℕ
max_method_len = 0xffff

-- `append_be`: `width` bytes, from the most significant down.
pub append_be : ℕ → List ℕ → ℕ → List ℕ
append_be zero s v = s
append_be (suc width) s v = append_be width (s ++ (v / 2 ^ (8 * width) % 256) ∷ []) v

pub encode : RpcMessage → List ℕ
encode msg =
    if ltb max_method_len (length msg.method)
    then []
    else append_be 2 (append_be 4 (append_be 8 (type_code msg.type ∷ []) msg.request_id) msg.status)
        (length msg.method % 2 ^ 16)
      ++ msg.method
      ++ msg.body

-- `read_be`: `v = (v << 8) | p[i]`, cut to the width of the type in each of the `n` rounds left.
read_be_from : ℕ → ℕ → List ℕ → ℕ → ℕ
read_be_from width zero p v = v
read_be_from width (suc n) p v =
    read_be_from width n (drop 1 p) (bit_or (v * 2 ^ 8) (get_or p 0 0) % 2 ^ (8 * width))

pub read_be : ℕ → List ℕ → ℕ
read_be width p = read_be_from width width p 0

-- `none` is the answer `false`, which leaves `out` as it was.
pub decode : List ℕ → Option RpcMessage
decode payload =
    let type = get_or payload 0 0 in
    let method_len = read_be 2 (drop 13 payload) in
    if ltb (length payload) header_len
    then none
    else if leb type_count type
    then none
    else if ltb (sub_size (length payload) header_len) method_len
    then none
    else some (record {
      type = type_of_code type;
      request_id = read_be 8 (drop 1 payload);
      status = read_be 4 (drop 9 payload);
      method = take method_len (drop header_len payload);
      body =
          take (sub_size (sub_size (length payload) header_len) method_len)
            (drop (header_len + method_len) payload);
    })
