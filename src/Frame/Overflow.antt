-- ===== src/Frame/Overflow.antt =====
-- util/length_prefixed_codec.h: what `4u + len` does when the caller's limit lets it wrap.
use game_frame.Prelude.{
  ℕ, ◌+◌, ◌^◌, ◌≤◌, ◌<◌, ◌≡◌, ap, ◌-◌, List, arith, le→ltb, ne→==, add_u32, IsByte, All, length,
}
use game_frame.Buffer.{Buffer, readable_bytes, readable_view, retrieve}
use game_frame.Buffer.Regions.{IsValid, storage-retrieve}
use game_frame.Buffer.Contents.{retrieve_as_string-past}
use game_frame.Frame.{out_of_bounds, decode_loop, decode}
use game_frame.Frame.Header.{length_of, peek_uint32_be-eq}

-- With a limit of 2^32 - 4 or more, a header that announces so long a payload passes the test for
-- a complete body as soon as four bytes are there, and the payload is read past the end of a
-- storage below 4 GiB.
pub decode_overreads :
    (max_len : ℕ) (b : Buffer) (out : List (List ℕ))
    → IsValid b
    → All IsByte (readable_view b)
    → 4 ≤ readable_bytes b
    → length_of (readable_view b) ≤ max_len
    → 2 ^ 32 ≤ length_of (readable_view b) + 4
    → length_of (readable_view b) < 2 ^ 32
    → length b.storage < 2 ^ 32 - 4
    → decode b out max_len ≡ out_of_bounds
unfolding decode decode_loop
decode_overreads max_len b out v bytes h legal wraps word short = rw (
  le→ltb _ _ h,
  peek_uint32_be-eq b bytes h,
  ne→== (length_of (readable_view b)) 0 (omega arith),
  le→ltb max_len (length_of (readable_view b)) legal,
  le→ltb (readable_bytes b) (add_u32 4 (length_of (readable_view b))) (omega arith),
  retrieve_as_string-past (retrieve b 4) (length_of (readable_view b))
      (omega (arith, short, wraps, ap length (storage-retrieve b 4))),
  decode_loop,
)
