-- ===== src/Buffer.antt =====
-- util/buffer.h: the byte buffer that every connection reads into and writes from. A pointer into
-- the storage is its index; `memcpy` and `memmove` are `overwrite`. `size_t` sums wrap at 2^64.
pub mod Regions
pub mod Contents
pub mod Stream
pub mod Crlf
mod Tests
use game_frame.Prelude.{
  ℕ, suc, ◌+◌, ◌-◌, Bool, List, [], ◌∷◌, ◌++◌, Option, none, some, leb, ◌==◌, ◌&&◌, if◌then◌else◌,
  add_size, sub_size, length, take, drop, replicate, overwrite,
}
use mathlib.Core.Option

abbrev pub initial_size : ℕ
initial_size = 1024

abbrev pub prepend_size : ℕ
prepend_size = 8

-- `data_`, `reader_index_`, `writer_index_`; a byte is a number below 256.
pub record Buffer : Type 0 where
  pub storage : List ℕ
  pub reader_index : ℕ
  pub writer_index : ℕ

unfoldable pub new : Buffer
new = record {
  storage = replicate (add_size prepend_size initial_size) 0;
  reader_index = prepend_size;
  writer_index = prepend_size;
}

abbrev pub readable_bytes : Buffer → ℕ
readable_bytes b = sub_size b.writer_index b.reader_index

abbrev pub writable_bytes : Buffer → ℕ
writable_bytes b = sub_size (length b.storage) b.writer_index

abbrev pub prependable_bytes : Buffer → ℕ
prependable_bytes b = b.reader_index

abbrev pub is_empty : Buffer → Bool
is_empty b = readable_bytes b == 0

-- the bytes at `peek()`, as many as are readable
abbrev pub readable_view : Buffer → List ℕ
readable_view b = take (readable_bytes b) (drop b.reader_index b.storage)

-- `vector::resize`
abbrev resize : List ℕ → ℕ → List ℕ
resize xs n = take n xs ++ replicate (n - length xs) 0

-- the branch of `ensure_writable` that moves the readable bytes to the front
compact : Buffer → Buffer
compact b = record {
  storage = overwrite b.storage prepend_size (readable_view b);
  reader_index = prepend_size;
  writer_index = add_size prepend_size (readable_bytes b);
}

-- the branch of `ensure_writable` that enlarges the storage
grow : Buffer → ℕ → Buffer
grow b n = record b { storage = resize b.storage (add_size b.writer_index n) }

pub ensure_writable : Buffer → ℕ → Buffer
ensure_writable b n =
    if leb n (writable_bytes b)
    then b
    else if leb (add_size n prepend_size) (add_size (writable_bytes b) (prependable_bytes b))
    then compact b
    else grow b n

-- Bytes that a caller stores at `begin_write()`.
pub write_at_end : Buffer → List ℕ → Buffer
write_at_end b bytes = record b { storage = overwrite b.storage b.writer_index bytes }

pub has_written : Buffer → ℕ → Buffer
has_written b n = record b { writer_index = add_size b.writer_index n }

pub append : Buffer → List ℕ → Buffer
append b bytes = has_written (write_at_end (ensure_writable b (length bytes)) bytes) (length bytes)

unfoldable pub retrieve_all : Buffer → Buffer
retrieve_all b = record b { reader_index = prepend_size; writer_index = prepend_size }

unfoldable pub retrieve : Buffer → ℕ → Buffer
retrieve b n =
    if leb (readable_bytes b) n
    then retrieve_all b
    else record b { reader_index = add_size b.reader_index n }

pub retrieve_all_as_string : Buffer → List ℕ × Buffer
retrieve_all_as_string b = (readable_view b, retrieve_all b)

-- `none` is a read past the end of the storage, which C++ leaves undefined.
unfoldable pub retrieve_as_string : Buffer → ℕ → Option (List ℕ × Buffer)
retrieve_as_string b n =
    if leb (b.reader_index + n) (length b.storage)
    then some (take n (drop b.reader_index b.storage), retrieve b n)
    else none

-- `end` is an offset from `peek()`.
unfoldable pub retrieve_until : Buffer → ℕ → Buffer
retrieve_until b end = retrieve b end

-- `std::search` for "\r\n": the offset of the first match
unfoldable pub search_crlf : List ℕ → Option ℕ
search_crlf [] = none
search_crlf (x ∷ []) = none
search_crlf (x ∷ y ∷ rest) =
    if (x == b'\r') && (y == b'\n') then some 0 else Option.map suc (search_crlf (y ∷ rest))

-- The offset of '\r' from `peek()`; `none` is the null pointer.
unfoldable pub find_crlf : Buffer → Option ℕ
find_crlf b = search_crlf (readable_view b)
