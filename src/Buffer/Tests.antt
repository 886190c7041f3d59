-- ===== src/Buffer/Tests.antt =====
-- util/buffer.h on concrete buffers.
use game_frame.Prelude.{◌≡◌, refl, List, [], ◌∷◌, ◌++◌, some, arith, replicate}
use game_frame.Buffer.{Buffer, readable_view, ensure_writable, compact}
use game_frame.Buffer.Stream.{Op, put, skip, get, get_all, run, run_queue, run_refines}

-- two bytes read, "a\r\nb" to read, one byte free
abbrev small : Buffer
small = record {
  storage = replicate 10 0 ++ b'a' ∷ b'\r' ∷ b'\n' ∷ b'b' ∷ 0 ∷ [];
  reader_index = 10;
  writer_index = 14;
}

-- Three free bytes are there once the readable ones are moved to the front.
abbrev moved : Buffer
moved = record {
  storage = replicate 8 0 ++ b'a' ∷ b'\r' ∷ b'\n' ∷ b'b' ∷ b'\n' ∷ b'b' ∷ 0 ∷ [];
  reader_index = 8;
  writer_index = 12;
}

ensure_writable_moves : ensure_writable small 3 ≡ moved
unfolding ensure_writable compact
ensure_writable_moves = refl

-- A write that moves the bytes, one that enlarges the storage, and reads in between.
abbrev session : List Op
session = put (1 ∷ 2 ∷ 3 ∷ []) ∷ get 2 ∷ put (replicate 9 7) ∷ skip 2 ∷ get_all ∷ []

run_refines_example : run small session ≡ some (run_queue (readable_view small) session)
run_refines_example = run_refines small session (omega arith) (omega arith) (omega arith)
