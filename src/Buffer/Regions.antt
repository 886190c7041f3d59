-- ===== src/Buffer/Regions.antt =====
-- util/buffer.h: the three regions of the storage stay in order under every operation.
use game_frame.Prelude.{
  ℕ, ◌+◌, ◌-◌, ◌++◌, ◌^◌, ◌≤◌, ◌<◌, ◌≡◌, refl, inl, inr, List, arith, leb, leb→le, leb→lt,
  Bool-cases, add_size, length, take, drop, replicate, length-append, length-take, length-drop,
  length-replicate, length-overwrite,
}
use game_frame.Buffer.{
  Buffer, new, prepend_size, readable_bytes, writable_bytes, readable_view, compact, grow,
  ensure_writable, write_at_end, has_written, append, retrieve_all, retrieve,
}

-- prependable, readable and writable bytes follow one another; the storage is below the largest
-- size of a vector, so that no sum of indices wraps.
pub record IsValid (b : Buffer) : Type 0 where
  pub front : prepend_size ≤ b.reader_index
  pub ordered : b.reader_index ≤ b.writer_index
  pub within : b.writer_index ≤ length b.storage
  pub small : length b.storage < 2 ^ 63

-- `n` more bytes do not take the storage past the largest size of a vector.
abbrev pub HasRoom : Buffer → ℕ → Type 0
HasRoom b n = length b.storage + n < 2 ^ 63

pub new-IsValid : IsValid new
unfolding new
new-IsValid = omega (arith, length-replicate {0} {A = ℕ} 1032 0)

pub readable_bytes-eq :
    {b : Buffer} → IsValid b → readable_bytes b ≡ b.writer_index - b.reader_index
readable_bytes-eq v = omega arith

pub length-readable_view : (b : Buffer) → IsValid b → length (readable_view b) ≡ readable_bytes b
length-readable_view b v = omega (
  arith,
  length-take (readable_bytes b) (drop b.reader_index b.storage),
  length-drop b.reader_index b.storage,
)

compact-IsValid : {b : Buffer} → IsValid b → IsValid (compact b)
unfolding compact
compact-IsValid {b} v = omega (arith, length-overwrite b.storage prepend_size (readable_view b))

length-resize :
    (xs : List ℕ) (n : ℕ) → length xs ≤ n → length (take n xs ++ replicate (n - length xs) 0) ≡ n
length-resize xs n h = omega (
  arith,
  length-append (take n xs) (replicate (n - length xs) 0),
  length-take n xs,
  length-replicate {0} {A = ℕ} (n - length xs) 0,
)

length-grow :
    (b : Buffer) (n : ℕ)
    → IsValid b
    → HasRoom b n
    → writable_bytes b < n
    → length (grow b n).storage ≡ b.writer_index + n
unfolding grow
length-grow b n v room h = omega (arith, length-resize b.storage (add_size b.writer_index n))

-- What `ensure_writable` promises of the indices: order, room for `n` bytes, bounded growth.
pub record Ensured (b : Buffer) (n : ℕ) (c : Buffer) : Type 0 where
  pub valid : IsValid c
  pub free : c.writer_index + n ≤ length c.storage
  pub growth : length c.storage ≤ length b.storage + n
  pub kept : c.writer_index - c.reader_index ≡ b.writer_index - b.reader_index

compact-Ensured :
    {b : Buffer} (n : ℕ)
    → IsValid b
    → n + prepend_size ≤ writable_bytes b + b.reader_index
    → Ensured b n (compact b)
unfolding compact
compact-Ensured {b} n v h = omega (arith, length-overwrite b.storage prepend_size (readable_view b))

grow-Ensured :
    {b : Buffer} (n : ℕ) → IsValid b → HasRoom b n → writable_bytes b < n → Ensured b n (grow b n)
unfolding grow
grow-Ensured {b} n v room h = omega (arith, length-resize b.storage (add_size b.writer_index n))

-- `ensure_writable` keeps the regions in order and makes room for what was asked.
pub ensure_writable-Ensured :
    {b : Buffer} (n : ℕ) → IsValid b → HasRoom b n → Ensured b n (ensure_writable b n)
unfolding ensure_writable
ensure_writable-Ensured {b} n v room = elim (Bool-cases (leb n (writable_bytes b))) [
  | inl fits ↦ rw fits (omega (arith, leb→le n (writable_bytes b) fits))
  | inr short ↦
      rw short
        (elim (Bool-cases
          (leb (add_size n prepend_size) (add_size (writable_bytes b) b.reader_index))) [
            | inl movable ↦ rw movable (compact-Ensured n v (omega (arith, leb→le _ _ movable)))
            | inr tight ↦ rw tight (grow-Ensured n v room (leb→lt _ _ short))
          ])
]

-- Storing bytes at `begin_write()` and announcing them keeps the regions in order.
pub has_written-IsValid :
    {b : Buffer} (bytes : List ℕ)
    → IsValid b
    → b.writer_index + length bytes ≤ length b.storage
    → IsValid (has_written (write_at_end b bytes) (length bytes))
unfolding has_written write_at_end
has_written-IsValid {b} bytes v fits =
    omega (arith, length-overwrite b.storage b.writer_index bytes)

-- Neither changes the size of the storage.
pub length-written_storage :
    (b : Buffer) (bytes : List ℕ) (n : ℕ)
    → length (has_written (write_at_end b bytes) n).storage ≡ length b.storage
unfolding has_written write_at_end
length-written_storage b bytes n = omega (arith, length-overwrite b.storage b.writer_index bytes)

pub append-IsValid :
    {b : Buffer} (bytes : List ℕ) → IsValid b → HasRoom b (length bytes) → IsValid (append b bytes)
unfolding append
append-IsValid {b} bytes v room =
    let e = ensure_writable-Ensured (length bytes) v room in
    has_written-IsValid bytes e.valid e.free

-- An append enlarges the storage by the bytes appended at most.
pub length-append_storage :
    {b : Buffer} (bytes : List ℕ)
    → IsValid b
    → HasRoom b (length bytes)
    → length (append b bytes).storage ≤ length b.storage + length bytes
unfolding append has_written write_at_end
length-append_storage {b} bytes v room =
    let c = ensure_writable b (length bytes) in
    omega (
      arith,
      ensure_writable-Ensured (length bytes) v room,
      length-overwrite c.storage c.writer_index bytes,
    )

pub retrieve_all-IsValid : {b : Buffer} → IsValid b → IsValid (retrieve_all b)
unfolding retrieve_all
retrieve_all-IsValid v = omega arith

pub retrieve-IsValid : {b : Buffer} (n : ℕ) → IsValid b → IsValid (retrieve b n)
unfolding retrieve retrieve_all
retrieve-IsValid n v = ground arith

pub storage-retrieve : (b : Buffer) (n : ℕ) → (retrieve b n).storage ≡ b.storage
unfolding retrieve retrieve_all
storage-retrieve b n = ground arith

pub storage-retrieve_all : (b : Buffer) → (retrieve_all b).storage ≡ b.storage
unfolding retrieve_all
storage-retrieve_all b = refl
