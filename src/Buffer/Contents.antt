-- ===== src/Buffer/Contents.antt =====
-- util/buffer.h: what the operations do to the readable bytes, whatever moves behind them.
use game_frame.Prelude.{
  ℕ, ◌+◌, ◌-◌, ◌≤◌, ◌<◌, ◌≡◌, refl, sym, ap, ◌∙◌, inl, inr, List, [], ◌++◌, some, arith, leb,
  leb→le, leb→lt, le→leb, lt→leb, none, ap₂, sub_size, take-take, Bool-cases, add_size, length,
  take, drop, replicate, overwrite, length-drop, take-append_left, drop-append_left,
  overwrite_extends, drop-drop, drop-take, drop-all, take-all,
}
use game_frame.Buffer.{
  Buffer, prepend_size, readable_bytes, writable_bytes, readable_view, compact, grow,
  ensure_writable, write_at_end, has_written, append, retrieve_all, retrieve, retrieve_as_string,
}
use game_frame.Buffer.Regions.{
  IsValid, HasRoom, Ensured, readable_bytes-eq, length-readable_view, ensure_writable-Ensured,
  has_written-IsValid,
}

-- The readable bytes as the region between the two indices.
abbrev region : Buffer → List ℕ
region b = take (b.writer_index - b.reader_index) (drop b.reader_index b.storage)

pub view-eq : {b : Buffer} → IsValid b → readable_view b ≡ region b
view-eq {b} v = ap (λ n. take n (drop b.reader_index b.storage)) (readable_bytes-eq v)

-- `memmove` to the front: the same bytes, at another place.
region-compact : {b : Buffer} → IsValid b → region (compact b) ≡ region b
unfolding compact
region-compact {b} v =
    ap (λ n. take n (drop prepend_size moved)) past
    ∙ overwrite_extends b.storage prepend_size prepend_size view (omega arith) fits
    ∙ view-eq v
  where
    view : List ℕ
    view = readable_view b

    moved : List ℕ
    moved = overwrite b.storage prepend_size view

    past :
        add_size prepend_size (readable_bytes b) - prepend_size
        ≡ prepend_size + length view - prepend_size
    past = omega (arith, length-readable_view b v)

    fits : prepend_size + length view ≤ length b.storage
    fits = omega (arith, length-readable_view b v)

region-grow :
    {b : Buffer} (n : ℕ)
    → IsValid b
    → HasRoom b n
    → writable_bytes b < n
    → region (grow b n) ≡ region b
unfolding grow
region-grow {b} n v room h = ap (take (b.writer_index - b.reader_index)) enlarged ∙ inside
  where
    size : ℕ
    size = add_size b.writer_index n

    zeros : List ℕ
    zeros = replicate (size - length b.storage) 0

    enlarged :
        drop b.reader_index (take size b.storage ++ zeros) ≡ drop b.reader_index b.storage ++ zeros
    enlarged =
        rw (take-all size b.storage (omega arith))
          (drop-append_left b.reader_index b.storage zeros (omega arith))

    inside :
        take (b.writer_index - b.reader_index) (drop b.reader_index b.storage ++ zeros) ≡ region b
    inside =
        take-append_left (b.writer_index - b.reader_index) (drop b.reader_index b.storage) zeros
          (omega (arith, length-drop b.reader_index b.storage))

region-ensure_writable :
    {b : Buffer} (n : ℕ) → IsValid b → HasRoom b n → region (ensure_writable b n) ≡ region b
unfolding ensure_writable
region-ensure_writable {b} n v room = elim (Bool-cases (leb n (writable_bytes b))) [
  | inl fits ↦ rw fits
  | inr short ↦
      rw short
        (elim (Bool-cases
          (leb (add_size n prepend_size) (add_size (writable_bytes b) b.reader_index))) [
            | inl movable ↦ rw movable (region-compact v)
            | inr tight ↦ rw tight (region-grow n v room (leb→lt _ _ short))
          ])
]

-- Making room moves or copies the readable bytes, and changes none of them.
pub view-ensure_writable :
    {b : Buffer} (n : ℕ)
    → IsValid b
    → HasRoom b n
    → readable_view (ensure_writable b n) ≡ readable_view b
view-ensure_writable n v room =
    view-eq (ensure_writable-Ensured n v room).valid
    ∙ region-ensure_writable n v room
    ∙ sym (view-eq v)

-- Bytes stored at `begin_write()` become readable, behind those that were, once announced.
pub view-has_written :
    {b : Buffer} (bytes : List ℕ)
    → IsValid b
    → b.writer_index + length bytes ≤ length b.storage
    → readable_view (has_written (write_at_end b bytes) (length bytes)) ≡ readable_view b ++ bytes
view-has_written {b} bytes v fits =
    view-eq (has_written-IsValid bytes v fits) ∙ written ∙ ap (λ xs. xs ++ bytes) (sym (view-eq v))
  where
    written : region (has_written (write_at_end b bytes) (length bytes)) ≡ region b ++ bytes
    written =
        unfold has_written write_at_end in
        let e : add_size b.writer_index (length bytes) ≡ b.writer_index + length bytes =
          omega arith in
        rw e (overwrite_extends b.storage b.reader_index b.writer_index bytes v.ordered fits)

-- `append` puts its bytes behind the readable ones, whichever way room was made.
pub view-append :
    {b : Buffer} (bytes : List ℕ)
    → IsValid b
    → HasRoom b (length bytes)
    → readable_view (append b bytes) ≡ readable_view b ++ bytes
unfolding append
view-append {b} bytes v room =
    view-has_written bytes made.valid made.free
    ∙ ap (λ xs. xs ++ bytes) (view-ensure_writable (length bytes) v room)
  where
    made : Ensured b (length bytes) (ensure_writable b (length bytes))
    made = ensure_writable-Ensured (length bytes) v room

pub view-retrieve_all : (b : Buffer) → readable_view (retrieve_all b) ≡ []
unfolding retrieve_all
view-retrieve_all b = refl

-- `retrieve` drops that many readable bytes, all of them if there are not so many.
pub view-retrieve :
    {b : Buffer} (n : ℕ) → IsValid b → readable_view (retrieve b n) ≡ drop n (readable_view b)
unfolding retrieve
view-retrieve {b} n v = elim (Bool-cases (leb (readable_bytes b) n)) [
  | inl all ↦ rw all (
      view-retrieve_all b
      ∙ sym (
          drop-all n (readable_view b)
            (omega (arith, length-readable_view b v, leb→le (readable_bytes b) n all))))
  | inr some_left ↦ rw some_left (rest (leb→lt _ _ some_left))
]
  where
    rest :
        n < readable_bytes b
        → take
            (sub_size b.writer_index (add_size b.reader_index n))
            (drop (add_size b.reader_index n) b.storage)
          ≡ drop n (readable_view b)
    rest h =
        ap₂ (λ i k. take i (drop k b.storage)) (omega arith) (omega arith)
        ∙ sym (
            drop-take n (readable_bytes b) (drop b.reader_index b.storage)
            ∙ ap (take (readable_bytes b - n)) (drop-drop n b.reader_index b.storage))

-- The string taken out is the front of the readable bytes, and the rest stays.
pub retrieve_as_string_lem :
    {b : Buffer} (n : ℕ)
    → IsValid b
    → n ≤ readable_bytes b
    → retrieve_as_string b n ≡ some (take n (readable_view b), retrieve b n)
unfolding retrieve_as_string
retrieve_as_string_lem {b} n v h =
    rw (le→leb (b.reader_index + n) (length b.storage) (omega arith)) (
      ap (λ xs. some (xs, retrieve b n))
        (sym (take-take n (readable_bytes b) (drop b.reader_index b.storage) h)))

-- A string that would end past the storage is undefined behaviour, not a short string.
pub retrieve_as_string-past :
    (b : Buffer) (n : ℕ) → length b.storage < n → retrieve_as_string b n ≡ none
unfolding retrieve_as_string
retrieve_as_string-past b n h = rw (lt→leb (b.reader_index + n) (length b.storage) (omega arith))
