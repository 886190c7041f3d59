-- ===== src/Buffer/Stream.antt =====
-- util/buffer.h against its contract: whatever the indices do, a buffer is a queue of bytes.
use game_frame.Prelude.{
  ℕ, ◌+◌, ◌^◌, ◌≤◌, ◌<◌, ◌≡◌, refl, ap, ap₂, ◌∙◌, List, [], ◌∷◌, ◌++◌, Option, none, some, arith,
  length, take, drop,
}
use mathlib.Core.Option
use game_frame.Buffer.{
  Buffer, readable_bytes, readable_view, append, retrieve, retrieve_all, retrieve_all_as_string,
  retrieve_as_string,
}
use game_frame.Buffer.Regions.{
  IsValid, HasRoom, append-IsValid, length-append_storage, retrieve-IsValid, storage-retrieve,
  retrieve_all-IsValid, length-readable_view, storage-retrieve_all,
}
use game_frame.Buffer.Contents.{
  view-append, view-retrieve, retrieve_as_string_lem, view-retrieve_all,
}

-- The calls of a client that reads and writes through the public interface.
pub data Op : Type 0 where
  put : List ℕ → Op
  skip : ℕ → Op
  get : ℕ → Op
  get_all : Op

-- The strings that the calls return, and the bytes left readable; `none` is undefined behaviour.
abbrev Trace : Type 0
Trace = List (List ℕ) × List ℕ

abbrev emit : List ℕ → Option Trace → Option Trace
emit s = Option.map (λ t. (s ∷ t.0, t.1))

pub run : Buffer → List Op → Option Trace
run b [] = some ([], readable_view b)
run b (put bytes ∷ ops) = run (append b bytes) ops
run b (skip n ∷ ops) = run (retrieve b n) ops
run b (get n ∷ ops) = elim (retrieve_as_string b n) [
  | none ↦ none
  | some (s, c) ↦ emit s (run c ops)
]
run b (get_all ∷ ops) = let (s, c) = retrieve_all_as_string b in emit s (run c ops)

-- The same calls on a queue of bytes.
pub run_queue : List ℕ → List Op → Trace
run_queue q [] = ([], q)
run_queue q (put bytes ∷ ops) = run_queue (q ++ bytes) ops
run_queue q (skip n ∷ ops) = run_queue (drop n q) ops
run_queue q (get n ∷ ops) = let (ss, r) = run_queue (drop n q) ops in (take n q ∷ ss, r)
run_queue q (get_all ∷ ops) = let (ss, r) = run_queue [] ops in (q ∷ ss, r)

-- `retrieve_as_string` is called for no more bytes than there are, as its comment asks.
abbrev pub Allowed : List ℕ → List Op → Type 0
Allowed q [] = Unit {0}
Allowed q (put bytes ∷ ops) = Allowed (q ++ bytes) ops
Allowed q (skip n ∷ ops) = Allowed (drop n q) ops
Allowed q (get n ∷ ops) = (n ≤ length q) × Allowed (drop n q) ops
Allowed q (get_all ∷ ops) = Allowed [] ops

abbrev pub bytes_put : List Op → ℕ
bytes_put [] = 0
bytes_put (put bytes ∷ ops) = length bytes + bytes_put ops
bytes_put (op ∷ ops) = bytes_put ops

run_queue-view :
    (ops : List Op) (b : Buffer) (q : List ℕ)
    → IsValid b
    → readable_view b ≡ q
    → length b.storage + bytes_put ops < 2 ^ 63
    → Allowed q ops
    → run b ops ≡ some (run_queue q ops)
unfolding run run_queue retrieve_all_as_string
run_queue-view [] b q v e room ok = ap (λ xs. some ([], xs)) e
run_queue-view (put bytes ∷ ops) b q v e room ok =
    run_queue-view ops (append b bytes) (q ++ bytes) (append-IsValid bytes v fits)
      (view-append bytes v fits ∙ ap (λ xs. xs ++ bytes) e)
      (omega (arith, length-append_storage bytes v fits)) ok
  where
    fits : HasRoom b (length bytes)
    fits = omega arith
run_queue-view (skip n ∷ ops) b q v e room ok =
    run_queue-view ops (retrieve b n) (drop n q) (retrieve-IsValid n v)
      (view-retrieve n v ∙ ap (drop n) e) (rw (storage-retrieve b n) room) ok
run_queue-view (get n ∷ ops) b q v e room ok =
    rw (retrieve_as_string_lem n v enough, run)
      (ap₂ emit (ap (take n) e) (
        run_queue-view ops (retrieve b n) (drop n q) (retrieve-IsValid n v)
          (view-retrieve n v ∙ ap (drop n) e) (rw (storage-retrieve b n) room) ok.1))
  where
    enough : n ≤ readable_bytes b
    enough = omega (arith, ok.0, ap length e, length-readable_view b v)
run_queue-view (get_all ∷ ops) b q v e room ok = ap₂ emit e (
    run_queue-view ops (retrieve_all b) [] (retrieve_all-IsValid v) (view-retrieve_all b)
      (rw (storage-retrieve_all b) room) ok)

-- A client that never asks for more bytes than there are cannot tell the buffer from a queue: the
-- strings it gets and the bytes left are those of the queue that starts with the readable bytes.
pub run_refines :
    (b : Buffer) (ops : List Op)
    → IsValid b
    → length b.storage + bytes_put ops < 2 ^ 63
    → Allowed (readable_view b) ops
    → run b ops ≡ some (run_queue (readable_view b) ops)
run_refines b ops v room ok = run_queue-view ops b (readable_view b) v refl room ok
