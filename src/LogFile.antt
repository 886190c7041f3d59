-- ===== src/LogFile.antt =====
-- log_server/log_file.h, log_server/log_file.cpp: log lines in files that roll by size and by day. The
-- directory is part of the state: what has been written to a stream counts as the content of its file.
pub mod Directory
pub mod Rolling
pub mod Appending
pub mod Sequence
mod Tests
use game_frame.Prelude.{
  ℕ, zero, suc, ◌+◌, ◌%◌, ◌^◌, Bool, true, false, not, ◌&&◌, ◌||◌, List, [], ◌∷◌, ◌++◌, Option,
  none, some, leb, ltb, ◌==◌, if◌then◌else◌, length, take, drop, add_size, codes, same_text,
}
use mathlib.Core.Option

-- An entry of `basedir_`: its name, whether it is a regular file, and its content.
pub record Entry : Type 0 where
  pub name : List ℕ
  pub regular : Bool
  pub content : List ℕ

-- `fp` is the name of the file that is open; `basedir_` is the directory.
pub record LogFile : Type 0 where
  pub basename : List ℕ
  pub roll_size : ℕ
  pub fp : Option (List ℕ)
  pub written_bytes : ℕ
  pub current_date : List ℕ
  pub current_seq : ℕ
  pub directory : List Entry

-- What the system answers in one call: the date of today, whether the directory can be read, `file_size` of
-- the last file succeeds, `fopen` does, and `file_size` of the opened file does, and how many bytes
-- `fwrite_unlocked` takes at most.
pub record Answers : Type 0 where
  pub today : List ℕ
  pub lists : Bool
  pub opens : Bool
  pub sizes : Bool
  pub stats : Bool
  pub takes : ℕ

pub content_of : List ℕ → List Entry → Option (List ℕ)
content_of name [] = none
content_of name (e ∷ es) =
    let rest = content_of name es in if same_text e.name name then some e.content else rest

-- Bytes added to the file of this name, which is made when there is none: `fopen` adds none.
pub add_to : List ℕ → List ℕ → List Entry → List Entry
add_to name bytes [] = record { name = name; regular = true; content = bytes } ∷ []
add_to name bytes (e ∷ es) =
    let rest = add_to name bytes es in
    if same_text e.name name then record e { content = e.content ++ bytes } ∷ es else e ∷ rest

-- `file_size`: `none` is an error.
pub file_size : Bool → List ℕ → List Entry → Option ℕ
file_size stats name es = if stats then Option.map length (content_of name es) else none

-- `ec ? 0 : static_cast<std::size_t>(sz)`
pub size_or_zero : Option ℕ → ℕ
size_or_zero none = 0
size_or_zero (some n) = n % 2 ^ 64

-- `to_string` is how a stream writes an `int`. `strtol` gives the value in base 10 and the number of bytes
-- read; a negative value is 0, which is skipped like it.
module _ (to_string : ℕ → List ℕ) (strtol : List ℕ → ℕ × ℕ) where
  pub prefix_of : LogFile → List ℕ → List ℕ
  prefix_of f date = f.basename ++ b'.' ∷ (date ++ codes ".log.")

  pub make_filename : LogFile → List ℕ → ℕ → List ℕ
  make_filename f date seq = prefix_of f date ++ to_string seq

  -- The number that a tail stands for, and 0 for one that is skipped.
  pub seq_of_tail : List ℕ → ℕ
  seq_of_tail tail =
      let r = strtol tail in
      if (r.1 == 0) || not (r.1 == length tail) then 0 else if ltb 1000000 r.0 then 0 else r.0

  pub seq_of_entry : List ℕ → Entry → ℕ
  seq_of_entry prefix e =
      if not e.regular
      then 0
      else if leb (length e.name) (length prefix)
      then 0
      else if not (same_text (take (length prefix) e.name) prefix)
      then 0
      else seq_of_tail (drop (length prefix) e.name)

  -- the loop over the directory
  pub scan_entries : List ℕ → List Entry → ℕ → ℕ
  scan_entries prefix [] max_seq = max_seq
  scan_entries prefix (e ∷ es) max_seq =
      let v = seq_of_entry prefix e in scan_entries prefix es (if ltb max_seq v then v else max_seq)

  pub scan_today_max_seq : Bool → LogFile → List ℕ → ℕ
  scan_today_max_seq lists f date =
      if lists then scan_entries (prefix_of f date) f.directory 0 else 0

  pub open_file : Answers → LogFile → LogFile
  open_file a f =
      let path = make_filename f f.current_date f.current_seq in
      let made = add_to path [] f.directory in
      if a.opens
      then record f {
        fp = some path;
        directory = made;
        written_bytes = size_or_zero (file_size a.stats path made);
      }
      else record f { fp = none; written_bytes = 0 }

  -- The sequence number to start with, from the largest there is and the size of its file.
  pub first_seq : ℕ → ℕ → Option ℕ → ℕ
  first_seq roll_size zero size = 1
  first_seq roll_size (suc n) none = suc n + 1
  first_seq roll_size (suc n) (some size) = if ltb size roll_size then suc n else suc n + 1

  -- The first use of a file, and every use after `fopen` has failed.
  pub start_file : Answers → LogFile → LogFile
  start_file a f =
      let max_seq = scan_today_max_seq a.lists f a.today in
      let size = file_size a.sizes (make_filename f a.today max_seq) f.directory in
      open_file a
        (record f { current_date = a.today; current_seq = first_seq f.roll_size max_seq size })

  -- The branches of `roll_if_needed` on the open file, on the day that `current_date_` says or the first.
  roll_same_day : Option (List ℕ) → Answers → LogFile → LogFile
  roll_same_day none a f = start_file a f
  roll_same_day (some path) a f =
      if leb f.roll_size f.written_bytes
      then open_file a (record f { current_seq = f.current_seq + 1 })
      else f

  pub roll_if_needed : Answers → LogFile → LogFile
  roll_if_needed a f =
      if not (same_text f.current_date []) && not (same_text a.today f.current_date)
      then open_file a (record f { current_date = a.today; current_seq = 1 })
      else roll_same_day f.fp a f

  pub new_log_file : List ℕ → ℕ → List Entry → Answers → LogFile
  new_log_file basename roll_size directory a = roll_if_needed a (record {
    basename = basename;
    roll_size = roll_size;
    fp = none;
    written_bytes = 0;
    current_date = [];
    current_seq = 0;
    directory = directory;
  })

  write_to : Option (List ℕ) → List ℕ → LogFile → LogFile
  write_to none bytes f = f
  write_to (some path) bytes f = record f {
    directory = add_to path bytes f.directory;
    written_bytes = add_size f.written_bytes (length bytes);
  }

  pub append : Answers → List ℕ → LogFile → LogFile
  append a text f = let rolled = roll_if_needed a f in write_to rolled.fp (take a.takes text) rolled

  -- `stamp` is what `snprintf` writes. The three calls of `append` meet three answers.
  pub append_line : Answers → Answers → Answers → List ℕ → List ℕ → LogFile → LogFile
  append_line a₁ a₂ a₃ stamp payload f =
      append a₃ (b'\n' ∷ []) (append a₂ payload (append a₁ stamp f))
