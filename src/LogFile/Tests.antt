-- ===== src/LogFile/Tests.antt =====
-- log_server/log_file.cpp: a directory with a full file and a file with room.
use game_frame.Prelude.{
  ℕ, ◌+◌, ◌-◌, ◌<◌, ◌≤◌, ◌≡◌, ◌≢◌, ◌⊎◌, refl, true, List, [], ◌∷◌, ◌++◌, some, codes, arith,
}
use mathlib.Core.List.{Memᴰ}
use game_frame.LogFile.{Entry, LogFile, Answers, file_size, new_log_file, append}
use game_frame.LogFile.Directory.{text_of}
use game_frame.LogFile.Appending.{append-text}
use game_frame.LogFile.Sequence.{starts_behind}

-- numbers of one digit
abbrev digit : ℕ → List ℕ
digit n = (b'0' + n) ∷ []

abbrev read_digit : List ℕ → ℕ × ℕ
read_digit [] = (0, 0)
read_digit (c ∷ cs) = (c - b'0', 1)

abbrev answers : Answers
answers = record {
  today = codes "20260616";
  lists = true;
  opens = true;
  sizes = true;
  stats = true;
  takes = 100;
}

abbrev full_file : Entry
full_file = record {
  name = codes "app.20260616.log.1";
  regular = true;
  content = codes "0123456789";
}

abbrev last_file : Entry
last_file = record { name = codes "app.20260616.log.2"; regular = true; content = codes "abc" }

abbrev directory : List Entry
directory = full_file ∷ last_file ∷ []

abbrev open_log : LogFile
open_log = record {
  basename = codes "app";
  roll_size = 10;
  fp = some (codes "app.20260616.log.2");
  written_bytes = 3;
  current_date = codes "20260616";
  current_seq = 2;
  directory = directory;
}

append-text_example :
    let f' = append digit read_digit answers (codes "d") open_log in
    let name : List ℕ = codes "app.20260616.log.2" in
    ((f'.fp ≡ some name) × (text_of name f'.directory ≡ text_of name directory ++ codes "d"))
    ⊎ ((f'.fp ≢ some name) × (text_of name f'.directory ≡ text_of name directory))
append-text_example =
    append-text digit read_digit answers (codes "d") open_log (codes "app.20260616.log.2")

starts_behind_example :
    let started = new_log_file digit read_digit (codes "app") 10 directory answers in
    (1 < started.current_seq)
    ⊎ ((1 ≤ started.current_seq)
        × ((n : ℕ) × (file_size true
                (codes "app"
                  ++ b'.' ∷ (codes "20260616" ++ codes ".log.")
                  ++ digit started.current_seq)
                directory
              ≡ some n)
            × (n < 10)))
starts_behind_example =
    starts_behind digit read_digit (codes "app") 10 directory answers full_file 1 refl
      (refl, omega arith, omega arith, omega arith) (Memᴰ.head refl) refl refl
