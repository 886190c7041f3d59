-- ===== src/LogFile/Sequence.antt =====
-- log_server/log_file.cpp: the sequence number that a server starts with.
use game_frame.Prelude.{
  ℕ, zero, suc, ◌+◌, ◌≤◌, ◌<◌, ◌≡◌, ◌⊎◌, inl, inr, refl, sym, ap, ◌∙◌, subst, true, false, not,
  ◌||◌, List, [], ◌∷◌, ◌++◌, Option, none, some, ◌==◌, ltb, leb, lt→leb, ltb→lt, if◌then◌else◌,
  codes, length, length-append, take, drop, take-length_append, drop-length_append, same_text,
  same_text_refl, Bool-cases, arith,
}
use mathlib.Core.List.Memᴰ
use mathlib.Core.List.{Memᴰ}
use game_frame.LogFile.{
  Entry, LogFile, Answers, file_size, prefix_of, make_filename, seq_of_tail, seq_of_entry,
  scan_entries, scan_today_max_seq, open_file, first_seq, start_file, roll_same_day, roll_if_needed,
  new_log_file,
}

-- The number that the directory's entry of this name stands for is written out in full and is read back.
abbrev pub ReadsBack : (ℕ → List ℕ) → (List ℕ → ℕ × ℕ) → ℕ → Type 0
ReadsBack to_string strtol v =
    (strtol (to_string v) ≡ (v, length (to_string v)))
    × (0 < length (to_string v))
    × (0 < v)
    × (v ≤ 1000000)

module _ (to_string : ℕ → List ℕ) (strtol : List ℕ → ℕ × ℕ) where
  seq_of_tail_lem :
      (v : ℕ) → ReadsBack to_string strtol v → seq_of_tail to_string strtol (to_string v) ≡ v
  unfolding seq_of_tail
  seq_of_tail_lem v h =
      ap
        (λ r.
          if (r.1 == 0) || not (r.1 == length (to_string v))
          then 0
          else if ltb 1000000 r.0
          then 0
          else r.0)
        h.0
      ∙ ground (arith, h.1, h.3)

  seq_of_entry_lem :
      (prefix : List ℕ) (e : Entry) (v : ℕ)
      → ReadsBack to_string strtol v
      → e.regular ≡ true
      → e.name ≡ prefix ++ to_string v
      → seq_of_entry to_string strtol prefix e ≡ v
  unfolding seq_of_entry
  seq_of_entry_lem prefix e v h regular named =
      let tail : List ℕ = to_string v in
      let longer : leb (length (prefix ++ tail)) (length prefix) ≡ false =
        lt→leb (length (prefix ++ tail)) (length prefix)
          (omega (arith, length-append prefix tail, h.1)) in
      ap
        (λ b.
          if not b
          then 0
          else if leb (length e.name) (length prefix)
          then 0
          else if not (same_text (take (length prefix) e.name) prefix)
          then 0
          else seq_of_tail to_string strtol (drop (length prefix) e.name))
        regular
      ∙ ap
          (λ n.
            if leb (length n) (length prefix)
            then 0
            else if not (same_text (take (length prefix) n) prefix)
            then 0
            else seq_of_tail to_string strtol (drop (length prefix) n))
          named
      ∙ ap
          (λ b.
            if b
            then 0
            else if not (same_text (take (length prefix) (prefix ++ tail)) prefix)
            then 0
            else seq_of_tail to_string strtol (drop (length prefix) (prefix ++ tail)))
          longer
      ∙ ap
          (λ t.
            if not (same_text t prefix)
            then 0
            else seq_of_tail to_string strtol (drop (length prefix) (prefix ++ tail)))
          (take-length_append (length prefix) prefix tail refl)
      ∙ ap
          (λ b.
            if not b
            then 0
            else seq_of_tail to_string strtol (drop (length prefix) (prefix ++ tail)))
          (same_text_refl prefix)
      ∙ ap (seq_of_tail to_string strtol) (drop-length_append (length prefix) prefix tail refl)
      ∙ seq_of_tail_lem v h

  scan-grows :
      (prefix : List ℕ) (es : List Entry) (m : ℕ) → m ≤ scan_entries to_string strtol prefix es m
  unfolding scan_entries
  scan-grows prefix [] m = omega arith
  scan-grows prefix (e ∷ es) m =
      let v : ℕ = seq_of_entry to_string strtol prefix e in
      let rest = scan-grows prefix es (if ltb m v then v else m) in
      elim (Bool-cases (ltb m v)) [
        | inl more ↦
            let r : v ≤ scan_entries to_string strtol prefix es (if ltb m v then v else m) =
              subst
                (λ b.
                  (if b then v else m)
                  ≤ scan_entries to_string strtol prefix es (if ltb m v then v else m))
                more rest in
            omega (arith, r, ltb→lt m v more)
        | inr less ↦
            subst
              (λ b.
                (if b then v else m)
                ≤ scan_entries to_string strtol prefix es (if ltb m v then v else m))
              less rest
      ]

  scan-AtLeast :
      (prefix : List ℕ) (es : List Entry) (m : ℕ) (e : Entry)
      → Memᴰ e es
      → seq_of_entry to_string strtol prefix e ≤ scan_entries to_string strtol prefix es m
  unfolding scan_entries
  scan-AtLeast prefix [] m e h = absurd (Memᴰ.not-nil h)
  scan-AtLeast prefix (d ∷ es) m e h =
      let v : ℕ = seq_of_entry to_string strtol prefix d in
      let next : ℕ = if ltb m v then v else m in
      elim (Memᴰ.cases_cons h) [
        | inl same ↦
            let rest : next ≤ scan_entries to_string strtol prefix es next =
              scan-grows prefix es next in
            let above : v ≤ next = ground arith in
            subst
              (λ x.
                seq_of_entry to_string strtol prefix x
                ≤ scan_entries to_string strtol prefix es next)
              (sym same) (omega (arith, rest, above))
        | inr later ↦ scan-AtLeast prefix es next e later
      ]

  open_file-seq :
      (a : Answers) (f : LogFile) → (open_file to_string strtol a f).current_seq ≡ f.current_seq
  unfolding open_file
  open_file-seq a f = ground arith

  -- The largest number is used again only if its file is known to have room.
  first_seq-cases :
      (roll_size max_seq : ℕ) (size : Option ℕ) (v : ℕ)
      → 0 < v
      → v ≤ max_seq
      → (v < first_seq to_string strtol roll_size max_seq size)
        ⊎ ((first_seq to_string strtol roll_size max_seq size ≡ max_seq)
            × ((n : ℕ) × (size ≡ some n) × (n < roll_size)))
  unfolding first_seq
  first_seq-cases roll_size zero size v p q = absurd (omega arith)
  first_seq-cases roll_size (suc m) none v p q = inl (omega arith)
  first_seq-cases roll_size (suc m) (some n) v p q = elim (Bool-cases (ltb n roll_size)) [
    | inl room ↦
        inr (ap (λ b. if b then suc m else suc m + 1) room, (n, refl, ltb→lt n roll_size room))
    | inr full ↦
        let next : (if ltb n roll_size then suc m else suc m + 1) ≡ suc m + 1 =
          ap (λ b. if b then suc m else suc m + 1) full in
        inl (omega (arith, next))
  ]

  new_log_file-seq :
      (basename : List ℕ) (roll_size : ℕ) (directory : List Entry) (a : Answers)
      → let f : LogFile = record {
        basename = basename;
        roll_size = roll_size;
        fp = none;
        written_bytes = 0;
        current_date = [];
        current_seq = 0;
        directory = directory;
      } in
        let max_seq = scan_today_max_seq to_string strtol a.lists f a.today in
        (new_log_file to_string strtol basename roll_size directory a).current_seq
        ≡ first_seq to_string strtol roll_size max_seq
            (file_size a.sizes (make_filename to_string strtol f a.today max_seq) directory)
  unfolding new_log_file roll_if_needed roll_same_day start_file
  new_log_file-seq basename roll_size directory a = open_file-seq a _

  -- A server that starts in a directory that it can read, with log files of today, continues behind all of them: its sequence
  -- number is at least that of every regular file of the day, and it is that of a file that is there only if
  -- this is the last one and its size is below `roll_size`. The numbers are from 1 to 1000000, and `strtol`
  -- reads each back as it was written.
  pub starts_behind :
      (basename : List ℕ) (roll_size : ℕ) (directory : List Entry) (a : Answers) (e : Entry) (v : ℕ)
      → a.lists ≡ true
      → ReadsBack to_string strtol v
      → Memᴰ e directory
      → e.regular ≡ true
      → e.name ≡ basename ++ b'.' ∷ (a.today ++ codes ".log.") ++ to_string v
      → let started = new_log_file to_string strtol basename roll_size directory a in
        (v < started.current_seq)
        ⊎ ((v ≤ started.current_seq)
            × ((n : ℕ) × (file_size a.sizes
                    (basename ++ b'.' ∷ (a.today ++ codes ".log.") ++ to_string started.current_seq)
                    directory
                  ≡ some n)
                × (n < roll_size)))
  unfolding scan_today_max_seq make_filename prefix_of
  starts_behind basename roll_size directory a e v lists reads here regular named =
      let f : LogFile = record {
        basename = basename;
        roll_size = roll_size;
        fp = none;
        written_bytes = 0;
        current_date = [];
        current_seq = 0;
        directory = directory;
      } in
      let prefix : List ℕ = prefix_of to_string strtol f a.today in
      let max_seq : ℕ = scan_today_max_seq to_string strtol a.lists f a.today in
      let found : v ≤ max_seq =
        subst (λ b. v ≤ (if b then scan_entries to_string strtol prefix directory 0 else 0))
          (sym lists)
          (omega (
            arith,
            scan-AtLeast prefix directory 0 e here,
            seq_of_entry_lem prefix e v reads regular named,
          )) in
      let seq = new_log_file-seq basename roll_size directory a in
      elim (first_seq-cases roll_size max_seq
        (file_size a.sizes (make_filename to_string strtol f a.today max_seq) directory) v reads.2
        found) [
          | inl above ↦ inl (omega (arith, above, seq))
          | inr (again, (n, sized, room)) ↦ inr (
            omega (arith, again, seq, found),
            (
              n,
              ap (λ s. file_size a.sizes (prefix ++ to_string s) directory) (seq ∙ again) ∙ sized,
              room,
            ),
          )
        ]
