-- ===== src/LogFile/Appending.antt =====
-- log_server/log_file.cpp: what `append` writes, where, and what it counts.
use game_frame.Prelude.{
  ℕ, ◌%◌, ◌^◌, ◌≡◌, ◌≢◌, ◌⊎◌, inl, inr, refl, sym, ap, ◌∙◌, subst, Bool, true, false, List, [], ◌∷◌,
  codes, ◌++◌, Option, none, some, if◌then◌else◌, length, length-append, take, add_size, same_text,
  same_text_refl, same_text-eq, some-inj, Bool-cases,
}
use mathlib.Core.Option
use native.Mathlib.Nat.{mod-add-mod}
use game_frame.LogFile.{
  Entry, LogFile, Answers, content_of, add_to, file_size, make_filename, size_or_zero, open_file,
  roll_if_needed, write_to, append, append_line,
}
use game_frame.LogFile.Directory.{text_of, or_empty, content_of-add_to, content_of-add_to_other}
use game_frame.LogFile.Rolling.{roll-cases, roll-text}

-- The count is the size of the open file, as a `size_t`.
abbrev pub Tracks : LogFile → Type 0
Tracks f =
    (path : List ℕ)
    → f.fp ≡ some path
    → f.written_bytes ≡ length (text_of path f.directory) % 2 ^ 64

module _ (to_string : ℕ → List ℕ) (strtol : List ℕ → ℕ × ℕ) where
  -- These texts are appended one after the other, each with an answer of its own.
  abbrev pub append_each : List (Answers × List ℕ) → LogFile → LogFile
  append_each [] f = f
  append_each ((a, text) ∷ ws) f = append_each ws (append to_string strtol a text f)

  -- A line is its stamp, its payload and a newline.
  pub append_line_lem :
      (a₁ a₂ a₃ : Answers) (stamp payload : List ℕ) (f : LogFile)
      → append_line to_string strtol a₁ a₂ a₃ stamp payload f
        ≡ append_each ((a₁, stamp) ∷ (a₂, payload) ∷ (a₃, codes "\n") ∷ []) f
  unfolding append_line
  append_line_lem a₁ a₂ a₃ stamp payload f = refl

  open_file-Tracks :
      (a : Answers) (g : LogFile) → a.stats ≡ true → Tracks (open_file to_string strtol a g)
  unfolding open_file file_size size_or_zero
  open_file-Tracks a g sized = opened a.opens
    where
      path : List ℕ
      path = make_filename to_string strtol g g.current_date g.current_seq

      made : List Entry
      made = add_to path [] g.directory

      opened :
          (b : Bool)
          → Tracks (
              if b
              then record g {
                fp = some path;
                directory = made;
                written_bytes =
                    size_or_zero
                      (if a.stats then Option.map length (content_of path made) else none);
              }
              else record g { fp = none; written_bytes = 0 })
      opened true = λ p e.
          ap (λ b. size_or_zero (if b then Option.map length (content_of path made) else none))
            sized
          ∙ ap (λ o. size_or_zero (Option.map length o)) (content_of-add_to path [] g.directory)
          ∙ ap (λ c. length c % 2 ^ 64)
              (sym (ap or_empty (content_of-add_to path [] g.directory))
                ∙ ap (λ q. text_of q made) (some-inj e))
      opened false = λ p e. cc

  roll-Tracks :
      (a : Answers) (f : LogFile)
      → a.stats ≡ true
      → Tracks f
      → Tracks (roll_if_needed to_string strtol a f)
  roll-Tracks a f sized t = elim (roll-cases to_string strtol a f) [
    | inl stays ↦ subst Tracks (sym stays) t
    | inr (g, e, same) ↦ subst Tracks (sym e) (open_file-Tracks a g sized)
  ]

  write_to-Tracks :
      (o : Option (List ℕ)) (bytes : List ℕ) (f : LogFile)
      → f.fp ≡ o
      → Tracks f
      → Tracks (write_to to_string strtol o bytes f)
  unfolding write_to
  write_to-Tracks none bytes f here t = t
  write_to-Tracks (some path) bytes f here t = λ p e.
      let same : path ≡ p = some-inj (sym here ∙ e) in
      ap (λ n. add_size n (length bytes)) (t path here)
      ∙ rw mod-add-mod refl
      ∙ ap (λ n. n % 2 ^ 64) (sym (length-append (text_of path f.directory) bytes))
      ∙ ap (λ c. length c % 2 ^ 64)
          (sym (ap or_empty (content_of-add_to path bytes f.directory))
            ∙ ap (λ q. text_of q (add_to path bytes f.directory)) same)

  -- As long as `file_size` does not fail, `written_bytes_` is the size of the file that is open, modulo
  -- 2^64, after every `append`: whether the file was rolled, opened for the first time or written to, and
  -- however many bytes the write took.
  pub append-Tracks :
      (a : Answers) (text : List ℕ) (f : LogFile)
      → a.stats ≡ true
      → Tracks f
      → Tracks (append to_string strtol a text f)
  unfolding append
  append-Tracks a text f sized t =
      let rolled : LogFile = roll_if_needed to_string strtol a f in
      write_to-Tracks rolled.fp (take a.takes text) rolled refl (roll-Tracks a f sized t)

  -- `append` adds the bytes that the write took to the end of one file, the one that is open after rolling,
  -- and changes no other; without an open file it changes none.
  pub append-text :
      (a : Answers) (text : List ℕ) (f : LogFile) (name : List ℕ)
      → let f' = append to_string strtol a text f in
        ((f'.fp ≡ some name)
          × (text_of name f'.directory ≡ text_of name f.directory ++ take a.takes text))
        ⊎ ((f'.fp ≢ some name) × (text_of name f'.directory ≡ text_of name f.directory))
  unfolding append write_to
  append-text a text f name =
      let rolled : LogFile = roll_if_needed to_string strtol a f in
      wrote rolled rolled.fp refl (roll-text to_string strtol a f name)
    where
      wrote :
          (r : LogFile) (o : Option (List ℕ))
          → r.fp ≡ o
          → text_of name r.directory ≡ text_of name f.directory
          → let f' = write_to to_string strtol o (take a.takes text) r in
            ((f'.fp ≡ some name)
              × (text_of name f'.directory ≡ text_of name f.directory ++ take a.takes text))
            ⊎ ((f'.fp ≢ some name) × (text_of name f'.directory ≡ text_of name f.directory))
      wrote r none here same =
          inr (λ e. let bad : none ≡ some name = sym here ∙ e in absurd (cc), same)
      wrote r (some path) here same = elim (Bool-cases (same_text name path)) [
        | inl hit ↦
            let e : name ≡ path = same_text-eq name path hit in
            inl (
              here ∙ ap some (sym e),
              ap (λ n. text_of n (add_to path (take a.takes text) r.directory)) e
                  ∙ ap or_empty (content_of-add_to path (take a.takes text) r.directory)
                  ∙ ap (λ n. text_of n r.directory ++ take a.takes text) (sym e)
                  ∙ ap (λ t. t ++ take a.takes text) same,
            )
        | inr miss ↦
            let differ : name ≢ path = λ e.
              let bad : true ≡ false =
                sym (ap (λ n. same_text n path) e ∙ same_text_refl path) ∙ miss in
              cc in
            inr (
              λ e. differ (sym (some-inj (sym here ∙ e))),
              content_of-add_to_other path name (take a.takes text) r.directory differ ∙ same,
            )
      ]
