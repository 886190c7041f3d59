-- ===== src/LogFile/Rolling.antt =====
-- log_server/log_file.cpp: what `append` writes, where, and how much it counts.
use game_frame.Prelude.{
  ℕ, ◌+◌, ◌≡◌, ◌⊎◌, inl, inr, refl, ap, ◌∙◌, Bool, true, false, not, ◌&&◌, List, [], Option, none,
  some, leb, if◌then◌else◌, same_text,
}
use game_frame.LogFile.{
  LogFile, Answers, add_to, file_size, make_filename, size_or_zero, open_file, start_file,
  roll_same_day, roll_if_needed,
}
use game_frame.LogFile.Directory.{text_of, text_of-opened}

module _ (to_string : ℕ → List ℕ) (strtol : List ℕ → ℕ × ℕ) where
  -- Either nothing is done, or a file is opened.
  pub roll-cases :
      (a : Answers) (f : LogFile)
      → (roll_if_needed to_string strtol a f ≡ f)
        ⊎ ((g : LogFile) × (roll_if_needed to_string strtol a f ≡ open_file to_string strtol a g)
            × (g.directory ≡ f.directory))
  unfolding roll_if_needed roll_same_day start_file
  roll-cases a f =
      let other_day : LogFile = record f { current_date = a.today; current_seq = 1 } in
      elim (not (same_text f.current_date []) && not (same_text a.today f.current_date))
        as (λ b.
          ((if b
              then open_file to_string strtol a other_day
              else roll_same_day to_string strtol f.fp a f)
            ≡ f)
          ⊎ ((g : LogFile) × ((if b
                  then open_file to_string strtol a other_day
                  else roll_same_day to_string strtol f.fp a f)
                ≡ open_file to_string strtol a g)
              × (g.directory ≡ f.directory))) [
                | true ↦ inr (other_day, refl, refl)
                | false ↦ same_day f.fp
              ]
    where
      same_day :
          (o : Option (List ℕ))
          → (roll_same_day to_string strtol o a f ≡ f)
            ⊎ ((g : LogFile) × (roll_same_day to_string strtol o a f
                  ≡ open_file to_string strtol a g)
                × (g.directory ≡ f.directory))
      same_day none = inr (_, refl, refl)
      same_day (some path) =
          let next : LogFile = record f { current_seq = f.current_seq + 1 } in
          elim (leb f.roll_size f.written_bytes)
            as (λ b.
              ((if b then open_file to_string strtol a next else f) ≡ f)
              ⊎ ((g : LogFile) × ((if b then open_file to_string strtol a next else f)
                    ≡ open_file to_string strtol a g)
                  × (g.directory ≡ f.directory))) [
                    | true ↦ inr (next, refl, refl)
                    | false ↦ inl refl
                  ]

  open_file-text :
      (a : Answers) (g : LogFile) (name : List ℕ)
      → text_of name (open_file to_string strtol a g).directory ≡ text_of name g.directory
  unfolding open_file
  open_file-text a g name = opened a.opens
    where
      opened :
          (b : Bool)
          → text_of name
              (if b
                then record g {
                  fp = some (make_filename to_string strtol g g.current_date g.current_seq);
                  directory =
                      add_to
                        (make_filename to_string strtol g g.current_date g.current_seq)
                        []
                        g.directory;
                  written_bytes = size_or_zero (
                      file_size a.stats
                        (make_filename to_string strtol g g.current_date g.current_seq)
                        (add_to
                          (make_filename to_string strtol g g.current_date g.current_seq)
                          []
                          g.directory));
                }
                else record g { fp = none; written_bytes = 0 }).directory
            ≡ text_of name g.directory
      opened true =
          text_of-opened (make_filename to_string strtol g g.current_date g.current_seq) name
            g.directory
      opened false = refl

  -- Rolling changes no file's content.
  pub roll-text :
      (a : Answers) (f : LogFile) (name : List ℕ)
      → text_of name (roll_if_needed to_string strtol a f).directory ≡ text_of name f.directory
  roll-text a f name = elim (roll-cases a f) [
    | inl stays ↦ ap (λ g. text_of name g.directory) stays
    | inr (g, e, same) ↦
        ap (λ h. text_of name h.directory) e ∙ open_file-text a g name ∙ ap (text_of name) same
  ]
