-- ===== src/LogFile/Directory.antt =====
-- log_server/log_file.cpp: the content of the files when one of them grows.
use game_frame.Prelude.{
  ℕ, ◌≡◌, ◌≢◌, inl, inr, refl, sym, ap, ◌∙◌, subst, true, false, List, [], ◌∷◌, ◌++◌, append-nil,
  Option, none, some, Bool-cases, same_text, same_text_refl, same_text-eq,
}
use game_frame.LogFile.{Entry, content_of, add_to}

abbrev pub or_empty : Option (List ℕ) → List ℕ
or_empty none = []
or_empty (some c) = c

-- The bytes under a name, none when there is no such file.
abbrev pub text_of : List ℕ → List Entry → List ℕ
text_of name es = or_empty (content_of name es)

pub content_of-add_to :
    (name bytes : List ℕ) (es : List Entry)
    → content_of name (add_to name bytes es) ≡ some (text_of name es ++ bytes)
unfolding content_of add_to
content_of-add_to name bytes [] = rw (same_text_refl name) refl
content_of-add_to name bytes (e ∷ es) = elim (Bool-cases (same_text e.name name)) [
  | inl hit ↦ rw (hit, hit) refl
  | inr miss ↦ rw (miss, miss) (content_of-add_to name bytes es)
]

pub content_of-add_to_other :
    (name other bytes : List ℕ) (es : List Entry)
    → other ≢ name
    → text_of other (add_to name bytes es) ≡ text_of other es
unfolding content_of add_to
content_of-add_to_other name other bytes [] h = elim (Bool-cases (same_text name other)) [
  | inl hit ↦ absurd (h (sym (same_text-eq name other hit)))
  | inr miss ↦ rw miss refl
]
content_of-add_to_other name other bytes (e ∷ es) h = elim (Bool-cases (same_text e.name name)) [
  | inl hit ↦ elim (Bool-cases (same_text e.name other)) [
    | inl both ↦ absurd (h (sym (same_text-eq e.name other both) ∙ same_text-eq e.name name hit))
    | inr miss ↦ rw (hit, miss) refl
  ]
  | inr miss ↦ elim (Bool-cases (same_text e.name other)) [
    | inl hit ↦ rw (miss, hit) refl
    | inr away ↦ rw (miss, away) (content_of-add_to_other name other bytes es h)
  ]
]

-- `fopen` for appending changes no file's content.
pub text_of-opened :
    (name other : List ℕ) (es : List Entry) → text_of other (add_to name [] es) ≡ text_of other es
text_of-opened name other es = elim (Bool-cases (same_text other name)) [
  | inl hit ↦
      let e : other ≡ name = same_text-eq other name hit in
      subst (λ o. text_of o (add_to name [] es) ≡ text_of o es) (sym e)
        (ap or_empty (content_of-add_to name [] es) ∙ append-nil (text_of name es))
  | inr miss ↦ content_of-add_to_other name other [] es (λ e.
      let bad : true ≡ false = sym (ap (λ o. same_text o name) e ∙ same_text_refl name) ∙ miss in
      cc)
]
