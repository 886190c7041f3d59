-- ===== src/Prelude/Text.antt =====
-- Strings as lists of bytes: literals, equality, and the search for a byte.
use Prim.Native.Nat.{ℕ, suc}
use Prim.Native.Char.{code}
use Prim.Native.String.{String}
use mathlib.Core.Path.{◌≡◌, refl, ap₂, subst}
use mathlib.Core.Logic.{◌≢◌, inl, inr}
use mathlib.Core.Bool.{Bool, true, false, ◌&&◌}
use mathlib.Core.List.{List, [], ◌∷◌, ◌++◌}
use mathlib.Core.Option
use mathlib.Core.Option.{Option, none, some}
use game_frame.Prelude.Tests.{◌==◌, if◌then◌else◌, ==_iff, ==_refl, ne→==, Bool-cases}
use game_frame.Prelude.Lists.{length}

-- the bytes of an ASCII literal
abbrev pub codes : String → List ℕ
codes String.[] = []
codes (String.◌∷◌ c s) = code c ∷ codes s

abbrev pub same_text : List ℕ → List ℕ → Bool
same_text [] [] = true
same_text [] (y ∷ ys) = false
same_text (x ∷ xs) [] = false
same_text (x ∷ xs) (y ∷ ys) = (x == y) && same_text xs ys

pub same_text_refl : (xs : List ℕ) → same_text xs xs ≡ true
same_text_refl [] = refl
same_text_refl (x ∷ xs) = rw (==_refl x) (same_text_refl xs)

pub same_text-eq : (xs ys : List ℕ) → same_text xs ys ≡ true → xs ≡ ys
same_text-eq [] [] h = refl
same_text-eq [] (y ∷ ys) h = cc
same_text-eq (x ∷ xs) [] h = cc
same_text-eq (x ∷ xs) (y ∷ ys) h = elim (Bool-cases (x == y)) [
  | inl hit ↦
      let rest : same_text xs ys ≡ true = subst (λ b. (b && same_text xs ys) ≡ true) hit h in
      ap₂ (λ a b. a ∷ b) ((==_iff x y).0 hit) (same_text-eq xs ys rest)
  | inr miss ↦ let bad : false ≡ true = subst (λ b. (b && same_text xs ys) ≡ true) miss h in cc
]

-- `string_view::find` of a byte: the index of the first, and `none` for `npos`.
abbrev pub find : ℕ → List ℕ → Option ℕ
find c [] = none
find c (x ∷ xs) = let rest = find c xs in if x == c then some 0 else Option.map suc rest

-- A byte that does not occur.
abbrev pub Lacks : ℕ → List ℕ → Type 0
Lacks c [] = Unit
Lacks c (x ∷ xs) = (x ≢ c) × Lacks c xs

pub find-Lacks : (c : ℕ) (xs ys : List ℕ) → Lacks c xs → find c (xs ++ c ∷ ys) ≡ some (length xs)
find-Lacks c [] ys h = rw (==_refl c) refl
find-Lacks c (x ∷ xs) ys h = rw (ne→== x c h.0, find-Lacks c xs ys h.1) refl

pub find-none : (c : ℕ) (xs : List ℕ) → Lacks c xs → find c xs ≡ none
find-none c [] h = refl
find-none c (x ∷ xs) h = rw (ne→== x c h.0, find-none c xs h.1) refl

pub Lacks-append : (c : ℕ) (xs ys : List ℕ) → Lacks c xs → Lacks c ys → Lacks c (xs ++ ys)
Lacks-append c [] ys h k = k
Lacks-append c (x ∷ xs) ys h k = (h.0, Lacks-append c xs ys h.1 k)
