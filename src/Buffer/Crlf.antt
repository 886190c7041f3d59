-- ===== src/Buffer/Crlf.antt =====
-- util/buffer.h: `find_crlf` finds the first line end among the readable bytes.
use game_frame.Prelude.{
  ℕ, zero, suc, ◌+◌, ◌≤◌, ◌<◌, ◌⊎◌, true, false, subst, if◌then◌else◌, ◌≡◌, refl, inl, inr, List,
  [], ◌∷◌, ◌++◌, Option, none, some, arith, ◌==◌, ◌&&◌, Bool-cases, length, get_or, Lacks,
}
use mathlib.Core.Option
use game_frame.Buffer.{Buffer, readable_view, search_crlf, find_crlf}

-- "\r\n" stands at index `i`.
abbrev pub IsCrlfAt : List ℕ → ℕ → Type 0
IsCrlfAt xs i = (get_or xs i 0 ≡ b'\r') × (get_or xs (suc i) 0 ≡ b'\n')

-- The offset is that of the first "\r\n", and the null pointer means that there is none.
abbrev pub Finds : List ℕ → Option ℕ → Type 0
Finds xs none = (i : ℕ) → ¬ IsCrlfAt xs i
Finds xs (some i) = IsCrlfAt xs i × ((j : ℕ) → j < i → ¬ IsCrlfAt xs j)

Finds-later :
    (x : ℕ) (xs : List ℕ) (r : Option ℕ)
    → ¬ IsCrlfAt (x ∷ xs) 0
    → Finds xs r
    → Finds (x ∷ xs) (Option.map suc r)
Finds-later x xs none h f = λ i p. later i p
  where
    later : (i : ℕ) → ¬ IsCrlfAt (x ∷ xs) i
    later zero p = h p
    later (suc i) p = f i p
Finds-later x xs (some k) h f = (f.0, earlier)
  where
    earlier : (j : ℕ) → j < suc k → ¬ IsCrlfAt (x ∷ xs) j
    earlier zero lt p = h p
    earlier (suc j) lt p = f.1 j (omega arith) p

search_crlf-Finds : (xs : List ℕ) → Finds xs (search_crlf xs)
unfolding search_crlf
search_crlf-Finds [] = λ i p. omega arith
search_crlf-Finds (x ∷ []) = λ i p. single i p
  where
    single : (i : ℕ) → ¬ IsCrlfAt (x ∷ []) i
    single zero p = omega arith
    single (suc i) p = omega arith
search_crlf-Finds (x ∷ y ∷ rest) = elim (Bool-cases ((x == b'\r') && (y == b'\n'))) [
  | inl hit ↦ rw (hit, search_crlf) ((ground arith, ground arith), λ j lt p. absurd (omega arith))
  | inr miss ↦
      rw (miss, search_crlf)
        (Finds-later x (y ∷ rest) (search_crlf (y ∷ rest)) (λ p. ground arith)
          (search_crlf-Finds (y ∷ rest)))
]

-- `find_crlf` returns the offset of the first "\r\n" of the readable bytes, and null only if they
-- hold none.
pub find_crlf-Finds : (b : Buffer) → Finds (readable_view b) (find_crlf b)
unfolding find_crlf
find_crlf-Finds b = search_crlf-Finds (readable_view b)

-- A line with no '\r' in it is found whole.
abbrev pub NoCr : List ℕ → Type 0
NoCr xs = Lacks b'\r' xs

pub search_crlf-line :
    (line rest : List ℕ)
    → NoCr line
    → search_crlf (line ++ b'\r' ∷ b'\n' ∷ rest) ≡ some (length line)
unfolding search_crlf
search_crlf-line [] rest h = refl
search_crlf-line (x ∷ []) rest h = ground arith
search_crlf-line (x ∷ y ∷ xs) rest h = ground (arith, search_crlf-line (y ∷ xs) rest h.1)

-- A line end found in a prefix is found in the whole.
pub search_crlf-append :
    (xs ys : List ℕ) (i : ℕ)
    → search_crlf xs ≡ some i
    → (search_crlf (xs ++ ys) ≡ some i) × (i + 2 ≤ length xs)
unfolding search_crlf
search_crlf-append [] ys i h = cc
search_crlf-append (x ∷ []) ys i h = cc
search_crlf-append (x ∷ y ∷ rest) ys i h =
    split (Bool-cases ((x == b'\r') && (y == b'\n'))) (search_crlf (y ∷ rest))
      (search_crlf-append (y ∷ rest) ys) h
  where
    split :
        (((x == b'\r') && (y == b'\n')) ≡ true) ⊎ (((x == b'\r') && (y == b'\n')) ≡ false)
        → (o : Option ℕ)
        → ((j : ℕ)
            → o ≡ some j
            → (search_crlf (y ∷ rest ++ ys) ≡ some j) × (j + 2 ≤ length (y ∷ rest)))
        → (if (x == b'\r') && (y == b'\n') then some 0 else Option.map suc o) ≡ some i
        → (search_crlf (x ∷ y ∷ rest ++ ys) ≡ some i) × (i + 2 ≤ length (x ∷ y ∷ rest))
    split (inl hit) o below h =
        let z : some 0 ≡ some i =
          subst (λ b. (if b then some 0 else Option.map suc o) ≡ some i) hit h in
        let at : 0 ≡ i = cc in (rw hit z, omega arith)
    split (inr miss) none below h =
        let z : none ≡ some i = subst (λ b. (if b then some 0 else none) ≡ some i) miss h in cc
    split (inr miss) (some j) below h =
        let z : some (suc j) ≡ some i =
          subst (λ b. (if b then some 0 else some (suc j)) ≡ some i) miss h in
        let at : suc j ≡ i = cc in let r = below j refl in (rw (miss, r.0) z, omega (arith, r.1))
