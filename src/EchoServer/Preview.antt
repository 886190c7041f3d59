-- ===== src/EchoServer/Preview.antt =====
-- src/main.cpp: the text of a message that goes into a log line.
use game_frame.Prelude.{
  ℕ, ◌≤◌, ◌≡◌, ◌≢◌, refl, ap₂, inl, inr, List, [], ◌∷◌, map, ltb, codes, length, length-append,
  length-take, zero, suc, take, Lacks, Lacks-append, Bool-cases, arith, ltb→lt, ltb→le,
}
use game_frame.EchoServer.{preview_max, flat, preview_of}

-- A text that is one line.
abbrev pub IsLine : List ℕ → Type 0
IsLine xs = Lacks 10 xs × Lacks 13 xs

flat-ne : (c : ℕ) → (flat c ≢ 10) × (flat c ≢ 13)
unfolding flat
flat-ne c = ground arith

flat_other : (c : ℕ) → c ≢ 10 → c ≢ 13 → flat c ≡ c
unfolding flat
flat_other c h k = ground (arith, h, k)

map-flat-IsLine : (xs : List ℕ) → IsLine (map flat xs)
map-flat-IsLine [] = (tt, tt)
map-flat-IsLine (x ∷ xs) =
    let rest = map-flat-IsLine xs in (((flat-ne x).0, rest.0), ((flat-ne x).1, rest.1))

take-Lacks : (c n : ℕ) (xs : List ℕ) → Lacks c xs → Lacks c (take n xs)
take-Lacks c zero xs h = tt
take-Lacks c (suc n) [] h = tt
take-Lacks c (suc n) (x ∷ xs) h = (h.0, take-Lacks c n xs h.1)

length-map-flat : (xs : List ℕ) → length (map flat xs) ≡ length xs
length-map-flat [] = refl
length-map-flat (x ∷ xs) = omega (arith, length-map-flat xs)

map-flat-line : (xs : List ℕ) → IsLine xs → map flat xs ≡ xs
map-flat-line [] h = refl
map-flat-line (x ∷ xs) h = ap₂ ◌∷◌ (flat_other x h.0.0 h.1.0) (map-flat-line xs (h.0.1, h.1.1))

-- The preview of any message is one line of at most 203 bytes, and a message that is one line of at most 200
-- bytes is its own preview.
pub preview_of-IsLine :
    (text : List ℕ)
    → IsLine (preview_of text)
      × (length (preview_of text) ≤ 203)
      × (IsLine text → length text ≤ 200 → preview_of text ≡ text)
unfolding preview_of
preview_of-IsLine text =
    let xs = map flat text in
    let one = map-flat-IsLine text in
    let size = length-map-flat text in
    elim (Bool-cases (ltb preview_max (length xs))) [
      | inl long ↦
          let lt = ltb→lt preview_max (length xs) long in
          rw long (
            (
              Lacks-append 10 (take 200 xs) (codes "...") (take-Lacks 10 200 xs one.0)
                  (omega arith),
              Lacks-append 13 (take 200 xs) (codes "...") (take-Lacks 13 200 xs one.1)
                  (omega arith),
            ),
            omega (arith, length-append (take 200 xs) (codes "..."), length-take 200 xs),
            λ line short. absurd (omega (arith, short, size, lt)),
          )
      | inr short ↦
          let le = ltb→le preview_max (length xs) short in
          rw short (one, omega (arith, le), λ line fits. map-flat-line text line)
    ]
