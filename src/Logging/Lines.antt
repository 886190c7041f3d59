-- ===== src/Logging/Lines.antt =====
-- log_sender/logging.h: the text of a log line, and what a reader makes of it.
use game_frame.Prelude.{
  ℕ, ◌≡◌, refl, List, [], ◌∷◌, ◌++◌, Option, none, some, ◌==◌, if◌then◌else◌, codes, drop, Lacks,
  arith, ==_refl, ne→==,
}
use game_frame.Logging.{
  LogLevel, debug, info, warn, error, level_str, base_loop, basename_of, body_of, format_log,
}

-- The bytes in front of the first `c` and those behind it.
abbrev pub cut : ℕ → List ℕ → List ℕ × List ℕ
cut c [] = ([], [])
cut c (x ∷ xs) = let (front, behind) = cut c xs in if x == c then ([], xs) else (x ∷ front, behind)

cut-Lacks : (c : ℕ) (xs ys : List ℕ) → Lacks c xs → cut c (xs ++ c ∷ ys) ≡ (xs, ys)
cut-Lacks c [] ys h = rw (==_refl c) refl
cut-Lacks c (x ∷ xs) ys h = rw (ne→== x c h.0, cut-Lacks c xs ys h.1) refl

-- The parts of a line: its level, its file, its line number, and its body behind " | ".
abbrev pub read_line : List ℕ → List ℕ × List ℕ × List ℕ × List ℕ
read_line text =
    let (level, rest) = cut b' ' text in
    let (file, rest') = cut b':' rest in
    let (line, body) = cut b' ' rest' in (level, file, line, drop 2 body)

-- Behind the directories, which end in a slash, the name is all there is.
base_loop-name : (name base : List ℕ) → Lacks b'/' name → base_loop name base ≡ base
unfolding base_loop
base_loop-name [] base h = refl
base_loop-name (c ∷ cs) base h = rw (ne→== c b'/' h.0) (base_loop-name cs base h.1)

base_loop-behind :
    (dirs name base : List ℕ) → Lacks b'/' name → base_loop (dirs ++ b'/' ∷ name) base ≡ name
unfolding base_loop
base_loop-behind [] name base h = base_loop-name name name h
base_loop-behind (c ∷ cs) name base h = base_loop-behind cs name _ h

-- A path without a slash, or any directories and a name behind their last slash.
pub data IsNamed (name : List ℕ) : List ℕ → Type 0 where
  here : IsNamed name name
  under : (dirs : List ℕ) → IsNamed name (dirs ++ b'/' ∷ name)

pub basename_of-IsNamed :
    {name path : List ℕ} → Lacks b'/' name → IsNamed name path → basename_of path ≡ name
unfolding basename_of
basename_of-IsNamed {name} h here = base_loop-name name name h
basename_of-IsNamed {name} h (under dirs) = base_loop-behind dirs name _ h

level_str-Lacks : (level : LogLevel) → Lacks b' ' (level_str level)
unfolding level_str
level_str-Lacks debug = omega arith
level_str-Lacks info = omega arith
level_str-Lacks warn = omega arith
level_str-Lacks error = omega arith

-- The body, or nothing when `vsnprintf` fails.
abbrev pub text_or_empty : Option (List ℕ) → List ℕ
text_or_empty none = []
text_or_empty (some text) = text

body_of_lem : (formatted : Option (List ℕ)) → body_of formatted ≡ text_or_empty formatted
unfolding body_of
body_of_lem none = refl
body_of_lem (some []) = refl
body_of_lem (some (x ∷ xs)) = ground arith

-- From a line, whatever is in its body, the level's name, the name of the file without its directories, the
-- line number and the body are read back. The file's name holds no colon and no slash, and the number's
-- digits hold no space.
pub read_line-format_log :
    (to_string : ℕ → List ℕ) (level : LogLevel) (name path : List ℕ) (line : ℕ)
    (formatted : Option (List ℕ))
    → IsNamed name path
    → Lacks b'/' name
    → Lacks b':' name
    → Lacks b' ' (to_string line)
    → read_line (format_log to_string level path line formatted)
      ≡ (level_str level, name, to_string line, text_or_empty formatted)
unfolding format_log
read_line-format_log to_string level name path line formatted p slash colon space =
    let body = body_of formatted in
    let number = to_string line ++ (codes " | " ++ body) in
    rw (
      cut-Lacks b' ' (level_str level) (basename_of path ++ b':' ∷ number) (level_str-Lacks level),
      basename_of-IsNamed slash p,
      cut-Lacks b':' name number colon,
      cut-Lacks b' ' (to_string line) (b'|' ∷ b' ' ∷ body) space,
      body_of_lem formatted,
    )
