-- ===== src/Logging.antt =====
-- log_sender/logging.h, and the global instance of log_sender/log_sender.h: what the macros LOG_DEBUG to LOG_ERROR do.
pub mod Lines
pub mod Gate
mod Tests
use game_frame.Prelude.{
  ℕ, Bool, List, [], ◌∷◌, ◌++◌, Option, none, some, ltb, ◌==◌, if◌then◌else◌, codes, length,
}
use game_frame.LogSender.{LogSender, push_line}

pub data LogLevel : Type 0 where
  debug info warn error : LogLevel

-- the value of an enumerator, which is also the number that each macro passes on
abbrev pub level_num : LogLevel → ℕ
level_num debug = 0
level_num info = 1
level_num warn = 2
level_num error = 3

-- Every value is an enumerator's.
pub level_str : LogLevel → List ℕ
level_str debug = codes "DEBUG"
level_str info = codes "INFO"
level_str warn = codes "WARN"
level_str error = codes "ERROR"

-- The loop over the path: `p` is what is left of it, and `base` where the name begins so far.
pub base_loop : List ℕ → List ℕ → List ℕ
base_loop [] base = base
base_loop (c ∷ p) base = base_loop p (if c == b'/' then p else base)

-- A path is the bytes before its terminating zero.
pub basename_of : List ℕ → List ℕ
basename_of path = base_loop path path

-- What the two calls of `vsnprintf` give: `none` is a negative number.
pub body_of : Option (List ℕ) → List ℕ
body_of none = []
body_of (some text) = if ltb 0 (length text) then text else []

module _ (to_string : ℕ → List ℕ) where
  pub format_log : LogLevel → List ℕ → ℕ → Option (List ℕ) → List ℕ
  format_log level file line formatted =
      level_str level
      ++ b' ' ∷ (basename_of file ++ b':' ∷ (to_string line ++ (codes " | " ++ body_of formatted)))

  -- A macro, on the sender that `global()` points to.
  pub log : ℕ → LogLevel → List ℕ → ℕ → Option (List ℕ) → Option LogSender → Option LogSender
  log compile_level level file line formatted global =
      if ltb (level_num level) compile_level then global else elim global [
        | none ↦ none
        | some sender ↦ some (push_line (format_log level file line formatted) sender).1
      ]
