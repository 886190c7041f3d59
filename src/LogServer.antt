-- ===== src/LogServer.antt =====
-- log_server/main.cpp: the log server, that stores each frame of its connections as a line of its LogFile.
pub mod Arrival
pub mod Refusal
pub mod Pipeline
mod Tests
use game_frame.Prelude.{
  ℕ, suc, ◌*◌, ◌%◌, ◌^◌, true, false, ◌&&◌, Bool, List, [], ◌∷◌, Option, none, some, ltb,
  if◌then◌else◌, codes, length, ◌+◌,
}
use game_frame.Buffer.{Buffer, append}
use game_frame.Frame.{Decoded, answer, out_of_bounds, out_of_rounds, decode}
use game_frame.LogFile.{LogFile, Answers, append_line}

abbrev pub max_frame_size : ℕ
max_frame_size = 1 * 1024 * 1024

-- The arguments of the program.
pub record Settings : Type 0 where
  pub port : ℕ
  pub basedir : List ℕ
  pub basename : List ℕ
  pub roll_size : ℕ

abbrev pub default_settings : Settings
default_settings = record {
  port = 9099;
  basedir = codes "./res/log";
  basename = codes "epoll_proj";
  roll_size = 10 * 1024 * 1024;
}

-- `atoi` gives its `int` as the number of its 32 bits.
module _ (atoi : List ℕ → ℕ) where
  -- `mb > 0` of an `int`
  pub set_roll_size : List (List ℕ) → Settings → Settings
  set_roll_size [] s = s
  set_roll_size (arg ∷ args) s =
      let mb = atoi arg in
      if ltb 0 mb && ltb mb (2 ^ 31)
      then record s { roll_size = mb * 1024 % 2 ^ 64 * 1024 % 2 ^ 64 }
      else s

  pub set_basedir : List (List ℕ) → Settings → Settings
  set_basedir [] s = s
  set_basedir (arg ∷ args) s = set_roll_size args (record s { basedir = arg })

  -- The arguments behind the program's name.
  pub configure : List (List ℕ) → Settings
  configure [] = default_settings
  configure (arg ∷ args) = set_basedir args (record default_settings { port = atoi arg % 2 ^ 16 })

-- What the system says while a line is stored: the time, and an answer for each call of `append`.
pub record LineAnswers : Type 0 where
  pub stamp : List ℕ
  pub for_stamp : Answers
  pub for_payload : Answers
  pub for_newline : Answers

-- A connection with its decoding state, and the file. `stored` counts the lines, so that each has
-- answers of its own.
pub record Session : Type 0 where
  pub input : Buffer
  pub closed : Bool
  pub log_file : LogFile
  pub stored : ℕ

module _ (to_string : ℕ → List ℕ) (strtol : List ℕ → ℕ × ℕ) (system : ℕ → LineAnswers) where
  -- the loop over the decoded messages, from the k-th line on
  pub append_lines : ℕ → List (List ℕ) → LogFile → LogFile
  append_lines k [] f = f
  append_lines k (payload ∷ msgs) f =
      let a = system k in
      append_lines (suc k) msgs
        (append_line to_string strtol a.for_stamp a.for_payload a.for_newline a.stamp payload f)

  -- What the callback does when `decode` has returned. Undefined behaviour is `none`.
  pub after_decode : Session → Decoded → Option Session
  after_decode s (answer true input msgs) = some (record s {
    input = input;
    log_file = append_lines s.stored msgs s.log_file;
    stored = s.stored + length msgs;
  })
  after_decode s (answer false input msgs) = some (record s { input = input; closed = true })
  after_decode s out_of_bounds = none
  after_decode s out_of_rounds = none

  -- the message callback
  pub on_message : Session → Option Session
  on_message s = after_decode s (decode s.input [] max_frame_size)

  -- Bytes are read into the buffer, and the callback is called; a closed connection is not read.
  pub receive : List ℕ → Session → Option Session
  receive bytes s =
      let served = on_message (record s { input = append s.input bytes }) in
      if s.closed then some s else served

  pub receive_chunks : List (List ℕ) → Session → Option Session
  receive_chunks [] s = some s
  receive_chunks (bytes ∷ chunks) s = elim (receive bytes s) [
    | none ↦ none
    | some s' ↦ receive_chunks chunks s'
  ]
