-- ===== src/Logging/Tests.antt =====
-- log_sender/logging.h: a line of level WARN from a file in a directory.
use game_frame.Prelude.{
  ℕ, ◌+◌, ◌≤◌, ◌<◌, ◌≡◌, refl, ◌⊎◌, List, [], ◌∷◌, ◌++◌, none, some, codes, arith,
}
use game_frame.MpscQueue.Ring.{Holds, new-Holds}
use game_frame.LogSender.{LogSender, new_sender, default_options}
use game_frame.LogSender.Batches.{IsPushed}
use game_frame.Logging.{
  warn, level_num, level_str, body_of, base_loop, basename_of, format_log, log,
}
use game_frame.Logging.Lines.{read_line, under, read_line-format_log}
use game_frame.Logging.Gate.{log-IsPushed}

abbrev digit : ℕ → List ℕ
digit n = (b'0' + n) ∷ []

abbrev path : List ℕ
path = codes "src/net" ++ b'/' ∷ codes "main.cpp"

kick :
    format_log digit warn path 7 (some (codes "idle: | bye"))
    ≡ codes "WARN main.cpp:7 | idle: | bye"
unfolding format_log level_str basename_of base_loop body_of
kick = refl

read_line-format_log_example :
    read_line (format_log digit warn path 7 (some (codes "idle: | bye")))
    ≡ (level_str warn, codes "main.cpp", digit 7, codes "idle: | bye")
read_line-format_log_example =
    read_line-format_log digit warn (codes "main.cpp") path 7 (some (codes "idle: | bye"))
      (under (codes "src/net")) (omega arith) (omega arith) (omega arith)

abbrev sender : LogSender
sender = new_sender default_options

sender-Holds : Holds sender.queue []
unfolding new_sender
sender-Holds = new-Holds 10000 (omega arith)

log-IsPushed_example :
    (log digit 2 warn path 7 none none ≡ none)
    × (((level_num warn < 2) × (log digit 2 warn path 7 none (some sender) ≡ some sender))
        ⊎ ((2 ≤ level_num warn)
            × ((s : LogSender) × (log digit 2 warn path 7 none (some sender) ≡ some s)
                × IsPushed (format_log digit warn path 7 none) [] sender.queue s.queue)))
log-IsPushed_example = log-IsPushed digit 2 warn path 7 none sender [] sender-Holds
