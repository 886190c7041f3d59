-- ===== src/Logging/Gate.antt =====
-- log_sender/logging.h: which lines reach the sender's queue.
use game_frame.Prelude.{
  ℕ, ◌≤◌, ◌<◌, ◌≡◌, refl, ◌⊎◌, inl, inr, List, Option, none, some, ltb, Bool-cases, ltb→lt, ltb→le,
}
use game_frame.MpscQueue.Ring.{Holds}
use game_frame.LogSender.{LogSender, push_line}
use game_frame.LogSender.Batches.{IsPushed, push_line-IsPushed}
use game_frame.Logging.{LogLevel, level_num, format_log, log}

-- A macro below the compiled level changes nothing, whether or not a sender is registered, and without one
-- no macro does anything; any other puts exactly its line behind those of the queue, or counts it as lost
-- when the queue is full.
pub log-IsPushed :
    (to_string : ℕ → List ℕ) (compile_level : ℕ) (level : LogLevel) (file : List ℕ) (line : ℕ)
    (formatted : Option (List ℕ)) (sender : LogSender) (xs : List (List ℕ))
    → Holds sender.queue xs
    → (log to_string compile_level level file line formatted none ≡ none)
      × (((level_num level < compile_level)
            × (log to_string compile_level level file line formatted (some sender) ≡ some sender))
          ⊎ ((compile_level ≤ level_num level)
              × ((s : LogSender) × (log to_string compile_level level file line formatted
                      (some sender)
                    ≡ some s)
                  × IsPushed
                      (format_log to_string level file line formatted)
                      xs
                      sender.queue
                      s.queue)))
unfolding log
log-IsPushed to_string compile_level level file line formatted sender xs w =
    let text = format_log to_string level file line formatted in
    elim (Bool-cases (ltb (level_num level) compile_level)) [
      | inl below ↦ rw below (refl, inl (ltb→lt _ _ below, refl))
      | inr above ↦ rw above (
        refl,
        inr (
          ltb→le _ _ above,
          ((push_line text sender).1, refl, push_line-IsPushed text sender xs w),
        ),
      )
    ]
