-- ===== src/LogServer/Tests.antt =====
-- log_server/main.cpp: a server with an open file, and frames that come in pieces.
use game_frame.Prelude.{
  ℕ, ◌+◌, ◌-◌, ◌*◌, ◌≡◌, refl, inl, false, true, List, [], ◌∷◌, ◌++◌, some, codes, arith, drop, sym,
  ap,
}
use game_frame.Buffer.{new}
use game_frame.Buffer.Regions.{new-IsValid}
use game_frame.Frame.{encode}
use game_frame.Frame.Grammar.{encode_all}
use game_frame.LogFile.{LogFile, Answers}
use game_frame.LogSender.{LogSender, default_options, do_drain_and_send}
use game_frame.LogSender.Batches.{do_drain_and_send-frames}
use game_frame.MpscQueue.{Queue}
use game_frame.MpscQueue.Ring.{Holds}
use game_frame.LogServer.Pipeline.{wire, do_drain_and_send-Stored}
use game_frame.LogServer.{
  default_settings, set_basedir, set_roll_size, configure, LineAnswers, Session, receive,
  receive_chunks,
}
use game_frame.LogServer.Arrival.{bytes_of, Stored, receive_chunks-Stored}
use game_frame.LogServer.Refusal.{ClosedWith, refusal_loses}

abbrev digit : ℕ → List ℕ
digit n = (b'0' + n) ∷ []

abbrev read_digit : List ℕ → ℕ × ℕ
read_digit [] = (0, 0)
read_digit (c ∷ cs) = (c - b'0', 1)

abbrev answers : Answers
answers = record {
  today = codes "20260616";
  lists = true;
  opens = true;
  sizes = true;
  stats = true;
  takes = 100;
}

abbrev midnight : ℕ → LineAnswers
midnight k = record {
  stamp = codes "[00:00] ";
  for_stamp = answers;
  for_payload = answers;
  for_newline = answers;
}

abbrev log : LogFile
log = record {
  basename = codes "app";
  roll_size = 100;
  fp = some (codes "app.20260616.log.1");
  written_bytes = 0;
  current_date = codes "20260616";
  current_seq = 1;
  directory = [];
}

abbrev session : Session
session = record { input = new; closed = false; log_file = log; stored = 0 }

abbrev messages : List (List ℕ)
messages = codes "up" ∷ codes "down" ∷ []

-- The second frame is cut in its header, and a third one has begun.
abbrev pieces : List (List ℕ)
pieces =
    (0 ∷ 0 ∷ 0 ∷ 2 ∷ b'u' ∷ b'p' ∷ 0 ∷ []) ∷ (0 ∷ 0 ∷ 4 ∷ codes "do") ∷ (codes "wn" ++ 0 ∷ []) ∷ []

receive_chunks-Stored_example : Stored digit read_digit midnight session pieces messages (0 ∷ [])
unfolding new encode encode_all
receive_chunks-Stored_example =
    receive_chunks-Stored digit read_digit midnight pieces messages session (0 ∷ []) refl
      new-IsValid (inl (omega arith)) (omega arith) (omega arith) (omega arith) (inl (omega arith))
      refl

-- An empty frame behind the messages.
refusal_loses_example :
    ClosedWith digit read_digit midnight session
      (receive digit read_digit midnight (encode_all messages ++ encode []) session)
      []
    × ClosedWith digit read_digit midnight session
        (receive_chunks digit read_digit midnight (encode_all messages ∷ encode [] ∷ []) session)
        messages
unfolding new encode encode_all
refusal_loses_example =
    refusal_loses digit read_digit midnight messages (encode []) session refl new-IsValid refl
      (omega arith) (omega arith) (omega arith) (omega arith, inl refl)

abbrev number : List ℕ → ℕ
number text = 8080

small_roll :
    configure number (codes "8080" ∷ codes "/tmp" ∷ codes "8080" ∷ []) ≡ record default_settings {
      port = 8080;
      basedir = codes "/tmp";
      roll_size = 8080 * 1024 * 1024;
    }
unfolding configure set_basedir set_roll_size
small_roll = refl

-- A sender with two lines in its queue and one lost, that takes one line at a time.
abbrev full_queue : Queue (List ℕ)
full_queue = record {
  cap = 2;
  slots = some (codes "one") ∷ some (codes "two") ∷ [];
  head = 0;
  tail = 0;
  count = 2;
  dropped = 1;
  has_pending = true;
}

full_queue-Holds : Holds full_queue (codes "one" ∷ codes "two" ∷ [])
full_queue-Holds = record {
  positive = omega arith;
  small = omega arith;
  sized = refl;
  head_in = omega arith;
  tail_at = refl;
  counted = refl;
  bounded = omega arith;
  stored = (refl, (refl, tt));
}

abbrev sender : LogSender
sender = record {
  opts = record default_options { max_batch_per_tick = 1 };
  queue = full_queue;
  connection = some true;
  watched = true;
  paused = false;
  timers = 1;
  functors = 0;
  started = true;
  stopped = false;
  calls = [];
  null_sends = 0;
}

abbrev lines : List (List ℕ)
lines = codes "[LOG_DROPPED] 1 messages lost" ∷ codes "one" ∷ []

-- The header of the second frame is cut.
abbrev parts : List (List ℕ)
parts =
    (0 ∷ 0 ∷ 0 ∷ 29 ∷ codes "[LOG_DROPPED] 1 messages lost" ++ 0 ∷ 0 ∷ [])
    ∷ (0 ∷ 3 ∷ codes "one")
    ∷ []

parts-wire : bytes_of parts ≡ wire (drop 0 (do_drain_and_send digit [] sender).calls)
unfolding encode
parts-wire =
    let sent =
      do_drain_and_send-frames digit sender (codes "one" ∷ codes "two" ∷ []) refl (omega arith)
        full_queue-Holds in
    sym (ap (λ (t : LogSender). wire (drop 0 t.calls)) sent.1)

do_drain_and_send-Stored_example : Stored digit read_digit midnight session parts lines []
unfolding new
do_drain_and_send-Stored_example =
    do_drain_and_send-Stored digit read_digit midnight sender (codes "one" ∷ codes "two" ∷ [])
      session parts refl (omega arith) full_queue-Holds (omega arith) refl new-IsValid refl
      (omega arith) (omega arith) parts-wire
