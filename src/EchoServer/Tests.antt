-- ===== src/EchoServer/Tests.antt =====
-- src/main.cpp: a client that says something.
use game_frame.Prelude.{
  ℕ, ◌*◌, ◌≡◌, refl, true, false, List, [], ◌∷◌, ◌++◌, none, some, codes, arith,
}
use game_frame.Connection.{is_connected, new_connection}
use game_frame.TimerQueue.{new as no_timers}
use game_frame.TimerQueue.Invariant.{new-Inv}
use game_frame.EchoServer.{
  Client, flat, preview_of, starts_with, occurs, disarm, set_timer, arm_idle_timer, on_up,
  on_connection, log, connected_line,
}
use game_frame.EchoServer.Timers.{up, Life, begins, rises}
use game_frame.EchoServer.Idle.{Timed, Life-Timed}

abbrev clock : ℕ → ℕ
clock n = n * 1_000_000

abbrev greeting : List ℕ
greeting = codes "hello" ++ 13 ∷ 10 ∷ []

greeting_seen : preview_of greeting ≡ codes "hello  "
unfolding preview_of flat
greeting_seen = refl

boom : occurs (codes "BOOM") (codes "a BOOM!") ≡ true
unfolding occurs starts_with
boom = refl

abbrev arrived : Client
arrived = record {
  conn = new_connection 0 false false true;
  queue = no_timers;
  context = none;
  owned = [];
  lines = [];
}

abbrev served : Client
served = log connected_line (set_timer clock (disarm clock 0 (record arrived { context = some 0 })))

served-Life : Life clock up served
unfolding on_connection on_up arm_idle_timer is_connected new_connection no_timers
served-Life = rises (begins arrived new-Inv (omega arith) refl refl) refl refl

-- The greeting is echoed.
Life-Timed_example : Timed clock up served
Life-Timed_example = Life-Timed clock served-Life
