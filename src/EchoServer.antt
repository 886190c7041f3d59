-- ===== src/EchoServer.antt =====
-- src/main.cpp: the echo server that closes a connection after ten seconds without data.
pub mod Preview
pub mod Timers
pub mod Idle
mod Tests
use game_frame.Prelude.{
  ℕ, zero, suc, ◌+◌, Bool, true, false, ◌&&◌, ◌||◌, List, [], ◌∷◌, ◌++◌, map, Option, none, some,
  ltb, ◌==◌, if◌then◌else◌, codes, length, take,
}
use game_frame.Buffer.{readable_view, retrieve_all_as_string}
use game_frame.Connection.{Connection, is_connected, Answer, close, send}
use game_frame.TimerQueue.{finished, TimerQueue, run_after, cancel_in_loop}

abbrev pub idle_timeout_ms : ℕ
idle_timeout_ms = 10000

abbrev pub preview_max : ℕ
preview_max = 200

-- The lines that are logged, with what they are about beside the descriptor and the peer.
pub data Line : Type 0 where
  connected_line disconnected_line idle_line boom_line : Line
  received_line : ℕ → List ℕ → Line

-- A connection, the timers of its loop, and its IdleCtx, a `timer_id` that is 0 for none. `owned` are the ids that
-- `run_after` gave this connection, `lines` what was logged.
pub record Client : Type 0 where
  pub conn : Connection
  pub queue : TimerQueue
  pub context : Option ℕ
  pub owned : List ℕ
  pub lines : List Line

abbrev pub log : Line → Client → Client
log line c = record c { lines = c.lines ++ line ∷ [] }

-- `'\n'` and `'\r'` become spaces.
pub flat : ℕ → ℕ
flat c = if (c == 10) || (c == 13) then b' ' else c

pub preview_of : List ℕ → List ℕ
preview_of data_ =
    let preview = map flat data_ in
    if ltb preview_max (length preview) then take preview_max preview ++ codes "..." else preview

-- `find` of a text does not give `npos`.
pub starts_with : List ℕ → List ℕ → Bool
starts_with [] xs = true
starts_with (p ∷ ps) [] = false
starts_with (p ∷ ps) (x ∷ xs) = (p == x) && starts_with ps xs

pub occurs : List ℕ → List ℕ → Bool
occurs ps [] = starts_with ps []
occurs ps (x ∷ xs) = let rest = occurs ps xs in starts_with ps (x ∷ xs) || rest

module _ (clock : ℕ → ℕ) where
  -- `if (ctx->timer_id) { cancel; ctx->timer_id = 0; }`
  pub disarm : ℕ → Client → Client
  disarm id c =
      if id == 0 then c else record c { queue = cancel_in_loop clock c.queue id; context = some 0 }

  -- The callback makes no calls of the timer queue.
  pub set_timer : Client → Client
  set_timer c =
      let (id, q) = run_after clock c.queue idle_timeout_ms (some finished) in
      record c { queue = q; context = some id; owned = id ∷ c.owned }

  -- `none` is the null pointer of a context that is not set.
  pub arm_idle_timer : Client → Option Client
  arm_idle_timer c = elim c.context [ none ↦ none | some id ↦ some (set_timer (disarm id c)) ]

  -- the callback of the timer; `lives` is whether the weak pointer finds the connection
  pub on_idle : Bool → Client → Client
  on_idle lives c =
      if lives && is_connected c.conn.state
      then log idle_line (record c { conn = close c.conn })
      else c

  -- the connection callback, when the connection is up and when it is down
  pub on_up : Client → Option Client
  on_up c = elim (arm_idle_timer (record c { context = some 0 })) [
    | none ↦ none
    | some armed ↦ some (log connected_line armed)
  ]

  pub on_down : Client → Client
  on_down c = elim c.context [
    | none ↦ log disconnected_line c
    | some id ↦ log disconnected_line (disarm id c)
  ]

  pub on_connection : Client → Option Client
  on_connection c = if is_connected c.conn.state then on_up c else some (on_down c)

  pub on_message : List Answer → Client → Option Client
  on_message writes c =
      let (data_, input) = retrieve_all_as_string c.conn.input_buffer in
      let heard = log (received_line (length data_) (preview_of data_)) c in
      let told = if occurs (codes "BOOM") data_ then log boom_line heard else heard in
      arm_idle_timer
        (record told { conn = (send writes data_ (record c.conn { input_buffer = input })).1 })
