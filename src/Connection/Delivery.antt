-- ===== src/Connection/Delivery.antt =====
-- src/connection.cpp over a connection's life: any calls of the client and any events, in any order.
use game_frame.Prelude.{
  ℕ, ◌≡◌, ◌≢◌, refl, inl, inr, Bool, true, not, ◌&&◌, List, [], ◌∷◌, ◌++◌, append-nil, Bool-cases,
  ◌==◌, length,
}
use game_frame.Buffer.{new, is_empty, readable_view}
use game_frame.Buffer.Regions.{HasRoom, new-IsValid}
use game_frame.Connection.{
  disconnected, Connection, is_connected, Answer, takes, interrupted, would_block, failed, End,
  done, blocked, broken, waiting, close, write_output, write_loop, after_loop, handle_write,
  send_loop, keep_rest, send, shutdown, new_connection,
}
use game_frame.Connection.Output.{Inv, Open-sent_all, close-Inv, handle_write-Inv}
use game_frame.Connection.AfterClose.{handle_write-Closed}
use game_frame.Connection.Sending.{accepted, send-Inv, shutdown-Inv}

-- What happens to a connection, with the kernel's answers to the writes that it makes. A write event may come in
-- any state: a closed connection is told of one that was reported before.
pub data Event : Type 0 where
  sends : List Answer → List ℕ → Event
  writable : List Answer → Event
  shuts closes : Event

unfoldable pub handle : Event → Connection → End × Connection
handle (sends rs bytes) c = send rs bytes c
handle (writable rs) c = handle_write rs c
handle shuts c = (done, shutdown c)
handle closes c = (done, close c)

-- the bytes that an event gives the connection
abbrev pub gives : Event → Connection → List ℕ
gives (sends rs bytes) c = accepted c bytes
gives (writable rs) c = []
gives shuts c = []
gives closes c = []

-- The output buffer stays below the largest size of a vector.
abbrev pub HasRoomFor : Event → Connection → Type 0
HasRoomFor (sends rs bytes) c = HasRoom c.output_buffer (length bytes)
HasRoomFor (writable rs) c = Unit {0}
HasRoomFor shuts c = Unit {0}
HasRoomFor closes c = Unit {0}

-- The connections that come about by calls that return, with all the bytes given to them.
pub data Reach : Connection → List ℕ → Type 0 where
  begin :
      (mark : ℕ) (high_water_cb write_complete_cb close_cb : Bool)
      → Reach (new_connection mark high_water_cb write_complete_cb close_cb) []
  next :
      {c : Connection} {given : List ℕ} (e : Event)
      → Reach c given
      → HasRoomFor e c
      → (handle e c).0 ≢ waiting
      → Reach (handle e c).1 (given ++ gives e c)

handle-Inv :
    (e : Event) (c : Connection) (given : List ℕ)
    → HasRoomFor e c
    → Inv c given
    → (handle e c).0 ≢ waiting
    → Inv (handle e c).1 (given ++ gives e c)
unfolding handle
handle-Inv (sends rs bytes) c given room inv returns = send-Inv rs bytes c given room inv returns
handle-Inv (writable rs) c given room (inr k) returns =
    rw (append-nil given) (inr (handle_write-Closed rs c given k))
handle-Inv (writable rs) c given room (inl (live, o)) returns =
    rw (append-nil given) (handle_write-Inv rs c given live o returns)
handle-Inv shuts c given room inv returns = rw (append-nil given) (shutdown-Inv c given inv)
handle-Inv closes c given room inv returns = rw (append-nil given) (inr (close-Inv c given inv))

Reach-Invariant : {c : Connection} {given : List ℕ} → Reach c given → Inv c given
unfolding new_connection new
Reach-Invariant (begin mark h w k) = inl (
  (λ e. absurd (cc e)),
  record {
    unclosed = refl;
    valid = new-IsValid;
    whole = refl;
    asks = refl;
    fresh = λ e. (refl, refl);
    emptied = λ e. refl;
  },
)
Reach-Invariant (next {c} {given} e r room returns) =
    handle-Inv e c given room (Reach-Invariant r) returns

-- In every state that a connection reaches by calls that return, within the largest size of its buffer, with
-- write events at any time, also behind a close in the same dispatch: what the kernel took for the peer is the
-- beginning of what the client gave it while it was up, in order, and all of it once the write side is shut;
-- before it is closed the rest is in the output buffer, and EPOLLOUT is asked for exactly while there is a
-- rest.
pub Reach-delivers :
    {c : Connection} {given : List ℕ}
    → Reach c given
    → (rest : List ℕ) × (c.sent ++ rest ≡ given)
      × (c.write_shut ≡ true → c.sent ≡ given)
      × (c.state ≢ disconnected
          → (rest ≡ readable_view c.output_buffer) × (c.writing ≡ not (is_empty c.output_buffer)))
Reach-delivers {c} {given} r = elim (Reach-Invariant r) [
  | inl (live, o) ↦ (
    readable_view c.output_buffer,
    o.whole,
    λ s. Open-sent_all o (o.emptied s),
    λ _. (refl, o.asks),
  )
  | inr k ↦ (k.prefix.0, k.prefix.1, k.all, λ live. absurd (live k.is_closed))
]

-- The kernel says at some time that it takes no more, or fails.
abbrev pub Settles : List Answer → Type 0
Settles [] = ⊥
Settles (takes n ∷ rs) = Settles rs
Settles (interrupted ∷ rs) = Settles rs
Settles (would_block ∷ rs) = Unit {0}
Settles (failed ∷ rs) = Unit {0}

write_loop-returns :
    (rs : List Answer) (c : Connection) → Settles rs → (write_loop rs c).0 ≢ waiting
unfolding write_loop
write_loop-returns [] c h = absurd h
write_loop-returns (takes n ∷ rs) c h = elim (Bool-cases (is_empty c.output_buffer)) [
  | inl empty ↦ rw empty (λ e. cc)
  | inr more ↦ rw more (write_loop-returns rs (write_output n c) h)
]
write_loop-returns (interrupted ∷ rs) c h = elim (Bool-cases (is_empty c.output_buffer)) [
  | inl empty ↦ rw empty (λ e. cc)
  | inr more ↦ rw more (write_loop-returns rs c h)
]
write_loop-returns (would_block ∷ rs) c h = elim (Bool-cases (is_empty c.output_buffer)) [
  | inl empty ↦ rw empty (λ e. cc)
  | inr more ↦ rw more (λ e. cc)
]
write_loop-returns (failed ∷ rs) c h = elim (Bool-cases (is_empty c.output_buffer)) [
  | inl empty ↦ rw empty (λ e. cc)
  | inr more ↦ rw more (λ e. cc)
]

send_loop-returns :
    (rs : List Answer) (left : List ℕ) (c : Connection)
    → Settles rs
    → (send_loop rs left c).0 ≢ waiting
unfolding send_loop
send_loop-returns [] left c h = absurd h
send_loop-returns (takes n ∷ rs) left c h = elim (Bool-cases (length left == 0)) [
  | inl none ↦ rw none (λ e. cc)
  | inr some ↦ rw some (send_loop-returns rs _ _ h)
]
send_loop-returns (interrupted ∷ rs) left c h = elim (Bool-cases (length left == 0)) [
  | inl none ↦ rw none (λ e. cc)
  | inr some ↦ rw some (send_loop-returns rs left c h)
]
send_loop-returns (would_block ∷ rs) left c h = elim (Bool-cases (length left == 0)) [
  | inl none ↦ rw none (λ e. cc)
  | inr some ↦ rw some (λ e. cc)
]
send_loop-returns (failed ∷ rs) left c h = elim (Bool-cases (length left == 0)) [
  | inl none ↦ rw none (λ e. cc)
  | inr some ↦ rw some (λ e. cc)
]

after_loop-returns : (r : End × Connection) → r.0 ≢ waiting → (after_loop r).0 ≢ waiting
unfolding after_loop
after_loop-returns (done, c) h = h
after_loop-returns (blocked, c) h = h
after_loop-returns (broken, c) h = h
after_loop-returns (waiting, c) h = h

keep_rest-returns : (r : End × List ℕ × Connection) → r.0 ≢ waiting → (keep_rest r).0 ≢ waiting
unfolding keep_rest
keep_rest-returns (done, left, c) h = h
keep_rest-returns (blocked, left, c) h = λ e. cc
keep_rest-returns (broken, left, c) h = h
keep_rest-returns (waiting, left, c) h = h

-- `send` and `handle_write` return when the kernel at some time takes no more or fails, whatever it
-- takes, and however often it is interrupted, before.
pub handle-returns :
    (rs : List Answer) (bytes : List ℕ) (c : Connection)
    → Settles rs
    → ((send rs bytes c).0 ≢ waiting) × ((handle_write rs c).0 ≢ waiting)
unfolding send handle_write
handle-returns rs bytes c h = (sending, writing)
  where
    sending : (send rs bytes c).0 ≢ waiting
    sending = elim (Bool-cases (is_connected c.state && not (length bytes == 0))) [
      | inr nothing ↦ rw nothing (λ e. cc)
      | inl some ↦ elim (Bool-cases (is_empty c.output_buffer)) [
        | inl empty ↦
            rw (some, empty)
              (keep_rest-returns (send_loop rs bytes c) (send_loop-returns rs bytes c h))
        | inr more ↦ rw (some, more) (λ e. cc)
      ]
    ]

    writing : (handle_write rs c).0 ≢ waiting
    writing = elim (Bool-cases (is_empty c.output_buffer)) [
      | inl empty ↦ rw empty (λ e. cc)
      | inr more ↦ rw more (after_loop-returns (write_loop rs c) (write_loop-returns rs c h))
    ]
