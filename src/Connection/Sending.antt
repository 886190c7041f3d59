-- ===== src/Connection/Sending.antt =====
-- src/connection.cpp: `send` and `shutdown`.
use game_frame.Prelude.{
  ℕ, ◌≤◌, ◌≡◌, ◌≢◌, refl, sym, ap, ◌∙◌, subst, inl, inr, true, false, not, List, [], ◌∷◌, ◌++◌, min,
  arith, append_assoc, append-nil, Bool-cases, ◌==◌, length, length-append, take, drop,
  take-append-drop, ne→==, length-drop, if◌then◌else◌,
}
use game_frame.Buffer.{Buffer, readable_bytes, is_empty, readable_view, append}
use game_frame.Buffer.Regions.{IsValid, HasRoom, append-IsValid, length-readable_view}
use game_frame.Buffer.Contents.{view-append}
use game_frame.Connection.{
  State, connected, disconnecting, disconnected, Connection, is_connected, is_disconnected, Answer,
  takes, interrupted, would_block, failed, End, done, blocked, broken, waiting, close, keep_rest,
  enqueue, send_loop, send, shutdown_in_loop, shutdown,
}
use game_frame.Connection.Output.{
  Open, Closed, Inv, empty_view, Open-sent_all, live-is_disconnected,
}

nothing : (xs : List ℕ) → (length xs == 0) ≡ true → xs ≡ []
nothing [] h = refl
nothing (x ∷ xs) h = absurd (ground (arith, h))

-- The bytes appended are the last of those left to send.
enqueue-Open :
    (bytes : List ℕ) (c : Connection) (given : List ℕ)
    → c.state ≡ connected
    → HasRoom c.output_buffer (length bytes)
    → Open c given
    → Open (enqueue bytes c) (given ++ bytes)
unfolding enqueue
enqueue-Open bytes c given is room o = elim (Bool-cases (length bytes == 0)) [
  | inl none ↦
      rw none
        (subst (Open c) (sym (ap (λ xs. given ++ xs) (nothing bytes none) ∙ append-nil given)) o)
  | inr some ↦
      let view = view-append bytes o.valid room in
      let more : is_empty (append c.output_buffer bytes) ≡ false =
        let some_bytes : length bytes ≢ 0 = λ e. ground arith in
        let v = append-IsValid bytes o.valid room in
        ne→== (readable_bytes (append c.output_buffer bytes)) 0 (λ e. some_bytes (
          omega (
            arith,
            ap length view,
            length-append (readable_view c.output_buffer) bytes,
            length-readable_view (append c.output_buffer bytes) v,
          ))) in
      rw some (record {
        unclosed = o.unclosed;
        valid = append-IsValid bytes o.valid room;
        whole =
            ap (λ xs. c.sent ++ xs) view
            ∙ sym (append_assoc c.sent (readable_view c.output_buffer) bytes)
            ∙ ap (λ xs. xs ++ bytes) o.whole;
        asks = ap not (sym more);
        fresh = λ s. o.fresh s;
        emptied = λ s. absurd (cc (s, (o.fresh is).1));
      })
]

enqueue-state : (bytes : List ℕ) (c : Connection) → (enqueue bytes c).state ≡ c.state
unfolding enqueue
enqueue-state bytes c = elim (Bool-cases (length bytes == 0)) [
  | inl none ↦ rw none
  | inr some ↦ rw some
]

-- Inside the loop of `send`, of at most `n` bytes: the output buffer stays as it was.
record Sending (b : Buffer) (n : ℕ) (c : Connection) (left given : List ℕ) : Type 0 where
  unclosed : c.fd_closed ≡ false
  is : c.state ≡ connected
  buffer : c.output_buffer ≡ b
  whole : c.sent ++ left ≡ given
  silent : c.writing ≡ false
  fresh : (c.shutdown_pending ≡ false) × (c.write_shut ≡ false)
  few : length left ≤ n

abbrev Sent : Buffer → ℕ → List ℕ → End × List ℕ × Connection → Type 0
Sent b n given r = elim r.0 [
  | done ↦ Sending b n r.2 r.1 given
  | blocked ↦ Sending b n r.2 r.1 given
  | broken ↦ Closed r.2 given
  | waiting ↦ Unit {0}
]

Sending-taken :
    (k : ℕ) {b : Buffer} {n : ℕ} {c : Connection} (left given : List ℕ)
    → Sending b n c left given
    → Sending b n (record c { sent = c.sent ++ take k left }) (drop k left) given
Sending-taken k {c = c} left given s = record {
  unclosed = s.unclosed;
  is = s.is;
  buffer = s.buffer;
  whole =
      append_assoc c.sent (take k left) (drop k left)
      ∙ ap (λ xs. c.sent ++ xs) (take-append-drop k left)
      ∙ s.whole;
  silent = s.silent;
  fresh = s.fresh;
  few = omega (arith, s.few, length-drop k left);
}

close-Sending :
    {b : Buffer} {n : ℕ} (c : Connection) (left given : List ℕ)
    → Sending b n c left given
    → Closed (close c) given
unfolding close
close-Sending c left given s =
    rw (live-is_disconnected c.state (λ e. absurd (cc (s.is, e)))) (record {
      is_closed = refl;
      shut = refl;
      silent = refl;
      prefix = (left, s.whole);
      all = λ shut. absurd (cc (shut, s.fresh.1));
    })

send_loop-Sent :
    (rs : List Answer) {b : Buffer} {n : ℕ} (left : List ℕ) (c : Connection) (given : List ℕ)
    → Sending b n c left given
    → Sent b n given (send_loop rs left c)
unfolding send_loop
send_loop-Sent [] left c given s = elim (Bool-cases (length left == 0)) [
  | inl none ↦ rw none s
  | inr some ↦ rw some tt
]
send_loop-Sent (takes m ∷ rs) left c given s = elim (Bool-cases (length left == 0)) [
  | inl none ↦ rw none s
  | inr some ↦
      let k = min m (length left) in
      rw some (
        send_loop-Sent rs (drop k left) (record c { sent = c.sent ++ take k left }) given
          (Sending-taken k left given s))
]
send_loop-Sent (interrupted ∷ rs) left c given s = elim (Bool-cases (length left == 0)) [
  | inl none ↦ rw none s
  | inr some ↦ rw some (send_loop-Sent rs left c given s)
]
send_loop-Sent (would_block ∷ rs) left c given s = elim (Bool-cases (length left == 0)) [
  | inl none ↦ rw none s
  | inr some ↦ rw some s
]
send_loop-Sent (failed ∷ rs) left c given s = elim (Bool-cases (length left == 0)) [
  | inl none ↦ rw none s
  | inr some ↦ rw some (close-Sending c left given s)
]

rest-Open :
    {b : Buffer} {n : ℕ} (c : Connection) (left given : List ℕ)
    → IsValid b
    → is_empty b ≡ true
    → HasRoom b n
    → Sending b n c left given
    → Inv (enqueue left c) given
rest-Open {b} c left given v empty room s =
    let none : is_empty c.output_buffer ≡ true = ap is_empty s.buffer ∙ empty in
    inl (
      (λ e. absurd (cc (enqueue-state left c, s.is, e))),
      subst (Open (enqueue left c)) s.whole (
          enqueue-Open left c c.sent s.is
            (omega (arith, room, s.few, ap (λ b. length b.storage) s.buffer))
            (record {
              unclosed = s.unclosed;
              valid = subst IsValid (sym s.buffer) v;
              whole = ap (λ xs. c.sent ++ xs) (empty_view c.output_buffer none) ∙ append-nil c.sent;
              asks = s.silent ∙ ap not (sym none);
              fresh = λ _. s.fresh;
              emptied = λ _. none;
            })),
    )

keep_rest-Inv :
    (r : End × List ℕ × Connection) (b : Buffer) (n : ℕ) (given : List ℕ)
    → IsValid b
    → is_empty b ≡ true
    → HasRoom b n
    → Sent b n given r
    → (keep_rest r).0 ≢ waiting
    → Inv (keep_rest r).1 given
unfolding keep_rest
keep_rest-Inv (done, left, c) b n given v empty room s h = rest-Open c left given v empty room s
keep_rest-Inv (blocked, left, c) b n given v empty room s h = rest-Open c left given v empty room s
keep_rest-Inv (broken, left, c) b n given v empty room s h = inr s
keep_rest-Inv (waiting, left, c) b n given v empty room s h = absurd (h refl)

connected_state : (s : State) → is_connected s ≡ true → s ≡ connected
unfolding is_connected
connected_state connected h = refl
connected_state disconnecting h = absurd (cc h)
connected_state disconnected h = absurd (cc h)

up-Open : (c : Connection) (given : List ℕ) → c.state ≡ connected → Inv c given → Open c given
up-Open c given e (inl (live, o)) = o
up-Open c given e (inr k) = absurd (cc (e, k.is_closed))

-- What a call of `send` is given: nothing unless the connection is up.
abbrev pub accepted : Connection → List ℕ → List ℕ
accepted c bytes = if is_connected c.state then bytes else []

pub send-Inv :
    (rs : List Answer) (bytes : List ℕ) (c : Connection) (given : List ℕ)
    → HasRoom c.output_buffer (length bytes)
    → Inv c given
    → (send rs bytes c).0 ≢ waiting
    → Inv (send rs bytes c).1 (given ++ accepted c bytes)
unfolding send
send-Inv rs bytes c given room inv returns = elim (Bool-cases (is_connected c.state)) [
  | inr down ↦ rw down (subst (Inv c) (sym (append-nil given)) inv)
  | inl up ↦
      let is = connected_state c.state up in
      let o = up-Open c given is inv in
      elim (Bool-cases (length bytes == 0)) [
        | inl none ↦
            rw (up, none)
              (subst (Inv c) (sym (ap (λ xs. given ++ xs) (nothing bytes none) ∙ append-nil given))
                inv)
        | inr some ↦ elim (Bool-cases (is_empty c.output_buffer)) [
          | inl empty ↦
              rw (up, some, empty)
                (keep_rest-Inv (send_loop rs bytes c) c.output_buffer (length bytes)
                  (given ++ bytes) o.valid empty room
                  (send_loop-Sent rs bytes c (given ++ bytes) (record {
                    unclosed = o.unclosed;
                    is = is;
                    buffer = refl;
                    whole = ap (λ xs. xs ++ bytes) (Open-sent_all o empty);
                    silent = o.asks ∙ ap not empty;
                    fresh = o.fresh is;
                    few = omega arith;
                  }))
                  (λ e. returns (rw (up, some, empty) e)))
          | inr more ↦
              rw (up, some, more)
                (inl (
                  (λ e. absurd (cc (enqueue-state bytes c, is, e))),
                  enqueue-Open bytes c given is room o,
                ))
        ]
      ]
]

pub shutdown-Inv : (c : Connection) (given : List ℕ) → Inv c given → Inv (shutdown c) given
unfolding shutdown shutdown_in_loop is_disconnected
shutdown-Inv c given inv = elim (Bool-cases (is_connected c.state)) [
  | inr down ↦ rw down inv
  | inl up ↦
      let is = connected_state c.state up in
      let o = up-Open c given is inv in
      elim (Bool-cases (is_empty c.output_buffer)) [
        | inl empty ↦
            rw (up, empty)
              (inl (
                (λ e. absurd (cc e)),
                record {
                  unclosed = o.unclosed;
                  valid = o.valid;
                  whole = o.whole;
                  asks = o.asks;
                  fresh = λ e. absurd (cc e);
                  emptied = λ _. empty;
                },
              ))
        | inr more ↦
            rw (up, more)
              (inl (
                (λ e. absurd (cc e)),
                record {
                  unclosed = o.unclosed;
                  valid = o.valid;
                  whole = o.whole;
                  asks = o.asks;
                  fresh = λ e. absurd (cc e);
                  emptied = o.emptied;
                },
              ))
      ]
]
