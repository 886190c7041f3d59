-- ===== src/LogSender/Batches.antt =====
-- log_sender/log_sender.cpp: what a tick sends, over the queue and the frame codec.
use game_frame.Prelude.{
  ℕ, zero, suc, ◌<◌, ◌≡◌, inl, inr, refl, sym, ap, ◌∙◌, min, true, false, ◌&&◌, List, [], ◌∷◌, ◌++◌,
  map, append-nil, append_assoc, some, ltb, ◌⊎◌, add_size, either, ◌==◌, if◌then◌else◌, codes,
  length, take, drop, Bool-cases, arith,
}
use game_frame.Frame.{encode}
use game_frame.MpscQueue.{Queue, push, drain, take_dropped}
use game_frame.MpscQueue.Ring.{Holds, Holds-flags, push-Holds}
use game_frame.MpscQueue.Drain.{drain-behind}
use game_frame.LogSender.{
  Call, sends, LogSender, call, push_line, send_on, line_of, send_batch, loss_notice,
  do_drain_and_send,
}

-- The frames of these lines, handed to the connection.
abbrev pub frames : List (List ℕ) → List Call
frames [] = []
frames (line ∷ lines) = sends (encode line) ∷ frames lines

send_batch_up :
    (lines : List (List ℕ)) (s : LogSender)
    → s.connection ≡ some true
    → send_batch [] (map some lines) s ≡ record s { calls = s.calls ++ frames lines }
unfolding send_batch send_on line_of
send_batch_up [] s e = ap (λ cs. record s { calls = cs }) (sym (append-nil s.calls))
send_batch_up (line ∷ lines) s e =
    ap (λ o. send_batch [] (map some lines) (send_on o true line s)) e
    ∙ send_batch_up lines (call (sends (encode line)) s) e
    ∙ ap (λ cs. record s { calls = cs })
        (append_assoc s.calls (sends (encode line) ∷ []) (frames lines))

module _ (to_string : ℕ → List ℕ) where
  -- The line that tells of lost ones.
  abbrev pub loss_lines : ℕ → List (List ℕ)
  loss_lines dropped =
      if ltb 0 dropped
      then (codes "[LOG_DROPPED] " ++ to_string dropped ++ codes " messages lost") ∷ []
      else []

  loss_notice_lem : (dropped : ℕ) → loss_notice to_string dropped ≡ map some (loss_lines dropped)
  unfolding loss_notice
  loss_notice_lem dropped =
      elim (ltb 0 dropped)
        as (λ b.
          (if b
            then some (codes "[LOG_DROPPED] " ++ to_string dropped ++ codes " messages lost") ∷ []
            else [])
          ≡ map some (
              if b
              then (codes "[LOG_DROPPED] " ++ to_string dropped ++ codes " messages lost") ∷ []
              else [])) [ true ↦ refl | false ↦ refl ]

  some-append : (ls ms : List (List ℕ)) → map some ls ++ map some ms ≡ map some (ls ++ ms)
  some-append [] ms = refl
  some-append (l ∷ ls) ms = ap (◌∷◌ (some l)) (some-append ls ms)

  -- Nothing lost and nothing taken is nothing to send.
  none_to_send :
      (n dropped : ℕ) (xs : List (List ℕ)) (taken : ℕ)
      → 0 < n
      → taken ≡ min n (length xs)
      → ((taken == 0) && (dropped == 0)) ≡ true
      → loss_lines dropped ++ take n xs ≡ []
  none_to_send zero dropped xs taken pos t h = absurd (omega arith)
  none_to_send (suc n) zero [] taken pos t h = refl
  none_to_send (suc n) (suc d) [] taken pos t h = absurd (ground (arith, h))
  none_to_send (suc n) dropped (x ∷ xs) taken pos t h = absurd (ground (arith, h, t))

  -- With the connection up and every `send` surviving, `do_drain_and_send` sends a line that tells how many
  -- were lost, if any were, and then the oldest lines of the queue, up to the batch size, each as one frame,
  -- in the order in which they were pushed; the others stay in the queue, in order, and the count of losses
  -- starts again at 0.
  pub do_drain_and_send-frames :
      (s : LogSender) (xs : List (List ℕ))
      → s.connection ≡ some true
      → 0 < s.opts.max_batch_per_tick
      → Holds s.queue xs
      → (q : Queue (List ℕ)) × (do_drain_and_send to_string [] s ≡ record s {
        queue = q;
        calls = s.calls ++ frames (loss_lines s.queue.dropped ++ take s.opts.max_batch_per_tick xs);
      })
        × Holds q (drop s.opts.max_batch_per_tick xs)
        × (q.dropped ≡ 0)
  unfolding do_drain_and_send take_dropped
  do_drain_and_send-frames s xs up pos w =
      let n : ℕ = s.opts.max_batch_per_tick in
      let lost : ℕ = s.queue.dropped in
      let emptied : Queue (List ℕ) = record s.queue { dropped = 0 } in
      let d =
        drain-behind n emptied (loss_notice to_string lost) xs pos
          (Holds-flags s.queue xs 0 s.queue.has_pending w) in
      let r = drain emptied (loss_notice to_string lost) n in
      (
        r.2,
        elim (Bool-cases ((r.0 == 0) && (lost == 0))) [
          | inl idle ↦
              ap
                (λ b.
                  if b
                  then record s { queue = r.2 }
                  else send_batch [] r.1 (record s { queue = r.2 }))
                idle
              ∙ ap (λ cs. record s { queue = r.2; calls = cs })
                  (sym (
                    ap (λ ls. s.calls ++ frames ls) (none_to_send n lost xs r.0 pos d.0 idle)
                    ∙ append-nil s.calls))
          | inr busy ↦
              ap
                (λ b.
                  if b
                  then record s { queue = r.2 }
                  else send_batch [] r.1 (record s { queue = r.2 }))
                busy
              ∙ ap (λ ps. send_batch [] ps (record s { queue = r.2 }))
                  (d.1
                    ∙ ap (λ ls. ls ++ map some (take n xs)) (loss_notice_lem lost)
                    ∙ some-append (loss_lines lost) (take n xs))
              ∙ send_batch_up (loss_lines lost ++ take n xs) (record s { queue = r.2 }) up
        ],
        d.2,
        d.3,
      )

-- A line is behind the others if the queue has room, and counted as lost if it has none.
abbrev pub IsPushed : List ℕ → List (List ℕ) → Queue (List ℕ) → Queue (List ℕ) → Type 0
IsPushed line xs q q' =
    ((length xs < q.cap) × Holds q' (xs ++ line ∷ []) × (q'.dropped ≡ q.dropped))
    ⊎ ((length xs ≡ q.cap) × Holds q' xs × (q'.dropped ≡ add_size q.dropped 1))

pub push_line-IsPushed :
    (line : List ℕ) (s : LogSender) (xs : List (List ℕ))
    → Holds s.queue xs
    → IsPushed line xs s.queue (push_line line s).1.queue
unfolding push_line
push_line-IsPushed line s xs w =
    let r = push s.queue line in
    either (λ (t : LogSender). IsPushed line xs s.queue t.queue) r.0.wake_up
      (push-Holds s.queue line xs w) (push-Holds s.queue line xs w)
