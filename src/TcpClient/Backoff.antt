-- ===== src/TcpClient/Backoff.antt =====
-- src/tcp_client.cpp: the delays of a client whose dials fail one after the other, and what `start` does to
-- a connection that its callback has closed.
use game_frame.Prelude.{
  ℕ, zero, suc, ◌*◌, ◌^◌, ◌≡◌, refl, sym, ap, ◌∙◌, subst, min, Bool, true, false, [], ◌∷◌, ◌++◌,
  ◌==◌, if◌then◌else◌, not, arith, ==_refl, ne→==, ◌<◌,
}
use native.Mathlib.Nat.{pow-suc}
use game_frame.TcpClient.{
  handle_connect_writable, connect_from, handle_writable, handshake_done, notify_up,
  close_connection, on_connection_closed, notify_down, start_connection, drop_channel, retrying,
  disconnected, TcpClient, initial_backoff_ms, max_backoff_ms, Reaction, closes, refused, without,
  is_open, close_fd, schedule_retry, start_connect, connect_in_loop, retry, retry_from, dial,
  opened,
}
use game_frame.TcpClient.Invariant.{Dialling, close_fd-Idle}

-- After `n` failed retries one timer is set, and the next delay is known.
pub record Waits (n : ℕ) (c : TcpClient) : Type 0 where
  pub is_retrying : c.state ≡ retrying
  pub enabled : c.retry_enabled ≡ true
  pub no_open : c.open_fds ≡ []
  pub one_timer : c.timers ≡ min (initial_backoff_ms * 2 ^ n) max_backoff_ms ∷ []
  pub next : c.backoff_ms ≡ min (initial_backoff_ms * 2 ^ suc n) max_backoff_ms

-- A retry timer goes off, and the dial is refused.
pub round : (Bool → Reaction) → ℕ → TcpClient → TcpClient
round reaction fd c = elim c.timers [ [] ↦ c | delay ∷ rest ↦ retry reaction delay (refused fd) c ]

pub rounds : (Bool → Reaction) → ℕ → ℕ → TcpClient → TcpClient
rounds reaction zero fd c = c
rounds reaction (suc n) fd c = round reaction fd (rounds reaction n fd c)

-- The delay of the `n`-th retry, from 0.
abbrev pub delay_of : ℕ → ℕ
delay_of n = min (initial_backoff_ms * 2 ^ n) max_backoff_ms

two_pow_pos : (n : ℕ) → 0 < 2 ^ n
two_pow_pos zero = omega arith
two_pow_pos (suc n) = omega (arith, pow-suc 2 n, two_pow_pos n)

doubled : (n : ℕ) → min (delay_of n * 2) max_backoff_ms ≡ delay_of (suc n)
doubled n = omega (arith, pow-suc 2 n)

schedule_retry-Waits :
    (n : ℕ) (c : TcpClient)
    → c.retry_enabled ≡ true
    → c.open_fds ≡ []
    → c.timers ≡ []
    → c.backoff_ms ≡ delay_of n
    → Waits n (schedule_retry c)
unfolding schedule_retry
schedule_retry-Waits n c on closed unset next =
    let some_wait : (c.backoff_ms == 0) ≡ false =
      ne→== c.backoff_ms 0 (omega (arith, two_pow_pos n)) in
    simp (on, some_wait)
      (record {
        is_retrying = refl;
        enabled = refl;
        no_open = closed;
        one_timer = rw (unset, next) refl;
        next = rw next (doubled n);
      })

module _ (reaction : Bool → Reaction) (fd : ℕ) where
  refused-Waits :
      (n : ℕ) (c : TcpClient)
      → c.retry_enabled ≡ true
      → c.open_fds ≡ []
      → c.timers ≡ []
      → c.backoff_ms ≡ delay_of n
      → Waits n (start_connect reaction (refused fd) c)
  unfolding start_connect dial opened
  refused-Waits n c on closed unset next =
      subst
        (λ b.
          Waits n
            (if not b then record c { state = disconnected } else dial reaction (refused fd) c))
        (sym on)
        (subst (λ d. Waits n (schedule_retry d))
          (sym (
            close_fd-Idle (record c { open_fds = fd ∷ c.open_fds }) fd (ap (λ xs. fd ∷ xs) closed)))
          (schedule_retry-Waits n (record c { open_fds = [] }) on refl unset next))

  round-Waits : (n : ℕ) (c : TcpClient) → Waits n c → Waits (suc n) (round reaction fd c)
  unfolding round retry retry_from without
  round-Waits n c w =
      let later : TcpClient = record c { timers = [] } in
      subst
        (λ ts.
          Waits (suc n) (elim ts [ [] ↦ c | delay ∷ rest ↦ retry reaction delay (refused fd) c ]))
        (sym w.one_timer)
        (subst
          (λ s. Waits (suc n) (
            retry_from reaction s (refused fd)
              (record c { timers = without (delay_of n) c.timers })))
          (sym w.is_retrying)
          (subst
            (λ ts. Waits (suc n) (start_connect reaction (refused fd) (record c { timers = ts })))
            (sym (only_one w.one_timer))
            (refused-Waits (suc n) later w.enabled w.no_open refl w.next)))
    where
      only_one : c.timers ≡ delay_of n ∷ [] → without (delay_of n) c.timers ≡ []
      only_one e = ap (without (delay_of n)) e ∙ rw (==_refl (delay_of n)) refl

  -- A client that has no descriptor and no timer and whose dials are all refused waits 500 ms before the
  -- first retry, twice as long before each one after it, and 30000 ms at the most; after every failure it
  -- has one timer set and no descriptor open.
  pub rounds-Waits :
      (n : ℕ) (c : TcpClient)
      → c.state ≡ disconnected
      → c.open_fds ≡ []
      → c.timers ≡ []
      → Waits n (rounds reaction n fd (connect_in_loop reaction (refused fd) c))
  unfolding rounds connect_in_loop connect_from
  rounds-Waits zero c e closed unset =
      subst (λ s. Waits 0 (connect_from reaction s (refused fd) c)) (sym e)
        (refused-Waits 0 (record c { retry_enabled = true; backoff_ms = initial_backoff_ms }) refl
          closed unset refl)
  rounds-Waits (suc n) c e closed unset =
      round-Waits n (rounds reaction n fd (connect_in_loop reaction (refused fd) c))
        (rounds-Waits n c e closed unset)

-- If the connection callback closes the connection that it is told is up, the client has closed the
-- descriptor when it then hands that descriptor to epoll.
pub start_after_close :
    (reaction : Bool → Reaction) (c : TcpClient) (fd : ℕ)
    → reaction true ≡ closes
    → Dialling c fd
    → let c' = handle_connect_writable reaction true c in
      (c'.open_fds ≡ []) × (c'.started ≡ c.started ++ fd ∷ [])
unfolding handle_connect_writable handle_writable handshake_done notify_up close_connection
    on_connection_closed notify_down schedule_retry start_connection drop_channel close_fd is_open
    without
start_after_close reaction c fd r d = ground (arith, ==_refl fd)
