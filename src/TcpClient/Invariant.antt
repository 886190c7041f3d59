-- ===== src/TcpClient/Invariant.antt =====
-- src/tcp_client.cpp: the client owns exactly the descriptors that it has open, and while it wants a
-- connection it has one, is dialling, or has a retry timer set.
use game_frame.Prelude.{
  ℕ, ◌≤◌, ◌<◌, ◌≡◌, ◌⊎◌, inl, inr, refl, sym, ap, subst, true, false, [], ◌∷◌, none, some, ◌==◌,
  if◌then◌else◌, arith, length, length-append, All, All-append, Bool-cases, ==_refl,
}
use game_frame.TcpClient.{
  State, disconnected, connecting, connected, retrying, TcpClient, initial_backoff_ms,
  max_backoff_ms, new_client, without, is_open, close_fd, schedule_retry,
}

abbrev pub IsDelay : ℕ → Type 0
IsDelay d = (initial_backoff_ms ≤ d) × (d ≤ max_backoff_ms)

-- Delays within their limits, and no `close` of a descriptor that is not open.
pub record Sound (c : TcpClient) : Type 0 where
  pub backoff : (c.backoff_ms ≡ 0) ⊎ (initial_backoff_ms ≤ c.backoff_ms)
  pub capped : c.backoff_ms ≤ max_backoff_ms
  pub delays : All IsDelay c.timers
  pub closes_own : c.bad_closes ≡ 0

-- The client holds no descriptor and no connection.
pub record Idle (c : TcpClient) : Type 0 where
  pub no_connecting : c.connecting_fd ≡ none
  pub no_channel : c.connect_channel ≡ none
  pub no_connection : c.connection ≡ none
  pub no_open : c.open_fds ≡ []

-- One descriptor is open: of a handshake, watched or not, or of a connection.
pub record Dialling (c : TcpClient) (fd : ℕ) : Type 0 where
  pub is_connecting : c.connecting_fd ≡ some fd
  pub channel : (c.connect_channel ≡ none) ⊎ (c.connect_channel ≡ some fd)
  pub no_connection : c.connection ≡ none
  pub one_open : c.open_fds ≡ fd ∷ []

pub record Up (c : TcpClient) (fd : ℕ) : Type 0 where
  pub no_connecting : c.connecting_fd ≡ none
  pub no_channel : c.connect_channel ≡ none
  pub has_connection : c.connection ≡ some fd
  pub one_open : c.open_fds ≡ fd ∷ []

-- What the state says of the rest.
abbrev pub Owns : State → TcpClient → Type 0
Owns disconnected c = Idle c × (c.retry_enabled ≡ false)
Owns retrying c = Idle c × (c.retry_enabled ≡ true) × (0 < length c.timers)
Owns connecting c = ((fd : ℕ) × Dialling c fd) × (c.retry_enabled ≡ true)
Owns connected c = ((fd : ℕ) × Up c fd) × (c.retry_enabled ≡ true)

pub record Inv (c : TcpClient) : Type 0 where
  pub sound : Sound c
  pub owns : Owns c.state c

pub new_client-Inv : Inv new_client
unfolding new_client
new_client-Inv = record { sound = ground arith; owns = (ground arith, refl) }

pub schedule_retry-Inv : (c : TcpClient) → Sound c → Idle c → Inv (schedule_retry c)
unfolding schedule_retry
schedule_retry-Inv c s i =
    let wait : ℕ = if c.backoff_ms == 0 then initial_backoff_ms else c.backoff_ms in
    let in_range : IsDelay wait = ground arith in
    elim (Bool-cases c.retry_enabled) [
      | inl on ↦ rw on (record {
        sound = record {
          backoff = inr (omega arith);
          capped = omega arith;
          delays = All-append IsDelay c.timers (wait ∷ []) s.delays (in_range, tt);
          closes_own = s.closes_own;
        };
        owns = (ground arith, refl, omega (arith, length-append c.timers (wait ∷ [])));
      })
      | inr off ↦ rw off (record { sound = ground arith; owns = (ground arith, refl) })
    ]

pub close_fd-Idle :
    (c : TcpClient) (fd : ℕ) → c.open_fds ≡ fd ∷ [] → close_fd fd c ≡ record c { open_fds = [] }
unfolding close_fd is_open without
close_fd-Idle c fd e = rw (e, ==_refl fd) refl

pub rest-Inv :
    (c : TcpClient) → Sound c → Idle c → c.state ≡ disconnected → c.retry_enabled ≡ false → Inv c
rest-Inv c s i e off = record { sound = s; owns = subst (λ t. Owns t c) (sym e) (i, off) }

-- `socket` gave a descriptor, and the dial failed.
pub failed_dial :
    (fd : ℕ) (c : TcpClient)
    → Sound c
    → Idle c
    → Inv (schedule_retry (close_fd fd (record c { open_fds = fd ∷ c.open_fds })))
failed_dial fd c s i =
    subst (λ d. Inv (schedule_retry d))
      (sym
        (close_fd-Idle (record c { open_fds = fd ∷ c.open_fds }) fd (ap (λ xs. fd ∷ xs) i.no_open)))
      (schedule_retry-Inv (record c { open_fds = [] }) (ground arith) (ground arith))
