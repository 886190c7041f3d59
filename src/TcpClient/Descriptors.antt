-- ===== src/TcpClient/Descriptors.antt =====
-- src/tcp_client.cpp: what the client's functions do with its descriptors.
use game_frame.Prelude.{
  ℕ, ◌≡◌, refl, sym, subst, Bool, true, false, [], ◌∷◌, ◌++◌, none, some, if◌then◌else◌, not, arith,
}
use game_frame.TcpClient.{
  State, disconnected, connecting, connected, retrying, TcpClient, initial_backoff_ms, Reaction,
  accepts, connects, closes, disconnects, Dial, no_socket, blocking, in_progress, refused, at_once,
  schedule_retry, drop_channel, notify_down, on_connection_closed, close_connection,
  close_connecting, disconnect_from, disconnect_in_loop, notify_up, start_connection,
  handshake_done, handle_writable, handle_connect_writable, opened, dial, start_connect,
}
use game_frame.TcpClient.Invariant.{
  Sound, Idle, Dialling, Up, Owns, Inv, schedule_retry-Inv, close_fd-Idle, rest-Inv, failed_dial,
}

module _ (reaction : Bool → Reaction) where
  on_connection_closed-Inv :
      (c : TcpClient)
      → Sound c
      → c.connecting_fd ≡ none
      → c.connect_channel ≡ none
      → c.open_fds ≡ []
      → Inv (on_connection_closed reaction c)
  unfolding on_connection_closed notify_down
  on_connection_closed-Inv c s h k l =
      elim (reaction false)
        as (λ r. Inv (
          schedule_retry
            (record (elim r as (λ _. TcpClient) [
              | accepts ↦ record c { notices = c.notices ++ false ∷ [] }
              | connects ↦ record c { notices = c.notices ++ false ∷ [] }
              | closes ↦ record c { notices = c.notices ++ false ∷ [] }
              | disconnects ↦ record c { notices = c.notices ++ false ∷ []; retry_enabled = false }
            ]) { connection = none }))) [
              | accepts ↦ schedule_retry-Inv _ (ground arith) (ground arith)
              | connects ↦ schedule_retry-Inv _ (ground arith) (ground arith)
              | closes ↦ schedule_retry-Inv _ (ground arith) (ground arith)
              | disconnects ↦ schedule_retry-Inv _ (ground arith) (ground arith)
            ]

  pub close_connection-Inv :
      (c : TcpClient) (fd : ℕ) → Sound c → Up c fd → Inv (close_connection reaction c.connection c)
  unfolding close_connection
  close_connection-Inv c fd s u =
      subst (λ o. Inv (close_connection reaction o c)) (sym u.has_connection)
        (subst (λ d. Inv (on_connection_closed reaction d)) (sym (close_fd-Idle c fd u.one_open))
          (on_connection_closed-Inv (record c { open_fds = [] }) (ground arith) u.no_connecting
            u.no_channel refl))

  disconnect_from-Inv :
      (s : State) (c : TcpClient)
      → c.state ≡ s
      → Sound c
      → Owns s c
      → Inv (disconnect_from reaction s (record c { retry_enabled = false }))
  unfolding disconnect_from close_connecting drop_channel
  disconnect_from-Inv disconnected c e s (i, off) =
      rest-Inv (record c { retry_enabled = false }) (ground arith) (ground arith) e refl
  disconnect_from-Inv retrying c e s (i, on, set) = record {
    sound = ground arith;
    owns = (ground arith, refl);
  }
  disconnect_from-Inv connected c e s ((fd, u), on) =
      close_connection-Inv (record c { retry_enabled = false }) fd (ground arith) (ground arith)
  disconnect_from-Inv connecting c e s ((fd, d), on) =
      let off : TcpClient = record c { retry_enabled = false; connect_channel = none } in
      subst (λ o. Inv (record (close_connecting reaction o off) { state = disconnected }))
        (sym d.is_connecting)
        (subst (λ b. Inv (record b { connecting_fd = none; state = disconnected }))
          (sym (close_fd-Idle off fd d.one_open))
          (record { sound = ground arith; owns = (ground arith, refl) }))

  pub disconnect-Inv : (c : TcpClient) → Inv c → Inv (disconnect_in_loop reaction c)
  unfolding disconnect_in_loop
  disconnect-Inv c inv = disconnect_from-Inv c.state c refl inv.sound inv.owns

  pub connected-Inv :
      (c : TcpClient) (fd : ℕ)
      → c.state ≡ connected
      → c.retry_enabled ≡ true
      → Sound c
      → Up c fd
      → Inv c
  connected-Inv c fd e on s u = record {
    sound = s;
    owns = subst (λ t. Owns t c) (sym e) ((fd, u), on);
  }

  notify_up-Inv :
      (c : TcpClient) (fd : ℕ)
      → c.state ≡ connected
      → c.retry_enabled ≡ true
      → Sound c
      → Up c fd
      → Inv (notify_up reaction c)
  unfolding notify_up
  notify_up-Inv c fd e on s u = by_reaction (reaction true)
    where
      told : TcpClient
      told = record c { notices = c.notices ++ true ∷ [] }

      by_reaction :
          (r : Reaction)
          → Inv (elim r as (λ _. TcpClient) [
            | accepts ↦ told
            | connects ↦ told
            | closes ↦ close_connection reaction told.connection told
            | disconnects ↦ disconnect_in_loop reaction told
          ])
      by_reaction accepts = connected-Inv told fd e on (ground arith) (ground arith)
      by_reaction connects = connected-Inv told fd e on (ground arith) (ground arith)
      by_reaction closes = close_connection-Inv told fd (ground arith) (ground arith)
      by_reaction disconnects =
          disconnect-Inv told (connected-Inv told fd e on (ground arith) (ground arith))

  start_connection-Inv : (c : TcpClient) (fd : ℕ) → Inv c → Inv (start_connection reaction fd c)
  unfolding start_connection
  start_connection-Inv c fd inv = record { sound = ground arith; owns = same c.state inv.owns }
    where
      same : (s : State) → Owns s c → Owns s (record c { started = c.started ++ fd ∷ [] })
      same disconnected (i, off) = (ground arith, off)
      same retrying (i, on, set) = (ground arith, on, set)
      same connecting ((f, d), on) = ((f, ground arith), on)
      same connected ((f, u), on) = ((f, ground arith), on)

  handshake_done-Inv :
      (fd : ℕ) (ok : Bool) (c : TcpClient)
      → Sound c
      → c.connecting_fd ≡ none
      → c.connect_channel ≡ none
      → c.connection ≡ none
      → c.open_fds ≡ fd ∷ []
      → c.retry_enabled ≡ true
      → Inv (handshake_done reaction fd ok c)
  unfolding handshake_done
  handshake_done-Inv fd true c s h k l o on =
      let up : TcpClient = record c {
        state = connected;
        backoff_ms = initial_backoff_ms;
        connection = some fd;
      } in
      start_connection-Inv (notify_up reaction up) fd
        (notify_up-Inv up fd refl on (ground arith) (ground arith))
  handshake_done-Inv fd false c s h k l o on =
      subst (λ d. Inv (schedule_retry d)) (sym (close_fd-Idle c fd o))
        (schedule_retry-Inv (record c { open_fds = [] }) (ground arith) (ground arith))

  pub handle_writable-Inv :
      (ok : Bool) (c : TcpClient) (fd : ℕ)
      → Sound c
      → Dialling c fd
      → c.retry_enabled ≡ true
      → Inv (handle_connect_writable reaction ok c)
  unfolding handle_connect_writable handle_writable drop_channel
  handle_writable-Inv ok c fd s d on =
      let quiet : TcpClient = record c { connecting_fd = none; connect_channel = none } in
      subst (λ o. Inv (handle_writable reaction o ok quiet)) (sym d.is_connecting)
        (handshake_done-Inv fd ok quiet (ground arith) refl refl d.no_connection d.one_open on)

  dial-Inv :
      (d : Dial) (c : TcpClient)
      → Sound c
      → Idle c
      → c.retry_enabled ≡ true
      → Inv (dial reaction d c)
  unfolding dial opened
  dial-Inv no_socket c s i on = schedule_retry-Inv c s i
  dial-Inv (blocking fd) c s i on = failed_dial fd c s i
  dial-Inv (refused fd) c s i on = failed_dial fd c s i
  dial-Inv (at_once fd ok) c s i on =
      handle_writable-Inv ok
        (record c { open_fds = fd ∷ c.open_fds; connecting_fd = some fd; state = connecting }) fd
        (ground arith) (ground arith) on
  dial-Inv (in_progress fd) c s i on = record {
    sound = ground arith;
    owns = ((fd, ground arith), on);
  }

  pub start_connect-Inv :
      (d : Dial) (c : TcpClient)
      → Sound c
      → Idle c
      → c.retry_enabled ≡ true
      → Inv (start_connect reaction d c)
  unfolding start_connect
  start_connect-Inv d c s i on =
      subst (λ b. Inv (if not b then record c { state = disconnected } else dial reaction d c))
        (sym on) (dial-Inv d c s i on)
