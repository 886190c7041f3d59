-- ===== src/Channel/Dispatch.antt =====
-- src/channel.h, src/channel.cpp: which callbacks a channel calls for the events that epoll reports, on a state
-- that the callbacks change.
use game_frame.Prelude.{ℕ, Bool, not, ◌&&◌, Option, none, some, bit_and, ◌==◌, if◌then◌else◌}
use game_frame.Channel.{epollin, epollout, read_event}

abbrev pub epollerr : ℕ
epollerr = 0x8

abbrev pub epollhup : ℕ
epollhup = 0x10

pub record Callbacks {ℓ} (S : Type ℓ) : Type ℓ where
  pub read_cb : Option (S → S)
  pub write_cb : Option (S → S)
  pub close_cb : Option (S → S)
  pub error_cb : Option (S → S)

-- `revents & flags`
unfoldable pub reports : ℕ → ℕ → Bool
reports revents flags = not (bit_and revents flags == 0)

module _ {ℓ} {S : Type ℓ} where
  -- `if (cb) cb();`
  abbrev pub call : Option (S → S) → S → S
  call none s = s
  call (some cb) s = cb s

  unfoldable pub handle_event_with_guard : Callbacks S → ℕ → S → S
  handle_event_with_guard cbs revents s =
      let failed = if reports revents epollerr then call cbs.error_cb s else s in
      let received = if reports revents read_event then call cbs.read_cb failed else failed in
      let written = if reports revents epollout then call cbs.write_cb received else received in
      if reports revents epollhup && not (reports revents epollin)
      then call cbs.close_cb s
      else written

  -- `lives` is whether `tie_.lock()` finds the object, which its weak pointer does not keep alive.
  unfoldable pub handle_event : Bool → Bool → Callbacks S → ℕ → S → S
  handle_event tied lives cbs revents s =
      let handled = handle_event_with_guard cbs revents s in
      if tied then (if lives then handled else s) else handled
