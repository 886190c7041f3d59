-- ===== src/Connection/Closing.antt =====
-- src/connection.cpp: a connection's descriptor and its close callback, through any dispatch of events, calls
-- and timers.
use game_frame.Prelude.{
  ℕ, ◌≡◌, refl, inl, inr, Bool, true, ◌&&◌, List, [], ◌∷◌, Option, Bool-cases, either,
  if◌then◌else◌, not, ◌∙◌,
}
use game_frame.Channel.Dispatch.{
  Callbacks, handle_event_with_guard, handle_event, reports, call, epollerr, epollhup,
}
use game_frame.Channel.{epollin, epollout, read_event}
use game_frame.Connection.{Connection, is_disconnected, new_connection}
use game_frame.Connection.Events.{
  MessageCallback, channel_callbacks, on_force_close, Happening, calls, reported, times_out, happen,
  live_on, destroy,
}
use game_frame.Connection.Once.{Once, close-Once, handle_write-Once, handle-Once, handle_read-Once}

-- Whatever events are reported, what every callback keeps is kept.
record Kept {S : Type 0} (P : S → Type 0) (cbs : Callbacks S) : Type 0 where
  by_read : (s : S) → P s → P (call cbs.read_cb s)
  by_write : (s : S) → P s → P (call cbs.write_cb s)
  by_close : (s : S) → P s → P (call cbs.close_cb s)
  by_error : (s : S) → P s → P (call cbs.error_cb s)

handle_event-Kept :
    {S : Type 0} (P : S → Type 0) (tied lives : Bool) (cbs : Callbacks S) (revents : ℕ) (s : S)
    → Kept P cbs
    → P s
    → P (handle_event tied lives cbs revents s)
unfolding handle_event handle_event_with_guard
handle_event-Kept P tied lives cbs revents s k p =
    let failed = either P (reports revents epollerr) (k.by_error s p) p in
    let received = either P (reports revents read_event) (k.by_read _ failed) failed in
    let written = either P (reports revents epollout) (k.by_write _ received) received in
    let hung_up = reports revents epollhup && not (reports revents epollin) in
    let handled = either P hung_up (k.by_close s p) written in
    either P tied (either P lives handled p) handled

happen-Once :
    (cb : Option MessageCallback) (h : Happening) (c : Connection) → Once c → Once (happen cb h c)
unfolding happen on_force_close channel_callbacks
happen-Once cb (calls e) c o = handle-Once e c o
happen-Once cb (reported lives revents reads writes) c o =
    handle_event-Kept Once true lives (channel_callbacks cb reads writes) revents c
      (record {
        by_read = λ d. handle_read-Once cb reads d;
        by_write = λ d. handle_write-Once writes d;
        by_close = close-Once;
        by_error = close-Once;
      })
      o
happen-Once cb (times_out lives) c o = either Once lives (close-Once c o) o

live_on-Once :
    (cb : Option MessageCallback) (hs : List Happening) (c : Connection)
    → Once c
    → Once (live_on cb hs c)
unfolding live_on
live_on-Once cb [] c o = o
live_on-Once cb (h ∷ hs) c o = live_on-Once cb hs (happen cb h c) (happen-Once cb h c o)

-- From the moment a connection is made, whatever events are reported, in whatever combination, whatever the
-- message callback and the client call and whichever timers fire: the descriptor is closed exactly in
-- the state kDisconnected, the close callback, where there is one, has been called exactly once then and
-- never before, and the destructor leaves the descriptor closed, touching nothing of a connection in
-- kDisconnected.
pub closes_once :
    (cb : Option MessageCallback) (hs : List Happening) (mark : ℕ) (high written closed : Bool)
    → let c = live_on cb hs (new_connection mark high written closed) in
      (c.fd_closed ≡ is_disconnected c.state)
      × (c.close_calls ≡ (if is_disconnected c.state && c.close_cb then 1 else 0))
      × ((destroy c).fd_closed ≡ true)
      × (is_disconnected c.state ≡ true → destroy c ≡ c)
unfolding destroy new_connection is_disconnected
closes_once cb hs mark high written closed =
    let start = new_connection mark high written closed in
    let c = live_on cb hs start in
    let once = live_on-Once cb hs start (new-Once mark high written closed) in
    (once.0, once.1, shut c once.0, λ e. rw e refl)
  where
    new-Once :
        (mark : ℕ) (high written closed : Bool) → Once (new_connection mark high written closed)
    new-Once mark high written closed = (refl, refl)

    shut : (c : Connection) → c.fd_closed ≡ is_disconnected c.state → (destroy c).fd_closed ≡ true
    shut c e = elim (Bool-cases (is_disconnected c.state)) [
      | inl closed ↦ rw closed (e ∙ closed)
      | inr live ↦ rw live refl
    ]
