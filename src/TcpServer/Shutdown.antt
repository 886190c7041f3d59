-- ===== src/TcpServer/Shutdown.antt =====
-- src/server.cpp: the loop of the destructor over the table of connections.
use game_frame.Prelude.{
  ℕ, ◌≡◌, ◌≢◌, refl, sym, ap, ◌∙◌, subst, Bool, true, false, not, List, [], ◌∷◌, ◌++◌, Option, none,
  some, All, inl, inr, either, ==_refl, ne→==, ◌==◌, if◌then◌else◌, assign, assign_self,
  append_assoc, append-nil,
}
use mathlib.Core.List.Memᴰ
use mathlib.Core.List.{Memᴰ}
use game_frame.EventLoopThreadPool.{EventLoopThreadPool}
use game_frame.TcpServer.{
  Conn, removes, reports, TcpServer, new_server, main_loop, run_in_loop, report, remove_found,
  remove_connection_in_loop, close_cb,
}
use game_frame.TcpServer.Steps.{without, on_close, Reaches}
use game_frame.TcpServer.Reachable.{table_of_live}

pub is_live : ℕ → List Conn → Bool
is_live id [] = false
is_live id (c ∷ cs) = let rest = is_live id cs in if c.id == id then true else rest

-- `Connection::close`, which does nothing in the state kDisconnected
pub close_held : Conn → TcpServer → TcpServer
close_held c s = if is_live c.id s.live then on_close c s else s

-- whether an entry is still this connection's
pub is_held : Conn → Option Conn → Bool
is_held c none = false
is_held c (some d) = d.id == c.id

-- The loop, with the entries that are left in the order of the table. A connection of another loop is closed by a
-- functor, which is put down in `posted`. `none` is the use of an iterator whose entry has been erased.
pub destroy_loop : List Conn → List Conn → TcpServer → Option (List Conn × TcpServer)
destroy_loop [] posted s = some (posted, s)
destroy_loop (c ∷ cs) posted s =
    let closed = close_held c s in
    let here = destroy_loop cs posted closed in
    let elsewhere = destroy_loop cs (posted ++ c ∷ []) s in
    if main_loop s == c.loop
    then (if is_held c (closed.connections c.fd) then here else none)
    else elsewhere

Memᴰ-is_live : (c : Conn) (cs : List Conn) → Memᴰ c cs → is_live c.id cs ≡ true
unfolding is_live
Memᴰ-is_live c [] m = absurd (Memᴰ.not-nil m)
Memᴰ-is_live c (d ∷ cs) m = elim (Memᴰ.cases_cons m) [
  | inl e ↦
      ap (λ b. if b then true else is_live c.id cs)
        (subst (λ i. (d.id == i) ≡ true) (sym (ap (λ (x : Conn). x.id) e)) (==_refl d.id))
  | inr left ↦ either (λ b. b ≡ true) (d.id == c.id) refl (Memᴰ-is_live c cs left)
]

-- What `remove_connection_in_loop` does to the table when the entry is this connection's.
remove_found-erases :
    (c : Conn) (s : TcpServer) → (remove_found (some c) c s).connections c.fd ≡ none
unfolding remove_found run_in_loop report
remove_found-erases c s =
    let erased = record s { connections = assign s.connections c.fd none } in
    let gone = assign_self s.connections c.fd none in
    let P = λ (t : TcpServer). t.connections c.fd ≡ none in
    ap
      (λ b.
        (if not b
            then s
            else if s.has_connection_cb
            then run_in_loop (main_loop s) c.loop (reports c) (report c) erased
            else erased).connections
          c.fd)
      (==_refl c.id)
    ∙ either P s.has_connection_cb (either P (main_loop s == c.loop) gone gone) gone

-- Closing a connection that the main loop serves erases its entry on the spot.
close-erases :
    (c : Conn) (s : TcpServer)
    → main_loop s ≡ c.loop
    → s.connections c.fd ≡ some c
    → (on_close c s).connections c.fd ≡ none
unfolding close_cb run_in_loop remove_connection_in_loop
close-erases c s here entry =
    let t = record s { live = without c.id s.live } in
    ap
      (λ b.
        (if b then remove_found (s.connections c.fd) c t else record t {
          queues = assign t.queues (main_loop s) (t.queues (main_loop s) ++ removes c ∷ []);
        }).connections
          c.fd)
      (subst (λ l. (l == main_loop s) ≡ true) here (==_refl (main_loop s)))
    ∙ ap (λ o. (remove_found o c t).connections c.fd) entry
    ∙ remove_found-erases c t

-- The connections of other loops in front are passed by.
passes_others :
    (others cs posted : List Conn) (s : TcpServer)
    → All (λ (d : Conn). main_loop s ≢ d.loop) others
    → destroy_loop (others ++ cs) posted s ≡ destroy_loop cs (posted ++ others) s
unfolding destroy_loop
passes_others [] cs posted s h = ap (λ ps. destroy_loop cs ps s) (sym (append-nil posted))
passes_others (d ∷ others) cs posted s h =
    let closed = close_held d s in
    ap
      (λ b.
        if b
        then (if is_held d (closed.connections d.fd)
            then destroy_loop (others ++ cs) posted closed
            else none)
        else destroy_loop (others ++ cs) (posted ++ d ∷ []) s)
      (ne→== (main_loop s) d.loop h.0)
    ∙ passes_others others cs (posted ++ d ∷ []) s h.1
    ∙ ap (λ ps. destroy_loop cs ps s) (append_assoc posted (d ∷ []) others)

-- When the server is destroyed in a state that it reaches, the first live connection that its main loop serves
-- is closed at once, its entry is erased under the loop over the table, and the loop then goes on from the
-- iterator of that entry, which is not valid any more; connections of other loops in front of it make no
-- difference.
pub destroy_invalidates :
    (pool : EventLoopThreadPool) (cb : Bool) (s : TcpServer) (others : List Conn) (c : Conn)
    (cs : List Conn)
    → Reaches (new_server pool cb) s
    → All (λ (d : Conn). main_loop s ≢ d.loop) others
    → Memᴰ c s.live
    → main_loop s ≡ c.loop
    → destroy_loop (others ++ c ∷ cs) [] s ≡ none
unfolding destroy_loop close_held is_held
destroy_invalidates pool cb s others c cs reached away live here =
    let entry = (table_of_live pool cb s reached).0 c live in
    let closed = close_held c s in
    let erased : (close_held c s).connections c.fd ≡ none =
      ap (λ b. (if b then on_close c s else s).connections c.fd) (Memᴰ-is_live c s.live live)
      ∙ close-erases c s here entry in
    passes_others others (c ∷ cs) [] s away
    ∙ ap
        (λ b.
          if b
          then (if is_held c (closed.connections c.fd)
              then destroy_loop cs ([] ++ others) closed
              else none)
          else destroy_loop cs (([] ++ others) ++ c ∷ []) s)
        (subst (λ l. (main_loop s == l) ≡ true) here (==_refl (main_loop s)))
    ∙ ap (λ o. if is_held c o then destroy_loop cs ([] ++ others) closed else none) erased
