-- ===== src/TcpServer/Balance.antt =====
-- src/server.cpp, src/event_loop_thread_pool.cpp: which loop serves which client.
use game_frame.Prelude.{
  ℕ, suc, ◌%◌, ◌<◌, ◌≡◌, inl, inr, refl, sym, ap, ◌∙◌, subst, Bool, true, false, not, [], ◌∷◌, ◌++◌,
  Option, none, some, ◌==◌, if◌then◌else◌, assign, some-inj,
}
use mathlib.Core.List.Memᴰ
use mathlib.Core.List.{Memᴰ}
use game_frame.EventLoopThreadPool.{EventLoopThreadPool, new_pool, start, next_loop}
use game_frame.EventLoopThreadPool.Rotation.{after, after-zero, next_loop-after, round_robin}
use game_frame.TcpServer.{
  Conn, Task, establishes, removes, reports, TcpServer, new_server, main_loop, run_in_loop, notify,
  establish, report, remove_connection_in_loop, remove_found, close_cb, perform, accept_on,
  accept_client,
}
use game_frame.TcpServer.Steps.{
  without, Memᴰ-without, Step, accepts, closes, runs, Reaches, initially, later,
}

-- The pool, the live connections and the number of objects made are as they were.
record Same (s t : TcpServer) : Type 0 where
  pool : t.thread_pool ≡ s.thread_pool
  live : t.live ≡ s.live
  next_id : t.next_id ≡ s.next_id

same : {s : TcpServer} → Same s s
same = record { pool = refl; live = refl; next_id = refl }

run_in_loop-Same :
    (here l : ℕ) (t : Task) (f : TcpServer → TcpServer) (s : TcpServer)
    → Same s (f s)
    → Same s (run_in_loop here l t f s)
unfolding run_in_loop
run_in_loop-Same here l t f s h =
    elim (here == l)
      as (λ b.
        Same s
          (if b then f s else record s { queues = assign s.queues l (s.queues l ++ t ∷ []) })) [
            | true ↦ h
            | false ↦ record { pool = refl; live = refl; next_id = refl }
          ]

establish-Same : (c : Conn) (s : TcpServer) → Same s (establish c s)
unfolding establish notify
establish-Same c s =
    elim s.has_connection_cb
      as (λ b.
        let told = if b then record s { notices = s.notices ++ (c, true) ∷ [] } else s in
        Same s (record told { begun = told.begun ++ c ∷ [] })) [
          | true ↦ record { pool = refl; live = refl; next_id = refl }
          | false ↦ record { pool = refl; live = refl; next_id = refl }
        ]

report-Same : (c : Conn) (s : TcpServer) → Same s (report c s)
unfolding report
report-Same c s = record { pool = refl; live = refl; next_id = refl }

remove_found-Same : (o : Option Conn) (c : Conn) (s : TcpServer) → Same s (remove_found o c s)
unfolding remove_found
remove_found-Same none c s = same
remove_found-Same (some d) c s =
    let erased : TcpServer = record s { connections = assign s.connections c.fd none } in
    let run : TcpServer = run_in_loop (main_loop s) c.loop (reports c) (report c) erased in
    let ran =
      run_in_loop-Same (main_loop s) c.loop (reports c) (report c) erased (report-Same c erased) in
    elim (d.id == c.id)
      as (λ b. Same s (if not b then s else if s.has_connection_cb then run else erased)) [
        | true ↦ elim s.has_connection_cb as (λ b. Same s (if b then run else erased)) [
          | true ↦ record { pool = ran.pool; live = ran.live; next_id = ran.next_id }
          | false ↦ record { pool = refl; live = refl; next_id = refl }
        ]
        | false ↦ same
      ]

remove-Same : (c : Conn) (s : TcpServer) → Same s (remove_connection_in_loop c s)
unfolding remove_connection_in_loop
remove-Same c s = remove_found-Same (s.connections c.fd) c s

perform-Same : (t : Task) (s : TcpServer) → Same s (perform t s)
unfolding perform
perform-Same (establishes c) s = establish-Same c s
perform-Same (removes c) s = remove-Same c s
perform-Same (reports c) s = report-Same c s

close_cb-Same : (c : Conn) (s : TcpServer) → Same s (close_cb c s)
unfolding close_cb
close_cb-Same c s =
    run_in_loop-Same c.loop (main_loop s) (removes c) (remove_connection_in_loop c) s
      (remove-Same c s)

module _ (start_loop : ℕ → ℕ) (main n : ℕ) (pos : 0 < n) where
  -- As many connections as calls of `next_loop`, each with the answer of its call.
  record Balanced (s : TcpServer) : Type 0 where
    turn : s.thread_pool ≡ after s.next_id (start start_loop (new_pool main n))
    spread : (c : Conn) → Memᴰ c s.live → c.loop ≡ start_loop (c.id % n)

  Same-Balanced : (s t : TcpServer) → Same s t → Balanced s → Balanced t
  Same-Balanced s t e b = record {
    turn = e.pool ∙ b.turn ∙ ap (λ k. after k (start start_loop (new_pool main n))) (sym e.next_id);
    spread = λ c m. b.spread c (subst (Memᴰ c) e.live m);
  }

  accept_on-Balanced :
      (o : Option ℕ) (fd : ℕ) (s : TcpServer) (p : EventLoopThreadPool)
      → o ≡ some (start_loop (s.next_id % n))
      → p ≡ after (suc s.next_id) (start start_loop (new_pool main n))
      → ((c : Conn) → Memᴰ c s.live → c.loop ≡ start_loop (c.id % n))
      → Balanced (accept_on o fd (record s { thread_pool = p }))
  unfolding accept_on
  accept_on-Balanced none fd s p e turn spread = cc
  accept_on-Balanced (some loop) fd s p e turn spread =
      let c : Conn = record { id = s.next_id; fd = fd; loop = loop } in
      let entered : TcpServer = record s {
        thread_pool = p;
        connections = assign s.connections fd (some c);
        live = c ∷ s.live;
        next_id = suc s.next_id;
      } in
      Same-Balanced entered _
        (run_in_loop-Same (main_loop entered) loop (establishes c) (establish c) entered
          (establish-Same c entered))
        (record {
          turn = turn;
          spread = λ d m. elim (Memᴰ.cases_cons m) [
            | inl new ↦ subst (λ x. x.loop ≡ start_loop (x.id % n)) (sym new) (some-inj e)
            | inr old ↦ spread d old
          ];
        })

  step-Balanced : (s t : TcpServer) → Step s t → Balanced s → Balanced t
  unfolding accept_client
  step-Balanced s _ (accepts fd unused) b =
      let r = next_loop s.thread_pool in
      accept_on-Balanced r.0 fd s r.1
        (ap (λ p. (next_loop p).0) b.turn ∙ round_robin start_loop main n s.next_id pos)
        (ap (λ p. (next_loop p).1) b.turn
          ∙ next_loop-after s.next_id (start start_loop (new_pool main n)))
        b.spread
  step-Balanced s _ (closes c m) b =
      let closed : TcpServer = record s { live = without c.id s.live } in
      Same-Balanced closed _ (close_cb-Same c closed)
        (record { turn = b.turn; spread = λ d l. b.spread d (Memᴰ-without c.id s.live d l).0 })
  step-Balanced s _ (runs loop t rest first) b =
      let taken : TcpServer = record s { queues = assign s.queues loop rest } in
      Same-Balanced taken _ (perform-Same t taken) (record { turn = b.turn; spread = b.spread })

  new_server-Balanced : (cb : Bool) → Balanced (new_server (start start_loop (new_pool main n)) cb)
  unfolding new_server
  new_server-Balanced cb = record {
    turn = sym (after-zero _);
    spread = λ c m. absurd (Memᴰ.not-nil m);
  }

  -- In a server whose pool has started `n` I/O threads, the connection made `k`-th, counted from 0, is
  -- served by the loop of thread `k mod n` as long as it lives, whatever closes or runs in between.
  pub live_on_turn :
      (cb : Bool) (s : TcpServer) (c : Conn)
      → Reaches (new_server (start start_loop (new_pool main n)) cb) s
      → Memᴰ c s.live
      → c.loop ≡ start_loop (c.id % n)
  live_on_turn cb s c r m = (balanced s r).spread c m
    where
      balanced :
          (t : TcpServer)
          → Reaches (new_server (start start_loop (new_pool main n)) cb) t
          → Balanced t
      balanced t initially = new_server-Balanced cb
      balanced t (later {t = u} r st) = step-Balanced u t st (balanced u r)
