-- ===== src/TcpServer/Reachable.antt =====
-- src/server.cpp: what holds of the table whenever the main loop looks at it.
use game_frame.Prelude.{
  ℕ, suc, ◌≡◌, ◌≢◌, ◌⊎◌, inl, inr, refl, sym, ap, ◌∙◌, subst, Bool, not, List, [], ◌∷◌, Option,
  none, some, ◌==◌, if◌then◌else◌, assign, Bool-cases, some-inj, ==_iff, assign_self, assign-ne,
  ne→==, arith,
}
use mathlib.Core.List.Memᴰ
use mathlib.Core.List.{Memᴰ}
use game_frame.EventLoopThreadPool.{EventLoopThreadPool, next_loop}
use game_frame.EventLoopThreadPool.Rotation.{next_loop-main}
use game_frame.TcpServer.{
  Task, perform, Conn, establishes, removes, reports, TcpServer, new_server, main_loop, run_in_loop,
  establish, report, remove_connection_in_loop, remove_found, accept_on, accept_client,
}
use game_frame.TcpServer.Table.{Inv, dequeue-Inv, run_in_loop-Inv, establish-Inv}
use game_frame.TcpServer.Removal.{close_cb-Inv, perform-Inv, idle}
use game_frame.TcpServer.Steps.{
  without, closed-Inv, Step, accepts, closes, runs, Reaches, initially, later,
}

new_server-Inv : (p : EventLoopThreadPool) (cb : Bool) → Inv (new_server p cb)
unfolding new_server
new_server-Inv p cb = record {
  keyed = λ fd c h. cc;
  listed = λ c m. absurd (Memᴰ.not-nil m);
  issued = λ c m. absurd (Memᴰ.not-nil m);
  distinct = λ c d m n. absurd (Memᴰ.not-nil m);
  retired = λ l c m. absurd (Memᴰ.not-nil m);
  handed = λ c m. absurd (Memᴰ.not-nil m);
}

pool-Inv :
    (s : TcpServer) (p : EventLoopThreadPool)
    → p.main_loop ≡ main_loop s
    → Inv s
    → Inv (record s { thread_pool = p })
pool-Inv s p e i = record {
  keyed = λ fd c h.
      subst (λ m. (c.fd ≡ fd) × (Memᴰ c s.live ⊎ Memᴰ (removes c) (s.queues m) ⊎ Memᴰ c [])) (sym e)
        (i.keyed fd c h);
  listed = i.listed;
  issued = i.issued;
  distinct = i.distinct;
  retired = i.retired;
  handed = i.handed;
}

-- The connection object is in the table, and the functor not yet sent.
entered-Inv :
    (s : TcpServer) (fd loop : ℕ)
    → ((d : Conn) → Memᴰ d s.live → d.fd ≢ fd)
    → Inv s
    → let c : Conn = record { id = s.next_id; fd = fd; loop = loop } in
      Inv (record s {
        connections = assign s.connections fd (some c);
        live = c ∷ s.live;
        next_id = suc s.next_id;
      })
entered-Inv s fd loop unused i =
    let c : Conn = record { id = s.next_id; fd = fd; loop = loop } in
    record {
      keyed = λ f e h. elim (Bool-cases (f == fd)) [
        | inl same ↦
            let at : f ≡ fd = (==_iff f fd).0 same in
            let new : c ≡ e =
              some-inj (subst (λ b. (if b then some c else s.connections f) ≡ some e) same h) in
            (ap (λ x. x.fd) (sym new) ∙ sym at, inl (Memᴰ.head (sym new)))
        | inr other ↦
            let k =
              i.keyed f e (subst (λ b. (if b then some c else s.connections f) ≡ some e) other h) in
            (
              k.0,
              elim k.1 [
                | inl live ↦ inl (Memᴰ.tail live)
                | inr (inl queued) ↦ inr (inl queued)
                | inr (inr held) ↦ absurd (Memᴰ.not-nil held)
              ],
            )
      ];
      listed = λ e m. elim (Memᴰ.cases_cons m) [
        | inl new ↦
            subst (λ x. assign s.connections fd (some c) x.fd ≡ some x) (sym new)
              (assign_self s.connections fd (some c))
        | inr old ↦ assign-ne s.connections fd e.fd (some c) (unused e old) ∙ i.listed e old
      ];
      issued = λ e m. elim (Memᴰ.cases_cons m) [
        | inl new ↦ omega (arith, ap (λ x. x.id) new)
        | inr old ↦ omega (arith, i.issued e old)
      ];
      distinct = λ d e m n eq. elim (Memᴰ.cases_cons m) [
        | inl new ↦ elim (Memᴰ.cases_cons n) [
          | inl again ↦ new ∙ sym again
          | inr old ↦ absurd (omega (arith, ap (λ x. x.id) new, i.issued e old, eq))
        ]
        | inr older ↦ elim (Memᴰ.cases_cons n) [
          | inl again ↦ absurd (omega (arith, ap (λ x. x.id) again, i.issued d older, eq))
          | inr old ↦ i.distinct d e older old eq
        ]
      ];
      retired = λ l e m.
          let r = i.retired l e m in
          (
            omega (arith, r.0),
            λ d n. elim (Memᴰ.cases_cons n) [
              | inl new ↦ λ eq. omega (arith, ap (λ x. x.id) new, r.0, eq)
              | inr old ↦ r.1 d old
            ],
          );
      handed = λ e m. absurd (Memᴰ.not-nil m);
    }

accept_on-Inv :
    (o : Option ℕ) (fd : ℕ) (s : TcpServer)
    → ((d : Conn) → Memᴰ d s.live → d.fd ≢ fd)
    → Inv s
    → Inv (accept_on o fd s)
unfolding accept_on
accept_on-Inv none fd s unused i = i
accept_on-Inv (some loop) fd s unused i =
    let c : Conn = record { id = s.next_id; fd = fd; loop = loop } in
    let entered = entered-Inv s fd loop unused i in
    run_in_loop-Inv (main_loop s) loop (establishes c) (establish c)
      (record s {
        connections = assign s.connections fd (some c);
        live = c ∷ s.live;
        next_id = suc s.next_id;
      })
      entered idle (establish-Inv c _ entered)

step-Inv : (s t : TcpServer) → Step s t → Inv s → Inv t
unfolding accept_client
step-Inv s _ (accepts fd unused) i =
    let r = next_loop s.thread_pool in
    accept_on-Inv r.0 fd (record s { thread_pool = r.1 }) unused
      (pool-Inv s r.1 (next_loop-main s.thread_pool) i)
step-Inv s _ (closes c m) i =
    close_cb-Inv c (record s { live = without c.id s.live }) (closed-Inv c s m i)
step-Inv s _ (runs loop t rest first) i =
    perform-Inv t (record s { queues = assign s.queues loop rest })
      (dequeue-Inv s loop t rest first i)

reaches-Inv :
    (p : EventLoopThreadPool) (cb : Bool) (s : TcpServer) → Reaches (new_server p cb) s → Inv s
reaches-Inv p cb s initially = new_server-Inv p cb
reaches-Inv p cb s (later {t = t} r st) = step-Inv t s st (reaches-Inv p cb t r)

-- Whatever clients come, connections close and functors run, in whatever order: every live connection is
-- the entry of its descriptor in `connections_`, and every entry is a live connection, or a closed one
-- whose `remove_connection_in_loop` is in the main loop's queue. No live connection is erased when its
-- descriptor was another's before, and no closed one is left behind.
pub table_of_live :
    (p : EventLoopThreadPool) (cb : Bool) (s : TcpServer)
    → Reaches (new_server p cb) s
    → ((c : Conn) → Memᴰ c s.live → s.connections c.fd ≡ some c)
      × ((fd : ℕ) (c : Conn)
          → s.connections fd ≡ some c
          → (c.fd ≡ fd) × (Memᴰ c s.live ⊎ Memᴰ (removes c) (s.queues (main_loop s))))
table_of_live p cb s r =
    let i = reaches-Inv p cb s r in
    (
      i.listed,
      λ fd c h.
          let k = i.keyed fd c h in
          (
            k.0,
            elim k.1 [
              | inl live ↦ inl live
              | inr (inl queued) ↦ inr queued
              | inr (inr held) ↦ absurd (Memᴰ.not-nil held)
            ],
          ),
    )

remove_found_other :
    (o : Option Conn) (c d : Conn) (s : TcpServer)
    → o ≡ some d
    → d.id ≢ c.id
    → remove_found o c s ≡ s
unfolding remove_found
remove_found_other none c d s e differ = refl
remove_found_other (some x) c d s e differ =
    let erased : TcpServer = record s { connections = assign s.connections c.fd none } in
    ap
      (λ b.
        if not b
        then s
        else if s.has_connection_cb
        then run_in_loop (main_loop s) c.loop (reports c) (report c) erased
        else erased)
      (ne→== x.id c.id (λ eq. differ (sym (ap (λ x. x.id) (some-inj e)) ∙ eq)))

-- When the descriptor of a closed connection has been given to a new one that is still live, a loop that runs
-- the removal of the closed one changes nothing but its queue, in any reachable state: the new one keeps its
-- entry, and this removal neither calls the callback nor queues a call of it.
pub stale_removal :
    (p : EventLoopThreadPool) (cb : Bool) (s : TcpServer) (l : ℕ) (c d : Conn) (rest : List Task)
    → Reaches (new_server p cb) s
    → s.queues l ≡ removes c ∷ rest
    → Memᴰ d s.live
    → d.fd ≡ c.fd
    → let popped = record s { queues = assign s.queues l rest } in
      (perform (removes c) popped ≡ popped) × (s.connections c.fd ≡ some d)
unfolding perform remove_connection_in_loop
stale_removal p cb s l c d rest r q n e =
    let i = reaches-Inv p cb s r in
    let entry = ap s.connections (sym e) ∙ i.listed d n in
    let queued : Memᴰ (removes c) (s.queues l) =
      subst (Memᴰ (removes c)) (sym q) (Memᴰ.head refl) in
    (
      remove_found_other (s.connections c.fd) c d (record s { queues = assign s.queues l rest })
          entry ((i.retired l c queued).1 d n),
      entry,
    )
