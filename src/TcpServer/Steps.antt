-- ===== src/TcpServer/Steps.antt =====
-- src/server.cpp: clients that are accepted, connections that close and loops that run their functors, in
-- any order.
use game_frame.Prelude.{
  ℕ, ◌<◌, ◌≡◌, ◌≢◌, inl, inr, sym, ap, ◌∙◌, subst, true, false, List, [], ◌∷◌, ◌==◌, if◌then◌else◌,
  assign, Bool-cases, ==_iff, arith,
}
use mathlib.Core.List.Memᴰ
use mathlib.Core.List.{Memᴰ}
use game_frame.TcpServer.{
  Conn, Task, TcpServer, close_cb, perform, accept_client, Answer, client, again, interrupted,
  failed, handle_accept,
}
use game_frame.TcpServer.Table.{InvWith, Inv}

-- The connections but those of this address.
unfoldable pub without : ℕ → List Conn → List Conn
without id [] = []
without id (c ∷ cs) = let rest = without id cs in if c.id == id then rest else c ∷ rest

pub Memᴰ-without :
    (id : ℕ) (cs : List Conn) (c : Conn) → Memᴰ c (without id cs) → Memᴰ c cs × (c.id ≢ id)
unfolding without
Memᴰ-without id [] c m = absurd (Memᴰ.not-nil m)
Memᴰ-without id (d ∷ cs) c m =
    let below : Memᴰ c (without id cs) → Memᴰ c (d ∷ cs) × (c.id ≢ id) =
      λ h. let r = Memᴰ-without id cs c h in (Memᴰ.tail r.0, r.1) in
    elim (Bool-cases (d.id == id)) [
      | inl hit ↦ below (subst (λ b. Memᴰ c (if b then without id cs else d ∷ without id cs)) hit m)
      | inr miss ↦
          elim (Memᴰ.cases_cons
            (subst (λ b. Memᴰ c (if b then without id cs else d ∷ without id cs)) miss m)) [
              | inl e ↦ (Memᴰ.head e, λ h. ground (arith, miss, ap (λ x. x.id) e))
              | inr left ↦ below left
            ]
    ]

without-Memᴰ : (id : ℕ) (cs : List Conn) (c : Conn) → Memᴰ c cs → c.id ≢ id → Memᴰ c (without id cs)
unfolding without
without-Memᴰ id [] c m h = absurd (Memᴰ.not-nil m)
without-Memᴰ id (d ∷ cs) c m h = elim (Bool-cases (d.id == id)) [
  | inl hit ↦
      subst (λ b. Memᴰ c (if b then without id cs else d ∷ without id cs)) (sym hit)
        (elim (Memᴰ.cases_cons m) [
          | inl e ↦ absurd (h (ap (λ x. x.id) e ∙ (==_iff d.id id).0 hit))
          | inr left ↦ without-Memᴰ id cs c left h
        ])
  | inr miss ↦
      subst (λ b. Memᴰ c (if b then without id cs else d ∷ without id cs)) (sym miss)
        (elim (Memᴰ.cases_cons m) [
          | inl e ↦ Memᴰ.head e
          | inr left ↦ Memᴰ.tail (without-Memᴰ id cs c left h)
        ])
]

-- The descriptor of a live connection is closed, and `close_cb_` called, in one step: nothing is said of what the
-- main loop does between the two.
abbrev pub on_close : Conn → TcpServer → TcpServer
on_close c s = close_cb c (record s { live = without c.id s.live })

pub closed-Inv :
    (c : Conn) (s : TcpServer)
    → Memᴰ c s.live
    → Inv s
    → InvWith (c ∷ []) (record s { live = without c.id s.live })
closed-Inv c s here i = record {
  keyed = λ fd e h.
      let k = i.keyed fd e h in
      (
        k.0,
        elim k.1 [
          | inl live ↦ elim (Bool-cases (e.id == c.id)) [
            | inl same ↦
                inr (inr (Memᴰ.head (i.distinct e c live here ((==_iff e.id c.id).0 same))))
            | inr other ↦ inl (without-Memᴰ c.id s.live e live (λ eq. ground (arith, eq, other)))
          ]
          | inr (inl queued) ↦ inr (inl queued)
          | inr (inr held) ↦ absurd (Memᴰ.not-nil held)
        ],
      );
  listed = λ e m. i.listed e (Memᴰ-without c.id s.live e m).0;
  issued = λ e m. i.issued e (Memᴰ-without c.id s.live e m).0;
  distinct =
      λ d e m n. i.distinct d e (Memᴰ-without c.id s.live d m).0 (Memᴰ-without c.id s.live e n).0;
  retired =
      λ l e m. let r = i.retired l e m in (r.0, λ d n. r.1 d (Memᴰ-without c.id s.live d n).0);
  handed = λ e m.
      let same : e ≡ c = Memᴰ.eq_of_singleton m in
      (
        subst (λ x. x.id < s.next_id) (sym same) (i.issued c here),
        λ d n. subst (λ x. d.id ≢ x.id) (sym same) (Memᴰ-without c.id s.live d n).1,
      );
}

-- The kernel gives `accept` no descriptor that is open. Any live connection may close, and a loop runs the
-- first functor of its queue.
pub data Step (s : TcpServer) : TcpServer → Type 0 where
  accepts : (fd : ℕ) → ((d : Conn) → Memᴰ d s.live → d.fd ≢ fd) → Step s (accept_client fd s)
  closes : (c : Conn) → Memᴰ c s.live → Step s (on_close c s)
  runs :
      (loop : ℕ) (t : Task) (rest : List Task)
      → s.queues loop ≡ t ∷ rest
      → Step s (perform t (record s { queues = assign s.queues loop rest }))

pub data Reaches (s : TcpServer) : TcpServer → Type 0 where
  initially : Reaches s s
  later : {t u : TcpServer} → Reaches s t → Step t u → Reaches s u

-- The kernel's answers from this state on: no client's descriptor is open in the process.
abbrev pub Offers : List Answer → TcpServer → Type 0
Offers [] s = Unit
Offers (client fd true ∷ rest) s =
    ((d : Conn) → Memᴰ d s.live → d.fd ≢ fd) × Offers rest (accept_client fd s)
Offers (client fd false ∷ rest) s = Offers rest s
Offers (again ∷ rest) s = Unit
Offers (interrupted ∷ rest) s = Offers rest s
Offers (failed ∷ rest) s = Unit

-- A call of `handle_accept` takes the server from a state that it reaches to one that it reaches, whatever
-- `accept` and `fcntl` answer, errors included.
pub handle_accept-Reaches :
    (answers : List Answer) (s t : TcpServer)
    → Offers answers t
    → Reaches s t
    → Reaches s (handle_accept answers t)
unfolding handle_accept
handle_accept-Reaches [] s t o r = r
handle_accept-Reaches (client fd true ∷ rest) s t o r =
    handle_accept-Reaches rest s (accept_client fd t) o.1 (later r (accepts fd o.0))
handle_accept-Reaches (client fd false ∷ rest) s t o r = handle_accept-Reaches rest s t o r
handle_accept-Reaches (again ∷ rest) s t o r = r
handle_accept-Reaches (interrupted ∷ rest) s t o r = handle_accept-Reaches rest s t o r
handle_accept-Reaches (failed ∷ rest) s t o r = r
