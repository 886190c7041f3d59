-- ===== src/TcpServer/Table.antt =====
-- src/server.cpp: the table holds every live connection, and none but those and the closed ones whose
-- removal is under way.
use game_frame.Prelude.{
  ℕ, ◌<◌, ◌≡◌, ◌≢◌, ◌⊎◌, inl, inr, refl, sym, ap, subst, Bool, true, false, List, [], ◌∷◌, ◌++◌,
  some, ◌==◌, if◌then◌else◌, assign,
}
use mathlib.Core.List.Memᴰ
use mathlib.Core.List.{Memᴰ}
use game_frame.TcpServer.{
  Conn, Task, establishes, removes, reports, TcpServer, main_loop, run_in_loop, notify, establish,
  report,
}
use game_frame.TcpServer.Queues.{
  Memᴰ-enqueue_cases, Memᴰ-enqueue_old, Memᴰ-enqueue_new, Memᴰ-dequeue_old, Memᴰ-dequeue_cases,
}

-- An object made earlier, and no live connection.
abbrev pub Retired : Conn → TcpServer → Type 0
Retired c s = (c.id < s.next_id) × ((d : Conn) → Memᴰ d s.live → d.id ≢ c.id)

-- `hand` are the connections whose removal has been taken from the queue and not been done.
pub record InvWith (hand : List Conn) (s : TcpServer) : Type 0 where
  pub keyed :
      (fd : ℕ) (c : Conn)
      → s.connections fd ≡ some c
      → (c.fd ≡ fd) × (Memᴰ c s.live ⊎ Memᴰ (removes c) (s.queues (main_loop s)) ⊎ Memᴰ c hand)
  pub listed : (c : Conn) → Memᴰ c s.live → s.connections c.fd ≡ some c
  pub issued : (c : Conn) → Memᴰ c s.live → c.id < s.next_id
  pub distinct : (c d : Conn) → Memᴰ c s.live → Memᴰ d s.live → c.id ≡ d.id → c ≡ d
  pub retired : (l : ℕ) (c : Conn) → Memᴰ (removes c) (s.queues l) → Retired c s
  pub handed : (c : Conn) → Memᴰ c hand → Retired c s

abbrev pub Inv : TcpServer → Type 0
Inv s = InvWith [] s

-- What a functor has in hand, and the loop it is for.
abbrev pub hand_of : Task → List Conn
hand_of (establishes c) = []
hand_of (removes c) = c ∷ []
hand_of (reports c) = []

pub enqueue-Inv :
    (s : TcpServer) (l : ℕ) (t : Task)
    → InvWith (hand_of t) s
    → ((c : Conn) → Memᴰ c (hand_of t) → (l ≡ main_loop s) × (t ≡ removes c))
    → Inv (record s { queues = assign s.queues l (s.queues l ++ t ∷ []) })
enqueue-Inv s l t i belongs = record {
  keyed = λ fd c e.
      let k = i.keyed fd c e in
      (
        k.0,
        elim k.1 [
          | inl live ↦ inl live
          | inr (inl queued) ↦
              inr (inl (Memᴰ-enqueue_old s.queues l t (removes c) (main_loop s) queued))
          | inr (inr held) ↦
              let b = belongs c held in
              inr (
                inl (
                  subst (λ j. Memᴰ (removes c) (assign s.queues l (s.queues l ++ t ∷ []) j)) b.0
                    (subst (λ u. Memᴰ u (assign s.queues l (s.queues l ++ t ∷ []) l)) b.1
                      (Memᴰ-enqueue_new s.queues l t))))
        ],
      );
  listed = i.listed;
  issued = i.issued;
  distinct = i.distinct;
  retired = λ j c m. elim (Memᴰ-enqueue_cases s.queues l t (removes c) j m) [
    | inl old ↦ i.retired j c old
    | inr new ↦ i.handed c (subst (λ u. Memᴰ c (hand_of u)) new (Memᴰ.head refl))
  ];
  handed = λ c m. absurd (Memᴰ.not-nil m);
}

pub dequeue-Inv :
    (s : TcpServer) (l : ℕ) (t : Task) (rest : List Task)
    → s.queues l ≡ t ∷ rest
    → Inv s
    → InvWith (hand_of t) (record s { queues = assign s.queues l rest })
dequeue-Inv s l t rest first i = record {
  keyed = λ fd c e.
      let k = i.keyed fd c e in
      (
        k.0,
        elim k.1 [
          | inl live ↦ inl live
          | inr (inl queued) ↦
              elim (Memᴰ-dequeue_cases s.queues l t rest first (removes c) (main_loop s) queued) [
                | inl left ↦ inr (inl left)
                | inr e ↦ inr (inr (subst (λ u. Memᴰ c (hand_of u)) e (Memᴰ.head refl)))
              ]
          | inr (inr held) ↦ absurd (Memᴰ.not-nil held)
        ],
      );
  listed = i.listed;
  issued = i.issued;
  distinct = i.distinct;
  retired = λ j c m. i.retired j c (Memᴰ-dequeue_old s.queues l t rest first (removes c) j m);
  handed = λ c m. in_hand t first c m;
}
  where
    in_hand : (u : Task) → s.queues l ≡ u ∷ rest → (c : Conn) → Memᴰ c (hand_of u) → Retired c s
    in_hand (establishes d) e c m = absurd (Memᴰ.not-nil m)
    in_hand (reports d) e c m = absurd (Memᴰ.not-nil m)
    in_hand (removes d) e c m =
        i.retired l c
          (subst (Memᴰ (removes c)) (sym e) (Memᴰ.head (ap removes (Memᴰ.eq_of_singleton m))))

-- A functor is run at once, or queued for its loop.
pub run_in_loop-Inv :
    (here l : ℕ) (t : Task) (f : TcpServer → TcpServer) (s : TcpServer)
    → InvWith (hand_of t) s
    → ((c : Conn) → Memᴰ c (hand_of t) → (l ≡ main_loop s) × (t ≡ removes c))
    → Inv (f s)
    → Inv (run_in_loop here l t f s)
unfolding run_in_loop
run_in_loop-Inv here l t f s i belongs ran =
    elim (here == l)
      as (λ b.
        Inv (if b then f s else record s { queues = assign s.queues l (s.queues l ++ t ∷ []) })) [
          | true ↦ ran
          | false ↦ enqueue-Inv s l t i belongs
        ]

-- The callback and `start` change nothing that the table depends on.
pub with_log-Inv :
    {hand : List Conn} (s : TcpServer) (ns : List (Conn × Bool)) (bs : List Conn)
    → InvWith hand s
    → InvWith hand (record s { notices = ns; begun = bs })
with_log-Inv s ns bs i = record {
  keyed = i.keyed;
  listed = i.listed;
  issued = i.issued;
  distinct = i.distinct;
  retired = i.retired;
  handed = i.handed;
}

pub establish-Inv : (c : Conn) (s : TcpServer) → Inv s → Inv (establish c s)
unfolding establish notify
establish-Inv c s i =
    elim s.has_connection_cb
      as (λ b.
        let told = if b then record s { notices = s.notices ++ (c, true) ∷ [] } else s in
        Inv (record told { begun = told.begun ++ c ∷ [] })) [
          | true ↦ with_log-Inv s (s.notices ++ (c, true) ∷ []) (s.begun ++ c ∷ []) i
          | false ↦ with_log-Inv s s.notices (s.begun ++ c ∷ []) i
        ]

pub report-Inv : (c : Conn) (s : TcpServer) → Inv s → Inv (report c s)
unfolding report
report-Inv c s i = with_log-Inv s (s.notices ++ (c, false) ∷ []) s.begun i
