-- ===== src/TcpServer/Removal.antt =====
-- src/server.cpp: what `remove_connection_in_loop`, `close_cb_` and an accepted client do to the table.
use game_frame.Prelude.{
  ℕ, ◌≡◌, ◌≢◌, inl, inr, refl, sym, ap, ◌∙◌, subst, true, false, not, [], ◌∷◌, Option, none, some,
  ◌==◌, if◌then◌else◌, assign, Bool-cases, some-inj, ==_iff, assign-ne, arith,
}
use mathlib.Core.List.Memᴰ
use mathlib.Core.List.{Memᴰ}
use game_frame.TcpServer.{
  Conn, Task, establishes, removes, reports, TcpServer, main_loop, run_in_loop, report,
  remove_found, remove_connection_in_loop, close_cb, perform,
}
use game_frame.TcpServer.Table.{InvWith, Inv, hand_of, run_in_loop-Inv, establish-Inv, report-Inv}

none≢some : {A : Type 0} {a : A} → (let o : Option A = none in o) ≢ some a
none≢some e = cc

-- Nothing in hand, nothing to send to the main loop.
pub idle : {l m : ℕ} {t : Task} (c : Conn) → Memᴰ c [] → (l ≡ m) × (t ≡ removes c)
idle c m = absurd (Memᴰ.not-nil m)

-- The entry of the connection in hand is gone already.
unlisted-Inv : (c : Conn) (s : TcpServer) → InvWith (c ∷ []) s → s.connections c.fd ≢ some c → Inv s
unlisted-Inv c s i gone = record {
  keyed = λ fd e h.
      let k = i.keyed fd e h in
      (
        k.0,
        elim k.1 [
          | inl live ↦ inl live
          | inr (inl queued) ↦ inr (inl queued)
          | inr (inr held) ↦
              let same : e ≡ c = Memᴰ.eq_of_singleton held in
              absurd (
                gone (
                  subst (λ d. s.connections d.fd ≡ some d) same
                    (subst (λ f. s.connections f ≡ some e) (sym k.0) h)))
        ],
      );
  listed = i.listed;
  issued = i.issued;
  distinct = i.distinct;
  retired = i.retired;
  handed = λ d m. absurd (Memᴰ.not-nil m);
}

-- What an erased entry leaves.
erased_entry :
    (s : TcpServer) (at fd : ℕ) (e : Conn)
    → assign s.connections at none fd ≡ some e
    → (fd ≢ at) × (s.connections fd ≡ some e)
erased_entry s at fd e h = elim (Bool-cases (fd == at)) [
  | inl same ↦
      absurd (none≢some (subst (λ b. (if b then none else s.connections fd) ≡ some e) same h))
  | inr other ↦ (
    λ eq. absurd (ground (arith, eq, other)),
    subst (λ b. (if b then none else s.connections fd) ≡ some e) other h,
  )
]

erased-Inv :
    (c d : Conn) (s : TcpServer)
    → InvWith (c ∷ []) s
    → s.connections c.fd ≡ some d
    → d.id ≡ c.id
    → Inv (record s { connections = assign s.connections c.fd none })
erased-Inv c d s i here same = record {
  keyed = λ fd e h.
      let left = erased_entry s c.fd fd e h in
      let k = i.keyed fd e left.1 in
      (
        k.0,
        elim k.1 [
          | inl live ↦ inl live
          | inr (inl queued) ↦ inr (inl queued)
          | inr (inr held) ↦ absurd (left.0 (sym k.0 ∙ ap (λ x. x.fd) (Memᴰ.eq_of_singleton held)))
        ],
      );
  listed = λ e m.
      assign-ne s.connections c.fd e.fd none (λ eq.
        let twin : e ≡ d = some-inj (sym (i.listed e m) ∙ ap s.connections eq ∙ here) in
        (i.handed c (Memᴰ.head refl)).1 e m (ap (λ x. x.id) twin ∙ same))
      ∙ i.listed e m;
  issued = i.issued;
  distinct = i.distinct;
  retired = i.retired;
  handed = λ e m. absurd (Memᴰ.not-nil m);
}

remove_found-Inv :
    (o : Option Conn) (c : Conn) (s : TcpServer)
    → s.connections c.fd ≡ o
    → InvWith (c ∷ []) s
    → Inv (remove_found o c s)
unfolding remove_found
remove_found-Inv none c s here i = unlisted-Inv c s i (λ h. none≢some (sym here ∙ h))
remove_found-Inv (some d) c s here i =
    let erased : TcpServer = record s { connections = assign s.connections c.fd none } in
    elim (Bool-cases (d.id == c.id)) [
      | inl same ↦
          let j : Inv erased = erased-Inv c d s i here ((==_iff d.id c.id).0 same) in
          subst
            (λ b. Inv (
              if not b
              then s
              else if s.has_connection_cb
              then run_in_loop (main_loop s) c.loop (reports c) (report c) erased
              else erased))
            (sym same)
            (elim s.has_connection_cb
              as (λ b. Inv (
                if b
                then run_in_loop (main_loop s) c.loop (reports c) (report c) erased
                else erased)) [
                  | true ↦
                      run_in_loop-Inv (main_loop s) c.loop (reports c) (report c) erased j idle
                        (report-Inv c erased j)
                  | false ↦ j
                ])
      | inr other ↦
          subst
            (λ b. Inv (
              if not b
              then s
              else if s.has_connection_cb
              then run_in_loop (main_loop s) c.loop (reports c) (report c) erased
              else erased))
            (sym other)
            (unlisted-Inv c s i (λ h.
              let twin : d ≡ c = some-inj (sym here ∙ h) in
              absurd (ground (arith, other, ap (λ x. x.id) twin))))
    ]

pub remove_connection_in_loop-Inv :
    (c : Conn) (s : TcpServer) → InvWith (c ∷ []) s → Inv (remove_connection_in_loop c s)
unfolding remove_connection_in_loop
remove_connection_in_loop-Inv c s i = remove_found-Inv (s.connections c.fd) c s refl i

pub close_cb-Inv : (c : Conn) (s : TcpServer) → InvWith (c ∷ []) s → Inv (close_cb c s)
unfolding close_cb
close_cb-Inv c s i =
    run_in_loop-Inv c.loop (main_loop s) (removes c) (remove_connection_in_loop c) s i
      (λ d m. (refl, ap removes (sym (Memᴰ.eq_of_singleton m))))
      (remove_connection_in_loop-Inv c s i)

pub perform-Inv : (t : Task) (s : TcpServer) → InvWith (hand_of t) s → Inv (perform t s)
unfolding perform
perform-Inv (establishes c) s i = establish-Inv c s i
perform-Inv (removes c) s i = remove_connection_in_loop-Inv c s i
perform-Inv (reports c) s i = report-Inv c s i
