-- ===== src/TcpServer/Tests.antt =====
-- src/server.cpp: a descriptor that is used again before the main loop has removed its first connection.
use game_frame.Prelude.{ℕ, ◌+◌, ◌%◌, ◌≡◌, ◌⊎◌, refl, true, some, none, [], ◌∷◌, ◌++◌, arith, assign}
use mathlib.Core.List.Memᴰ
use mathlib.Core.List.{Memᴰ}
use game_frame.EventLoopThreadPool.{new_pool, start_threads, start, next_from, next_loop}
use game_frame.TcpServer.{
  Conn, removes, TcpServer, new_server, main_loop, run_in_loop, close_cb, establish, notify,
  perform, accept_on, accept_client,
}
use game_frame.TcpServer.Steps.{without, on_close, accepts, closes, Reaches, initially, later}
use game_frame.TcpServer.Reachable.{table_of_live, stale_removal}
use game_frame.TcpServer.Shutdown.{destroy_loop, destroy_invalidates}
use game_frame.TcpServer.Balance.{live_on_turn}

abbrev address : ℕ → ℕ
address i = 100 + i

abbrev idle_server : TcpServer
idle_server = new_server (start address (new_pool 9 2)) true

abbrev first_client : Conn
first_client = record { id = 0; fd = 5; loop = 100 }

abbrev second_client : Conn
second_client = record { id = 1; fd = 5; loop = 101 }

abbrev one_client : TcpServer
one_client = accept_client 5 idle_server

abbrev hung_up : TcpServer
hung_up = on_close first_client one_client

abbrev reused : TcpServer
reused = accept_client 5 hung_up

reused-Reaches : Reaches idle_server reused
unfolding accept_client accept_on next_loop next_from start start_threads new_pool new_server
    run_in_loop close_cb without
reused-Reaches =
    later
      (later (later initially (accepts 5 (λ d m. absurd (Memᴰ.not-nil m))))
        (closes first_client (Memᴰ.head refl)))
      (accepts 5 (λ d m. absurd (Memᴰ.not-nil m)))

second-live : Memᴰ second_client reused.live
unfolding accept_client accept_on next_loop next_from start start_threads new_pool new_server
    run_in_loop close_cb without
second-live = Memᴰ.head refl

table_of_live_example :
    ((c : Conn) → Memᴰ c reused.live → reused.connections c.fd ≡ some c)
    × ((fd : ℕ) (c : Conn)
        → reused.connections fd ≡ some c
        → (c.fd ≡ fd) × (Memᴰ c reused.live ⊎ Memᴰ (removes c) (reused.queues (main_loop reused))))
table_of_live_example = table_of_live (start address (new_pool 9 2)) true reused reused-Reaches

stale_removal_example :
    let popped = record reused { queues = assign reused.queues 9 [] } in
    (perform (removes first_client) popped ≡ popped)
    × (reused.connections first_client.fd ≡ some second_client)
unfolding accept_client accept_on next_loop next_from start start_threads new_pool new_server
    run_in_loop close_cb without
stale_removal_example =
    stale_removal (start address (new_pool 9 2)) true reused 9 first_client second_client []
      reused-Reaches refl second-live refl

live_on_turn_example : second_client.loop ≡ address (second_client.id % 2)
live_on_turn_example =
    live_on_turn address 9 2 (omega arith) true reused second_client reused-Reaches second-live

-- A server without I/O threads, with one client.
abbrev alone : TcpServer
alone = new_server (start address (new_pool 9 0)) true

abbrev only_client : Conn
only_client = record { id = 0; fd = 5; loop = 9 }

abbrev attended : TcpServer
attended = accept_client 5 alone

attended-Reaches : Reaches alone attended
unfolding accept_client accept_on next_loop next_from start start_threads new_pool new_server
    run_in_loop
attended-Reaches = later initially (accepts 5 (λ d m. absurd (Memᴰ.not-nil m)))

only_client-live : Memᴰ only_client attended.live
unfolding accept_client accept_on next_loop next_from start start_threads new_pool new_server
    run_in_loop establish notify
only_client-live = Memᴰ.head refl

destroy_invalidates_example : destroy_loop ([] ++ only_client ∷ []) [] attended ≡ none
unfolding accept_client accept_on next_loop next_from start start_threads new_pool new_server
    run_in_loop establish notify
destroy_invalidates_example =
    destroy_invalidates (start address (new_pool 9 0)) true attended [] only_client []
      attended-Reaches tt only_client-live refl
