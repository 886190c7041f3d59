-- ===== src/TcpClient/Tests.antt =====
-- src/tcp_client.cpp: a client whose server is not there yet.
use game_frame.Prelude.{Bool, true, false, List, [], ◌∷◌}
use game_frame.TcpClient.{Reaction, accepts, connects, disconnects, refused, in_progress, no_socket}
use game_frame.TcpClient.Life.{Event, dials, handshakes, drops, fires}

-- a callback that hangs up when the connection is down
abbrev picky : Bool → Reaction
picky true = accepts
picky false = disconnects

abbrev patient : Bool → Reaction
patient up = connects

-- Refused, refused, in progress, up, down.
abbrev evening : List ((Bool → Reaction) × Event)
evening =
    (patient, dials (refused 5))
    ∷ (patient, fires 500 no_socket)
    ∷ (patient, fires 1000 (in_progress 5))
    ∷ (patient, handshakes true)
    ∷ (picky, drops)
    ∷ []
