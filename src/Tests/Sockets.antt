-- ===== src/Tests/Sockets.antt =====
-- A small server and a small client. Addresses and descriptors are small numbers.
use module_oriented_software.Common.{
  ℕ, ◌≡◌, refl, ◌==◌, true, some, none, List, [], ◌∷◌, arith, if◌then◌else◌,
}
use module_oriented_software.Common.OrderedMap.{lookup, insert}
use module_oriented_software.TcpServer.{
  SockAddr, listening, connecting, disconnected, code, negative, TcpServer, on_connect,
  on_disconnect, on_disconnect_internal, close, ended, send_lost, accepts, accept_ready,
  receives_nothing, send_, lose,
}
use module_oriented_software.TcpServer.Lifecycle.{
  peer_ready, data_ready, handle_ready, stop, clear_,
}
use module_oriented_software.TcpServer.Steps as server_steps
use module_oriented_software.TcpServer.Steps.{IsBalanced, handles, sent, begins, starts}
use module_oriented_software.TcpServer.Peers.{Reach-IsBalanced}
use module_oriented_software.TcpServer.Sending.{after_waiting, error, send_-lost}
use module_oriented_software.TcpServer.Stopping.{clear_-stop}
use module_oriented_software.TcpClient
use module_oriented_software.TcpClient.{TcpClient, not_mine, no_error, connect_, recv_}
use module_oriented_software.TcpClient.Told as client_steps
use module_oriented_software.TcpClient.Told.{IsTold, Reach-IsTold}
use module_oriented_software.TcpClient.Receiving.{Chunk, events_of, received, receives_all}

abbrev at : ℕ → SockAddr
at n = record { addr = n; port = 80 }

-- A server with two peers, whose thread listens.
abbrev server : TcpServer
server = record {
  sock_fd = 3;
  peers = (5, at 1) ∷ (6, at 2) ∷ [];
  state = listening;
  listen_enabled = true;
  joinable = true;
  log = on_connect (at 2) ∷ on_connect (at 1) ∷ [];
}

abbrev with_third : TcpServer
with_third = record server {
  peers = (5, at 1) ∷ (6, at 2) ∷ (7, at 3) ∷ [];
  state = connecting;
  log = on_connect (at 3) ∷ server.log;
}

abbrev without_first : TcpServer
without_first = record with_third {
  peers = (6, at 2) ∷ (7, at 3) ∷ [];
  log = on_disconnect_internal 5 ∷ close 5 ∷ on_disconnect (at 1) ∷ with_third.log;
}

-- A third peer is accepted, and the first closes its connection.
Reach-IsBalanced_example : IsBalanced without_first
unfolding handle_ready insert lookup lose
Reach-IsBalanced_example =
    Reach-IsBalanced (record { ordered = ground arith; balance = refl })
      (server_steps.next
        (server_steps.next server_steps.here (
          handles (peer_ready (accept_ready ∷ accepts 7 (at 3) ∷ [])) server with_third (code 7)
            refl refl))
        (handles (data_ready 5 true (receives_nothing ∷ [])) with_third without_first (code 0) tt
          refl))

send_-lost_example :
    (t : TcpServer) × (send_ 5 (at 1) (104 ∷ []) (after_waiting 2 (send_lost ∷ [])) server
      ≡ ended (t, negative))
    × (t.log ≡ on_disconnect_internal 5 ∷ close 5 ∷ on_disconnect (at 1) ∷ server.log)
    × ((k : ℕ) → lookup k t.peers ≡ (if 5 == k then none else lookup k server.peers))
unfolding lookup
send_-lost_example = send_-lost 2 5 (at 1) (at 1) (104 ∷ []) [] server error (omega arith) refl

clear_-stop_example :
    ((clear_ (stop server).0).peers ≡ server.peers) × ((clear_ (stop server).0).log ≡ server.log)
clear_-stop_example = clear_-stop server

abbrev idle : TcpClient
idle = record { sock_fd = 4; peer = at 0; state = disconnected; log = [] }

abbrev told : TcpClient
told = (TcpClient.setup (some (at 1)) (some 4) true true true (not_mine ∷ no_error ∷ []) idle).0

Reach-IsTold_example : IsTold (TcpClient.clear_ told)
unfolding TcpClient.is_connected
Reach-IsTold_example =
    Reach-IsTold (record { told = omega arith })
      (client_steps.next
        (client_steps.next client_steps.here (
          client_steps.connects_ (some (at 1)) (some 4) true true true (not_mine ∷ no_error ∷ [])
            idle refl tt))
        (client_steps.disconnects_ told))

abbrev chunks : List Chunk
chunks = (1, 104 ∷ 105 ∷ []) ∷ (0, []) ∷ (2, 106 ∷ []) ∷ []

receives_all_example :
    recv_ (some (events_of chunks)) idle
    ≡ ended (record idle { log = received (at 0) chunks [] }, code 3)
receives_all_example = receives_all chunks idle
