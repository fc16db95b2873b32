-- ===== src/Tests/Datagrams.antt =====
-- A socket for datagrams that listens for two rounds, and one that cannot be bound.
use module_oriented_software.Common.{◌≡◌, true, false, [], ◌∷◌}
use module_oriented_software.TcpServer.{SockAddr, on_receive, ended}
use module_oriented_software.UdpSocket.{UdpSocket, listen_}
use module_oriented_software.UdpSocket.Listening.{
  Arrival, datagram, empty, fails, unrelated, rounds_of, listen_-told,
}
use module_oriented_software.Common.{List, ℕ}

abbrev from : ℕ → SockAddr
from n = record { addr = n; port = 4003 }

abbrev socket : UdpSocket
socket = record { sock_fd = 4; running = false; listen_enabled = false; joinable = true; log = [] }

-- In the first round the third reading fails, and what lies behind it is not read.
abbrev two_rounds : List (List Arrival)
two_rounds =
    ((0, datagram (from 1) 7 (8 ∷ [])) ∷ (2, empty) ∷ (0, fails) ∷ (0, datagram (from 2) 1 []) ∷ [])
    ∷ ((0, unrelated) ∷ (1, datagram (from 3) 9 []) ∷ [])
    ∷ []

listen_-told_example :
    listen_ (rounds_of two_rounds) socket
    ≡ ended (record socket {
      log = on_receive (from 3) (9 ∷ []) ∷ on_receive (from 1) (7 ∷ 8 ∷ []) ∷ [];
    })
listen_-told_example = listen_-told two_rounds socket
