-- ===== src/Tests/Paths.antt =====
-- A socket for datagrams over paths that is set up, sends, listens and is cleared; the address of a path is its first byte.
use module_oriented_software.Common.{◌≡◌, refl, true, false, some, List, [], ◌∷◌}
use module_oriented_software.TcpServer.{SockAddr, ended}
use module_oriented_software.UdpSocket.{send_ready, sends}
use module_oriented_software.DomainServer.{
  strncpy, c_str, padded, copy_path, write_all, UnixPath, tells_receive, tells_send, closes,
}
use module_oriented_software.DomainUdp.{
  DomainUdp, DatagramSetup, can_be_read, another_event, brings, brings_nothing, datagram_ready,
  datagram_fails, datagram_sendto, datagram_send, datagram_recvfrom, datagram_event,
  datagram_events, datagram_recv, datagram_open, datagram_rounds_so_far, datagram_listen_so_far,
  datagram_stop, datagram_start, datagram_clear, datagram_server_setup,
}
use module_oriented_software.DomainUdp.Network.{udp_run, udp_of}
use module_oriented_software.DomainUdp.Calls.{
  Call, sends_to, listens_so_far, starts_, stops_, clears, sets_up, domain_call, domain_calls,
  udp_calls, domain_calls-udp_of,
}

abbrev a_path : UnixPath
a_path = b'a' ∷ []

abbrev address_of : UnixPath → SockAddr
address_of [] = record { addr = 0; port = 0 }
address_of (c ∷ path) = record { addr = c; port = 0 }

abbrev socket : DomainUdp
socket = record { sock_fd = 0; running = false; listen_enabled = false; joinable = false; log = [] }

abbrev answered : DatagramSetup
answered = record { opened = some 9; options = true; bound = true }

-- The second round fails behind the first datagram, and what lies behind the failure is not read.
abbrev calls : List Call
calls =
    sets_up a_path answered
    ∷ starts_
    ∷ sends_to a_path (5 ∷ []) (send_ready ∷ sends 1 ∷ [])
    ∷ listens_so_far (
        some (
          another_event
          ∷ can_be_read true (datagram_ready ∷ brings (2 ∷ []) 7 (8 ∷ []) ∷ [])
          ∷ can_be_read true (brings_nothing ∷ [])
          ∷ [])
        ∷ some (
            can_be_read true (brings (3 ∷ []) 6 [] ∷ [])
            ∷ can_be_read true (datagram_fails ∷ [])
            ∷ can_be_read true (brings (4 ∷ []) 1 [] ∷ [])
            ∷ [])
        ∷ [])
    ∷ stops_
    ∷ clears true
    ∷ []

run_of_calls :
    domain_calls calls socket
    ≡ ended (record socket {
      sock_fd = 9;
      log =
          closes 9
          ∷ tells_receive (3 ∷ []) (6 ∷ [])
          ∷ tells_receive (2 ∷ []) (7 ∷ 8 ∷ [])
          ∷ tells_send (strncpy 107 a_path) (5 ∷ [])
          ∷ [];
    })
unfolding domain_calls domain_call datagram_sendto datagram_send datagram_recvfrom datagram_event
    datagram_events datagram_recv datagram_rounds_so_far datagram_listen_so_far datagram_stop
    datagram_start datagram_clear datagram_open datagram_server_setup strncpy c_str padded copy_path
    write_all
run_of_calls = refl

domain_calls-udp_of_example :
    udp_run address_of (domain_calls calls socket)
    ≡ udp_calls address_of calls (udp_of address_of socket)
domain_calls-udp_of_example = domain_calls-udp_of address_of calls socket (refl, tt)
