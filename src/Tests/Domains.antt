-- ===== src/Tests/Domains.antt =====
-- A server and a client for paths of one byte; the address of a path is its first byte.
use module_oriented_software.Common.{◌≡◌, refl, true, false, [], ◌∷◌}
use module_oriented_software.Common.OrderedMap.{lookup, insert}
use module_oriented_software.TcpServer.{
  SockAddr, connecting, connected, disconnected, stopped, code,
}
use module_oriented_software.TcpServer.Steps as server_steps
use module_oriented_software.TcpClient.{zero_addr}
use module_oriented_software.TcpClient.Told as client_steps
use module_oriented_software.DomainServer.{
  strncpy, UnixPath, DomainServer, tells_connect, tells_disconnect, tells_internal, closes,
  domain_incoming_peer, domain_incoming_data, accepts_path, path_ready, path_closed, domain_clear,
}
use module_oriented_software.DomainServer.Network.{network_of}
use module_oriented_software.DomainServer.Simulation.{accepts_peer, reads_data, Reach-network_of}
use module_oriented_software.DomainServer.Simulation as domain_server_steps
use module_oriented_software.DomainServer.Clearing.{domain_clear-again}
use module_oriented_software.DomainClient.{DomainClient}
use module_oriented_software.DomainClient.Simulation as domain_client_steps

abbrev a_path : UnixPath
a_path = b'a' ∷ []

abbrev address : UnixPath → SockAddr
address [] = zero_addr
address (c ∷ path) = record { addr = c; port = 0 }

abbrev waiting : DomainServer
waiting = record {
  sock_fd = 3;
  peers = [];
  state = stopped;
  listen_enabled = false;
  joinable = false;
  log = [];
}

abbrev with_one : DomainServer
with_one = record waiting {
  peers = (5, a_path) ∷ [];
  state = connecting;
  log = tells_connect a_path ∷ [];
}

abbrev without_one : DomainServer
without_one = record with_one {
  peers = [];
  log = tells_internal 5 ∷ closes 5 ∷ tells_disconnect a_path ∷ with_one.log;
}

Reach-network_of_example :
    server_steps.Reach (network_of address waiting) (network_of address without_one)
unfolding domain_incoming_peer domain_incoming_data insert lookup
Reach-network_of_example = Reach-network_of address (
    domain_server_steps.next
      (domain_server_steps.next domain_server_steps.here (
        accepts_peer (path_ready ∷ accepts_path 5 a_path ∷ []) waiting with_one (code 5) refl refl))
      (reads_data 5 true (path_closed ∷ []) with_one without_one _ refl))

domain_clear-again_example :
    ((domain_clear with_one).peers ≡ [])
    × ((domain_clear with_one).log ≡ closes 3 ∷ closes 5 ∷ tells_disconnect a_path ∷ with_one.log)
    × ((domain_clear (domain_clear with_one)).log ≡ closes 3 ∷ (domain_clear with_one).log)
domain_clear-again_example = domain_clear-again with_one

abbrev idle : DomainClient
idle = record { sock_fd = 4; peer = []; state = disconnected; log = [] }

abbrev in_touch : DomainClient
in_touch = record {
  sock_fd = 4;
  peer = strncpy 107 a_path;
  state = connected;
  log = tells_connect (strncpy 107 a_path) ∷ [];
}
