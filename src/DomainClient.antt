-- ===== src/DomainClient.antt =====
-- env/inc/domain_tcp_sock.hpp, where `socket_class` is `CLIENT_UNICAST`: the client of env/inc/network_tcp_sock.hpp, written again for paths.
pub mod Network
pub mod Simulation
pub mod Paths
use module_oriented_software.Common.{
  ℕ, zero, suc, ◌+◌, ltb, Bool, true, false, Option, none, some, List, [], ◌∷◌, length,
  if◌then◌else◌,
}
use module_oriented_software.TcpServer.{
  SocketState, connected, disconnected, connecting, Code, code, negative, SendAnswer, sends,
  sends_nothing, send_ready, send_times_out, send_select_fails, send_lost, send_fails, Run, ended,
  waits, undefined,
}
use module_oriented_software.TcpClient.{
  RecvAnswer, gets, recv_ready, recv_gives_up, recv_lost, recv_fails, Event, readable, other_event,
  ConnectEvent, getsockopt_fails, epoll_error, no_error, not_mine,
}
use module_oriented_software.DomainServer.{
  strncpy, copy_path, UnixPath, DomainEffect, tells_connect, tells_disconnect, tells_receive,
  tells_send, tells_internal, closes,
}

pub record DomainClient : Type 0 where
  pub sock_fd : ℕ
  pub peer : UnixPath
  pub state : SocketState
  pub log : List DomainEffect

-- `connected()`
unfoldable pub domain_connected : DomainClient → Bool
domain_connected s = elim s.state [ connected ↦ true | _ ↦ false ]

-- `std::memset(&connected_, 0x0, …)`: the path in 107 bytes, without the last one, which `connect_` leaves as it is.
unfoldable pub no_path : UnixPath
unfolding strncpy
no_path = strncpy 107 []

-- What follows the label `disconnect` in `send_` and `recv_`.
unfoldable pub domain_client_lose : DomainClient → DomainClient
unfolding domain_connected
domain_client_lose s =
    if domain_connected s
    then record s { peer = no_path; state = disconnected; log = tells_disconnect s.peer ∷ s.log }
    else s

-- `clear_`, which is `disconnect()`
unfoldable pub domain_client_clear : DomainClient → DomainClient
unfolding domain_connected
domain_client_clear s = record s {
  peer = if domain_connected s then no_path else s.peer;
  state = disconnected;
  log =
      closes s.sock_fd
      ∷ tells_internal s.sock_fd
      ∷ (if domain_connected s then tells_disconnect s.peer ∷ s.log else s.log);
}

-- `send_`
unfoldable pub domain_client_send :
    List ℕ → List SendAnswer → DomainClient → Run (DomainClient × Code)
unfolding domain_client_lose
domain_client_send msg [] s = waits
domain_client_send msg (send_ready ∷ answers) s = domain_client_send msg answers s
domain_client_send msg (sends_nothing ∷ answers) s = ended (domain_client_lose s, code 0)
domain_client_send msg (send_times_out ∷ answers) s = ended (domain_client_lose s, code 0)
domain_client_send msg (send_select_fails ∷ answers) s = ended (domain_client_lose s, negative)
domain_client_send msg (send_lost ∷ answers) s = ended (domain_client_lose s, negative)
domain_client_send msg (send_fails ∷ answers) s = ended (s, negative)
domain_client_send msg (sends n ∷ answers) s =
    ended (record s { log = tells_send s.peer msg ∷ s.log }, code n)

-- What the handling of one event comes to: the loop goes on with the bytes that it has read, or `recv_` returns.
pub data DomainProgress : Type 0 where
  proceeds : ℕ → DomainClient → DomainProgress
  finishes : DomainClient → Code → DomainProgress
  stays : DomainProgress

-- From the label `recv`; the first number is `rc`, the result of `ioctl` or `select`, which is returned on an error, and the second is
-- `recvd_size`.
unfoldable pub domain_recv_one : ℕ → ℕ → List RecvAnswer → DomainClient → DomainProgress
unfolding domain_client_lose
domain_recv_one rc size [] s = stays
domain_recv_one rc size (recv_ready ∷ answers) s = domain_recv_one 1 size answers s
domain_recv_one rc size (recv_gives_up ∷ answers) s = finishes (domain_client_lose s) (code size)
domain_recv_one rc size (recv_lost ∷ answers) s = finishes (domain_client_lose s) (code size)
domain_recv_one rc size (recv_fails ∷ answers) s = finishes s (code rc)
domain_recv_one rc size (gets bytes ∷ answers) s =
    proceeds (size + length bytes) (record s { log = tells_receive s.peer bytes ∷ s.log })

unfoldable pub domain_recv_event : ℕ → Event → DomainClient → DomainProgress
unfolding domain_recv_one
domain_recv_event size other_event s = proceeds size s
domain_recv_event size (readable false answers) s = finishes s negative
domain_recv_event size (readable true answers) s = domain_recv_one 0 size answers s

-- The loop of `recv_`
unfoldable pub domain_recv_events : ℕ → List Event → DomainClient → Run (DomainClient × Code)
unfolding domain_recv_event
domain_recv_events size [] s = ended (s, code size)
domain_recv_events size (e ∷ es) s = elim (domain_recv_event size e s) [
  | proceeds size' s' ↦ domain_recv_events size' es s'
  | finishes s' c ↦ ended (s', c)
  | stays ↦ waits
]

-- `recv_`, given the events of `epoll_wait`, which fails at `none`.
unfoldable pub domain_recv : Option (List Event) → DomainClient → Run (DomainClient × Code)
unfolding domain_recv_events
domain_recv none s = ended (s, negative)
domain_recv (some es) s = domain_recv_events 0 es s

-- The loop of `connect_` over the events of `epoll_wait`
unfoldable pub domain_connect_events :
    UnixPath → List ConnectEvent → DomainClient → DomainClient × Code
unfolding domain_client_clear domain_connected
domain_connect_events server [] s = (s, if domain_connected s then code 0 else negative)
domain_connect_events server (not_mine ∷ es) s = domain_connect_events server es s
domain_connect_events server (getsockopt_fails ∷ es) s = (s, negative)
domain_connect_events server (epoll_error ∷ es) s =
    domain_connect_events server es
      (domain_client_clear (record s { log = tells_disconnect server ∷ s.log }))
domain_connect_events server (no_error ∷ es) s =
    domain_connect_events server es
      (record s { peer = server; state = connected; log = tells_connect server ∷ s.log })

-- `connect_`, given whether `connect` succeeds or is in progress, and the events of `epoll_wait`, which fails at `none`.
unfoldable pub domain_connect :
    UnixPath → Bool → Option (List ConnectEvent) → DomainClient → DomainClient × Code
unfolding domain_connect_events strncpy
domain_connect path connects events s =
    let s' = record s { state = connecting } in
    if connects
    then (elim events [
      | none ↦ (s', negative)
      | some es ↦ domain_connect_events (strncpy 107 path) es s'
    ])
    else (s', negative)

-- `setup_` with `open_`, given the answers of `socket` and of `setsockopt` both times, and what `connect_` is given. The path is first
-- copied into a `sun_path`.
unfoldable pub domain_client_setup :
    UnixPath
    → Option ℕ
    → Bool
    → Bool
    → Option (List ConnectEvent)
    → DomainClient
    → Run (DomainClient × Code)
unfolding domain_client_clear domain_connect copy_path
domain_client_setup path opened options connects events s = elim (copy_path path) [
  | none ↦ undefined
  | some sun_path ↦ (elim opened [
    | none ↦ ended (domain_client_clear s, negative)
    | some fd ↦
        let s' = record s { sock_fd = fd } in
        if options then ended (domain_connect path connects events s') else ended (s', negative)
  ])
]
