-- ===== src/TcpClient.antt =====
-- env/inc/network_tcp_sock.hpp, where `socket_class` is `CLIENT_UNICAST`: a socket that connects to one peer. As with the
-- server, what the kernel answers is given, and the hooks that are started and `close` are entries of a log, the last one first.
pub mod Told
pub mod Receiving
use module_oriented_software.Common.{
  ℕ, ◌+◌, Bool, true, false, Option, none, some, List, [], ◌∷◌, length, if◌then◌else◌,
}
use module_oriented_software.TcpServer.{
  SocketState, connected, disconnected, connecting, SockAddr, Code, code, negative, Effect,
  on_connect, on_disconnect, on_receive, on_send, on_disconnect_internal, close, SendAnswer, sends,
  sends_nothing, send_ready, send_times_out, send_select_fails, send_lost, send_fails, Run, ended,
  waits,
}

pub record TcpClient : Type 0 where
  pub sock_fd : ℕ
  pub peer : SockAddr
  pub state : SocketState
  pub log : List Effect

-- `std::memset(&connected_, 0x0, …)`
abbrev pub zero_addr : SockAddr
zero_addr = record { addr = 0; port = 0 }

-- `connected()`
unfoldable pub is_connected : TcpClient → Bool
is_connected s = elim s.state [ connected ↦ true | _ ↦ false ]

-- What follows the label `disconnect` in `send_` and `recv_`: the socket is not closed.
unfoldable pub lose : TcpClient → TcpClient
unfolding is_connected
lose s =
    if is_connected s
    then record s { peer = zero_addr; state = disconnected; log = on_disconnect s.peer ∷ s.log }
    else s

-- `clear_`, which is `disconnect()`
unfoldable pub clear_ : TcpClient → TcpClient
unfolding is_connected
clear_ s = record s {
  peer = if is_connected s then zero_addr else s.peer;
  state = disconnected;
  log =
      close s.sock_fd
      ∷ on_disconnect_internal s.sock_fd
      ∷ (if is_connected s then on_disconnect s.peer ∷ s.log else s.log);
}

-- `send_`
unfoldable pub send_ : List ℕ → List SendAnswer → TcpClient → Run (TcpClient × Code)
unfolding lose
send_ msg [] s = waits
send_ msg (send_ready ∷ answers) s = send_ msg answers s
send_ msg (sends_nothing ∷ answers) s = ended (lose s, code 0)
send_ msg (send_times_out ∷ answers) s = ended (lose s, code 0)
send_ msg (send_select_fails ∷ answers) s = ended (lose s, negative)
send_ msg (send_lost ∷ answers) s = ended (lose s, negative)
send_ msg (send_fails ∷ answers) s = ended (s, negative)
send_ msg (sends n ∷ answers) s = ended (record s { log = on_send s.peer msg ∷ s.log }, code n)

-- `recv`: bytes, of which there may be none, it would block, the connection is lost, or there is another error.
pub data RecvAnswer : Type 0 where
  gets : List ℕ → RecvAnswer
  recv_ready recv_gives_up recv_lost recv_fails : RecvAnswer

-- An event of `epoll_wait`: that bytes can be read from the socket, with the answers of `ioctl` and of `recv`,
-- or another.
pub data Event : Type 0 where
  readable : Bool → List RecvAnswer → Event
  other_event : Event

-- What the handling of one event comes to: the loop goes on with the bytes that it has read, or `recv_` returns.
pub data Progress : Type 0 where
  goes_on : ℕ → TcpClient → Progress
  returns : TcpClient → Code → Progress
  blocks : Progress

-- From the label `recv`; the number is `recvd_size`.
unfoldable pub recv_one : ℕ → List RecvAnswer → TcpClient → Progress
unfolding lose
recv_one size [] s = blocks
recv_one size (recv_ready ∷ answers) s = recv_one size answers s
recv_one size (recv_gives_up ∷ answers) s = returns (lose s) (code size)
recv_one size (recv_lost ∷ answers) s = returns (lose s) (code size)
recv_one size (recv_fails ∷ answers) s = returns s negative
recv_one size (gets bytes ∷ answers) s =
    goes_on (size + length bytes) (record s { log = on_receive s.peer bytes ∷ s.log })

unfoldable pub recv_event : ℕ → Event → TcpClient → Progress
unfolding recv_one
recv_event size other_event s = goes_on size s
recv_event size (readable false answers) s = returns s negative
recv_event size (readable true answers) s = recv_one size answers s

-- The loop of `recv_`
unfoldable pub recv_events : ℕ → List Event → TcpClient → Run (TcpClient × Code)
unfolding recv_event
recv_events size [] s = ended (s, code size)
recv_events size (e ∷ es) s = elim (recv_event size e s) [
  | goes_on size' s' ↦ recv_events size' es s'
  | returns s' c ↦ ended (s', c)
  | blocks ↦ waits
]

-- `recv_`, given the events of `epoll_wait`, which fails at `none`.
unfoldable pub recv_ : Option (List Event) → TcpClient → Run (TcpClient × Code)
unfolding recv_events
recv_ none s = ended (s, negative)
recv_ (some es) s = recv_events 0 es s

-- An event of the socket that `connect_` waits for: `getsockopt` fails, gives an error, or gives none.
pub data ConnectEvent : Type 0 where
  getsockopt_fails epoll_error no_error not_mine : ConnectEvent

-- The loop of `connect_`. Its bound `num_ready` is never assigned: the events are those that it happens to read.
unfoldable pub connect_events : SockAddr → List ConnectEvent → TcpClient → TcpClient × Code
unfolding clear_ is_connected
connect_events server [] s = (s, if is_connected s then code 0 else negative)
connect_events server (not_mine ∷ es) s = connect_events server es s
connect_events server (getsockopt_fails ∷ es) s = (s, negative)
connect_events server (epoll_error ∷ es) s =
    connect_events server es (clear_ (record s { log = on_disconnect server ∷ s.log }))
connect_events server (no_error ∷ es) s =
    connect_events server es
      (record s { peer = server; state = connected; log = on_connect server ∷ s.log })

-- `connect_`, given whether `connect` succeeds or is in progress, and whether `epoll_wait` does not fail.
unfoldable pub connect_ : SockAddr → Bool → Bool → List ConnectEvent → TcpClient → TcpClient × Code
unfolding connect_events
connect_ server connects waited es s =
    let s' = record s { state = connecting } in
    if connects
    then (if waited then connect_events server es s' else (s', negative))
    else (s', negative)

-- `setup_` with `open_`, given the answers of `getaddrinfo`, of `socket` and of all `setsockopt`, and what `connect_` is given.
unfoldable pub setup :
    Option SockAddr
    → Option ℕ
    → Bool
    → Bool
    → Bool
    → List ConnectEvent
    → TcpClient
    → TcpClient × Code
unfolding clear_ connect_
setup none opened options connects waited es s = (s, negative)
setup (some server) none options connects waited es s = (clear_ s, negative)
setup (some server) (some fd) options connects waited es s =
    let s' = record s { sock_fd = fd } in
    if options then connect_ server connects waited es s' else (s', negative)
