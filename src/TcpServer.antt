-- ===== src/TcpServer.antt =====
-- env/inc/network_tcp_sock.hpp, where `socket_class` is `SERVER_UNICAST`: a socket that listens, and the peers that it
-- has accepted. What the calls of the kernel answer is given, in the order of the calls. A hook that a
-- detached thread runs and a call of `close` are entries of a log; `HOOK_ON` and `HOOK` are the behaviours.
-- An address has its port with it, and both are compared as in network order. `epoll_ctl` is compared by `< 0u`,
-- which never holds, so that its failures change nothing.
pub mod Lifecycle
pub mod Steps
pub mod Peers
pub mod Sending
pub mod Stopping
use module_oriented_software.Common.{
  ℕ, ◌+◌, ◌%◌, ◌^◌, ◌==◌, ◌&&◌, ltb, length, Bool, true, false, Option, none, some, List, [], ◌∷◌,
  ◌++◌, if◌then◌else◌,
}
use module_oriented_software.Common.OrderedMap.{OrderedMap, lookup, insert, erase}

-- `state_e`
pub data SocketState : Type 0 where
  connected disconnected listening connecting stopped : SocketState

-- `sockaddr_inet_t`
pub record SockAddr : Type 0 where
  pub addr : ℕ
  pub port : ℕ

-- An `int32_t` that a method returns: not negative, negative, or a variable that nothing was assigned to.
pub data Code : Type 0 where
  code : ℕ → Code
  negative unset : Code

-- The hooks that are started, the internal hook, and `close`.
pub data Effect : Type 0 where
  on_connect on_disconnect : SockAddr → Effect
  on_receive on_send : SockAddr → List ℕ → Effect
  on_disconnect_internal : ℕ → Effect
  close : ℕ → Effect

-- The last entry of the log is its first.
pub record TcpServer : Type 0 where
  pub sock_fd : ℕ
  pub peers : OrderedMap SockAddr
  pub state : SocketState
  pub listen_enabled : Bool
  pub joinable : Bool
  pub log : List Effect

-- `inet_pton`: an address, 0 for a text that is none, or -1 for a family that it does not know.
pub data Parsed : Type 0 where
  address : SockAddr → Parsed
  no_address no_family : Parsed

abbrev pub same_addr : SockAddr → SockAddr → Bool
same_addr a b = a.addr == b.addr && a.port == b.port

unfoldable pub find_peer : SockAddr → OrderedMap SockAddr → Option ℕ
find_peer a [] = none
find_peer a ((fd, b) ∷ m) = let rest = find_peer a m in if same_addr a b then some fd else rest

-- `get_connected_peer_` with an address: the code of `inet_pton` is returned where it is not positive.
unfoldable pub get_connected_peer : Parsed → TcpServer → Code
unfolding find_peer
get_connected_peer no_address s = code 0
get_connected_peer no_family s = negative
get_connected_peer (address a) s = elim (find_peer a s.peers) [
  | none ↦ negative
  | some fd ↦ code fd
]

-- `close`, `connected_.erase` and the internal hook, which both `disconnect_peer_` do.
unfoldable pub drop_peer : ℕ → TcpServer → TcpServer
unfolding erase
drop_peer fd s = record s {
  peers = erase fd s.peers;
  log = on_disconnect_internal fd ∷ close fd ∷ s.log;
}

-- `disconnect_peer_` with an address: what is found is put into an `int16_t`.
unfoldable pub disconnect_addr : Parsed → TcpServer → TcpServer × Code
unfolding get_connected_peer drop_peer
disconnect_addr a s = elim (get_connected_peer a s) [
  | code fd ↦
      if ltb (fd % 2 ^ 16) (2 ^ 15)
      then (drop_peer (fd % 2 ^ 16) s, code (fd % 2 ^ 16))
      else (s, negative)
  | _ ↦ (s, negative)
]

-- `disconnect_peer_` with a descriptor
unfoldable pub disconnect_fd : ℕ → TcpServer → TcpServer × Code
unfolding drop_peer lookup
disconnect_fd fd s = elim (lookup fd s.peers) [
  | none ↦ (s, negative)
  | some a ↦ (drop_peer fd s, code fd)
]

-- What follows the label `disconnect` in `send_` and `handle_incoming_data_`: where the peer is connected, the hook is
-- started with an address, and the peer is disconnected.
unfoldable pub lose : ℕ → (SockAddr → SockAddr) → TcpServer → TcpServer
unfolding disconnect_fd lookup
lose fd told s = elim (lookup fd s.peers) [
  | none ↦ s
  | some a ↦ (disconnect_fd fd (record s { log = on_disconnect (told a) ∷ s.log })).0
]

-- `send`: it sends some bytes or none, it would block, where `select` answers whether it can go on or, if not,
-- with 0 for the time or less for an error, the connection is lost, or there is another error.
pub data SendAnswer : Type 0 where
  sends : ℕ → SendAnswer
  sends_nothing send_ready send_times_out send_select_fails send_lost send_fails : SendAnswer

-- A method that ended, one that waits for the kernel, whose answers are used up, or one that reads a pointer that nothing
-- was assigned to.
pub data Run (A : Type 0) : Type 0 where
  ended : A → Run A
  waits undefined : Run A

-- `send_`
unfoldable pub send_ : ℕ → SockAddr → List ℕ → List SendAnswer → TcpServer → Run (TcpServer × Code)
unfolding lose
send_ fd peer msg [] s = waits
send_ fd peer msg (send_ready ∷ answers) s = send_ fd peer msg answers s
send_ fd peer msg (sends_nothing ∷ answers) s = ended (lose fd (λ a. peer) s, code 0)
send_ fd peer msg (send_times_out ∷ answers) s = ended (lose fd (λ a. peer) s, code 0)
send_ fd peer msg (send_select_fails ∷ answers) s = ended (lose fd (λ a. peer) s, negative)
send_ fd peer msg (send_lost ∷ answers) s = ended (lose fd (λ a. peer) s, negative)
send_ fd peer msg (send_fails ∷ answers) s = ended (s, negative)
send_ fd peer msg (sends n ∷ answers) s =
    ended (record s { log = on_send peer msg ∷ s.log }, code n)

-- `send`
unfoldable pub send : Parsed → List ℕ → List SendAnswer → TcpServer → Run (TcpServer × Code)
unfolding find_peer send_ lookup
send no_address msg answers s = undefined
send no_family msg answers s = ended (s, negative)
send (address a) msg answers s = elim (find_peer a s.peers) [
  | none ↦ ended (s, negative)
  | some fd ↦ elim (lookup fd s.peers) [ none ↦ undefined | some b ↦ send_ fd b msg answers s ]
]

-- `accept`, with the `select` that follows where it would block.
pub data AcceptAnswer : Type 0 where
  accepts : ℕ → SockAddr → AcceptAnswer
  accept_ready accept_gives_up accept_fails : AcceptAnswer

unfoldable pub accept_loop : List AcceptAnswer → TcpServer → Run (TcpServer × Code)
unfolding insert
accept_loop [] s = waits
accept_loop (accept_ready ∷ answers) s = accept_loop answers s
accept_loop (accept_gives_up ∷ answers) s = ended (s, negative)
accept_loop (accept_fails ∷ answers) s = ended (s, negative)
accept_loop (accepts fd a ∷ answers) s =
    ended (record s { peers = insert fd a s.peers; log = on_connect a ∷ s.log }, code fd)

-- `handle_incoming_peer_`
unfoldable pub handle_incoming_peer : List AcceptAnswer → TcpServer → Run (TcpServer × Code)
unfolding accept_loop
handle_incoming_peer answers s = accept_loop answers (record s { state = connecting })

-- `recv`: bytes, with the answer of `getpeername`, no bytes, it would block, the connection is lost, or there is
-- another error.
pub data RecvAnswer : Type 0 where
  receives : List ℕ → Option SockAddr → RecvAnswer
  receives_nothing recv_ready recv_gives_up recv_lost recv_fails : RecvAnswer

unfoldable pub receive_loop : ℕ → List RecvAnswer → TcpServer → Run (TcpServer × Code)
unfolding lose
receive_loop fd [] s = waits
receive_loop fd (recv_ready ∷ answers) s = receive_loop fd answers s
receive_loop fd (receives_nothing ∷ answers) s = ended (lose fd (λ a. a) s, code 0)
receive_loop fd (recv_lost ∷ answers) s = ended (lose fd (λ a. a) s, unset)
receive_loop fd (recv_gives_up ∷ answers) s = ended (lose fd (λ a. a) s, unset)
receive_loop fd (recv_fails ∷ answers) s = ended (s, negative)
receive_loop fd (receives bytes none ∷ answers) s = ended (s, negative)
receive_loop fd (receives bytes (some a) ∷ answers) s =
    ended (record s { log = on_receive a bytes ∷ s.log }, code (length bytes))

-- `handle_incoming_data_`: nothing is read where `ioctl` fails.
unfoldable pub handle_incoming_data :
    ℕ → Bool → List RecvAnswer → TcpServer → Run (TcpServer × Code)
unfolding receive_loop
handle_incoming_data fd false answers s = ended (s, negative)
handle_incoming_data fd true answers s = receive_loop fd answers s
