-- ===== src/TcpServer/Lifecycle.antt =====
-- env/inc/network_tcp_sock.hpp, where `socket_class` is `SERVER_UNICAST`: how a server is set up, listens and stops.
use module_oriented_software.Common.{
  ℕ, Bool, true, false, Option, none, some, List, [], ◌∷◌, if◌then◌else◌,
}
use module_oriented_software.Common.OrderedMap.{OrderedMap}
use module_oriented_software.TcpServer.{
  listening, stopped, SockAddr, Code, code, negative, Effect, on_disconnect, close, TcpServer, Run,
  AcceptAnswer, RecvAnswer, handle_incoming_peer, handle_incoming_data,
}

-- The end of `listen_`, once `listen_enabled_` is false, and its beginning, given whether `listen` succeeds.
unfoldable pub end_listening : TcpServer → TcpServer
end_listening s = record s { state = stopped }

unfoldable pub begin_listening : Bool → TcpServer → TcpServer × Code
begin_listening true s = (record s { listen_enabled = true; state = listening }, code 0)
begin_listening false s = (record s { listen_enabled = true }, negative)

-- `start()`: the thread of `listen_` is made, and begins when it is scheduled.
unfoldable pub start : TcpServer → TcpServer
start s = record s { joinable = true }

-- `stop`: where there is a thread to join, it has ended `listen_`.
unfoldable pub stop : TcpServer → TcpServer × Code
unfolding end_listening
stop s =
    if s.listen_enabled
    then if s.joinable
      then (end_listening (record s { listen_enabled = false; joinable = false }), code 0)
      else (record s { listen_enabled = false }, negative)
    else (s, negative)

-- The loop of `clear_`: the hook and `close` for each peer.
unfoldable pub close_all : OrderedMap SockAddr → List Effect → List Effect
close_all [] log = log
close_all ((fd, a) ∷ m) log = close_all m (close fd ∷ on_disconnect a ∷ log)

-- `clear_`, which returns at once where `stop` fails. No caller reads its code.
unfoldable pub clear_ : TcpServer → TcpServer
unfolding stop close_all
clear_ s = elim (stop s).1 [
  | code n ↦ record (stop s).0 {
    peers = [];
    state = stopped;
    log = close s.sock_fd ∷ close_all s.peers s.log;
  }
  | _ ↦ (stop s).0
]

-- What `setup_` is answered by `getaddrinfo`, `socket`, `setsockopt` five times, and `bind`.
pub record SetupAnswers : Type 0 where
  pub resolved : Bool
  pub opened : Option ℕ
  pub options : Bool
  pub bound : Bool

-- `setup_` with `open_` and `bind_`
unfoldable pub setup : SetupAnswers → TcpServer → TcpServer × Code
unfolding clear_
setup q s =
    if q.resolved
    then (elim q.opened [
      | none ↦ (clear_ s, negative)
      | some fd ↦
          let s' = record s { sock_fd = fd } in
          if q.options
          then (if q.bound then (s', code 0) else (clear_ s', negative))
          else (s', negative)
    ])
    else (s, negative)

-- `listening()`
unfoldable pub is_listening : TcpServer → Bool
is_listening s = elim s.state [ listening ↦ true | _ ↦ false ]

-- An event of `epoll_wait`, with what the calls that follow it are answered.
pub data Ready : Type 0 where
  peer_ready : List AcceptAnswer → Ready
  data_ready : ℕ → Bool → List RecvAnswer → Ready

-- The inner loop of `listen_`: an event of the socket itself is a peer, any other is data.
unfoldable pub handle_ready : Ready → TcpServer → Run (TcpServer × Code)
unfolding handle_incoming_peer handle_incoming_data
handle_ready (peer_ready answers) s = handle_incoming_peer answers s
handle_ready (data_ready fd pending answers) s = handle_incoming_data fd pending answers s
