-- ===== src/SecureServer.antt =====
-- env/inc/network_tcp_sock_secure.hpp, where `secure_socket_class` is `SERVER_UNICAST_SECURE_TLS`, with the class that
-- env/inc/secure_layer.hpp puts between it and env/inc/tls.hpp: a server of env/inc/network_tcp_sock.hpp, whose peers have credentials. The
-- internal hook of the server clears those of a peer. Sending and disconnecting a peer do not compile: they call
-- overloads that are not there.
pub mod Credentials
pub mod Accepting
pub mod Reached
pub mod Resets
use module_oriented_software.Common.{
  ℕ, zero, ◌==◌, Bool, true, false, Option, none, some, List, [], ◌∷◌, ◌++◌, if◌then◌else◌,
}
use module_oriented_software.Common.OrderedMap.{insert}
use module_oriented_software.TcpServer.{
  connected, disconnected, connecting, SockAddr, Code, code, negative, Effect, on_connect,
  on_disconnect, on_receive, on_send, on_disconnect_internal, close, TcpServer, disconnect_fd, Run,
  ended, waits, undefined, AcceptAnswer, accepts, accept_ready, accept_gives_up, accept_fails,
  RecvAnswer, receives, receives_nothing, recv_ready, recv_gives_up, recv_lost, recv_fails,
  handle_incoming_data,
}
use module_oriented_software.TcpServer.Lifecycle.{
  begin_listening, end_listening, start, stop, clear_,
}
use module_oriented_software.Tls.{
  Selected, ready, not_ready, PeerAnswers, Outcome, returns, throws, TlsServer, register_client,
  clear_peer_creds, TransferAnswer, tls_recv,
}

pub record SecureServer : Type 0 where
  pub tcp : TcpServer
  pub tls : TlsServer

-- The internal hook, which the constructor sets, for each of its entries in a log.
unfoldable pub clear_lost : List Effect → TlsServer → TlsServer
unfolding clear_peer_creds
clear_lost [] s = s
clear_lost (on_disconnect_internal fd ∷ log) s = clear_peer_creds fd (clear_lost log s)
clear_lost (on_connect a ∷ log) s = clear_lost log s
clear_lost (on_disconnect a ∷ log) s = clear_lost log s
clear_lost (on_receive a m ∷ log) s = clear_lost log s
clear_lost (on_send a m ∷ log) s = clear_lost log s
clear_lost (close fd ∷ log) s = clear_lost log s

-- A method of the server below runs with a log of its own, and its hooks come after it.
abbrev pub bare : SecureServer → TcpServer
bare s = record s.tcp { log = [] }

unfoldable pub settle : TcpServer → SecureServer → SecureServer
unfolding clear_lost
settle t s = record { tcp = record t { log = t.log ++ s.tcp.log }; tls = clear_lost t.log s.tls }

-- The loop of `handle_incoming_peer_` of the server below with `HOOK_OFF`, which starts no hook and returns the peer.
unfoldable pub accept_off : List AcceptAnswer → TcpServer → Run (TcpServer × Option (ℕ × SockAddr))
unfolding insert
accept_off [] s = waits
accept_off (accept_ready ∷ answers) s = accept_off answers s
accept_off (accept_gives_up ∷ answers) s = ended (s, none)
accept_off (accept_fails ∷ answers) s = ended (s, none)
accept_off (accepts fd a ∷ answers) s =
    ended (record s { peers = insert fd a s.peers }, some (fd, a))

-- The end of `handle_incoming_peer_` with -1
unfoldable pub refuse : SecureServer → SecureServer
refuse s = record s { tcp = record s.tcp { state = disconnected } }

-- Where `register_client` does not return 0: the peer is disconnected, its credentials are cleared, and the hook is started.
unfoldable pub reject_peer : ℕ → SockAddr → SecureServer → SecureServer
unfolding settle disconnect_fd clear_peer_creds refuse
reject_peer fd a s =
    let s' = settle (disconnect_fd fd (bare s)).0 s in
    refuse (record {
      tcp = record s'.tcp { log = on_disconnect a ∷ s'.tcp.log };
      tls = clear_peer_creds fd s'.tls;
    })

unfoldable pub secure_peer :
    ℕ → SockAddr → PeerAnswers → SecureServer → Run (SecureServer × Outcome)
unfolding register_client reject_peer
secure_peer fd a q s = elim (register_client fd q s.tls) [
  | ended (u, returns (code zero)) ↦ ended (
    record { tcp = record s.tcp { state = connected; log = on_connect a ∷ s.tcp.log }; tls = u },
    returns (code fd),
  )
  | ended (u, returns c) ↦ ended (reject_peer fd a (record s { tls = u }), returns negative)
  | ended (u, throws) ↦ ended (record s { tls = u }, throws)
  | _ ↦ waits
]

-- `handle_incoming_peer_`. The descriptor 0 counts as a failure.
unfoldable pub secure_incoming_peer :
    List AcceptAnswer → PeerAnswers → SecureServer → Run (SecureServer × Outcome)
unfolding accept_off secure_peer refuse
secure_incoming_peer answers q s = elim (accept_off answers (record s.tcp { state = connecting })) [
  | ended (t, none) ↦ ended (refuse (record s { tcp = t }), returns negative)
  | ended (t, some (fd, a)) ↦
      if fd == 0
      then ended (refuse (record s { tcp = t }), returns negative)
      else secure_peer fd a q (record s { tcp = t })
  | _ ↦ waits
]

-- `errno` where a call returns -1: the socket would block, with the answer of `select`, the connection is lost, or another.
pub data Errno : Type 0 where
  would_block : Selected → Errno
  connection_lost other_errno : Errno

unfoldable pub failed_recv : Errno → RecvAnswer
failed_recv (would_block ready) = recv_ready
failed_recv (would_block not_ready) = recv_gives_up
failed_recv connection_lost = recv_lost
failed_recv other_errno = recv_fails

-- A call of the method that `handle_incoming_data_` gives to the server below: the answers of `SSL_read`, what the
-- server reads in `errno` where the method returns -1, and the answer of `getpeername`.
pub record Read : Type 0 where
  pub ssl : List (TransferAnswer (List ℕ))
  pub errno : Errno
  pub peer : Option SockAddr

unfoldable pub recv_answers : ℕ → TlsServer → List Read → List RecvAnswer
unfolding tls_recv failed_recv
recv_answers fd s [] = []
recv_answers fd s (r ∷ rs) = elim (tls_recv fd r.ssl s) [
  | ended none ↦ failed_recv r.errno ∷ recv_answers fd s rs
  | ended (some []) ↦ receives_nothing ∷ recv_answers fd s rs
  | ended (some bytes) ↦ receives bytes r.peer ∷ recv_answers fd s rs
  | _ ↦ []
]

-- `handle_incoming_data_`
unfoldable pub secure_incoming_data :
    ℕ → Bool → List Read → SecureServer → Run (SecureServer × Code)
unfolding handle_incoming_data recv_answers settle
secure_incoming_data fd pending reads s =
    elim (handle_incoming_data fd pending (recv_answers fd s.tls reads) (bare s)) [
      | ended (t, c) ↦ ended (settle t s, c)
      | waits ↦ waits
      | undefined ↦ undefined
    ]

-- The beginning and the end of `listen_`, `start()`, and `stop`, which are written out again.
unfoldable pub secure_begin : Bool → SecureServer → SecureServer × Code
unfolding begin_listening
secure_begin listens s = let r = begin_listening listens s.tcp in (record s { tcp = r.0 }, r.1)

unfoldable pub secure_end : SecureServer → SecureServer
unfolding end_listening
secure_end s = record s { tcp = end_listening s.tcp }

unfoldable pub secure_start : SecureServer → SecureServer
unfolding start
secure_start s = record s { tcp = start s.tcp }

unfoldable pub secure_stop : SecureServer → SecureServer × Code
unfolding stop
secure_stop s = let r = stop s.tcp in (record s { tcp = r.0 }, r.1)

-- `reset`, which is that of the server below
unfoldable pub secure_reset : SecureServer → SecureServer
unfolding clear_ settle
secure_reset s = settle (clear_ (bare s)) s
