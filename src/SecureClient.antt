-- ===== src/SecureClient.antt =====
-- env/inc/network_tcp_sock_secure.hpp, where `secure_socket_class` is `CLIENT_UNICAST_SECURE_TLS`: a client of env/inc/network_tcp_sock.hpp whose
-- connection is one of env/inc/tls.hpp. The internal hook of the client is not used.
pub mod Connecting
use module_oriented_software.Common.{
  ℕ, zero, Bool, true, false, Option, none, some, List, [], ◌∷◌, ◌++◌, map,
}
use module_oriented_software.TcpServer.{
  connected, disconnected, connecting, SockAddr, Code, code, negative, Effect, on_connect,
  on_disconnect, on_receive, on_send, on_disconnect_internal, close, SendAnswer, sends,
  sends_nothing, send_ready, send_times_out, send_select_fails, send_lost, send_fails, Run, ended,
  waits, undefined,
}
use module_oriented_software.TcpClient.{
  TcpClient, RecvAnswer, gets, recv_ready, recv_gives_up, recv_lost, recv_fails, Event, readable,
  other_event, ConnectEvent, setup, clear_, send_, recv_,
}
use module_oriented_software.Tls.{
  ready, not_ready, PeerAnswers, Outcome, returns, throws, TransferAnswer,
}
use module_oriented_software.Tls.Client.{
  TlsClient, tls_connect, tls_clear, client_send, client_recv,
}
use module_oriented_software.SecureServer.{Errno, would_block, connection_lost, other_errno}

pub record SecureClient : Type 0 where
  pub tcp : TcpClient
  pub tls : TlsClient

-- With `HOOK_OFF`, the client below starts the hook of `on_connect` nowhere.
unfoldable pub without_on_connect : List Effect → List Effect
without_on_connect [] = []
without_on_connect (on_connect a ∷ log) = without_on_connect log
without_on_connect (on_disconnect a ∷ log) = on_disconnect a ∷ without_on_connect log
without_on_connect (on_receive a m ∷ log) = on_receive a m ∷ without_on_connect log
without_on_connect (on_send a m ∷ log) = on_send a m ∷ without_on_connect log
without_on_connect (on_disconnect_internal fd ∷ log) =
    on_disconnect_internal fd ∷ without_on_connect log
without_on_connect (close fd ∷ log) = close fd ∷ without_on_connect log

-- What `connect` of the client below is answered, as in `setup`.
pub record ConnectAnswers : Type 0 where
  pub resolved : Option SockAddr
  pub opened : Option ℕ
  pub options : Bool
  pub connects : Bool
  pub waited : Bool
  pub events : List ConnectEvent

-- `connect` of the client below with `HOOK_OFF`
unfoldable pub connect_off : ConnectAnswers → TcpClient → TcpClient × Code
unfolding setup without_on_connect
connect_off q s =
    let r =
      setup q.resolved q.opened q.options q.connects q.waited q.events (record s { log = [] }) in
    (record r.0 { log = without_on_connect r.0.log ++ s.log }, r.1)

-- The rest of `connect`, on the secure layer.
unfoldable pub connect_tls : PeerAnswers → SecureClient → Run (SecureClient × Outcome)
unfolding tls_connect
connect_tls p s = elim (tls_connect p s.tls) [
  | ended (u, returns (code zero)) ↦ ended (
    record {
      tcp = record s.tcp { state = connected; log = on_connect s.tcp.peer ∷ s.tcp.log };
      tls = u;
    },
    returns (code 0),
  )
  | ended (u, returns c) ↦ ended (
    record {
      tcp = record s.tcp { state = disconnected; log = on_disconnect s.tcp.peer ∷ s.tcp.log };
      tls = u;
    },
    returns negative,
  )
  | ended (u, throws) ↦ ended (record s { tls = u }, throws)
  | _ ↦ waits
]

-- `connect`
unfoldable pub secure_connect :
    ConnectAnswers → PeerAnswers → SecureClient → Run (SecureClient × Outcome)
unfolding connect_off connect_tls
secure_connect q p s =
    let r = connect_off q s.tcp in
    elim r.1 [
      | code zero ↦ connect_tls p (record s { tcp = record r.0 { state = connecting } })
      | c ↦ ended (record s { tcp = r.0 }, returns c)
    ]

-- `disconnect()`
unfoldable pub secure_disconnect : SecureClient → SecureClient
unfolding clear_ tls_clear
secure_disconnect s = record { tcp = clear_ s.tcp; tls = tls_clear s.tls }

-- A call of the method that `send_` gives to the client below: the answers of `SSL_write`, and `errno` where it returns -1.
pub record Write : Type 0 where
  pub ssl : List (TransferAnswer ℕ)
  pub errno : Errno
  pub timed_out : Bool

unfoldable pub failed_send : Errno → Bool → SendAnswer
failed_send (would_block ready) timed_out = send_ready
failed_send (would_block not_ready) true = send_times_out
failed_send (would_block not_ready) false = send_select_fails
failed_send connection_lost timed_out = send_lost
failed_send other_errno timed_out = send_fails

unfoldable pub send_answers : TlsClient → List Write → List SendAnswer
unfolding client_send failed_send
send_answers s [] = []
send_answers s (w ∷ ws) = elim (client_send w.ssl s) [
  | ended none ↦ failed_send w.errno w.timed_out ∷ send_answers s ws
  | ended (some zero) ↦ sends_nothing ∷ send_answers s ws
  | ended (some n) ↦ sends n ∷ send_answers s ws
  | _ ↦ []
]

-- `send_`
unfoldable pub secure_send : List ℕ → List Write → SecureClient → Run (SecureClient × Code)
unfolding send_ send_answers
secure_send msg writes s = elim (send_ msg (send_answers s.tls writes) s.tcp) [
  | ended (t, c) ↦ ended (record s { tcp = t }, c)
  | waits ↦ waits
  | undefined ↦ undefined
]

-- The calls of the method that `recv_` gives to the client below, and its events.
pub record Read : Type 0 where
  pub ssl : List (TransferAnswer (List ℕ))
  pub errno : Errno

unfoldable pub failed_recv : Errno → RecvAnswer
failed_recv (would_block ready) = recv_ready
failed_recv (would_block not_ready) = recv_gives_up
failed_recv connection_lost = recv_lost
failed_recv other_errno = recv_fails

unfoldable pub recv_answers : TlsClient → List Read → List RecvAnswer
unfolding client_recv failed_recv
recv_answers s [] = []
recv_answers s (r ∷ rs) = elim (client_recv r.ssl s) [
  | ended none ↦ failed_recv r.errno ∷ recv_answers s rs
  | ended (some bytes) ↦ gets bytes ∷ recv_answers s rs
  | _ ↦ []
]

-- An event of `epoll_wait`: that bytes can be read, with the answer of `ioctl` and the calls, or another.
pub data ReadEvent : Type 0 where
  reads : Bool → List Read → ReadEvent
  reads_other : ReadEvent

unfoldable pub read_event : TlsClient → ReadEvent → Event
unfolding recv_answers
read_event s (reads pending rs) = readable pending (recv_answers s rs)
read_event s reads_other = other_event

unfoldable pub read_events : TlsClient → List ReadEvent → List Event
unfolding read_event
read_events s [] = []
read_events s (e ∷ es) = read_event s e ∷ read_events s es

-- `recv_`, given the events of `epoll_wait`, which fails at `none`.
unfoldable pub secure_recv : Option (List ReadEvent) → SecureClient → Run (SecureClient × Code)
unfolding recv_ read_events
secure_recv es s =
    elim (recv_ (elim es [ none ↦ none | some l ↦ some (read_events s.tls l) ]) s.tcp) [
      | ended (t, c) ↦ ended (record s { tcp = t }, c)
      | waits ↦ waits
      | undefined ↦ undefined
    ]
