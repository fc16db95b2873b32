-- ===== src/UdpSocket.antt =====
-- env/inc/network_udp_sock.hpp: a socket for datagrams, which a network manager sends and receives probes with. As with
-- TcpServer, what the kernel answers is given, and the hooks that are started and `close` are entries of a log, the last one
-- first. `epoll_ctl` is compared by `< 0u`, which never holds.
pub mod Listening
use module_oriented_software.Common.{
  ℕ, ◌+◌, Bool, true, false, not, Option, none, some, List, [], ◌∷◌, length, if◌then◌else◌,
}
use module_oriented_software.TcpServer.{
  SockAddr, Code, code, negative, unset, Effect, on_receive, on_send, close, Run, ended, waits,
  undefined,
}

-- `running` is the state `RUNNING`.
pub record UdpSocket : Type 0 where
  pub sock_fd : ℕ
  pub running : Bool
  pub listen_enabled : Bool
  pub joinable : Bool
  pub log : List Effect

-- `sendto`: it sends some bytes or none, it would block, where `select` answers whether it can go on or, if not, with 0
-- for the time or less for an error, or there is an error, which all have one treatment.
pub data SendtoAnswer : Type 0 where
  sends : ℕ → SendtoAnswer
  sends_nothing send_ready send_times_out send_select_fails send_fails : SendtoAnswer

-- From the label `sendto`, given what is returned where `n` bytes were sent.
unfoldable pub sendto :
    (ℕ → Code) → SockAddr → List ℕ → List SendtoAnswer → UdpSocket → Run (UdpSocket × Code)
sendto result to msg [] s = waits
sendto result to msg (send_ready ∷ answers) s = sendto result to msg answers s
sendto result to msg (sends_nothing ∷ answers) s = ended (s, code 0)
sendto result to msg (send_times_out ∷ answers) s = ended (s, code 0)
sendto result to msg (send_select_fails ∷ answers) s = ended (s, negative)
sendto result to msg (send_fails ∷ answers) s = ended (s, negative)
sendto result to msg (sends n ∷ answers) s =
    ended (record s { log = on_send to msg ∷ s.log }, result n)

-- `send` to the broadcast address, given what `getaddrinfo` makes of it.
unfoldable pub send_broadcast :
    Option SockAddr → List ℕ → List SendtoAnswer → UdpSocket → Run (UdpSocket × Code)
unfolding sendto
send_broadcast none msg answers s = ended (s, negative)
send_broadcast (some to) msg answers s = sendto code to msg answers s

-- `send` to an address: behind the hook nothing is returned.
unfoldable pub send :
    Option SockAddr → List ℕ → List SendtoAnswer → UdpSocket → Run (UdpSocket × Code)
unfolding sendto
send none msg answers s = ended (s, negative)
send (some to) msg answers s = sendto (λ n. unset) to msg answers s

-- `recvfrom`: a datagram of at least one byte, none, it would block, as for `sendto`, or there is an error.
pub data RecvfromAnswer : Type 0 where
  gets : SockAddr → ℕ → List ℕ → RecvfromAnswer
  gets_nothing recv_ready recv_times_out recv_select_fails recv_fails : RecvfromAnswer

-- An event of `epoll_wait`: that the socket can be read, with the answers of `ioctl` and `recvfrom`, or another.
pub data UdpEvent : Type 0 where
  readable : Bool → List RecvfromAnswer → UdpEvent
  other_event : UdpEvent

-- What the handling of one event comes to: the loop goes on with the bytes that it has read, or `recv` returns.
pub data UdpProgress : Type 0 where
  goes_on : ℕ → UdpSocket → UdpProgress
  returns : UdpSocket → Code → UdpProgress
  blocks : UdpProgress

-- From the label `recv`; the number is `recvd_size`.
unfoldable pub recvfrom : ℕ → List RecvfromAnswer → UdpSocket → UdpProgress
recvfrom size [] s = blocks
recvfrom size (recv_ready ∷ answers) s = recvfrom size answers s
recvfrom size (recv_times_out ∷ answers) s = returns s (code 0)
recvfrom size (recv_select_fails ∷ answers) s = returns s negative
recvfrom size (recv_fails ∷ answers) s = returns s negative
recvfrom size (gets_nothing ∷ answers) s = goes_on size s
recvfrom size (gets from b bytes ∷ answers) s =
    goes_on (size + length (b ∷ bytes)) (record s { log = on_receive from (b ∷ bytes) ∷ s.log })

unfoldable pub udp_event : ℕ → UdpEvent → UdpSocket → UdpProgress
unfolding recvfrom
udp_event size other_event s = goes_on size s
udp_event size (readable false answers) s = returns s negative
udp_event size (readable true answers) s = recvfrom size answers s

-- The loop of `recv`
unfoldable pub udp_events : ℕ → List UdpEvent → UdpSocket → Run (UdpSocket × Code)
unfolding udp_event
udp_events size [] s = ended (s, code size)
udp_events size (e ∷ es) s = elim (udp_event size e s) [
  | goes_on size' s' ↦ udp_events size' es s'
  | returns s' c ↦ ended (s', c)
  | blocks ↦ waits
]

-- `recv`, given the events of `epoll_wait`, which fails at `none`.
unfoldable pub recv : Option (List UdpEvent) → UdpSocket → Run (UdpSocket × Code)
unfolding udp_events
recv none s = ended (s, negative)
recv (some es) s = udp_events 0 es s

-- The loop of `listen_`: so many rounds, before the thread that `start` makes for a duration sets `listen_enabled_` to false.
unfoldable pub listen_rounds : List (Option (List UdpEvent)) → UdpSocket → Run UdpSocket
unfolding recv
listen_rounds [] s = ended (record s { listen_enabled = false; running = false })
listen_rounds (r ∷ rs) s = elim (recv r s) [
  | ended (t, c) ↦ listen_rounds rs t
  | waits ↦ waits
  | undefined ↦ undefined
]

unfoldable pub listen_ : List (Option (List UdpEvent)) → UdpSocket → Run UdpSocket
unfolding listen_rounds
listen_ rs s = listen_rounds rs (record s { listen_enabled = true; running = true })

-- The rounds of a thread that goes on: neither a duration is over nor is it stopped.
unfoldable pub rounds_so_far : List (Option (List UdpEvent)) → UdpSocket → Run UdpSocket
unfolding recv
rounds_so_far [] s = ended s
rounds_so_far (r ∷ rs) s = elim (recv r s) [
  | ended (t, c) ↦ rounds_so_far rs t
  | waits ↦ waits
  | undefined ↦ undefined
]

-- `listen_` in the thread of `start()`, up to such a point; `stop` ends it there.
unfoldable pub listen_so_far : List (Option (List UdpEvent)) → UdpSocket → Run UdpSocket
unfolding rounds_so_far
listen_so_far rs s = rounds_so_far rs (record s { listen_enabled = true; running = true })

-- `stop`: where there is a thread to join, its `listen_` ends.
unfoldable pub stop : UdpSocket → UdpSocket × Code
stop s =
    if s.listen_enabled
    then if s.joinable
      then (record s { listen_enabled = false; joinable = false; running = false }, code 0)
      else (record s { listen_enabled = false }, negative)
    else (s, negative)

-- `start()`: the thread of `listen_` is made.
unfoldable pub start : UdpSocket → UdpSocket
start s = record s { joinable = true }

-- `clear_` of a server goes on where `stop` fails; that of a client only closes.
unfoldable pub clear_ : Bool → UdpSocket → UdpSocket
unfolding stop
clear_ server s =
    let s' = if server then (stop s).0 else s in record s' { log = close s'.sock_fd ∷ s'.log }

-- What `setup_` is answered by `getaddrinfo`, `socket`, `setsockopt` each time, and `bind`.
pub record UdpSetup : Type 0 where
  pub resolved : Bool
  pub opened : Option ℕ
  pub options : Bool
  pub bound : Bool

-- `setup_` of a multicast socket with `open_` and `bind_`, whose result it does not read. A client is not bound.
unfoldable pub setup : Bool → UdpSetup → UdpSocket → UdpSocket × Code
unfolding clear_
setup server q s =
    if q.resolved
    then (elim q.opened [
      | none ↦ (clear_ server s, negative)
      | some fd ↦
          let s' = record s { sock_fd = fd } in
          if q.options
          then if server
            then (if q.bound then (s', code 0) else (clear_ server s', code 0))
            else (s', code 0)
          else (s', negative)
    ])
    else (s, negative)
