-- ===== src/DomainUdp.antt =====
-- env/inc/domain_udp_sock.hpp: the socket of env/inc/network_udp_sock.hpp, written again for paths. As there, what the kernel answers is
-- given, and the log has its last entry first; `HOOK_ON` and `HOOK` are the behaviours.
pub mod Network
pub mod Calls
use module_oriented_software.Common.{
  ℕ, ◌+◌, ltb, Bool, true, false, Option, none, some, List, [], ◌∷◌, length, if◌then◌else◌,
}
use module_oriented_software.TcpServer.{Code, code, negative, unset, Run, ended, waits, undefined}
use module_oriented_software.UdpSocket.{
  SendtoAnswer, sends, sends_nothing, send_ready, send_times_out, send_select_fails, send_fails,
}
use module_oriented_software.DomainServer.{
  strncpy, copy_path, UnixPath, DomainEffect, tells_receive, tells_send, closes,
}

-- `running` is the state `RUNNING`.
pub record DomainUdp : Type 0 where
  pub sock_fd : ℕ
  pub running : Bool
  pub listen_enabled : Bool
  pub joinable : Bool
  pub log : List DomainEffect

-- From the label `sendto` of `send`: behind the hook nothing is returned.
unfoldable pub datagram_sendto :
    UnixPath → List ℕ → List SendtoAnswer → DomainUdp → Run (DomainUdp × Code)
datagram_sendto to msg [] s = waits
datagram_sendto to msg (send_ready ∷ answers) s = datagram_sendto to msg answers s
datagram_sendto to msg (sends_nothing ∷ answers) s = ended (s, code 0)
datagram_sendto to msg (send_times_out ∷ answers) s = ended (s, code 0)
datagram_sendto to msg (send_select_fails ∷ answers) s = ended (s, negative)
datagram_sendto to msg (send_fails ∷ answers) s = ended (s, negative)
datagram_sendto to msg (sends n ∷ answers) s =
    ended (record s { log = tells_send to msg ∷ s.log }, unset)

-- `send`: 107 bytes of the path are copied to the address.
unfoldable pub datagram_send :
    UnixPath → List ℕ → List SendtoAnswer → DomainUdp → Run (DomainUdp × Code)
unfolding datagram_sendto strncpy
datagram_send path msg answers s = datagram_sendto (strncpy 107 path) msg answers s

-- `recvfrom`: a datagram of at least one byte, none, it would block, where `select` answers, or there is an error.
pub data DatagramAnswer : Type 0 where
  brings : UnixPath → ℕ → List ℕ → DatagramAnswer
  brings_nothing datagram_ready datagram_times_out datagram_select_fails datagram_fails :
      DatagramAnswer

-- An event of `epoll_wait`: that the socket can be read, with the answers of `ioctl` and `recvfrom`, or another.
pub data DatagramEvent : Type 0 where
  can_be_read : Bool → List DatagramAnswer → DatagramEvent
  another_event : DatagramEvent

-- What the handling of one event comes to: the loop goes on with the bytes that it has read, or `recv` returns.
pub data DatagramProgress : Type 0 where
  continues : ℕ → DomainUdp → DatagramProgress
  gives : DomainUdp → Code → DatagramProgress
  stays : DatagramProgress

-- From the label `recv`. An error of `recvfrom` returns `rc`, the number that the last of `ioctl` and `select` answered, which is
-- 1 where `select` found the one descriptor ready; `size` is `recvd_size`.
unfoldable pub datagram_recvfrom : ℕ → ℕ → List DatagramAnswer → DomainUdp → DatagramProgress
datagram_recvfrom rc size [] s = stays
datagram_recvfrom rc size (datagram_ready ∷ answers) s = datagram_recvfrom 1 size answers s
datagram_recvfrom rc size (datagram_times_out ∷ answers) s = gives s (code 0)
datagram_recvfrom rc size (datagram_select_fails ∷ answers) s = gives s negative
datagram_recvfrom rc size (datagram_fails ∷ answers) s = gives s (code rc)
datagram_recvfrom rc size (brings_nothing ∷ answers) s = continues size s
datagram_recvfrom rc size (brings from b bytes ∷ answers) s =
    continues (size + length (b ∷ bytes))
      (record s { log = tells_receive from (b ∷ bytes) ∷ s.log })

unfoldable pub datagram_event : ℕ → DatagramEvent → DomainUdp → DatagramProgress
unfolding datagram_recvfrom
datagram_event size another_event s = continues size s
datagram_event size (can_be_read false answers) s = gives s negative
datagram_event size (can_be_read true answers) s = datagram_recvfrom 0 size answers s

-- The loop of `recv`
unfoldable pub datagram_events : ℕ → List DatagramEvent → DomainUdp → Run (DomainUdp × Code)
unfolding datagram_event
datagram_events size [] s = ended (s, code size)
datagram_events size (e ∷ es) s = elim (datagram_event size e s) [
  | continues size' s' ↦ datagram_events size' es s'
  | gives s' c ↦ ended (s', c)
  | stays ↦ waits
]

-- `recv`, given the events of `epoll_wait`, which fails at `none`.
unfoldable pub datagram_recv : Option (List DatagramEvent) → DomainUdp → Run (DomainUdp × Code)
unfolding datagram_events
datagram_recv none s = ended (s, negative)
datagram_recv (some es) s = datagram_events 0 es s

-- The loop of `listen_`: so many rounds, before the thread that `start` makes for a duration sets `listen_enabled_` to false.
unfoldable pub datagram_rounds : List (Option (List DatagramEvent)) → DomainUdp → Run DomainUdp
unfolding datagram_recv
datagram_rounds [] s = ended (record s { listen_enabled = false; running = false })
datagram_rounds (r ∷ rs) s = elim (datagram_recv r s) [
  | ended (t, c) ↦ datagram_rounds rs t
  | waits ↦ waits
  | undefined ↦ undefined
]

-- `listen_`
unfoldable pub datagram_listen : List (Option (List DatagramEvent)) → DomainUdp → Run DomainUdp
unfolding datagram_rounds
datagram_listen rs s = datagram_rounds rs (record s { listen_enabled = true; running = true })

-- The rounds of a thread that goes on: neither a duration is over nor is it stopped.
unfoldable pub datagram_rounds_so_far :
    List (Option (List DatagramEvent)) → DomainUdp → Run DomainUdp
unfolding datagram_recv
datagram_rounds_so_far [] s = ended s
datagram_rounds_so_far (r ∷ rs) s = elim (datagram_recv r s) [
  | ended (t, c) ↦ datagram_rounds_so_far rs t
  | waits ↦ waits
  | undefined ↦ undefined
]

-- `listen_` in the thread of `start()`, up to such a point; `stop` ends it there.
unfoldable pub datagram_listen_so_far :
    List (Option (List DatagramEvent)) → DomainUdp → Run DomainUdp
unfolding datagram_rounds_so_far
datagram_listen_so_far rs s =
    datagram_rounds_so_far rs (record s { listen_enabled = true; running = true })

-- `stop`: where there is a thread to join, its `listen_` ends.
unfoldable pub datagram_stop : DomainUdp → DomainUdp × Code
datagram_stop s =
    if s.listen_enabled
    then if s.joinable
      then (record s { listen_enabled = false; joinable = false; running = false }, code 0)
      else (record s { listen_enabled = false }, negative)
    else (s, negative)

-- `start()`: the thread of `listen_` is made.
unfoldable pub datagram_start : DomainUdp → DomainUdp
datagram_start s = record s { joinable = true }

-- `clear_` of a server goes on where `stop` fails; that of a client only closes.
unfoldable pub datagram_clear : Bool → DomainUdp → DomainUdp
unfolding datagram_stop
datagram_clear server s =
    let s' = if server then (datagram_stop s).0 else s in
    record s' { log = closes s'.sock_fd ∷ s'.log }

-- What `setup_` is answered by `socket`, `setsockopt` both times, and `bind`.
pub record DatagramSetup : Type 0 where
  pub opened : Option ℕ
  pub options : Bool
  pub bound : Bool

-- What `setup_` of a server does once the path is copied, with `open_` and `bind_`.
unfoldable pub datagram_open : DatagramSetup → DomainUdp → DomainUdp × Code
unfolding datagram_clear
datagram_open q s = elim q.opened [
  | none ↦ (datagram_clear true s, negative)
  | some fd ↦
      let s' = record s { sock_fd = fd } in
      if q.options
      then (if q.bound then (s', code 0) else (datagram_clear true s', negative))
      else (s', negative)
]

-- `setup_` of a server: the path is first copied into a `sun_path`.
unfoldable pub datagram_server_setup : UnixPath → DatagramSetup → DomainUdp → Run (DomainUdp × Code)
unfolding copy_path datagram_open
datagram_server_setup path q s = elim (copy_path path) [
  | none ↦ undefined
  | some sun_path ↦ ended (datagram_open q s)
]

-- `setup_` of a client, with `open_`
unfoldable pub datagram_client_setup : DatagramSetup → DomainUdp → DomainUdp × Code
unfolding datagram_clear
datagram_client_setup q s = elim q.opened [
  | none ↦ (datagram_clear false s, negative)
  | some fd ↦ (record s { sock_fd = fd }, if q.options then code 0 else negative)
]
