-- ===== src/DomainUdp/Calls.antt =====
-- What is done with a socket of env/inc/domain_udp_sock.hpp, done with one of env/inc/network_udp_sock.hpp.
use module_oriented_software.Common.{
  ℕ, ◌≡◌, refl, sym, ap, ltb, Bool, true, false, Option, none, some, List, [], ◌∷◌, length, arith,
}
use module_oriented_software.TcpServer.{SockAddr, Run, ended, waits, undefined}
use module_oriented_software.UdpSocket.{
  UdpSocket, SendtoAnswer, send, recv, listen_, listen_so_far, stop, start, clear_, UdpSetup, setup,
}
use module_oriented_software.DomainServer.Copies.{copy_path_within}
use module_oriented_software.DomainServer.{strncpy, UnixPath}
use module_oriented_software.DomainUdp.{
  DomainUdp, datagram_send, DatagramEvent, datagram_recv, datagram_listen, datagram_listen_so_far,
  datagram_stop, datagram_start, datagram_clear, DatagramSetup, datagram_open,
  datagram_server_setup, datagram_client_setup,
}
use module_oriented_software.DomainUdp.Network.{
  after, udp_of, udp_run, round_of, rounds_of, after-SameRun, datagram_sendto-udp_of,
  datagram_recv-udp_of, datagram_rounds-udp_of, datagram_rounds_so_far-udp_of,
}

-- What is done with a socket for paths; `listens` is a thread until its duration is over, `listens_so_far` one that goes on: by a server, where the test says so, or by a client.
pub data Call : Type 0 where
  sends_to : UnixPath → List ℕ → List SendtoAnswer → Call
  receives : Option (List DatagramEvent) → Call
  listens listens_so_far : List (Option (List DatagramEvent)) → Call
  starts_ stops_ : Call
  clears : Bool → Call
  sets_up : UnixPath → DatagramSetup → Call
  sets_up_client : DatagramSetup → Call

unfoldable pub domain_call : Call → DomainUdp → Run DomainUdp
unfolding datagram_send datagram_recv datagram_listen datagram_listen_so_far datagram_start
    datagram_stop datagram_clear datagram_server_setup datagram_client_setup
domain_call (sends_to path msg answers) s = after (datagram_send path msg answers s)
domain_call (receives es) s = after (datagram_recv es s)
domain_call (listens rs) s = datagram_listen rs s
domain_call (listens_so_far rs) s = datagram_listen_so_far rs s
domain_call starts_ s = ended (datagram_start s)
domain_call stops_ s = ended (datagram_stop s).0
domain_call (clears server) s = ended (datagram_clear server s)
domain_call (sets_up path q) s = after (datagram_server_setup path q s)
domain_call (sets_up_client q) s = ended (datagram_client_setup q s).0

-- The calls, one after the other, as long as each returns.
unfoldable pub domain_calls : List Call → DomainUdp → Run DomainUdp
unfolding domain_call
domain_calls [] s = ended s
domain_calls (c ∷ cs) s = elim (domain_call c s) [
  | ended t ↦ domain_calls cs t
  | waits ↦ waits
  | undefined ↦ undefined
]

-- The path of a server has room in a `sun_path`.
abbrev pub AllFit : List Call → Type 0
AllFit [] = Unit {0}
AllFit (sets_up path q ∷ cs) = (ltb 108 (length path) ≡ false) × AllFit cs
AllFit (c ∷ cs) = AllFit cs

module _ (f : UnixPath → SockAddr) where
  abbrev setup_of : DatagramSetup → UdpSetup
  setup_of q = record { resolved = true; opened = q.opened; options = q.options; bound = q.bound }

  -- The same call of a socket for addresses.
  unfoldable pub udp_call : Call → UdpSocket → Run UdpSocket
  unfolding send recv listen_ listen_so_far start stop clear_ setup
  udp_call (sends_to path msg answers) s = after (send (some (f (strncpy 107 path))) msg answers s)
  udp_call (receives es) s = after (recv (round_of f es) s)
  udp_call (listens rs) s = listen_ (rounds_of f rs) s
  udp_call (listens_so_far rs) s = listen_so_far (rounds_of f rs) s
  udp_call starts_ s = ended (start s)
  udp_call stops_ s = ended (stop s).0
  udp_call (clears server) s = ended (clear_ server s)
  udp_call (sets_up path q) s = ended (setup true (setup_of q) s).0
  udp_call (sets_up_client q) s = ended (setup false (setup_of q) s).0

  unfoldable pub udp_calls : List Call → UdpSocket → Run UdpSocket
  unfolding udp_call
  udp_calls [] s = ended s
  udp_calls (c ∷ cs) s = elim (udp_call c s) [
    | ended t ↦ udp_calls cs t
    | waits ↦ waits
    | undefined ↦ undefined
  ]

  datagram_stop-udp_of : (s : DomainUdp) → udp_of f (datagram_stop s).0 ≡ (stop (udp_of f s)).0
  unfolding datagram_stop stop
  datagram_stop-udp_of s = ground arith

  datagram_clear-udp_of :
      (server : Bool) (s : DomainUdp)
      → udp_of f (datagram_clear server s) ≡ clear_ server (udp_of f s)
  unfolding datagram_clear datagram_stop clear_ stop
  datagram_clear-udp_of server s = ground arith

  open-udp_of :
      (opened : Option ℕ) (options bound : Bool) (s : DomainUdp)
      → let q : DatagramSetup = record { opened = opened; options = options; bound = bound } in
        udp_of f (datagram_open q s).0 ≡ (setup true (setup_of q) (udp_of f s)).0
  unfolding datagram_open setup
  open-udp_of none options bound s = datagram_clear-udp_of true s
  open-udp_of (some fd) false bound s = refl
  open-udp_of (some fd) true true s = refl
  open-udp_of (some fd) true false s = datagram_clear-udp_of true (record s { sock_fd = fd })

  client_setup-udp_of :
      (opened : Option ℕ) (options bound : Bool) (s : DomainUdp)
      → let q : DatagramSetup = record { opened = opened; options = options; bound = bound } in
        udp_of f (datagram_client_setup q s).0 ≡ (setup false (setup_of q) (udp_of f s)).0
  unfolding datagram_client_setup setup
  client_setup-udp_of none options bound s = datagram_clear-udp_of false s
  client_setup-udp_of (some fd) false bound s = refl
  client_setup-udp_of (some fd) true bound s = refl

  server_setup_lem :
      (path : UnixPath) (q : DatagramSetup) (s : DomainUdp)
      → ltb 108 (length path) ≡ false
      → udp_run f (after (datagram_server_setup path q s))
        ≡ ended (setup true (setup_of q) (udp_of f s)).0
  unfolding datagram_server_setup
  server_setup_lem path q s e =
      rw (datagram_server_setup, copy_path_within path e)
        (ap ended (open-udp_of q.opened q.options q.bound s))

  domain_call-udp_of :
      (c : Call) (s : DomainUdp)
      → AllFit (c ∷ [])
      → udp_run f (domain_call c s) ≡ udp_call c (udp_of f s)
  unfolding domain_call udp_call datagram_send send datagram_listen listen_ datagram_listen_so_far
      listen_so_far datagram_start start
  domain_call-udp_of (sends_to path msg answers) s h =
      datagram_sendto-udp_of f (strncpy 107 path) msg answers s
  domain_call-udp_of (receives es) s h =
      after-SameRun f (datagram_recv es s) (recv (round_of f es) (udp_of f s))
        (datagram_recv-udp_of f es s)
  domain_call-udp_of (listens rs) s h =
      datagram_rounds-udp_of f rs (record s { listen_enabled = true; running = true })
  domain_call-udp_of (listens_so_far rs) s h =
      datagram_rounds_so_far-udp_of f rs (record s { listen_enabled = true; running = true })
  domain_call-udp_of starts_ s h = refl
  domain_call-udp_of stops_ s h = ap ended (datagram_stop-udp_of s)
  domain_call-udp_of (clears server) s h = ap ended (datagram_clear-udp_of server s)
  domain_call-udp_of (sets_up path q) s (e, h) = server_setup_lem path q s e
  domain_call-udp_of (sets_up_client q) s h =
      ap ended (client_setup-udp_of q.opened q.options q.bound s)

  AllFit-head : (c : Call) (cs : List Call) → AllFit (c ∷ cs) → AllFit (c ∷ []) × AllFit cs
  AllFit-head (sends_to path msg answers) cs h = (tt, h)
  AllFit-head (receives es) cs h = (tt, h)
  AllFit-head (listens rs) cs h = (tt, h)
  AllFit-head (listens_so_far rs) cs h = (tt, h)
  AllFit-head starts_ cs h = (tt, h)
  AllFit-head stops_ cs h = (tt, h)
  AllFit-head (clears server) cs h = (tt, h)
  AllFit-head (sets_up path q) cs (e, h) = ((e, tt), h)
  AllFit-head (sets_up_client q) cs h = (tt, h)

  -- One call in front of others that agree.
  domain_calls-turn :
      (c : Call) (cs : List Call) (s : DomainUdp) (a : Run DomainUdp)
      → domain_call c s ≡ a
      → udp_call c (udp_of f s) ≡ udp_run f a
      → ((t : DomainUdp) → udp_run f (domain_calls cs t) ≡ udp_calls cs (udp_of f t))
      → udp_run f (domain_calls (c ∷ cs) s) ≡ udp_calls (c ∷ cs) (udp_of f s)
  unfolding domain_calls udp_calls
  domain_calls-turn c cs s (ended t) h e ih = rw (domain_calls, h, udp_calls, e) (ih t)
  domain_calls-turn c cs s waits h e ih = rw (domain_calls, h, udp_calls, e) refl
  domain_calls-turn c cs s undefined h e ih = rw (domain_calls, h, udp_calls, e) refl

  -- Any sequence of calls of sockets for datagrams over paths, in which a server is set up with paths of at most 108 bytes, leaves,
  -- where each path stands for an address, the state that the same calls of a socket over IP leave, with
  -- the same hooks started and the same descriptors closed, and the one waits where the other does.
  pub domain_calls-udp_of :
      (cs : List Call) (s : DomainUdp)
      → AllFit cs
      → udp_run f (domain_calls cs s) ≡ udp_calls cs (udp_of f s)
  unfolding domain_calls udp_calls
  domain_calls-udp_of [] s h = refl
  domain_calls-udp_of (c ∷ cs) s h =
      let (h1, hs) = AllFit-head c cs h in
      domain_calls-turn c cs s (domain_call c s) refl (sym (domain_call-udp_of c s h1))
        (λ t. domain_calls-udp_of cs t hs)
