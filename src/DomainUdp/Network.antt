-- ===== src/DomainUdp/Network.antt =====
-- How the socket of env/inc/domain_udp_sock.hpp and that of env/inc/network_udp_sock.hpp agree.
use module_oriented_software.Common.{ℕ, ◌≡◌, refl, true, false, Option, none, some, List, [], ◌∷◌}
use module_oriented_software.TcpServer.{
  SockAddr, Code, code, negative, unset, Run, ended, waits, undefined,
}
use module_oriented_software.UdpSocket.{
  UdpSocket, SendtoAnswer, sends, sends_nothing, send_ready, send_times_out, send_select_fails,
  send_fails, sendto, RecvfromAnswer, gets, gets_nothing, recv_ready, recv_times_out,
  recv_select_fails, recv_fails, UdpEvent, readable, other_event, UdpProgress, goes_on, returns,
  blocks, recvfrom, udp_event, udp_events, recv, listen_rounds,
}
use module_oriented_software.UdpSocket.{rounds_so_far}
use module_oriented_software.DomainUdp.{datagram_rounds_so_far}
use module_oriented_software.DomainServer.{UnixPath}
use module_oriented_software.DomainServer.Network.{log_of}
use module_oriented_software.DomainUdp.{
  DomainUdp, datagram_sendto, DatagramAnswer, brings, brings_nothing, datagram_ready,
  datagram_times_out, datagram_select_fails, datagram_fails, DatagramEvent, can_be_read,
  another_event, DatagramProgress, continues, gives, stays, datagram_recvfrom, datagram_event,
  datagram_events, datagram_recv, datagram_rounds,
}

-- What is left of a call, without its code.
abbrev pub after : {A : Type 0} → Run (A × Code) → Run A
after (ended (t, c)) = ended t
after waits = waits
after undefined = undefined

module _ (f : UnixPath → SockAddr) where
  -- A socket for paths as one for addresses, where each path stands for an address.
  abbrev pub udp_of : DomainUdp → UdpSocket
  udp_of s = record {
    sock_fd = s.sock_fd;
    running = s.running;
    listen_enabled = s.listen_enabled;
    joinable = s.joinable;
    log = log_of f s.log;
  }

  abbrev pub udp_run : Run DomainUdp → Run UdpSocket
  udp_run (ended s) = ended (udp_of s)
  udp_run waits = waits
  udp_run undefined = undefined

  abbrev pub answers_of : List DatagramAnswer → List RecvfromAnswer
  answers_of [] = []
  answers_of (brings from b bytes ∷ answers) = gets (f from) b bytes ∷ answers_of answers
  answers_of (brings_nothing ∷ answers) = gets_nothing ∷ answers_of answers
  answers_of (datagram_ready ∷ answers) = recv_ready ∷ answers_of answers
  answers_of (datagram_times_out ∷ answers) = recv_times_out ∷ answers_of answers
  answers_of (datagram_select_fails ∷ answers) = recv_select_fails ∷ answers_of answers
  answers_of (datagram_fails ∷ answers) = recv_fails ∷ answers_of answers

  abbrev pub events_of : List DatagramEvent → List UdpEvent
  events_of [] = []
  events_of (another_event ∷ es) = other_event ∷ events_of es
  events_of (can_be_read b answers ∷ es) = readable b (answers_of answers) ∷ events_of es

  abbrev pub round_of : Option (List DatagramEvent) → Option (List UdpEvent)
  round_of none = none
  round_of (some es) = some (events_of es)

  abbrev pub rounds_of : List (Option (List DatagramEvent)) → List (Option (List UdpEvent))
  rounds_of [] = []
  rounds_of (r ∷ rs) = round_of r ∷ rounds_of rs

  -- The same end of a call, up to the code that is returned.
  abbrev pub SameRun : Run (DomainUdp × Code) → Run (UdpSocket × Code) → Type 0
  SameRun (ended (t, c)) r = (d : Code) × (r ≡ ended (udp_of t, d))
  SameRun waits r = r ≡ waits
  SameRun undefined r = r ≡ undefined

  pub after-SameRun :
      (a : Run (DomainUdp × Code)) (b : Run (UdpSocket × Code))
      → SameRun a b
      → udp_run (after a) ≡ after b
  after-SameRun (ended (t, c)) b (d, e) = rw (e) refl
  after-SameRun waits b e = rw (e) refl
  after-SameRun undefined b e = rw (e) refl

  pub datagram_sendto-udp_of :
      (to : UnixPath) (msg : List ℕ) (answers : List SendtoAnswer) (s : DomainUdp)
      → udp_run (after (datagram_sendto to msg answers s))
        ≡ after (sendto (λ n. unset) (f to) msg answers (udp_of s))
  unfolding datagram_sendto sendto
  datagram_sendto-udp_of to msg [] s = refl
  datagram_sendto-udp_of to msg (send_ready ∷ answers) s = datagram_sendto-udp_of to msg answers s
  datagram_sendto-udp_of to msg (sends_nothing ∷ answers) s = refl
  datagram_sendto-udp_of to msg (send_times_out ∷ answers) s = refl
  datagram_sendto-udp_of to msg (send_select_fails ∷ answers) s = refl
  datagram_sendto-udp_of to msg (send_fails ∷ answers) s = refl
  datagram_sendto-udp_of to msg (sends n ∷ answers) s = refl

  -- What becomes of an event, up to the code that is returned.
  abbrev SameProgress : DatagramProgress → UdpProgress → Type 0
  SameProgress (continues size s) p = p ≡ goes_on size (udp_of s)
  SameProgress (gives s c) p = (d : Code) × (p ≡ returns (udp_of s) d)
  SameProgress stays p = p ≡ blocks

  datagram_recvfrom-udp_of :
      (rc size : ℕ) (answers : List DatagramAnswer) (s : DomainUdp)
      → SameProgress
          (datagram_recvfrom rc size answers s)
          (recvfrom size (answers_of answers) (udp_of s))
  unfolding datagram_recvfrom recvfrom
  datagram_recvfrom-udp_of rc size [] s = refl
  datagram_recvfrom-udp_of rc size (datagram_ready ∷ answers) s =
      datagram_recvfrom-udp_of 1 size answers s
  datagram_recvfrom-udp_of rc size (datagram_times_out ∷ answers) s = (code 0, refl)
  datagram_recvfrom-udp_of rc size (datagram_select_fails ∷ answers) s = (negative, refl)
  datagram_recvfrom-udp_of rc size (datagram_fails ∷ answers) s = (negative, refl)
  datagram_recvfrom-udp_of rc size (brings_nothing ∷ answers) s = refl
  datagram_recvfrom-udp_of rc size (brings from b bytes ∷ answers) s = refl

  datagram_event-udp_of :
      (size : ℕ) (e : DatagramEvent) (es : List DatagramEvent) (s : DomainUdp)
      → (q : UdpEvent) × (events_of (e ∷ es) ≡ q ∷ events_of es)
        × SameProgress (datagram_event size e s) (udp_event size q (udp_of s))
  unfolding datagram_event udp_event
  datagram_event-udp_of size another_event es s = (other_event, refl, refl)
  datagram_event-udp_of size (can_be_read false answers) es s =
      (readable false (answers_of answers), refl, (negative, refl))
  datagram_event-udp_of size (can_be_read true answers) es s =
      (readable true (answers_of answers), refl, datagram_recvfrom-udp_of 0 size answers s)

  -- One turn of both loops, where the rest of them agrees.
  datagram_events-turn :
      (size : ℕ) (e : DatagramEvent) (es : List DatagramEvent) (s : DomainUdp) (q : UdpEvent)
      (p : DatagramProgress)
      → datagram_event size e s ≡ p
      → SameProgress p (udp_event size q (udp_of s))
      → ((size' : ℕ) (s' : DomainUdp)
          → SameRun (datagram_events size' es s') (udp_events size' (events_of es) (udp_of s')))
      → SameRun (datagram_events size (e ∷ es) s) (udp_events size (q ∷ events_of es) (udp_of s))
  unfolding datagram_events udp_events
  datagram_events-turn size e es s q (continues size' s') h g ih =
      rw (datagram_events, h, udp_events, g) (ih size' s')
  datagram_events-turn size e es s q (gives s' c) h (d, g) ih =
      rw (datagram_events, h, udp_events, g) (d, refl)
  datagram_events-turn size e es s q stays h g ih = rw (datagram_events, h, udp_events, g) refl

  datagram_events-udp_of :
      (size : ℕ) (es : List DatagramEvent) (s : DomainUdp)
      → SameRun (datagram_events size es s) (udp_events size (events_of es) (udp_of s))
  unfolding datagram_events udp_events
  datagram_events-udp_of size [] s = (code size, refl)
  datagram_events-udp_of size (e ∷ es) s =
      let (q, eq, h) = datagram_event-udp_of size e es s in
      rw (eq) (
        datagram_events-turn size e es s q (datagram_event size e s) refl h
          (λ size' s'. datagram_events-udp_of size' es s'))

  pub datagram_recv-udp_of :
      (es : Option (List DatagramEvent)) (s : DomainUdp)
      → SameRun (datagram_recv es s) (recv (round_of es) (udp_of s))
  unfolding datagram_recv recv
  datagram_recv-udp_of none s = (negative, refl)
  datagram_recv-udp_of (some es) s = datagram_events-udp_of 0 es s

  -- One round, whatever its reading comes to.
  datagram_rounds-turn :
      (r : Option (List DatagramEvent)) (rs : List (Option (List DatagramEvent))) (s : DomainUdp)
      (a : Run (DomainUdp × Code))
      → datagram_recv r s ≡ a
      → SameRun a (recv (round_of r) (udp_of s))
      → ((t : DomainUdp) → udp_run (datagram_rounds rs t) ≡ listen_rounds (rounds_of rs) (udp_of t))
      → udp_run (datagram_rounds (r ∷ rs) s) ≡ listen_rounds (rounds_of (r ∷ rs)) (udp_of s)
  unfolding datagram_rounds listen_rounds
  datagram_rounds-turn r rs s (ended (t, c)) h (d, e) ih =
      rw (datagram_rounds, h, listen_rounds, e) (ih t)
  datagram_rounds-turn r rs s waits h e ih = rw (datagram_rounds, h, listen_rounds, e) refl
  datagram_rounds-turn r rs s undefined h e ih = rw (datagram_rounds, h, listen_rounds, e) refl

  pub datagram_rounds-udp_of :
      (rs : List (Option (List DatagramEvent))) (s : DomainUdp)
      → udp_run (datagram_rounds rs s) ≡ listen_rounds (rounds_of rs) (udp_of s)
  unfolding datagram_rounds listen_rounds
  datagram_rounds-udp_of [] s = refl
  datagram_rounds-udp_of (r ∷ rs) s =
      datagram_rounds-turn r rs s (datagram_recv r s) refl (datagram_recv-udp_of r s)
        (λ t. datagram_rounds-udp_of rs t)

  -- The same of a thread that goes on.
  datagram_rounds_so_far-turn :
      (r : Option (List DatagramEvent)) (rs : List (Option (List DatagramEvent))) (s : DomainUdp)
      (a : Run (DomainUdp × Code))
      → datagram_recv r s ≡ a
      → SameRun a (recv (round_of r) (udp_of s))
      → ((t : DomainUdp)
          → udp_run (datagram_rounds_so_far rs t) ≡ rounds_so_far (rounds_of rs) (udp_of t))
      → udp_run (datagram_rounds_so_far (r ∷ rs) s) ≡ rounds_so_far (rounds_of (r ∷ rs)) (udp_of s)
  unfolding datagram_rounds_so_far rounds_so_far
  datagram_rounds_so_far-turn r rs s (ended (t, c)) h (d, e) ih =
      rw (datagram_rounds_so_far, h, rounds_so_far, e) (ih t)
  datagram_rounds_so_far-turn r rs s waits h e ih =
      rw (datagram_rounds_so_far, h, rounds_so_far, e) refl
  datagram_rounds_so_far-turn r rs s undefined h e ih =
      rw (datagram_rounds_so_far, h, rounds_so_far, e) refl

  pub datagram_rounds_so_far-udp_of :
      (rs : List (Option (List DatagramEvent))) (s : DomainUdp)
      → udp_run (datagram_rounds_so_far rs s) ≡ rounds_so_far (rounds_of rs) (udp_of s)
  unfolding datagram_rounds_so_far rounds_so_far
  datagram_rounds_so_far-udp_of [] s = refl
  datagram_rounds_so_far-udp_of (r ∷ rs) s =
      datagram_rounds_so_far-turn r rs s (datagram_recv r s) refl (datagram_recv-udp_of r s)
        (λ t. datagram_rounds_so_far-udp_of rs t)
