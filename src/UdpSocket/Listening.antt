-- ===== src/UdpSocket/Listening.antt =====
-- env/inc/network_udp_sock.hpp: which datagrams a listening socket hands on, and what its set-up reports.
use module_oriented_software.Common.{
  ℕ, zero, suc, ◌≡◌, refl, true, false, if◌then◌else◌, Option, some, List, [], ◌∷◌, length, ◌+◌,
  arith,
}
use module_oriented_software.TcpServer.{
  SockAddr, Code, code, negative, Effect, on_receive, close, ended,
}
use module_oriented_software.UdpSocket.{
  UdpSocket, RecvfromAnswer, gets, gets_nothing, recv_ready, recv_times_out, recv_select_fails,
  recv_fails, UdpEvent, readable, other_event, recvfrom, udp_event, udp_events, recv, listen_rounds,
  listen_, clear_, stop, UdpSetup, setup,
}

-- How the reading of one event ends: with a datagram, an empty one, another event, or a failure.
pub data Outcome : Type 0 where
  datagram : SockAddr → ℕ → List ℕ → Outcome
  empty unrelated times_out select_fails fails unread : Outcome

-- An event, after a number of times that the socket would block and becomes ready.
abbrev pub Arrival : Type 0
Arrival = ℕ × Outcome

abbrev pub after_ready : ℕ → RecvfromAnswer → List RecvfromAnswer
after_ready zero a = a ∷ []
after_ready (suc n) a = recv_ready ∷ after_ready n a

abbrev pub event_of : Arrival → UdpEvent
event_of (n, datagram from b bytes) = readable true (after_ready n (gets from b bytes))
event_of (n, empty) = readable true (after_ready n gets_nothing)
event_of (n, times_out) = readable true (after_ready n recv_times_out)
event_of (n, select_fails) = readable true (after_ready n recv_select_fails)
event_of (n, fails) = readable true (after_ready n recv_fails)
event_of (n, unread) = readable false []
event_of (n, unrelated) = other_event

abbrev pub events_of : List Arrival → List UdpEvent
events_of [] = []
events_of (a ∷ as') = event_of a ∷ events_of as'

abbrev pub rounds_of : List (List Arrival) → List (Option (List UdpEvent))
rounds_of [] = []
rounds_of (r ∷ rs) = some (events_of r) ∷ rounds_of rs

-- The hooks that are started for a round, behind those before: one for each datagram in front of a failure.
abbrev pub told : List Arrival → List Effect → List Effect
told [] log = log
told ((n, datagram from b bytes) ∷ as') log = told as' (on_receive from (b ∷ bytes) ∷ log)
told ((n, empty) ∷ as') log = told as' log
told ((n, unrelated) ∷ as') log = told as' log
told ((n, times_out) ∷ as') log = log
told ((n, select_fails) ∷ as') log = log
told ((n, fails) ∷ as') log = log
told ((n, unread) ∷ as') log = log

abbrev pub told_all : List (List Arrival) → List Effect → List Effect
told_all [] log = log
told_all (r ∷ rs) log = told_all rs (told r log)

udp_events-after_ready :
    (n size : ℕ) (a : RecvfromAnswer) (es : List UdpEvent) (s : UdpSocket)
    → udp_events size (readable true (after_ready n a) ∷ es) s
      ≡ udp_events size (readable true (a ∷ []) ∷ es) s
unfolding udp_events udp_event recvfrom
udp_events-after_ready zero size a es s = refl
udp_events-after_ready (suc n) size a es s = udp_events-after_ready n size a es s

-- A loop over the events of a round ends, with some code, and has started the hooks of the round.
udp_events-told :
    (size : ℕ) (as' : List Arrival) (s : UdpSocket)
    → (c : Code) × (udp_events size (events_of as') s
        ≡ ended (record s { log = told as' s.log }, c))
unfolding udp_events udp_event recvfrom
udp_events-told size [] s = (code size, refl)
udp_events-told size ((n, datagram from b bytes) ∷ as') s =
    rw (udp_events-after_ready n size (gets from b bytes) (events_of as') s) (
      udp_events-told (size + length (b ∷ bytes)) as'
        (record s { log = on_receive from (b ∷ bytes) ∷ s.log }))
udp_events-told size ((n, empty) ∷ as') s =
    rw (udp_events-after_ready n size gets_nothing (events_of as') s) (udp_events-told size as' s)
udp_events-told size ((n, unrelated) ∷ as') s = udp_events-told size as' s
udp_events-told size ((n, times_out) ∷ as') s =
    rw (udp_events-after_ready n size recv_times_out (events_of as') s) (code 0, refl)
udp_events-told size ((n, select_fails) ∷ as') s =
    rw (udp_events-after_ready n size recv_select_fails (events_of as') s) (negative, refl)
udp_events-told size ((n, fails) ∷ as') s =
    rw (udp_events-after_ready n size recv_fails (events_of as') s) (negative, refl)
udp_events-told size ((n, unread) ∷ as') s = (negative, refl)

listen_rounds-told :
    (rs : List (List Arrival)) (s : UdpSocket)
    → listen_rounds (rounds_of rs) s
      ≡ ended (record s { listen_enabled = false; running = false; log = told_all rs s.log })
unfolding listen_rounds recv
listen_rounds-told [] s = refl
listen_rounds-told (r ∷ rs) s =
    let (c, e) = udp_events-told 0 r s in
    rw (listen_rounds, e) (listen_rounds-told rs (record s { log = told r s.log }))

-- A listening socket hands every datagram that it reads to `on_receive`, once, in the order in which they come and with the
-- address that each came from, through all rounds and however often it would block. A failure costs the round the
-- events behind it and no later round; an empty datagram is dropped.
pub listen_-told :
    (rs : List (List Arrival)) (s : UdpSocket)
    → listen_ (rounds_of rs) s
      ≡ ended (record s { listen_enabled = false; running = false; log = told_all rs s.log })
unfolding listen_
listen_-told rs s = listen_rounds-told rs (record s { listen_enabled = true; running = true })

-- A server whose options are set reports success whether `bind` succeeds or not, since `setup_` does not read its result.
-- Where it did not, the socket is closed.
setup-bound :
    (q : UdpSetup) (fd : ℕ) (s : UdpSocket)
    → q.resolved ≡ true
    → q.opened ≡ some fd
    → q.options ≡ true
    → ((setup true q s).1 ≡ code 0)
      × ((setup true q s).0.sock_fd ≡ fd)
      × ((setup true q s).0.log ≡ (if q.bound then s.log else close fd ∷ s.log))
unfolding setup clear_ stop
setup-bound q fd s r o p = rw (r, o, p) (ground arith)
