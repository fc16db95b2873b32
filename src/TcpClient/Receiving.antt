-- ===== src/TcpClient/Receiving.antt =====
-- What `recv_` hands on, and what a connection comes to.
use module_oriented_software.Common.{
  ℕ, zero, suc, ◌≡◌, refl, ◌∙◌, ◌+◌, true, some, List, [], ◌∷◌, ◌++◌, length, arith, ap,
  if◌then◌else◌,
}
use module_oriented_software.TcpServer.{
  connected, connecting, SockAddr, code, negative, Effect, on_connect, on_receive, ended,
}
use module_oriented_software.TcpClient.{
  TcpClient, is_connected, RecvAnswer, gets, recv_ready, Event, readable, recv_one, recv_event,
  recv_events, recv_, connect_events, connect_, ConnectEvent, not_mine, getsockopt_fails,
  epoll_error, no_error,
}
use module_oriented_software.TcpClient.Told.{Others}

-- A chunk of bytes, after a number of times that the socket would block and becomes ready.
abbrev pub Chunk : Type 0
Chunk = ℕ × List ℕ

abbrev pub answers_of : ℕ → List ℕ → List RecvAnswer
answers_of zero bytes = gets bytes ∷ []
answers_of (suc n) bytes = recv_ready ∷ answers_of n bytes

abbrev pub events_of : List Chunk → List Event
events_of [] = []
events_of ((n, bytes) ∷ cs) = readable true (answers_of n bytes) ∷ events_of cs

abbrev pub total : List Chunk → ℕ
total [] = 0
total ((n, bytes) ∷ cs) = length bytes + total cs

-- What `on_receive` is started with, behind what the log has.
abbrev pub received : SockAddr → List Chunk → List Effect → List Effect
received peer [] log = log
received peer ((n, bytes) ∷ cs) log = received peer cs (on_receive peer bytes ∷ log)

recv_events_chunk :
    (n size : ℕ) (bytes : List ℕ) (es : List Event) (s : TcpClient)
    → recv_events size (readable true (answers_of n bytes) ∷ es) s
      ≡ recv_events (size + length bytes) es (record s { log = on_receive s.peer bytes ∷ s.log })
unfolding recv_events recv_event recv_one
recv_events_chunk zero size bytes es s = refl
recv_events_chunk (suc n) size bytes es s = recv_events_chunk n size bytes es s

recv_events_chunks :
    (size : ℕ) (cs : List Chunk) (s : TcpClient)
    → recv_events size (events_of cs) s
      ≡ ended (record s { log = received s.peer cs s.log }, code (size + total cs))
recv_events_chunks size [] s = unfold recv_events in ap (λ k. ended (s, code k)) (omega arith)
recv_events_chunks size ((n, bytes) ∷ cs) s =
    recv_events_chunk n size bytes (events_of cs) s
    ∙ recv_events_chunks (size + length bytes) cs
        (record s { log = on_receive s.peer bytes ∷ s.log })
    ∙ ap (λ k. ended (record s { log = received s.peer ((n, bytes) ∷ cs) s.log }, code k))
        (omega arith)

-- Where every event of the socket brings bytes, after any number of times that it would block, `recv_` hands the
-- bytes of each event to `on_receive`, in their order and with the connected peer, returns how many they
-- were, and stays connected. That holds of an event with no bytes too, which is how a peer closes a connection.
pub receives_all :
    (cs : List Chunk) (s : TcpClient)
    → recv_ (some (events_of cs)) s
      ≡ ended (record s { log = received s.peer cs s.log }, code (total cs))
unfolding recv_
receives_all cs s =
    recv_events_chunks 0 cs s
    ∙ ap (λ k. ended (record s { log = received s.peer cs s.log }, code k)) (omega arith)

Others-events :
    (server : SockAddr) (before es : List ConnectEvent) (s : TcpClient)
    → Others before
    → connect_events server (before ++ es) s ≡ connect_events server es s
unfolding connect_events
Others-events server [] es s o = refl
Others-events server (not_mine ∷ before) es s o = Others-events server before es s o
Others-events server (getsockopt_fails ∷ before) es s o = absurd o
Others-events server (epoll_error ∷ before) es s o = absurd o
Others-events server (no_error ∷ before) es s o = absurd o

Others-only :
    (server : SockAddr) (es : List ConnectEvent) (s : TcpClient)
    → Others es
    → connect_events server es s ≡ (s, if is_connected s then code 0 else negative)
unfolding connect_events
Others-only server [] s o = refl
Others-only server (not_mine ∷ es) s o = Others-only server es s o
Others-only server (getsockopt_fails ∷ es) s o = absurd o
Others-only server (epoll_error ∷ es) s o = absurd o
Others-only server (no_error ∷ es) s o = absurd o

-- A connection that the kernel makes is taken up where the loop, whose bound nothing was assigned to, reads the event of the socket:
-- the hook is started once, and 0 is returned. Where it reads none of the socket, as with a bound of 0, `connect_` fails,
-- starts no hook and leaves the socket as one that is connecting.
connects_or_fails :
    (server : SockAddr) (before after : List ConnectEvent) (s : TcpClient)
    → Others before
    → Others after
    → (connect_ server true true (before ++ no_error ∷ after) s
        ≡ (record s { peer = server; state = connected; log = on_connect server ∷ s.log }, code 0))
      × (connect_ server true true before s ≡ (record s { state = connecting }, negative))
unfolding connect_ connect_events is_connected
connects_or_fails server before after s o p = (
  Others-events server before (no_error ∷ after) (record s { state = connecting }) o
      ∙ Others-only server after
          (record s { peer = server; state = connected; log = on_connect server ∷ s.log }) p,
  Others-only server before (record s { state = connecting }) o,
)
