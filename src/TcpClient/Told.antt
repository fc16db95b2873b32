-- ===== src/TcpClient/Told.antt =====
-- That a client tells the loss of every connection that it told.
use module_oriented_software.Common.{
  ℕ, ◌≡◌, refl, ◌≤◌, ◌+◌, Bool, true, false, Option, none, some, List, [], ◌∷◌, arith, subst,
  if◌then◌else◌,
}
use module_oriented_software.TcpServer.{
  connected, connecting, SockAddr, Code, SendAnswer, sends, sends_nothing, send_ready,
  send_times_out, send_select_fails, send_lost, send_fails, Run, ended, waits, undefined,
}
use module_oriented_software.TcpServer.Steps.{connects, disconnects}
use module_oriented_software.TcpClient.{
  TcpClient, is_connected, lose, clear_, send_, RecvAnswer, gets, recv_ready, recv_gives_up,
  recv_lost, recv_fails, Event, readable, other_event, Progress, goes_on, returns, blocks, recv_one,
  recv_event, recv_events, recv_, ConnectEvent, getsockopt_fails, epoll_error, no_error, not_mine,
  connect_events, connect_, setup,
}

-- One while the socket is connected.
abbrev pub connections : TcpClient → ℕ
connections s = if is_connected s then 1 else 0

-- As often as a connection was told its loss was told, but for the one that there is.
pub record IsTold (s : TcpClient) : Type 0 where
  pub told : connects s.log ≤ disconnects s.log + connections s

-- None of the events that are read is of the socket.
abbrev pub Others : List ConnectEvent → Type 0
Others [] = Unit {0}
Others (not_mine ∷ es) = Others es
Others (getsockopt_fails ∷ es) = ⊥
Others (epoll_error ∷ es) = ⊥
Others (no_error ∷ es) = ⊥

-- One entry at most of those that the loop reads is of the socket. `epoll_wait` promises that of the entries that it writes, but
-- the bound of the loop is not the number of these.
abbrev pub AtMostOne : List ConnectEvent → Type 0
AtMostOne [] = Unit {0}
AtMostOne (not_mine ∷ es) = AtMostOne es
AtMostOne (getsockopt_fails ∷ es) = Others es
AtMostOne (epoll_error ∷ es) = Others es
AtMostOne (no_error ∷ es) = Others es

-- What a program does with a client: it sends, receives, disconnects, and connects while it is not connected.
pub data Step : TcpClient → TcpClient → Type 0 where
  sent :
      (msg : List ℕ) (answers : List SendAnswer) (s t : TcpClient) (c : Code)
      → send_ msg answers s ≡ ended (t, c)
      → Step s t
  received :
      (es : Option (List Event)) (s t : TcpClient) (c : Code) → recv_ es s ≡ ended (t, c) → Step s t
  disconnects_ : (s : TcpClient) → Step s (clear_ s)
  connects_ :
      (resolved : Option SockAddr) (opened : Option ℕ) (options accepted waited : Bool)
      (es : List ConnectEvent) (s : TcpClient)
      → is_connected s ≡ false
      → AtMostOne es
      → Step s (setup resolved opened options accepted waited es s).0

pub data Reach (s : TcpClient) : TcpClient → Type 0 where
  here : Reach s s
  next : {t u : TcpClient} → Reach s t → Step t u → Reach s u

-- What a method leaves, if it ends.
abbrev Ensures : Run (TcpClient × Code) → Type 0
Ensures (ended r) = IsTold r.0
Ensures waits = Unit {0}
Ensures undefined = Unit {0}

lose-IsTold : (s : TcpClient) → IsTold s → IsTold (lose s)
unfolding lose is_connected
lose-IsTold s v = ground arith

clear_-IsTold : (s : TcpClient) → IsTold s → IsTold (clear_ s)
unfolding clear_ is_connected
clear_-IsTold s v = ground arith

send_-IsTold :
    (msg : List ℕ) (answers : List SendAnswer) (s : TcpClient)
    → IsTold s
    → Ensures (send_ msg answers s)
unfolding send_ is_connected
send_-IsTold msg [] s v = tt
send_-IsTold msg (send_ready ∷ answers) s v = send_-IsTold msg answers s v
send_-IsTold msg (sends_nothing ∷ answers) s v = lose-IsTold s v
send_-IsTold msg (send_times_out ∷ answers) s v = lose-IsTold s v
send_-IsTold msg (send_select_fails ∷ answers) s v = lose-IsTold s v
send_-IsTold msg (send_lost ∷ answers) s v = lose-IsTold s v
send_-IsTold msg (send_fails ∷ answers) s v = v
send_-IsTold msg (sends n ∷ answers) s v = record { told = v.told }

abbrev EnsuresProgress : Progress → Type 0
EnsuresProgress (goes_on n s) = IsTold s
EnsuresProgress (returns s c) = IsTold s
EnsuresProgress blocks = Unit {0}

recv_one-IsTold :
    (n : ℕ) (answers : List RecvAnswer) (s : TcpClient)
    → IsTold s
    → EnsuresProgress (recv_one n answers s)
unfolding recv_one is_connected
recv_one-IsTold n [] s v = tt
recv_one-IsTold n (recv_ready ∷ answers) s v = recv_one-IsTold n answers s v
recv_one-IsTold n (recv_gives_up ∷ answers) s v = lose-IsTold s v
recv_one-IsTold n (recv_lost ∷ answers) s v = lose-IsTold s v
recv_one-IsTold n (recv_fails ∷ answers) s v = v
recv_one-IsTold n (gets bytes ∷ answers) s v = record { told = v.told }

recv_event-IsTold :
    (n : ℕ) (e : Event) (s : TcpClient) → IsTold s → EnsuresProgress (recv_event n e s)
unfolding recv_event
recv_event-IsTold n other_event s v = v
recv_event-IsTold n (readable false answers) s v = v
recv_event-IsTold n (readable true answers) s v = recv_one-IsTold n answers s v

-- The loop after an event, where `k` is the rest of it.
resume-IsTold :
    (k : ℕ → TcpClient → Run (TcpClient × Code))
    → ((n : ℕ) (s : TcpClient) → IsTold s → Ensures (k n s))
    → (p : Progress) → EnsuresProgress p
    → Ensures (elim p [ goes_on n s ↦ k n s | returns s c ↦ ended (s, c) | blocks ↦ waits ])
resume-IsTold k h (goes_on n s) v = h n s v
resume-IsTold k h (returns s c) v = v
resume-IsTold k h blocks v = tt

recv_events-IsTold :
    (es : List Event) (n : ℕ) (s : TcpClient) → IsTold s → Ensures (recv_events n es s)
unfolding recv_events
recv_events-IsTold [] n s v = v
recv_events-IsTold (e ∷ es) n s v =
    resume-IsTold (λ m t. recv_events m es t) (λ m t u. recv_events-IsTold es m t u)
      (recv_event n e s) (recv_event-IsTold n e s v)

recv_-IsTold : (es : Option (List Event)) (s : TcpClient) → IsTold s → Ensures (recv_ es s)
unfolding recv_
recv_-IsTold none s v = v
recv_-IsTold (some es) s v = recv_events-IsTold es 0 s v

others_lem :
    (server : SockAddr) (es : List ConnectEvent) (s : TcpClient)
    → Others es
    → (connect_events server es s).0 ≡ s
unfolding connect_events
others_lem server [] s o = refl
others_lem server (not_mine ∷ es) s o = others_lem server es s o
others_lem server (getsockopt_fails ∷ es) s o = absurd o
others_lem server (epoll_error ∷ es) s o = absurd o
others_lem server (no_error ∷ es) s o = absurd o

connect_events-IsTold :
    (server : SockAddr) (es : List ConnectEvent) (s : TcpClient)
    → AtMostOne es
    → connects s.log ≤ disconnects s.log
    → is_connected s ≡ false
    → IsTold (connect_events server es s).0
unfolding connect_events clear_ is_connected
connect_events-IsTold server [] s o h e = record { told = omega arith }
connect_events-IsTold server (not_mine ∷ es) s o h e = connect_events-IsTold server es s o h e
connect_events-IsTold server (getsockopt_fails ∷ es) s o h e = record { told = omega arith }
connect_events-IsTold server (epoll_error ∷ es) s o h e =
    rw (others_lem server es (clear_ (record s { log = _ })) o)
      (clear_-IsTold (record s { log = _ }) (record { told = omega arith }))
connect_events-IsTold server (no_error ∷ es) s o h e =
    rw (others_lem server es (record s { peer = server; state = connected; log = _ }) o)
      (record { told = omega arith })

told_unconnected :
    (s : TcpClient) → is_connected s ≡ false → IsTold s → connects s.log ≤ disconnects s.log
told_unconnected s e v = let t = rw e at (v.told) in omega arith

setup-IsTold :
    (resolved : Option SockAddr) (opened : Option ℕ) (options accepted waited : Bool)
    (es : List ConnectEvent) (s : TcpClient)
    → is_connected s ≡ false
    → AtMostOne es
    → IsTold s
    → IsTold (setup resolved opened options accepted waited es s).0
unfolding setup connect_ is_connected
setup-IsTold none opened options accepted waited es s e o v = v
setup-IsTold (some server) none options accepted waited es s e o v = clear_-IsTold s v
setup-IsTold (some server) (some fd) false accepted waited es s e o v = record { told = v.told }
setup-IsTold (some server) (some fd) true false waited es s e o v = record {
  told = let t = told_unconnected s e v in omega arith;
}
setup-IsTold (some server) (some fd) true true false es s e o v = record {
  told = let t = told_unconnected s e v in omega arith;
}
setup-IsTold (some server) (some fd) true true true es s e o v =
    connect_events-IsTold server es (record s { sock_fd = fd; state = connecting }) o
      (told_unconnected s e v) refl

Step-IsTold : {s t : TcpClient} → Step s t → IsTold s → IsTold t
Step-IsTold (sent msg answers s t c e) v = subst Ensures e (send_-IsTold msg answers s v)
Step-IsTold (received es s t c e) v = subst Ensures e (recv_-IsTold es s v)
Step-IsTold (disconnects_ s) v = clear_-IsTold s v
Step-IsTold (connects_ resolved opened options accepted waited es s e o) v =
    setup-IsTold resolved opened options accepted waited es s e o v

-- Over any steps of a program that connects a client only while it is not connected, where the loop of `connect_`, whose bound nothing
-- sets, reads one entry of the socket at most: the loss of every connection that was told is told, but for the one that there is.
pub Reach-IsTold : {s t : TcpClient} → IsTold s → Reach s t → IsTold t
Reach-IsTold v here = v
Reach-IsTold v (next r st) = Step-IsTold st (Reach-IsTold v r)
