-- ===== src/DomainClient/Network.antt =====
-- The methods of the client of env/inc/domain_tcp_sock.hpp and those of the client of env/inc/network_tcp_sock.hpp.
use module_oriented_software.Common.{
  ℕ, ◌≡◌, refl, sym, ap, ◌∙◌, Bool, true, false, Option, none, some, List, [], ◌∷◌, length,
  Bool-cases, inl, inr, ltb,
}
use module_oriented_software.Common.Keys.{is_some}
use module_oriented_software.TcpServer.{
  SockAddr, Code, code, negative, SendAnswer, sends, sends_nothing, send_ready, send_times_out,
  send_select_fails, send_lost, send_fails, Run, ended, waits, undefined,
}
use module_oriented_software.TcpClient
use module_oriented_software.TcpClient.{
  TcpClient, zero_addr, is_connected, lose, send_, RecvAnswer, gets, recv_ready, recv_gives_up,
  recv_lost, recv_fails, Event, readable, other_event, Progress, goes_on, returns, blocks, recv_one,
  recv_event, recv_events, recv_, ConnectEvent, getsockopt_fails, epoll_error, no_error, not_mine,
  connect_events, connect_, setup,
}
use module_oriented_software.DomainServer.Copies.{copy_path_beyond, copy_path_within}
use module_oriented_software.DomainServer.{strncpy, UnixPath}
use module_oriented_software.DomainServer.Network.{log_of}
use module_oriented_software.DomainClient.{
  DomainClient, domain_connected, no_path, domain_client_lose, domain_client_clear,
  domain_client_send, DomainProgress, proceeds, finishes, stays, domain_recv_one, domain_recv_event,
  domain_recv_events, domain_recv, domain_connect_events, domain_connect, domain_client_setup,
}

-- An address for each path, where that of no path is 0.
module _ (f : UnixPath → SockAddr) (z : f no_path ≡ zero_addr) where
  abbrev pub client_of : DomainClient → TcpClient
  client_of s = record {
    sock_fd = s.sock_fd;
    peer = f s.peer;
    state = s.state;
    log = log_of f s.log;
  }

  -- A method of the one client that ended leaves a state that the method of the other leaves, with a code of its own.
  abbrev pub Follows : Run (DomainClient × Code) → Run (TcpClient × Code) → Type 0
  Follows (ended (t, c)) r = (d : Code) × (r ≡ ended (client_of t, d))
  Follows waits r = Unit {0}
  Follows undefined r = Unit {0}

  pub connected-client_of : (s : DomainClient) → is_connected (client_of s) ≡ domain_connected s
  unfolding is_connected domain_connected
  connected-client_of s = refl

  lose-client_of : (s : DomainClient) → client_of (domain_client_lose s) ≡ lose (client_of s)
  unfolding lose domain_client_lose
  lose-client_of s =
      let c = connected-client_of s in
      elim (Bool-cases (domain_connected s)) [
        | inl e ↦ rw (domain_client_lose, lose, c, e, z) refl
        | inr e ↦ rw (domain_client_lose, lose, c, e) refl
      ]

  pub clear-client_of :
      (s : DomainClient) → client_of (domain_client_clear s) ≡ TcpClient.clear_ (client_of s)
  unfolding TcpClient.clear_ domain_client_clear
  clear-client_of s =
      let c = connected-client_of s in
      elim (Bool-cases (domain_connected s)) [ inl e ↦ rw (c, e, z) refl | inr e ↦ rw (c, e) refl ]

  abbrev ended_with : TcpClient → Code → Run (TcpClient × Code)
  ended_with t c = ended (t, c)

  lost-Follows :
      (s : DomainClient) (d : Code)
      → (c : Code) × (ended_with (lose (client_of s)) d
          ≡ ended (client_of (domain_client_lose s), c))
  lost-Follows s d = (d, ap (λ t. ended (t, d)) (sym (lose-client_of s)))

  pub send-Follows :
      (msg : List ℕ) (answers : List SendAnswer) (s : DomainClient)
      → Follows (domain_client_send msg answers s) (send_ msg answers (client_of s))
  unfolding domain_client_send send_
  send-Follows msg [] s = tt
  send-Follows msg (send_ready ∷ answers) s = send-Follows msg answers s
  send-Follows msg (sends_nothing ∷ answers) s = lost-Follows s (code 0)
  send-Follows msg (send_times_out ∷ answers) s = lost-Follows s (code 0)
  send-Follows msg (send_select_fails ∷ answers) s = lost-Follows s negative
  send-Follows msg (send_lost ∷ answers) s = lost-Follows s negative
  send-Follows msg (send_fails ∷ answers) s = (_, refl)
  send-Follows msg (sends n ∷ answers) s = (_, refl)

  abbrev Proceeds : DomainProgress → Progress → Type 0
  Proceeds (proceeds n t) p = p ≡ goes_on n (client_of t)
  Proceeds (finishes t c) p = (d : Code) × (p ≡ returns (client_of t) d)
  Proceeds stays p = p ≡ blocks

  lost-Proceeds :
      (s : DomainClient) (d : Code)
      → (c : Code) × (returns (lose (client_of s)) d ≡ returns (client_of (domain_client_lose s)) c)
  lost-Proceeds s d = (d, ap (λ t. returns t d) (sym (lose-client_of s)))

  recv_one-Proceeds :
      (rc n : ℕ) (answers : List RecvAnswer) (s : DomainClient)
      → Proceeds (domain_recv_one rc n answers s) (recv_one n answers (client_of s))
  unfolding domain_recv_one recv_one
  recv_one-Proceeds rc n [] s = refl
  recv_one-Proceeds rc n (recv_ready ∷ answers) s = recv_one-Proceeds 1 n answers s
  recv_one-Proceeds rc n (recv_gives_up ∷ answers) s = lost-Proceeds s (code n)
  recv_one-Proceeds rc n (recv_lost ∷ answers) s = lost-Proceeds s (code n)
  recv_one-Proceeds rc n (recv_fails ∷ answers) s = (_, refl)
  recv_one-Proceeds rc n (gets bytes ∷ answers) s = refl

  recv_event-Proceeds :
      (n : ℕ) (e : Event) (s : DomainClient)
      → Proceeds (domain_recv_event n e s) (recv_event n e (client_of s))
  unfolding domain_recv_event recv_event
  recv_event-Proceeds n other_event s = refl
  recv_event-Proceeds n (readable false answers) s = (_, refl)
  recv_event-Proceeds n (readable true answers) s = recv_one-Proceeds 0 n answers s

  -- The loops after an event, where `k` and `j` are the rests of them.
  resume-Follows :
      (k : ℕ → DomainClient → Run (DomainClient × Code))
      (j : ℕ → TcpClient → Run (TcpClient × Code))
      → ((n : ℕ) (s : DomainClient) → Follows (k n s) (j n (client_of s)))
      → (p : DomainProgress) (q : Progress) → Proceeds p q
      → Follows
          (elim p [ proceeds n s ↦ k n s | finishes s c ↦ ended (s, c) | stays ↦ waits ])
          (elim q [ goes_on n s ↦ j n s | returns s c ↦ ended (s, c) | blocks ↦ waits ])
  resume-Follows k j h (proceeds n s) q e = rw e (h n s)
  resume-Follows k j h (finishes s c) q (d, e) = (d, rw e refl)
  resume-Follows k j h stays q e = tt

  recv_events-Follows :
      (es : List Event) (n : ℕ) (s : DomainClient)
      → Follows (domain_recv_events n es s) (recv_events n es (client_of s))
  unfolding domain_recv_events recv_events
  recv_events-Follows [] n s = (_, refl)
  recv_events-Follows (e ∷ es) n s =
      resume-Follows (λ m t. domain_recv_events m es t) (λ m t. recv_events m es t)
        (λ m t. recv_events-Follows es m t) (domain_recv_event n e s) (recv_event n e (client_of s))
        (recv_event-Proceeds n e s)

  pub recv-Follows :
      (es : Option (List Event)) (s : DomainClient)
      → Follows (domain_recv es s) (recv_ es (client_of s))
  unfolding domain_recv recv_
  recv-Follows none s = (_, refl)
  recv-Follows (some es) s = recv_events-Follows es 0 s

  connect_events-client_of :
      (path : UnixPath) (es : List ConnectEvent) (s : DomainClient)
      → client_of (domain_connect_events path es s).0 ≡ (connect_events (f path) es (client_of s)).0
  unfolding domain_connect_events connect_events
  connect_events-client_of path [] s = refl
  connect_events-client_of path (not_mine ∷ es) s = connect_events-client_of path es s
  connect_events-client_of path (getsockopt_fails ∷ es) s = refl
  connect_events-client_of path (no_error ∷ es) s = connect_events-client_of path es _
  connect_events-client_of path (epoll_error ∷ es) s =
      connect_events-client_of path es _
      ∙ ap (λ t. (connect_events (f path) es t).0) (clear-client_of _)

  abbrev pub events_in : Option (List ConnectEvent) → List ConnectEvent
  events_in none = []
  events_in (some es) = es

  abbrev pub Leaves : Run (DomainClient × Code) → TcpClient → Type 0
  Leaves (ended (t, c)) u = client_of t ≡ u
  Leaves waits u = Unit {0}
  Leaves undefined u = Unit {0}

  connect-client_of :
      (path : UnixPath) (accepted : Bool) (es : Option (List ConnectEvent)) (s : DomainClient)
      → client_of (domain_connect path accepted es s).0
        ≡ (connect_ (f (strncpy 107 path)) accepted (is_some es) (events_in es) (client_of s)).0
  unfolding domain_connect connect_
  connect-client_of path false es s = refl
  connect-client_of path true none s = refl
  connect-client_of path true (some es) s = connect_events-client_of (strncpy 107 path) es _

  room-Leaves :
      (path : UnixPath) (opened : Option ℕ) (options accepted : Bool)
      (es : Option (List ConnectEvent)) (s : DomainClient)
      → ltb 108 (length path) ≡ false
      → Leaves
          (domain_client_setup path opened options accepted es s)
          (setup
            (some (f (strncpy 107 path)))
            opened
            options
            accepted
            (is_some es)
            (events_in es)
            (client_of s)).0
  unfolding domain_client_setup setup
  room-Leaves path none options accepted es s e =
      rw (domain_client_setup, copy_path_within path e) (clear-client_of s)
  room-Leaves path (some fd) false accepted es s e =
      rw (domain_client_setup, copy_path_within path e) refl
  room-Leaves path (some fd) true accepted es s e =
      rw (domain_client_setup, copy_path_within path e)
        (connect-client_of path accepted es (record s { sock_fd = fd }))

  -- Where the path has room, the client for addresses is set up with the address of the path that is copied.
  pub setup-Leaves :
      (path : UnixPath) (opened : Option ℕ) (options accepted : Bool)
      (es : Option (List ConnectEvent)) (s : DomainClient)
      → Leaves
          (domain_client_setup path opened options accepted es s)
          (setup
            (some (f (strncpy 107 path)))
            opened
            options
            accepted
            (is_some es)
            (events_in es)
            (client_of s)).0
  unfolding domain_client_setup setup
  setup-Leaves path opened options accepted es s = elim (Bool-cases (ltb 108 (length path))) [
    | inl e ↦ rw (domain_client_setup, copy_path_beyond path e) tt
    | inr e ↦ room-Leaves path opened options accepted es s e
  ]
