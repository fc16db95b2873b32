-- ===== src/DomainServer/Simulation.antt =====
-- The steps of the server of env/inc/domain_tcp_sock.hpp as steps of that of env/inc/network_tcp_sock.hpp.
use module_oriented_software.Common.{
  ℕ, ◌≡◌, refl, sym, ap, subst, arith, Bool, true, false, none, some, List, [], ◌∷◌,
}
use module_oriented_software.Common.OrderedMap.{OrderedMap, lookup}
use module_oriented_software.TcpServer.{
  SockAddr, Code, code, unset, TcpServer, connecting, lose, Run, ended, waits, undefined,
  AcceptAnswer, accepts, accept_ready, accept_gives_up, accept_fails, accept_loop,
  handle_incoming_peer, RecvAnswer, receives, receives_nothing, recv_ready, recv_gives_up,
  recv_lost, recv_fails, receive_loop, handle_incoming_data,
}
use module_oriented_software.TcpServer.Lifecycle.{
  peer_ready, data_ready, handle_ready, stop, end_listening,
}
use module_oriented_software.TcpServer.Steps as network_steps
use module_oriented_software.TcpServer.Steps.{IsFresh, handles, stops}
use module_oriented_software.DomainServer.{
  UnixPath, DomainServer, domain_lose, DomainAccept, accepts_path, path_ready, path_times_out,
  path_select_fails, path_fails, domain_accept, domain_incoming_peer, DomainRecv, receives_path,
  path_closed, path_waits, path_gives_up, path_select_error, path_lost, path_error, domain_receive,
  domain_incoming_data, domain_stop,
}
use module_oriented_software.DomainServer.Network.{
  peers_of, network_of, lookup-peers_of, insert-peers_of, domain_lose-network_of,
}

-- What `accept` promises: the descriptor that it gives is not that of a connected peer.
abbrev pub IsFreshPath : List DomainAccept → OrderedMap UnixPath → Type 0
IsFreshPath [] m = Unit {0}
IsFreshPath (accepts_path fd a ∷ answers) m = lookup fd m ≡ none
IsFreshPath (path_ready ∷ answers) m = IsFreshPath answers m
IsFreshPath (path_times_out ∷ answers) m = Unit {0}
IsFreshPath (path_select_fails ∷ answers) m = Unit {0}
IsFreshPath (path_fails ∷ answers) m = Unit {0}

-- What is done with a server for paths: a peer is accepted, data are read, and it is stopped.
pub data Step : DomainServer → DomainServer → Type 0 where
  accepts_peer :
      (answers : List DomainAccept) (s t : DomainServer) (c : Code)
      → IsFreshPath answers s.peers
      → domain_incoming_peer answers s ≡ ended (t, c)
      → Step s t
  reads_data :
      (fd : ℕ) (pending : Bool) (answers : List DomainRecv) (s t : DomainServer) (c : Code)
      → domain_incoming_data fd pending answers s ≡ ended (t, c)
      → Step s t
  stops_ : (s : DomainServer) → Step s (domain_stop s).0

pub data Reach (s : DomainServer) : DomainServer → Type 0 where
  here : Reach s s
  next : {t u : DomainServer} → Reach s t → Step t u → Reach s u

module _ (f : UnixPath → SockAddr) where
  -- The answers of the kernel for paths, as those for addresses.
  accepts_of : List DomainAccept → List AcceptAnswer
  accepts_of [] = []
  accepts_of (accepts_path fd a ∷ answers) = accepts fd (f a) ∷ accepts_of answers
  accepts_of (path_ready ∷ answers) = accept_ready ∷ accepts_of answers
  accepts_of (path_times_out ∷ answers) = accept_gives_up ∷ accepts_of answers
  accepts_of (path_select_fails ∷ answers) = accept_gives_up ∷ accepts_of answers
  accepts_of (path_fails ∷ answers) = accept_fails ∷ accepts_of answers

  recvs_of : List DomainRecv → List RecvAnswer
  recvs_of [] = []
  recvs_of (receives_path bytes none ∷ answers) = receives bytes none ∷ recvs_of answers
  recvs_of (receives_path bytes (some a) ∷ answers) = receives bytes (some (f a)) ∷ recvs_of answers
  recvs_of (path_closed ∷ answers) = receives_nothing ∷ recvs_of answers
  recvs_of (path_waits ∷ answers) = recv_ready ∷ recvs_of answers
  recvs_of (path_gives_up ∷ answers) = recv_gives_up ∷ recvs_of answers
  recvs_of (path_select_error ∷ answers) = recv_gives_up ∷ recvs_of answers
  recvs_of (path_lost ∷ answers) = recv_lost ∷ recvs_of answers
  recvs_of (path_error ∷ answers) = recv_fails ∷ recvs_of answers

  -- A method of the one server that ended leaves a state that the method of the other leaves, with a code of its own.
  abbrev Follows : Run (DomainServer × Code) → Run (TcpServer × Code) → Type 0
  Follows (ended (t, c)) r = (d : Code) × (r ≡ ended (network_of f t, d))
  Follows waits r = Unit {0}
  Follows undefined r = Unit {0}

  abbrev ended_with : TcpServer → Code → Run (TcpServer × Code)
  ended_with t c = ended (t, c)

  lost-Follows :
      (fd : ℕ) (s : DomainServer) (d : Code)
      → (c : Code) × (ended_with (lose fd (λ a. a) (network_of f s)) d
          ≡ ended (network_of f (domain_lose fd (λ a. a) s), c))
  lost-Follows fd s d = (
    d,
    ap (λ t. ended (t, d)) (sym (domain_lose-network_of f fd (λ a. a) (λ a. a) s (λ a. refl))),
  )

  accepts_of-Follows :
      (answers : List DomainAccept) (s : DomainServer)
      → Follows (domain_accept answers s) (accept_loop (accepts_of answers) (network_of f s))
  unfolding domain_accept accept_loop accepts_of
  accepts_of-Follows [] s = tt
  accepts_of-Follows (path_ready ∷ answers) s = accepts_of-Follows answers s
  accepts_of-Follows (path_times_out ∷ answers) s = (_, refl)
  accepts_of-Follows (path_select_fails ∷ answers) s = (_, refl)
  accepts_of-Follows (path_fails ∷ answers) s = (_, refl)
  accepts_of-Follows (accepts_path fd a ∷ answers) s =
      (code fd, rw (insert-peers_of f fd a s.peers) refl)

  recvs_of-Follows :
      (fd : ℕ) (answers : List DomainRecv) (s : DomainServer)
      → Follows (domain_receive fd answers s) (receive_loop fd (recvs_of answers) (network_of f s))
  unfolding domain_receive receive_loop recvs_of
  recvs_of-Follows fd [] s = tt
  recvs_of-Follows fd (path_waits ∷ answers) s = recvs_of-Follows fd answers s
  recvs_of-Follows fd (path_closed ∷ answers) s = lost-Follows fd s (code 0)
  recvs_of-Follows fd (path_lost ∷ answers) s = lost-Follows fd s unset
  recvs_of-Follows fd (path_gives_up ∷ answers) s = lost-Follows fd s unset
  recvs_of-Follows fd (path_select_error ∷ answers) s = lost-Follows fd s unset
  recvs_of-Follows fd (path_error ∷ answers) s = (_, refl)
  recvs_of-Follows fd (receives_path bytes none ∷ answers) s = (_, refl)
  recvs_of-Follows fd (receives_path bytes (some a) ∷ answers) s = (_, refl)

  domain_incoming_data-Follows :
      (fd : ℕ) (pending : Bool) (answers : List DomainRecv) (s : DomainServer)
      → Follows
          (domain_incoming_data fd pending answers s)
          (handle_incoming_data fd pending (recvs_of answers) (network_of f s))
  unfolding domain_incoming_data handle_incoming_data
  domain_incoming_data-Follows fd false answers s = (_, refl)
  domain_incoming_data-Follows fd true answers s = recvs_of-Follows fd answers s

  accepts_of-IsFresh :
      (answers : List DomainAccept) (m : OrderedMap UnixPath)
      → IsFreshPath answers m
      → IsFresh (accepts_of answers) (peers_of f m)
  unfolding accepts_of
  accepts_of-IsFresh [] m h = tt
  accepts_of-IsFresh (path_ready ∷ answers) m h = accepts_of-IsFresh answers m h
  accepts_of-IsFresh (path_times_out ∷ answers) m h = tt
  accepts_of-IsFresh (path_select_fails ∷ answers) m h = tt
  accepts_of-IsFresh (path_fails ∷ answers) m h = tt
  accepts_of-IsFresh (accepts_path fd a ∷ answers) m h = rw (lookup-peers_of f fd m, h) refl

  domain_stop-network_of :
      (s : DomainServer) → network_of f (domain_stop s).0 ≡ (stop (network_of f s)).0
  unfolding domain_stop stop end_listening
  domain_stop-network_of s = ground arith

  Step-network_of :
      {s t : DomainServer} → Step s t → network_steps.Step (network_of f s) (network_of f t)
  unfolding domain_incoming_peer handle_incoming_peer handle_ready
  Step-network_of (accepts_peer answers s t c h e) =
      let (d, k) =
        subst
          (λ r.
            Follows r
              (accept_loop (accepts_of answers) (network_of f (record s { state = connecting }))))
          e (accepts_of-Follows answers (record s { state = connecting })) in
      handles (peer_ready (accepts_of answers)) (network_of f s) (network_of f t) d
        (accepts_of-IsFresh answers s.peers h) k
  Step-network_of (reads_data fd pending answers s t c e) =
      let (d, k) =
        subst (λ r. Follows r (handle_incoming_data fd pending (recvs_of answers) (network_of f s)))
          e (domain_incoming_data-Follows fd pending answers s) in
      handles (data_ready fd pending (recvs_of answers)) (network_of f s) (network_of f t) d tt k
  Step-network_of (stops_ s) =
      subst (network_steps.Step (network_of f s)) (sym (domain_stop-network_of s))
        (stops (network_of f s))

  -- Whatever peers a server for paths accepts, whatever it reads and whenever it is stopped, where `accept` gives no descriptor of a connected
  -- peer: the server for addresses, with an address for each path, can accept, read and be stopped so that it has the same peers, the same state,
  -- the same hooks started and the same descriptors closed. What else a program may do, `clear_` among it, in which the two differ, is not one of these steps.
  pub Reach-network_of :
      {s t : DomainServer} → Reach s t → network_steps.Reach (network_of f s) (network_of f t)
  Reach-network_of here = network_steps.here
  Reach-network_of (next r st) = network_steps.next (Reach-network_of r) (Step-network_of st)
