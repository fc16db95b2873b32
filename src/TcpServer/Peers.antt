-- ===== src/TcpServer/Peers.antt =====
-- The account of a server: the peers that it accepted, those that are connected, and those that it closed.
use module_oriented_software.Common.{
  ℕ, suc, subst, ◌≡◌, refl, ◌+◌, length, List, [], ◌∷◌, none, some, arith, Option-cases, inl, inr,
  true, false,
}
use module_oriented_software.Common.OrderedMap.{
  OrderedMap, lookup, insert, erase, insert-OrderedFrom, erase-OrderedFrom,
}
use module_oriented_software.TcpServer.{
  SockAddr, Code, Effect, on_disconnect, close, TcpServer, Parsed, address, no_address, no_family,
  find_peer, drop_peer, disconnect_fd, lose, SendAnswer, sends, sends_nothing, send_ready,
  send_times_out, send_select_fails, send_lost, send_fails, send_, send, Run, ended, waits,
  undefined, AcceptAnswer, accepts, accept_ready, accept_gives_up, accept_fails, accept_loop,
  RecvAnswer, receives, receives_nothing, recv_ready, recv_gives_up, recv_lost, recv_fails,
  receive_loop,
}
use module_oriented_software.TcpServer.Lifecycle.{
  Ready, peer_ready, data_ready, handle_ready, begin_listening, end_listening, start, stop, clear_,
  close_all,
}
use module_oriented_software.TcpServer.Steps.{
  connects, disconnects, IsFresh, IsFreshReady, Step, handles, sent, begins, ends, starts, stops,
  clears, Reach, here, next, IsBalanced,
}

length-insert :
    (k : ℕ) (a : SockAddr) (m : OrderedMap SockAddr)
    → lookup k m ≡ none
    → length (insert k a m) ≡ suc (length m)
unfolding insert lookup
length-insert k a [] e = refl
length-insert k a ((j, b) ∷ m) e = ground (arith, length-insert k a m)

length-erase :
    (k : ℕ) (a : SockAddr) (m : OrderedMap SockAddr)
    → lookup k m ≡ some a
    → suc (length (erase k m)) ≡ length m
unfolding erase lookup
length-erase k a [] e = cc
length-erase k a ((j, b) ∷ m) e = ground (arith, length-erase k a m)

lose-IsBalanced :
    (fd : ℕ) (told : SockAddr → SockAddr) (s : TcpServer)
    → IsBalanced s
    → IsBalanced (lose fd told s)
unfolding lose disconnect_fd drop_peer
lose-IsBalanced fd told s v = elim (Option-cases (lookup fd s.peers)) [
  | inl e ↦ rw (e, lose) v
  | inr (a, e) ↦
      rw (e, lose, e, disconnect_fd)
        (record {
          ordered = erase-OrderedFrom 0 fd s.peers v.ordered;
          balance = let l = length-erase fd a s.peers e in let b = v.balance in omega arith;
        })
]

-- What a method leaves, if it ends.
abbrev Ensures : (TcpServer → Type 0) → Run (TcpServer × Code) → Type 0
Ensures P (ended r) = P r.0
Ensures P waits = Unit {0}
Ensures P undefined = Unit {0}

send_-IsBalanced :
    (fd : ℕ) (peer : SockAddr) (msg : List ℕ) (answers : List SendAnswer) (s : TcpServer)
    → IsBalanced s
    → Ensures IsBalanced (send_ fd peer msg answers s)
unfolding send_
send_-IsBalanced fd peer msg [] s v = tt
send_-IsBalanced fd peer msg (send_ready ∷ answers) s v = send_-IsBalanced fd peer msg answers s v
send_-IsBalanced fd peer msg (sends_nothing ∷ answers) s v = lose-IsBalanced fd _ s v
send_-IsBalanced fd peer msg (send_times_out ∷ answers) s v = lose-IsBalanced fd _ s v
send_-IsBalanced fd peer msg (send_select_fails ∷ answers) s v = lose-IsBalanced fd _ s v
send_-IsBalanced fd peer msg (send_lost ∷ answers) s v = lose-IsBalanced fd _ s v
send_-IsBalanced fd peer msg (send_fails ∷ answers) s v = v
send_-IsBalanced fd peer msg (sends n ∷ answers) s v = record {
  ordered = v.ordered;
  balance = v.balance;
}

send-IsBalanced :
    (a : Parsed) (msg : List ℕ) (answers : List SendAnswer) (s : TcpServer)
    → IsBalanced s
    → Ensures IsBalanced (send a msg answers s)
unfolding send
send-IsBalanced no_address msg answers s v = tt
send-IsBalanced no_family msg answers s v = v
send-IsBalanced (address a) msg answers s v = elim (Option-cases (find_peer a s.peers)) [
  | inl e ↦ rw (e, send) v
  | inr (fd, e) ↦ elim (Option-cases (lookup fd s.peers)) [
    | inl f ↦ rw (e, send, f) tt
    | inr (b, f) ↦ rw (e, send, f) (send_-IsBalanced fd b msg answers s v)
  ]
]

accept_loop-IsBalanced :
    (answers : List AcceptAnswer) (s : TcpServer)
    → IsFresh answers s.peers
    → IsBalanced s
    → Ensures IsBalanced (accept_loop answers s)
unfolding accept_loop
accept_loop-IsBalanced [] s f v = tt
accept_loop-IsBalanced (accept_ready ∷ answers) s f v = accept_loop-IsBalanced answers s f v
accept_loop-IsBalanced (accept_gives_up ∷ answers) s f v = v
accept_loop-IsBalanced (accept_fails ∷ answers) s f v = v
accept_loop-IsBalanced (accepts fd a ∷ answers) s f v = record {
  ordered = insert-OrderedFrom 0 fd a s.peers (omega arith) v.ordered;
  balance = let l = length-insert fd a s.peers f in let b = v.balance in omega arith;
}

receive_loop-IsBalanced :
    (fd : ℕ) (answers : List RecvAnswer) (s : TcpServer)
    → IsBalanced s
    → Ensures IsBalanced (receive_loop fd answers s)
unfolding receive_loop
receive_loop-IsBalanced fd [] s v = tt
receive_loop-IsBalanced fd (recv_ready ∷ answers) s v = receive_loop-IsBalanced fd answers s v
receive_loop-IsBalanced fd (receives_nothing ∷ answers) s v = lose-IsBalanced fd _ s v
receive_loop-IsBalanced fd (recv_lost ∷ answers) s v = lose-IsBalanced fd _ s v
receive_loop-IsBalanced fd (recv_gives_up ∷ answers) s v = lose-IsBalanced fd _ s v
receive_loop-IsBalanced fd (recv_fails ∷ answers) s v = v
receive_loop-IsBalanced fd (receives bytes none ∷ answers) s v = v
receive_loop-IsBalanced fd (receives bytes (some a) ∷ answers) s v = record {
  ordered = v.ordered;
  balance = v.balance;
}

handle_ready-IsBalanced :
    (e : Ready) (s : TcpServer)
    → IsFreshReady e s.peers
    → IsBalanced s
    → Ensures IsBalanced (handle_ready e s)
unfolding handle_ready
handle_ready-IsBalanced (peer_ready answers) s f v =
    accept_loop-IsBalanced answers _ f (record { ordered = v.ordered; balance = v.balance })
handle_ready-IsBalanced (data_ready fd false answers) s f v = v
handle_ready-IsBalanced (data_ready fd true answers) s f v = receive_loop-IsBalanced fd answers s v

-- Each peer that a `clear_` closes is told as lost.
pub close_all_counts :
    (m : OrderedMap SockAddr) (log : List Effect)
    → (connects (close_all m log) ≡ connects log)
      × (disconnects (close_all m log) ≡ length m + disconnects log)
unfolding close_all
close_all_counts [] log = (refl, omega arith)
close_all_counts ((fd, a) ∷ m) log =
    let (c, d) = close_all_counts m (close fd ∷ on_disconnect a ∷ log) in (c, omega arith)

stop-IsBalanced : (s : TcpServer) → IsBalanced s → IsBalanced (stop s).0
unfolding stop end_listening
stop-IsBalanced s v = ground arith

clear_-IsBalanced : (s : TcpServer) → IsBalanced s → IsBalanced (clear_ s)
unfolding clear_ stop end_listening
clear_-IsBalanced s v =
    let (c, d) = close_all_counts s.peers s.log in let b = v.balance in ground arith

Step-IsBalanced : {s t : TcpServer} → Step s t → IsBalanced s → IsBalanced t
unfolding begin_listening end_listening start
Step-IsBalanced (handles e s t c f r) v =
    subst (Ensures IsBalanced) r (handle_ready-IsBalanced e s f v)
Step-IsBalanced (sent a msg answers s t c r) v =
    subst (Ensures IsBalanced) r (send-IsBalanced a msg answers s v)
Step-IsBalanced (begins true s) v = record { ordered = v.ordered; balance = v.balance }
Step-IsBalanced (begins false s) v = record { ordered = v.ordered; balance = v.balance }
Step-IsBalanced (ends s) v = record { ordered = v.ordered; balance = v.balance }
Step-IsBalanced (starts s) v = record { ordered = v.ordered; balance = v.balance }
Step-IsBalanced (stops s) v = stop-IsBalanced s v
Step-IsBalanced (clears s) v = clear_-IsBalanced s v

-- Over any steps that accept peers, read, send, listen, start, stop and clear, where `accept` gives no descriptor of a connected
-- peer; `disconnect` with an address, which starts no hook, is no such step: as many peers are connected as the hook of
-- `on_connect` was started for and that of `on_disconnect` was not.
pub Reach-IsBalanced : {s t : TcpServer} → IsBalanced s → Reach s t → IsBalanced t
Reach-IsBalanced v here = v
Reach-IsBalanced v (next r st) = Step-IsBalanced st (Reach-IsBalanced v r)
