-- ===== src/TcpServer/Stopping.antt =====
-- What the ends of a server leave open, and what `listening()` says while it serves.
use module_oriented_software.Common.{
  ℕ, ◌≡◌, refl, ◌+◌, length, true, false, none, some, List, [], ◌∷◌, arith, subst, inl, inr,
  Option-cases,
}
use module_oriented_software.Common.OrderedMap.{lookup}
use module_oriented_software.TcpServer.{
  SockAddr, Code, negative, close, TcpServer, Run, ended, waits, undefined, lose, disconnect_fd,
  drop_peer, AcceptAnswer, accepts, accept_ready, accept_gives_up, accept_fails, accept_loop,
  RecvAnswer, receives, receives_nothing, recv_ready, recv_gives_up, recv_lost, recv_fails,
  receive_loop,
}
use module_oriented_software.TcpServer.Lifecycle.{
  Ready, peer_ready, data_ready, handle_ready, stop, clear_, close_all, end_listening, SetupAnswers,
  setup, is_listening,
}
use module_oriented_software.TcpServer.Steps.{disconnects}
use module_oriented_software.TcpServer.Peers.{close_all_counts}

clear_-not_listening : (s : TcpServer) → s.listen_enabled ≡ false → clear_ s ≡ s
unfolding clear_ stop
clear_-not_listening s e = rw (e, stop)

stop-not_listening : (s : TcpServer) → (stop s).0.listen_enabled ≡ false
unfolding stop end_listening
stop-not_listening s = ground arith

pub stop_keeps : (s : TcpServer) → ((stop s).0.peers ≡ s.peers) × ((stop s).0.log ≡ s.log)
unfolding stop end_listening
stop_keeps s = ground arith

-- A server that was stopped closes nothing more: after `stop`, whatever it returned, `clear_` leaves every peer connected and
-- neither closes a descriptor nor starts a hook.
pub clear_-stop :
    (s : TcpServer) → ((clear_ (stop s).0).peers ≡ s.peers) × ((clear_ (stop s).0).log ≡ s.log)
clear_-stop s = rw (clear_-not_listening (stop s).0 (stop-not_listening s)) (stop_keeps s)

-- A server whose listening thread runs is cleared whole: no peer stays, the socket itself is closed last, and the
-- hook is started for the loss of each peer.
pub clear_-running :
    (s : TcpServer)
    → s.listen_enabled ≡ true
    → s.joinable ≡ true
    → ((clear_ s).peers ≡ [])
      × ((clear_ s).log ≡ close s.sock_fd ∷ close_all s.peers s.log)
      × (disconnects (clear_ s).log ≡ length s.peers + disconnects s.log)
      × (is_listening (clear_ s) ≡ false)
unfolding clear_ stop end_listening is_listening
clear_-running s e j = rw (e, j, stop) (refl, refl, (close_all_counts s.peers s.log).1, refl)

-- A set-up that fails at `bind` returns the failure and keeps the descriptor that `socket` gave: it closes nothing, where the server
-- does not listen yet.
pub setup-unbound :
    (q : SetupAnswers) (fd : ℕ) (s : TcpServer)
    → q.resolved ≡ true
    → q.opened ≡ some fd
    → q.options ≡ true
    → q.bound ≡ false
    → s.listen_enabled ≡ false
    → setup q s ≡ (record s { sock_fd = fd }, negative)
unfolding setup
setup-unbound q fd s r o p b e = rw (r, o, p, b, clear_-not_listening (record s { sock_fd = fd }) e)

-- Events that are handled one after the other.
pub data Serves (s : TcpServer) : TcpServer → Type 0 where
  serves_none : Serves s s
  serves_next :
      {t : TcpServer} (u : TcpServer) (e : Ready) (c : Code)
      → Serves s t
      → handle_ready e t ≡ ended (u, c)
      → Serves s u

abbrev NotListening : Run (TcpServer × Code) → Type 0
NotListening (ended r) = is_listening r.0 ≡ false
NotListening waits = Unit {0}
NotListening undefined = Unit {0}

lose-state :
    (fd : ℕ) (told : SockAddr → SockAddr) (s : TcpServer) → (lose fd told s).state ≡ s.state
unfolding lose disconnect_fd drop_peer
lose-state fd told s = elim (Option-cases (lookup fd s.peers)) [
  | inl e ↦ rw (e, lose)
  | inr (a, e) ↦ rw (e, lose, e, disconnect_fd)
]

lose-NotListening :
    (fd : ℕ) (told : SockAddr → SockAddr) (s : TcpServer)
    → is_listening s ≡ false
    → is_listening (lose fd told s) ≡ false
unfolding is_listening
lose-NotListening fd told s h = rw (lose-state fd told s, is_listening) h

accept_loop-NotListening :
    (answers : List AcceptAnswer) (s : TcpServer)
    → is_listening s ≡ false
    → NotListening (accept_loop answers s)
unfolding accept_loop is_listening
accept_loop-NotListening [] s h = tt
accept_loop-NotListening (accept_ready ∷ answers) s h = accept_loop-NotListening answers s h
accept_loop-NotListening (accept_gives_up ∷ answers) s h = h
accept_loop-NotListening (accept_fails ∷ answers) s h = h
accept_loop-NotListening (accepts fd a ∷ answers) s h = h

receive_loop-NotListening :
    (fd : ℕ) (answers : List RecvAnswer) (s : TcpServer)
    → is_listening s ≡ false
    → NotListening (receive_loop fd answers s)
unfolding receive_loop is_listening
receive_loop-NotListening fd [] s h = tt
receive_loop-NotListening fd (recv_ready ∷ answers) s h = receive_loop-NotListening fd answers s h
receive_loop-NotListening fd (receives_nothing ∷ answers) s h = lose-NotListening fd _ s h
receive_loop-NotListening fd (recv_lost ∷ answers) s h = lose-NotListening fd _ s h
receive_loop-NotListening fd (recv_gives_up ∷ answers) s h = lose-NotListening fd _ s h
receive_loop-NotListening fd (recv_fails ∷ answers) s h = h
receive_loop-NotListening fd (receives bytes none ∷ answers) s h = h
receive_loop-NotListening fd (receives bytes (some a) ∷ answers) s h = h

handle_ready-NotListening :
    (e : Ready) (s : TcpServer) → is_listening s ≡ false → NotListening (handle_ready e s)
unfolding handle_ready is_listening
handle_ready-NotListening (peer_ready answers) s h = accept_loop-NotListening answers _ refl
handle_ready-NotListening (data_ready fd false answers) s h = h
handle_ready-NotListening (data_ready fd true answers) s h =
    receive_loop-NotListening fd answers s h

Serves-NotListening :
    {s t : TcpServer} → is_listening s ≡ false → Serves s t → is_listening t ≡ false
Serves-NotListening h serves_none = h
Serves-NotListening h (serves_next {t} u e c r f) =
    subst NotListening f (handle_ready-NotListening e t (Serves-NotListening h r))

-- Once the event of a new peer is handled, whether it was accepted or not, `listening()` is false, and stays so
-- through all further events, although the server goes on to serve.
handle_incoming_peer-listening :
    (answers : List AcceptAnswer) (s t u : TcpServer) (c : Code)
    → handle_ready (peer_ready answers) s ≡ ended (t, c)
    → Serves t u
    → is_listening u ≡ false
unfolding handle_ready is_listening
handle_incoming_peer-listening answers s t u c e r =
    Serves-NotListening (subst NotListening e (accept_loop-NotListening answers _ refl)) r
