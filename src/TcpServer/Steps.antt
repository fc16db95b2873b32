-- ===== src/TcpServer/Steps.antt =====
-- What the threads of a program do with a server, step by step, and the account of its peers.
use module_oriented_software.Common.{ℕ, suc, ◌≡◌, ◌+◌, length, List, [], ◌∷◌, none, Bool}
use module_oriented_software.Common.OrderedMap.{OrderedMap, IsOrdered, lookup}
use module_oriented_software.TcpServer.{
  SockAddr, Code, Effect, on_connect, on_disconnect, on_receive, on_send, on_disconnect_internal,
  close, TcpServer, Parsed, SendAnswer, send, ended, AcceptAnswer, accepts, accept_ready,
  accept_gives_up, accept_fails,
}
use module_oriented_software.TcpServer.Lifecycle.{
  Ready, peer_ready, data_ready, handle_ready, begin_listening, end_listening, start, stop, clear_,
}

-- How often the hook was started for a new peer, and how often it was started for one that is lost.
abbrev pub connects : List Effect → ℕ
connects [] = 0
connects (on_connect a ∷ log) = suc (connects log)
connects (on_disconnect a ∷ log) = connects log
connects (on_receive a m ∷ log) = connects log
connects (on_send a m ∷ log) = connects log
connects (on_disconnect_internal fd ∷ log) = connects log
connects (close fd ∷ log) = connects log

abbrev pub disconnects : List Effect → ℕ
disconnects [] = 0
disconnects (on_connect a ∷ log) = disconnects log
disconnects (on_disconnect a ∷ log) = suc (disconnects log)
disconnects (on_receive a m ∷ log) = disconnects log
disconnects (on_send a m ∷ log) = disconnects log
disconnects (on_disconnect_internal fd ∷ log) = disconnects log
disconnects (close fd ∷ log) = disconnects log

-- What `accept` promises: the descriptor that it gives is not that of a connected peer.
abbrev pub IsFresh : List AcceptAnswer → OrderedMap SockAddr → Type 0
IsFresh [] m = Unit {0}
IsFresh (accepts fd a ∷ answers) m = lookup fd m ≡ none
IsFresh (accept_ready ∷ answers) m = IsFresh answers m
IsFresh (accept_gives_up ∷ answers) m = Unit {0}
IsFresh (accept_fails ∷ answers) m = Unit {0}

abbrev pub IsFreshReady : Ready → OrderedMap SockAddr → Type 0
IsFreshReady (peer_ready answers) m = IsFresh answers m
IsFreshReady (data_ready fd pending answers) m = Unit {0}

-- What the threads of a program do with a server that is set up: an event is handled, something is sent, or the
-- thread that listens begins and ends, or is made or stopped, or the socket is reset.
pub data Step : TcpServer → TcpServer → Type 0 where
  handles :
      (e : Ready) (s t : TcpServer) (c : Code)
      → IsFreshReady e s.peers
      → handle_ready e s ≡ ended (t, c)
      → Step s t
  sent :
      (a : Parsed) (msg : List ℕ) (answers : List SendAnswer) (s t : TcpServer) (c : Code)
      → send a msg answers s ≡ ended (t, c)
      → Step s t
  begins : (listens : Bool) (s : TcpServer) → Step s (begin_listening listens s).0
  ends : (s : TcpServer) → Step s (end_listening s)
  starts : (s : TcpServer) → Step s (start s)
  stops : (s : TcpServer) → Step s (stop s).0
  clears : (s : TcpServer) → Step s (clear_ s)

pub data Reach (s : TcpServer) : TcpServer → Type 0 where
  here : Reach s s
  next : {t u : TcpServer} → Reach s t → Step t u → Reach s u

-- Every peer that was accepted is connected, or its loss was told, and not both.
pub record IsBalanced (s : TcpServer) : Type 0 where
  pub ordered : IsOrdered s.peers
  pub balance : connects s.log ≡ length s.peers + disconnects s.log
