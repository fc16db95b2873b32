-- ===== src/SecureServer/Reached.antt =====
-- The states of a secure server over whatever the thread that listens does.
use module_oriented_software.Common.{ℕ, ◌≡◌, refl, subst, Bool, true, false, List}
use module_oriented_software.TcpServer.{Code, TcpServer, ended, AcceptAnswer}
use module_oriented_software.TcpServer.Lifecycle.{begin_listening, end_listening, start}
use module_oriented_software.TcpServer.Stopping.{stop_keeps}
use module_oriented_software.Tls.{PeerAnswers, returns}
use module_oriented_software.SecureServer.{
  SecureServer, secure_incoming_peer, Read, secure_incoming_data, secure_begin, secure_end,
  secure_start, secure_stop,
}
use module_oriented_software.SecureServer.Credentials.{
  Ensures, IsConsistent, secure_incoming_data-IsConsistent,
}
use module_oriented_software.SecureServer.Accepting.{
  EnsuresReturn, IsFreshPeer, secure_incoming_peer-IsConsistent,
}

-- What the thread that listens does, and how it is made and stopped.
pub data Step : SecureServer → SecureServer → Type 0 where
  accepts_peer :
      (answers : List AcceptAnswer) (q : PeerAnswers) (s t : SecureServer) (c : Code)
      → IsFreshPeer answers s.tcp.peers
      → secure_incoming_peer answers q s ≡ ended (t, returns c)
      → Step s t
  reads_data :
      (fd : ℕ) (pending : Bool) (reads : List Read) (s t : SecureServer) (c : Code)
      → secure_incoming_data fd pending reads s ≡ ended (t, c)
      → Step s t
  begins : (listens : Bool) (s : SecureServer) → Step s (secure_begin listens s).0
  ends : (s : SecureServer) → Step s (secure_end s)
  starts : (s : SecureServer) → Step s (secure_start s)
  stops : (s : SecureServer) → Step s (secure_stop s).0

pub data Reach (s : SecureServer) : SecureServer → Type 0 where
  here : Reach s s
  next : {t u : SecureServer} → Reach s t → Step t u → Reach s u

moved-IsConsistent :
    (s : SecureServer) (t : TcpServer)
    → t.peers ≡ s.tcp.peers
    → IsConsistent s
    → IsConsistent (record s { tcp = t })
moved-IsConsistent s t p v = record {
  ordered = rw p v.ordered;
  credentials = v.credentials;
  peers = rw p v.peers;
}

Step-IsConsistent : {s t : SecureServer} → Step s t → IsConsistent s → IsConsistent t
unfolding secure_begin secure_end secure_start secure_stop begin_listening end_listening start
Step-IsConsistent (accepts_peer answers q s t c f e) v =
    subst (EnsuresReturn IsConsistent) e (secure_incoming_peer-IsConsistent answers q s f v)
Step-IsConsistent (reads_data fd pending reads s t c e) v =
    subst (Ensures IsConsistent) e (secure_incoming_data-IsConsistent fd pending reads s v)
Step-IsConsistent (begins true s) v = moved-IsConsistent s _ refl v
Step-IsConsistent (begins false s) v = moved-IsConsistent s _ refl v
Step-IsConsistent (ends s) v = moved-IsConsistent s _ refl v
Step-IsConsistent (starts s) v = moved-IsConsistent s _ refl v
Step-IsConsistent (stops s) v = moved-IsConsistent s _ (stop_keeps s.tcp).0 v

-- Over any steps that accept peers, read, listen, start and stop, where `accept` gives no descriptor of a connected peer and not 0: exactly the
-- peers that are connected have credentials, and each of them has all four. `reset`, which leaves the credentials, is no such step.
pub Reach-IsConsistent : {s t : SecureServer} → IsConsistent s → Reach s t → IsConsistent t
Reach-IsConsistent v here = v
Reach-IsConsistent v (next r st) = Step-IsConsistent st (Reach-IsConsistent v r)
