-- ===== src/SecureServer/Credentials.antt =====
-- The peers of a secure server and their credentials, over what the thread that listens does.
use module_oriented_software.Common.{
  ℕ, ◌≡◌, refl, sym, subst, Bool, true, false, none, some, Option-cases, List, [], ◌∷◌, inl, inr,
}
use module_oriented_software.Common.OrderedMap.{
  OrderedMap, IsOrdered, lookup, erase, erase-OrderedFrom,
}
use module_oriented_software.Common.Keys.{keys, erase-SameKeys}
use module_oriented_software.TcpServer.{
  SockAddr, Code, TcpServer, lose, Run, ended, waits, undefined, RecvAnswer, receives,
  receives_nothing, recv_ready, recv_gives_up, recv_lost, recv_fails, receive_loop,
  handle_incoming_data,
}
use module_oriented_software.TcpServer.Sending.{lose_connected, lose_absent}
use module_oriented_software.Tls.{TlsServer, clear_peer_creds}
use module_oriented_software.Tls.Store.Reached.{
  SameKeys, clear_peer_creds-SameKeys, erase_found_lem,
}
use module_oriented_software.SecureServer.{
  SecureServer, bare, settle, clear_lost, Read, recv_answers, secure_incoming_data,
}

-- What a method leaves, if it ends.
abbrev pub Ensures : {A B : Type 0} → (A → Type 0) → Run (A × B) → Type 0
Ensures P (ended r) = P r.0
Ensures P waits = Unit {0}
Ensures P undefined = Unit {0}

-- Exactly the peers that are connected have credentials, all four of them.
pub record IsConsistent (s : SecureServer) : Type 0 where
  pub ordered : IsOrdered s.tcp.peers
  pub credentials : SameKeys s.tls
  pub peers : keys s.tls.handles ≡ keys s.tcp.peers

-- What a method leaves that keeps the peers and disconnects none, and one that disconnects a peer.
kept-IsConsistent :
    (s : SecureServer) (t : TcpServer)
    → t.peers ≡ s.tcp.peers
    → clear_lost t.log s.tls ≡ s.tls
    → IsConsistent s
    → IsConsistent (settle t s)
unfolding settle
kept-IsConsistent s t p l v = record {
  ordered = rw p v.ordered;
  credentials = rw l v.credentials;
  peers = rw (l, p) v.peers;
}

pub keys-clear_peer_creds :
    (fd : ℕ) (s : TlsServer) (m : OrderedMap SockAddr)
    → keys s.handles ≡ keys m
    → keys (clear_peer_creds fd s).handles ≡ keys (erase fd m)
unfolding clear_peer_creds
keys-clear_peer_creds fd s m e = rw (erase_found_lem fd s.handles) (erase-SameKeys fd s.handles m e)

dropped-IsConsistent :
    (fd : ℕ) (s : SecureServer) (t : TcpServer)
    → t.peers ≡ erase fd s.tcp.peers
    → clear_lost t.log s.tls ≡ clear_peer_creds fd s.tls
    → IsConsistent s
    → IsConsistent (settle t s)
unfolding settle
dropped-IsConsistent fd s t p l v = record {
  ordered = rw p (erase-OrderedFrom 0 fd s.tcp.peers v.ordered);
  credentials = rw l (clear_peer_creds-SameKeys fd s.tls v.credentials);
  peers = rw (l, p) (keys-clear_peer_creds fd s.tls s.tcp.peers v.peers);
}

-- What `lose` leaves, once the internal hook has run.
lose-IsConsistent :
    (fd : ℕ) (told : SockAddr → SockAddr) (s : SecureServer)
    → IsConsistent s
    → IsConsistent (settle (lose fd told (bare s)) s)
unfolding clear_lost
lose-IsConsistent fd told s v = elim (Option-cases (lookup fd s.tcp.peers)) [
  | inl e ↦
      subst (λ t. IsConsistent (settle t s)) (sym (lose_absent fd told (bare s) e))
        (kept-IsConsistent s (bare s) refl refl v)
  | inr (a, e) ↦
      subst (λ t. IsConsistent (settle t s)) (sym (lose_connected fd told a (bare s) e))
        (dropped-IsConsistent fd s _ refl refl v)
]

receive_loop-IsConsistent :
    (fd : ℕ) (answers : List RecvAnswer) (s : SecureServer)
    → IsConsistent s
    → Ensures (λ t. IsConsistent (settle t s)) (receive_loop fd answers (bare s))
unfolding receive_loop clear_lost
receive_loop-IsConsistent fd [] s v = tt
receive_loop-IsConsistent fd (recv_ready ∷ answers) s v = receive_loop-IsConsistent fd answers s v
receive_loop-IsConsistent fd (receives_nothing ∷ answers) s v = lose-IsConsistent fd _ s v
receive_loop-IsConsistent fd (recv_lost ∷ answers) s v = lose-IsConsistent fd _ s v
receive_loop-IsConsistent fd (recv_gives_up ∷ answers) s v = lose-IsConsistent fd _ s v
receive_loop-IsConsistent fd (recv_fails ∷ answers) s v = kept-IsConsistent s (bare s) refl refl v
receive_loop-IsConsistent fd (receives bytes none ∷ answers) s v =
    kept-IsConsistent s (bare s) refl refl v
receive_loop-IsConsistent fd (receives bytes (some a) ∷ answers) s v =
    kept-IsConsistent s _ refl refl v

handle_incoming_data-IsConsistent :
    (fd : ℕ) (pending : Bool) (answers : List RecvAnswer) (s : SecureServer)
    → IsConsistent s
    → Ensures (λ t. IsConsistent (settle t s)) (handle_incoming_data fd pending answers (bare s))
unfolding handle_incoming_data clear_lost
handle_incoming_data-IsConsistent fd false answers s v = kept-IsConsistent s (bare s) refl refl v
handle_incoming_data-IsConsistent fd true answers s v = receive_loop-IsConsistent fd answers s v

-- Where the method of the server below has come to `r`.
secure_incoming_data-of :
    (fd : ℕ) (pending : Bool) (reads : List Read) (s : SecureServer) (r : Run (TcpServer × Code))
    → handle_incoming_data fd pending (recv_answers fd s.tls reads) (bare s) ≡ r
    → Ensures (λ t. IsConsistent (settle t s)) r
    → Ensures IsConsistent (secure_incoming_data fd pending reads s)
unfolding secure_incoming_data
secure_incoming_data-of fd pending reads s (ended (t, c)) e v = simp (secure_incoming_data, e) v
secure_incoming_data-of fd pending reads s waits e v = simp (secure_incoming_data, e) tt
secure_incoming_data-of fd pending reads s undefined e v = simp (secure_incoming_data, e) tt

pub secure_incoming_data-IsConsistent :
    (fd : ℕ) (pending : Bool) (reads : List Read) (s : SecureServer)
    → IsConsistent s
    → Ensures IsConsistent (secure_incoming_data fd pending reads s)
secure_incoming_data-IsConsistent fd pending reads s v =
    secure_incoming_data-of fd pending reads s _ refl
      (handle_incoming_data-IsConsistent fd pending (recv_answers fd s.tls reads) s v)
