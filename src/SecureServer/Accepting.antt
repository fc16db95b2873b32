-- ===== src/SecureServer/Accepting.antt =====
-- A peer that a secure server accepts.
use module_oriented_software.Common.{
  ℕ, zero, suc, ◌<◌, ◌≡◌, ◌≢◌, refl, sym, ap, ◌∙◌, subst, arith, ◌==◌, ==_refl, false, none, some,
  List, [], ◌∷◌, inl, inr,
}
use module_oriented_software.Common.OrderedMap.{
  OrderedMap, IsOrdered, lookup, insert, erase, insert-OrderedFrom, erase-insert, lookup-insert,
}
use module_oriented_software.Common.Keys.{keys, erase_absent, insert-SameKeys}
use module_oriented_software.TcpServer.{
  SockAddr, code, negative, unset, TcpServer, disconnect_fd, drop_peer, Run, ended, waits,
  undefined, AcceptAnswer, accepts, accept_ready, accept_gives_up, accept_fails,
}
use module_oriented_software.Tls.{
  PeerAnswers, Outcome, returns, throws, TlsServer, register_client, clear_peer_creds,
}
use module_oriented_software.Tls.Store.{IsRegistered, register_client_lem}
use module_oriented_software.Tls.Store.Reached.{
  SameKeys, IsRegistered-SameKeys, register_client-SameKeys, clear_peer_creds-SameKeys,
}
use module_oriented_software.SecureServer.{
  SecureServer, bare, settle, clear_lost, refuse, reject_peer, secure_peer, accept_off,
  secure_incoming_peer,
}
use module_oriented_software.SecureServer.Credentials.{IsConsistent, keys-clear_peer_creds}

-- What a method leaves, if it returns. One that throws ends the program, since nothing catches it in the thread.
abbrev pub EnsuresReturn : {A : Type 0} → (A → Type 0) → Run (A × Outcome) → Type 0
EnsuresReturn P (ended (t, returns c)) = P t
EnsuresReturn P (ended (t, throws)) = Unit {0}
EnsuresReturn P waits = Unit {0}
EnsuresReturn P undefined = Unit {0}

disconnect_connected :
    (fd : ℕ) (a : SockAddr) (s : TcpServer)
    → lookup fd s.peers ≡ some a
    → (disconnect_fd fd s).0 ≡ drop_peer fd s
unfolding disconnect_fd
disconnect_connected fd a s e = rw (disconnect_fd, e) refl

-- The state of `reject_peer`, where the peer is connected.
pub reject_connected :
    (fd : ℕ) (a : SockAddr) (s : SecureServer)
    → lookup fd s.tcp.peers ≡ some a
    → ((reject_peer fd a s).tcp.peers ≡ erase fd s.tcp.peers)
      × ((reject_peer fd a s).tls ≡ clear_peer_creds fd (clear_peer_creds fd s.tls))
unfolding reject_peer settle clear_lost refuse drop_peer
reject_connected fd a s e =
    let d = disconnect_connected fd a (bare s) e in
    (ap (λ t. t.peers) d, ap (λ t. clear_peer_creds fd (clear_lost t.log s.tls)) d)

-- The peers and the credentials from before are those that are left where a new peer is rejected.
reject_peer-IsConsistent :
    (fd : ℕ) (a : SockAddr) (s : SecureServer) (m : OrderedMap SockAddr)
    → s.tcp.peers ≡ insert fd a m
    → IsOrdered m
    → lookup fd m ≡ none
    → SameKeys s.tls
    → keys s.tls.handles ≡ keys m
    → IsConsistent (reject_peer fd a s)
reject_peer-IsConsistent fd a s m p o n v k =
    let found : lookup fd s.tcp.peers ≡ some a =
      rw (p, lookup-insert 0 fd fd a m o n, ==_refl fd) refl in
    let (x, y) = reject_connected fd a s found in
    let left : erase fd s.tcp.peers ≡ m = rw p (erase-insert fd a m n) in
    let u = clear_peer_creds fd s.tls in
    let ku : keys u.handles ≡ keys m =
      keys-clear_peer_creds fd s.tls m k ∙ ap keys (erase_absent fd m n) in
    record {
      ordered = subst IsOrdered (sym (x ∙ left)) o;
      credentials =
          subst SameKeys (sym y)
            (clear_peer_creds-SameKeys fd u (clear_peer_creds-SameKeys fd s.tls v));
      peers =
          ap (λ t. keys t.handles) y
          ∙ keys-clear_peer_creds fd u m ku
          ∙ ap keys (erase_absent fd m n)
          ∙ ap keys (sym (x ∙ left));
    }

-- A peer that was just accepted, before it is registered: the others, `m`, have credentials.
record IsAccepted (fd : ℕ) (a : SockAddr) (m : OrderedMap SockAddr) (s : SecureServer)
    : Type 0 where
  accepted : s.tcp.peers ≡ insert fd a m
  ordered : IsOrdered m
  fresh : lookup fd m ≡ none
  credentials : SameKeys s.tls
  others : keys s.tls.handles ≡ keys m

module _ (fd : ℕ) (a : SockAddr) (q : PeerAnswers) (s : SecureServer)
    (m : OrderedMap SockAddr) where
  registered-peers :
      (u : TlsServer)
      → IsRegistered fd q s.tls u
      → IsAccepted fd a m s
      → keys u.handles ≡ keys s.tcp.peers
  registered-peers u y v =
      ap (λ t. keys t.handles) y.stored
      ∙ insert-SameKeys fd y.handle a s.tls.handles m v.others
      ∙ ap keys (sym v.accepted)

  registered-IsOrdered : IsAccepted fd a m s → IsOrdered s.tcp.peers
  registered-IsOrdered v = rw v.accepted (insert-OrderedFrom 0 fd a m (omega arith) v.ordered)

  refused-IsConsistent :
      (u : TlsServer) (o : Outcome)
      → register_client fd q s.tls ≡ ended (u, o)
      → o ≢ returns (code 0)
      → IsAccepted fd a m s
      → IsConsistent (reject_peer fd a (record s { tls = u }))
  refused-IsConsistent u o e d v = elim (register_client_lem fd q s.tls u o e) [
    | inl (x, y) ↦ absurd (d x)
    | inr (x, y) ↦
        reject_peer-IsConsistent fd a (record s { tls = u }) m v.accepted v.ordered v.fresh
          (register_client-SameKeys fd q s.tls u o e v.credentials) (ap keys y.handles ∙ v.others)
  ]

  -- Where registering the peer has come to `r`.
  secure_peer-of :
      (r : Run (TlsServer × Outcome))
      → register_client fd q s.tls ≡ r
      → IsAccepted fd a m s
      → EnsuresReturn IsConsistent (secure_peer fd a q s)
  unfolding secure_peer
  secure_peer-of (ended (u, returns (code zero))) e v =
      simp (secure_peer, e)
        (elim (register_client_lem fd q s.tls u _ e) [
          | inr (x, y) ↦ absurd (x refl)
          | inl (x, y) ↦ record {
            ordered = registered-IsOrdered v;
            credentials = IsRegistered-SameKeys y v.credentials;
            peers = registered-peers u y v;
          }
        ])
  secure_peer-of (ended (u, returns (code (suc c)))) e v =
      simp (secure_peer, e) (refused-IsConsistent u _ e (λ x. grind arith) v)
  secure_peer-of (ended (u, returns negative)) e v =
      simp (secure_peer, e) (refused-IsConsistent u _ e (λ x. cc) v)
  secure_peer-of (ended (u, returns unset)) e v =
      simp (secure_peer, e) (refused-IsConsistent u _ e (λ x. cc) v)
  secure_peer-of (ended (u, throws)) e v = simp (secure_peer, e) tt
  secure_peer-of waits e v = simp (secure_peer, e) tt
  secure_peer-of undefined e v = simp (secure_peer, e) tt

-- What `accept` promises: the descriptor that it gives is not that of a connected peer, and not 0, the one of the
-- standard input, which a program with an open standard input never gets.
abbrev pub IsFreshPeer : List AcceptAnswer → OrderedMap SockAddr → Type 0
IsFreshPeer [] m = Unit {0}
IsFreshPeer (accepts fd a ∷ answers) m = (0 < fd) × (lookup fd m ≡ none)
IsFreshPeer (accept_ready ∷ answers) m = IsFreshPeer answers m
IsFreshPeer (accept_gives_up ∷ answers) m = Unit {0}
IsFreshPeer (accept_fails ∷ answers) m = Unit {0}

pub positive_ne_zero : (fd : ℕ) → 0 < fd → (fd == 0) ≡ false
positive_ne_zero fd h = ground arith

pub secure_incoming_peer-IsConsistent :
    (answers : List AcceptAnswer) (q : PeerAnswers) (s : SecureServer)
    → IsFreshPeer answers s.tcp.peers
    → IsConsistent s
    → EnsuresReturn IsConsistent (secure_incoming_peer answers q s)
unfolding secure_incoming_peer accept_off refuse
secure_incoming_peer-IsConsistent [] q s f v = tt
secure_incoming_peer-IsConsistent (accept_ready ∷ answers) q s f v =
    secure_incoming_peer-IsConsistent answers q s f v
secure_incoming_peer-IsConsistent (accept_gives_up ∷ answers) q s f v = record {
  ordered = v.ordered;
  credentials = v.credentials;
  peers = v.peers;
}
secure_incoming_peer-IsConsistent (accept_fails ∷ answers) q s f v = record {
  ordered = v.ordered;
  credentials = v.credentials;
  peers = v.peers;
}
secure_incoming_peer-IsConsistent (accepts fd a ∷ answers) q s (p, n) v =
    rw (positive_ne_zero fd p) (
      secure_peer-of fd a q _ s.tcp.peers _ refl (record {
        accepted = refl;
        ordered = v.ordered;
        fresh = n;
        credentials = v.credentials;
        others = v.peers;
      }))
