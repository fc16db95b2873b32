-- ===== src/SecureServer/Resets.antt =====
-- What `reset` of a secure server leaves, and the peers that come after it.
use module_oriented_software.Common.{
  ℕ, ◌<◌, ◌≡◌, refl, ap, ◌∙◌, ==_refl, true, some, Option-cases, List, [], ◌∷◌, inl, inr,
}
use module_oriented_software.Common.OrderedMap.{OrderedMap, lookup, insert, erase, erase-insert}
use module_oriented_software.Common.Keys.{lookup-SameKeys}
use module_oriented_software.TcpServer.{
  connecting, SockAddr, code, negative, Effect, close, on_disconnect, ended, AcceptAnswer, accepts,
}
use module_oriented_software.TcpServer.Lifecycle.{close_all}
use module_oriented_software.TcpServer.Stopping.{clear_-running}
use module_oriented_software.Tls.{PeerAnswers, returns, TlsServer, register_client}
use module_oriented_software.SecureServer.{
  SecureServer, bare, settle, clear_lost, reject_peer, secure_peer, accept_off,
  secure_incoming_peer, secure_reset,
}
use module_oriented_software.SecureServer.Credentials.{IsConsistent}
use module_oriented_software.SecureServer.Accepting.{reject_connected, positive_ne_zero}

clear_lost-close_all :
    (m : OrderedMap SockAddr) (log : List Effect) (s : TlsServer)
    → clear_lost (close_all m log) s ≡ clear_lost log s
unfolding close_all clear_lost
clear_lost-close_all [] log s = refl
clear_lost-close_all ((fd, a) ∷ m) log s =
    clear_lost-close_all m (close fd ∷ on_disconnect a ∷ log) s

-- The peers are closed, and their credentials stay.
secure_reset-running :
    (s : SecureServer)
    → s.tcp.listen_enabled ≡ true
    → s.tcp.joinable ≡ true
    → ((secure_reset s).tcp.peers ≡ []) × ((secure_reset s).tls ≡ s.tls)
unfolding secure_reset settle clear_lost
secure_reset-running s e j =
    let (p, l, d, n) = clear_-running (bare s) e j in
    (p, ap (λ log. clear_lost log s.tls) l ∙ clear_lost-close_all s.tcp.peers [] s.tls)

register_client-known :
    (fd c : ℕ) (q : PeerAnswers) (s : TlsServer)
    → lookup fd s.contexts ≡ some c
    → register_client fd q s ≡ ended (s, returns (code 1))
unfolding register_client
register_client-known fd c q s e = rw (register_client, e) refl

secure_peer-known :
    (fd c : ℕ) (a : SockAddr) (q : PeerAnswers) (s : SecureServer)
    → lookup fd s.tls.contexts ≡ some c
    → secure_peer fd a q s ≡ ended (reject_peer fd a s, returns negative)
unfolding secure_peer
secure_peer-known fd c a q s e = rw (secure_peer, register_client-known fd c q s.tls e) refl

-- A peer that was connected has a context.
connected-context :
    (fd : ℕ) (b : SockAddr) (s : SecureServer)
    → IsConsistent s
    → lookup fd s.tcp.peers ≡ some b
    → (c : ℕ) × (lookup fd s.tls.contexts ≡ some c)
connected-context fd b s v e = elim (Option-cases (lookup fd s.tls.contexts)) [
  | inr (c, h) ↦ (c, h)
  | inl h ↦
      let n = lookup-SameKeys fd s.tls.contexts s.tcp.peers (v.credentials.contexts ∙ v.peers) h in
      absurd cc
]

lookup_alone : (fd : ℕ) (a : SockAddr) → lookup fd (insert fd a []) ≡ some a
unfolding lookup insert
lookup_alone fd a = rw (==_refl fd) refl

-- After `reset` of a secure server that listens, the next peer whose descriptor is one of a peer from before is refused, however its
-- handshake would go: the credentials of that peer are still there.
pub secure_incoming_peer-reset :
    (fd : ℕ) (a b : SockAddr) (answers : List AcceptAnswer) (q : PeerAnswers) (s : SecureServer)
    → IsConsistent s
    → s.tcp.listen_enabled ≡ true
    → s.tcp.joinable ≡ true
    → 0 < fd
    → lookup fd s.tcp.peers ≡ some b
    → (t : SecureServer) × (secure_incoming_peer (accepts fd a ∷ answers) q (secure_reset s)
        ≡ ended (t, returns negative))
      × (t.tcp.peers ≡ [])
unfolding secure_incoming_peer accept_off lookup
secure_incoming_peer-reset fd a b answers q s v l j p e =
    let (c, h) = connected-context fd b s v e in
    let (x, y) = secure_reset-running s l j in
    let r = secure_reset s in
    let u : SecureServer = record r {
      tcp = record r.tcp { state = connecting; peers = insert fd a r.tcp.peers };
    } in
    let found : lookup fd u.tcp.peers ≡ some a =
      ap (λ m. lookup fd (insert fd a m)) x ∙ lookup_alone fd a in
    (
      reject_peer fd a u,
      simp (positive_ne_zero fd p)
          (secure_peer-known fd c a q u (ap (λ t. lookup fd t.contexts) y ∙ h)),
      (reject_connected fd a u found).0
          ∙ ap (λ m. erase fd (insert fd a m)) x
          ∙ erase-insert fd a [] refl,
    )
