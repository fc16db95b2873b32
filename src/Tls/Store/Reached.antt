-- ===== src/Tls/Store/Reached.antt =====
-- The four maps of a server in env/inc/tls.hpp over any use of them.
use module_oriented_software.Common.{ℕ, arith, ◌≡◌, refl, sym, ◌∙◌, inl, inr, none, Option-cases}
use module_oriented_software.Common.OrderedMap.{
  OrderedMap, lookup, insert, erase, IsOrdered, insert-OrderedFrom, erase-OrderedFrom, erase-insert,
}
use module_oriented_software.Common.Keys.{
  keys, erase_absent, insert-SameKeys, erase-SameKeys, lookup-SameKeys,
}
use module_oriented_software.TcpServer.{code, ended}
use module_oriented_software.Tls.{
  PeerAnswers, Outcome, returns, TlsServer, register_client, erase_found, clear_peer_creds,
}
use module_oriented_software.Tls.Store.{IsRegistered, SameMaps, register_client_lem}

-- A peer that is in one map is in all four.
pub record SameKeys (s : TlsServer) : Type 0 where
  pub ordered : IsOrdered s.handles
  pub contexts : keys s.contexts ≡ keys s.handles
  pub certs : keys s.certs ≡ keys s.handles
  pub rsa_priv_keys : keys s.rsa_priv_keys ≡ keys s.handles

-- `find` makes no difference to `erase`.
pub erase_found_lem : (fd : ℕ) (m : OrderedMap ℕ) → erase_found fd m ≡ erase fd m
unfolding erase_found
erase_found_lem fd m = elim (Option-cases (lookup fd m)) [
  | inl e ↦ rw (erase_found, e) (sym (erase_absent fd m e))
  | inr (v, e) ↦ rw (erase_found, e) refl
]

pub IsRegistered-SameKeys :
    {fd : ℕ} {q : PeerAnswers} {s t : TlsServer} → IsRegistered fd q s t → SameKeys s → SameKeys t
IsRegistered-SameKeys {fd} {q} {s} r v = rw r.stored (record {
  ordered = insert-OrderedFrom 0 fd r.handle s.handles (omega arith) v.ordered;
  contexts = insert-SameKeys fd _ _ s.contexts s.handles v.contexts;
  certs = insert-SameKeys fd _ _ s.certs s.handles v.certs;
  rsa_priv_keys = insert-SameKeys fd _ _ s.rsa_priv_keys s.handles v.rsa_priv_keys;
})

SameMaps-SameKeys : {s t : TlsServer} → SameMaps s t → SameKeys s → SameKeys t
SameMaps-SameKeys m v = record {
  ordered = rw m.handles v.ordered;
  contexts = rw (m.contexts, m.handles) v.contexts;
  certs = rw (m.certs, m.handles) v.certs;
  rsa_priv_keys = rw (m.rsa_priv_keys, m.handles) v.rsa_priv_keys;
}

pub register_client-SameKeys :
    (fd : ℕ) (q : PeerAnswers) (s t : TlsServer) (o : Outcome)
    → register_client fd q s ≡ ended (t, o)
    → SameKeys s
    → SameKeys t
register_client-SameKeys fd q s t o e v = elim (register_client_lem fd q s t o e) [
  | inl (p, r) ↦ IsRegistered-SameKeys r v
  | inr (p, m) ↦ SameMaps-SameKeys m v
]

pub clear_peer_creds-SameKeys :
    (fd : ℕ) (s : TlsServer) → SameKeys s → SameKeys (clear_peer_creds fd s)
unfolding clear_peer_creds
clear_peer_creds-SameKeys fd s v = record {
  ordered = rw (erase_found_lem fd s.handles) (erase-OrderedFrom 0 fd s.handles v.ordered);
  contexts =
      rw (erase_found_lem fd s.contexts, erase_found_lem fd s.handles)
        (erase-SameKeys fd s.contexts s.handles v.contexts);
  certs =
      rw (erase_found_lem fd s.certs, erase_found_lem fd s.handles)
        (erase-SameKeys fd s.certs s.handles v.certs);
  rsa_priv_keys =
      rw (erase_found_lem fd s.rsa_priv_keys, erase_found_lem fd s.handles)
        (erase-SameKeys fd s.rsa_priv_keys s.handles v.rsa_priv_keys);
}

-- What is done with the credentials, one after the other.
pub data Reach (s : TlsServer) : TlsServer → Type 0 where
  here : Reach s s
  registers :
      {t : TlsServer} (fd : ℕ) (q : PeerAnswers) (u : TlsServer) (o : Outcome)
      → Reach s t
      → register_client fd q t ≡ ended (u, o)
      → Reach s u
  clears : {t : TlsServer} (fd : ℕ) → Reach s t → Reach s (clear_peer_creds fd t)

-- Over any peers that are registered, successfully or not, and cleared, in any order: a peer has its handle, its context, its certificate and
-- its private key, or none of them.
pub Reach-SameKeys : {s t : TlsServer} → SameKeys s → Reach s t → SameKeys t
Reach-SameKeys v here = v
Reach-SameKeys v (registers {t} fd q u o r e) =
    register_client-SameKeys fd q t u o e (Reach-SameKeys v r)
Reach-SameKeys v (clears {t} fd r) = clear_peer_creds-SameKeys fd t (Reach-SameKeys v r)

erase_found-insert :
    (fd a : ℕ) (m : OrderedMap ℕ) → lookup fd m ≡ none → erase_found fd (insert fd a m) ≡ m
erase_found-insert fd a m e = erase_found_lem fd (insert fd a m) ∙ erase-insert fd a m e

-- What clearing leaves of the four maps.
pub clear_peer_creds-SameMaps :
    (fd : ℕ) (q : PeerAnswers) (s t : TlsServer)
    → SameKeys s
    → IsRegistered fd q s t
    → SameMaps s (clear_peer_creds fd t)
unfolding clear_peer_creds
clear_peer_creds-SameMaps fd q s t v r =
    let absent : (m : OrderedMap ℕ) → keys m ≡ keys s.handles → lookup fd m ≡ none =
      λ m k. lookup-SameKeys fd s.handles m (sym k) r.new_handle in
    rw r.stored (record {
      handles = erase_found-insert fd r.handle s.handles r.new_handle;
      contexts = erase_found-insert fd r.context s.contexts r.new_context;
      certs = erase_found-insert fd r.cert s.certs (absent s.certs v.certs);
      rsa_priv_keys =
          erase_found-insert fd r.key s.rsa_priv_keys (absent s.rsa_priv_keys v.rsa_priv_keys);
    })

-- The credentials of a peer that was registered are cleared without a trace: the four maps are those from before it was registered.
clear_peer_creds-register_client :
    (fd : ℕ) (q : PeerAnswers) (s t : TlsServer)
    → SameKeys s
    → register_client fd q s ≡ ended (t, returns (code 0))
    → SameMaps s (clear_peer_creds fd t)
clear_peer_creds-register_client fd q s t v e = elim (register_client_lem fd q s t _ e) [
  | inr (p, m) ↦ absurd (p refl)
  | inl (p, r) ↦ clear_peer_creds-SameMaps fd q s t v r
]
