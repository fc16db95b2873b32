-- ===== src/Tls/Store.antt =====
-- The four maps of a server in env/inc/tls.hpp: what registering a peer and clearing its credentials leave in them.
pub mod Reached
use module_oriented_software.Common.{
  ℕ, subst, arith, zero, suc, ◌≡◌, ◌≢◌, refl, ◌⊎◌, inl, inr, true, false, none, some, Option-cases,
  Bool-cases, ◌==◌, if◌then◌else◌,
}
use module_oriented_software.Common.OrderedMap.{lookup, insert, erase, IsOrdered}
use module_oriented_software.TcpServer.{Code, code, negative, unset, Run, ended, waits, undefined}
use module_oriented_software.Tls.{
  PeerAnswers, PeerCertificate, no_certificate, verify_throws, verified, not_verified, Outcome,
  returns, throws, TlsServer, do_accept, verify_peer, accept_peer, register_new, register_client,
  free_handle,
}

-- The credentials of one peer were stored, for a peer that was new and that has proved itself.
pub record IsRegistered (fd : ℕ) (q : PeerAnswers) (s t : TlsServer) : Type 0 where
  pub context : ℕ
  pub handle : ℕ
  pub cert : ℕ
  pub key : ℕ
  pub accepted : do_accept q.handshake ≡ ended (code 0)
  pub proved : q.certificate ≡ verified
  pub given : q.handle ≡ some handle
  pub new_context : lookup fd s.contexts ≡ none
  pub new_handle : lookup fd s.handles ≡ none
  pub stored : t ≡ record s {
    handles = insert fd handle s.handles;
    contexts = insert fd context s.contexts;
    certs = insert fd cert s.certs;
    rsa_priv_keys = insert fd key s.rsa_priv_keys;
  }

-- The maps are those that were.
pub record SameMaps (s t : TlsServer) : Type 0 where
  pub handles : t.handles ≡ s.handles
  pub contexts : t.contexts ≡ s.contexts
  pub certs : t.certs ≡ s.certs
  pub rsa_priv_keys : t.rsa_priv_keys ≡ s.rsa_priv_keys

abbrev pub Answers : ℕ → PeerAnswers → TlsServer → Run (TlsServer × Outcome) → Type 0
Answers fd q s (ended (t, o)) =
    ((o ≡ returns (code 0)) × IsRegistered fd q s t) ⊎ ((o ≢ returns (code 0)) × SameMaps s t)
Answers fd q s waits = Unit {0}
Answers fd q s undefined = Unit {0}

freed-SameMaps : (h : ℕ) (s : TlsServer) → SameMaps s (free_handle h s)
unfolding free_handle
freed-SameMaps h s = record { handles = refl; contexts = refl; certs = refl; rsa_priv_keys = refl }

same : (s : TlsServer) → SameMaps s s
same s = record { handles = refl; contexts = refl; certs = refl; rsa_priv_keys = refl }

module _ (fd : ℕ) (q : PeerAnswers) (s : TlsServer) where
  verify_peer-Answers :
      (c : PeerCertificate) (context handle : ℕ) (signed : ℕ × ℕ)
      → q.certificate ≡ c
      → q.handle ≡ some handle
      → lookup fd s.contexts ≡ none
      → lookup fd s.handles ≡ none
      → do_accept q.handshake ≡ ended (code 0)
      → Answers fd q s (ended (verify_peer fd context handle signed c s))
  unfolding verify_peer free_handle
  verify_peer-Answers no_certificate context handle signed p g e k a =
      inr (λ r. cc, freed-SameMaps handle s)
  verify_peer-Answers verify_throws context handle signed p g e k a = inr (λ r. cc, same s)
  verify_peer-Answers not_verified context handle signed p g e k a =
      inr (λ r. cc, freed-SameMaps handle s)
  verify_peer-Answers verified context handle (cert, key) p g e k a = inl (
    refl,
    record {
      context = context;
      handle = handle;
      cert = cert;
      key = key;
      accepted = a;
      proved = p;
      given = g;
      new_context = e;
      new_handle = k;
      stored = refl;
    },
  )

  -- Where the handshake has come to `r`.
  accept_peer-Answers :
      (r : Run Code) (context handle : ℕ) (signed : ℕ × ℕ)
      → do_accept q.handshake ≡ r
      → q.handle ≡ some handle
      → lookup fd s.contexts ≡ none
      → lookup fd s.handles ≡ none
      → Answers fd q s (accept_peer fd context handle signed q s)
  unfolding accept_peer free_handle
  accept_peer-Answers (ended (code zero)) context handle signed a g e k =
      rw (accept_peer, a) (verify_peer-Answers q.certificate context handle signed refl g e k a)
  accept_peer-Answers (ended (code (suc n))) context handle signed a g e k =
      rw (accept_peer, a) (inr (λ r. grind arith, freed-SameMaps handle s))
  accept_peer-Answers (ended negative) context handle signed a g e k =
      rw (accept_peer, a) (inr (λ r. cc, freed-SameMaps handle s))
  accept_peer-Answers (ended unset) context handle signed a g e k =
      rw (accept_peer, a) (inr (λ r. cc, freed-SameMaps handle s))
  accept_peer-Answers waits context handle signed a g e k = rw (accept_peer, a) tt
  accept_peer-Answers undefined context handle signed a g e k = rw (accept_peer, a) tt

  register_client-Answers : Answers fd q s (register_client fd q s)
  unfolding register_client register_new
  register_client-Answers = elim (Option-cases (lookup fd s.contexts)) [
    | inr (c, e) ↦ simp (register_client, e) (inr (λ p. grind arith, same s))
    | inl e ↦ elim (Option-cases (lookup fd s.handles)) [
      | inr (h, k) ↦ simp (register_client, e, k) (inr (λ p. grind arith, same s))
      | inl k ↦ elim (Option-cases q.context) [
        | inl c ↦ simp (register_client, e, k, register_new, c) (inr (λ p. cc, same s))
        | inr (context, c) ↦ elim (Option-cases q.signed) [
          | inl d ↦ simp (register_client, e, k, register_new, c, d) (inr (λ p. cc, same s))
          | inr (signed, d) ↦ elim (Bool-cases q.initialized) [
            | inr i ↦ simp (register_client, e, k, register_new, c, d, i) (inr (λ p. cc, same s))
            | inl i ↦ elim (Option-cases q.handle) [
              | inl g ↦
                  simp (register_client, e, k, register_new, c, d, i, g) (inr (λ p. cc, same s))
              | inr (handle, g) ↦
                  simp (register_client, e, k, register_new, c, d, i, g)
                    (accept_peer-Answers (do_accept q.handshake) context handle signed refl g e k)
            ]
          ]
        ]
      ]
    ]
  ]

-- `register_client_` in each of its ways: where it returns 0, the descriptor was new, the handshake has succeeded, the signature of the peer's
-- certificate was verified, and the four maps have the new credentials; where it returns anything else or throws, the four maps are as before.
pub register_client_lem :
    (fd : ℕ) (q : PeerAnswers) (s t : TlsServer) (o : Outcome)
    → register_client fd q s ≡ ended (t, o)
    → ((o ≡ returns (code 0)) × IsRegistered fd q s t) ⊎ ((o ≢ returns (code 0)) × SameMaps s t)
register_client_lem fd q s t o e = subst (Answers fd q s) e (register_client-Answers fd q s)
