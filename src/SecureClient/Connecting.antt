-- ===== src/SecureClient/Connecting.antt =====
-- When a secure client is connected, and what it has then.
use module_oriented_software.Common.{
  ℕ, zero, suc, arith, ◌≡◌, ◌≢◌, ◌⊎◌, inl, inr, refl, sym, subst, Bool-cases, true, false, some,
  Option-cases,
}
use module_oriented_software.TcpServer.{
  Code, code, negative, unset, Run, ended, waits, undefined, connecting,
}
use module_oriented_software.TcpClient.{is_connected}
use module_oriented_software.Tls.{
  PeerCertificate, no_certificate, verify_throws, verified, not_verified, PeerAnswers, Outcome,
  returns, throws,
}
use module_oriented_software.Tls.Client.{
  TlsClient, do_connect, verify_server, connect_server, tls_connect,
}
use module_oriented_software.SecureClient.{
  SecureClient, ConnectAnswers, connect_off, connect_tls, secure_connect,
}

-- What `connect_` has done where it returns 0, and that it has changed no pointer elsewhere.
pub record IsVerified (q : PeerAnswers) (t : TlsClient) : Type 0 where
  pub accepted : do_connect q.handshake ≡ ended (code 0)
  pub proved : q.certificate ≡ verified
  pub given : t.handle ≡ q.handle

abbrev Answers : PeerAnswers → TlsClient → Run (TlsClient × Outcome) → Type 0
Answers q s (ended (t, o)) =
    ((o ≡ returns (code 0)) × IsVerified q t) ⊎ ((o ≢ returns (code 0)) × (t.handle ≡ s.handle))
Answers q s waits = Unit {0}
Answers q s undefined = Unit {0}

module _ (q : PeerAnswers) (s : TlsClient) where
  verify_server-Answers :
      (c : PeerCertificate) (context handle : ℕ) (signed : ℕ × ℕ)
      → q.certificate ≡ c
      → q.handle ≡ some handle
      → do_connect q.handshake ≡ ended (code 0)
      → Answers q s (ended (verify_server context handle signed c s))
  unfolding verify_server
  verify_server-Answers no_certificate context handle signed p g a = inr (λ r. cc, refl)
  verify_server-Answers verify_throws context handle signed p g a = inr (λ r. cc, refl)
  verify_server-Answers not_verified context handle signed p g a = inr (λ r. cc, refl)
  verify_server-Answers verified context handle (cert, key) p g a =
      inl (refl, record { accepted = a; proved = p; given = sym g })

  connect_server-Answers :
      (r : Run Code) (context handle : ℕ) (signed : ℕ × ℕ)
      → do_connect q.handshake ≡ r
      → q.handle ≡ some handle
      → Answers q s (connect_server context handle signed q s)
  unfolding connect_server
  connect_server-Answers (ended (code zero)) context handle signed a g =
      rw (connect_server, a) (verify_server-Answers q.certificate context handle signed refl g a)
  connect_server-Answers (ended (code (suc n))) context handle signed a g =
      rw (connect_server, a) (inr (λ r. grind arith, refl))
  connect_server-Answers (ended negative) context handle signed a g =
      rw (connect_server, a) (inr (λ r. cc, refl))
  connect_server-Answers (ended unset) context handle signed a g =
      rw (connect_server, a) (inr (λ r. cc, refl))
  connect_server-Answers waits context handle signed a g = rw (connect_server, a) tt
  connect_server-Answers undefined context handle signed a g = rw (connect_server, a) tt

  tls_connect-Answers : Answers q s (tls_connect q s)
  unfolding tls_connect
  tls_connect-Answers = elim (Option-cases q.signed) [
    | inl d ↦ simp (tls_connect, d) (inr (λ p. cc, refl))
    | inr (signed, d) ↦ elim (Option-cases q.context) [
      | inl c ↦ simp (tls_connect, d, c) (inr (λ p. cc, refl))
      | inr (context, c) ↦ elim (Bool-cases q.initialized) [
        | inr i ↦ simp (tls_connect, d, c, i) (inr (λ p. cc, refl))
        | inl i ↦ elim (Option-cases q.handle) [
          | inl g ↦ simp (tls_connect, d, c, i, g) (inr (λ p. cc, refl))
          | inr (handle, g) ↦
              simp (tls_connect, d, c, i, g)
                (connect_server-Answers (do_connect q.handshake) context handle signed refl g)
        ]
      ]
    ]
  ]

-- What `connect` of a secure client comes to once the client below is connected.
abbrev Connects : PeerAnswers → Run (SecureClient × Outcome) → Type 0
Connects p (ended (t, o)) =
    ((o ≡ returns (code 0)) × (is_connected t.tcp ≡ true) × IsVerified p t.tls)
    ⊎ ((o ≢ returns (code 0)) × (is_connected t.tcp ≡ false))
Connects p waits = Unit {0}
Connects p undefined = Unit {0}

connect_tls-of :
    (p : PeerAnswers) (s : SecureClient) (r : Run (TlsClient × Outcome))
    → tls_connect p s.tls ≡ r
    → Answers p s.tls r
    → is_connected s.tcp ≡ false
    → Connects p (connect_tls p s)
unfolding connect_tls is_connected
connect_tls-of p s (ended (u, returns (code zero))) e (inl (x, v)) c =
    simp (connect_tls, e) (inl (refl, refl, v))
connect_tls-of p s (ended (u, returns (code zero))) e (inr (x, v)) c = absurd (x refl)
connect_tls-of p s (ended (u, returns (code (suc n)))) e v c =
    simp (connect_tls, e) (inr (λ r. cc, refl))
connect_tls-of p s (ended (u, returns negative)) e v c = simp (connect_tls, e) (inr (λ r. cc, refl))
connect_tls-of p s (ended (u, returns unset)) e v c = simp (connect_tls, e) (inr (λ r. cc, refl))
connect_tls-of p s (ended (u, throws)) e v c = simp (connect_tls, e) (inr (λ r. cc, c))
connect_tls-of p s waits e v c = simp (connect_tls, e) tt
connect_tls-of p s undefined e v c = simp (connect_tls, e) tt

-- Where the client below is connected, and where it has returned another code.
secure_connect-connected :
    (q : ConnectAnswers) (p : PeerAnswers) (s : SecureClient)
    → (connect_off q s.tcp).1 ≡ code 0
    → Connects p (secure_connect q p s)
unfolding secure_connect is_connected
secure_connect-connected q p s h =
    let t : SecureClient = record s {
      tcp = record (connect_off q s.tcp).0 { state = connecting };
    } in
    simp (secure_connect, h)
      (connect_tls-of p t (tls_connect p s.tls) refl (tls_connect-Answers p s.tls) refl)

secure_connect-refused :
    (c : Code) (q : ConnectAnswers) (p : PeerAnswers) (s : SecureClient)
    → c ≢ code 0
    → (connect_off q s.tcp).1 ≡ c
    → secure_connect q p s ≡ ended (record s { tcp = (connect_off q s.tcp).0 }, returns c)
unfolding secure_connect
secure_connect-refused (code zero) q p s d h = absurd (d refl)
secure_connect-refused (code (suc n)) q p s d h = simp (secure_connect, h) refl
secure_connect-refused negative q p s d h = simp (secure_connect, h) refl
secure_connect-refused unset q p s d h = simp (secure_connect, h) refl

is_zero : (c : Code) → (c ≡ code 0) ⊎ (c ≢ code 0)
is_zero (code zero) = inl refl
is_zero (code (suc n)) = inr (λ e. grind arith)
is_zero negative = inr (λ e. cc)
is_zero unset = inr (λ e. cc)

ended_returns :
    {s t : SecureClient} {c d : Code} (r : Run (SecureClient × Outcome))
    → r ≡ ended (s, returns c)
    → r ≡ ended (t, returns d)
    → c ≡ d
ended_returns r e h = cc

-- Where `connect` of a secure client returns 0, the client is connected, the handshake has succeeded, the signature of the peer's certificate was
-- verified, and the handle that later calls use is that of this connection.
pub secure_connect-IsVerified :
    (q : ConnectAnswers) (p : PeerAnswers) (s t : SecureClient)
    → secure_connect q p s ≡ ended (t, returns (code 0))
    → (is_connected t.tcp ≡ true) × IsVerified p t.tls
secure_connect-IsVerified q p s t e = elim (is_zero (connect_off q s.tcp).1) [
  | inr d ↦ absurd (d (ended_returns _ (secure_connect-refused _ q p s d refl) e))
  | inl h ↦ elim (subst (Connects p) e (secure_connect-connected q p s h)) [
    | inl (x, y, z) ↦ (y, z)
    | inr (x, y) ↦ absurd (x refl)
  ]
]
