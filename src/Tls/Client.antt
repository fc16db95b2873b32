-- ===== src/Tls/Client.antt =====
-- env/inc/tls.hpp, where `secure_socket_type` is `CLIENT_UNICAST_SECURE_TLS`: the credentials of the one connection.
use module_oriented_software.Common.{
  ℕ, zero, true, false, Option, none, some, List, [], ◌∷◌, if◌then◌else◌,
}
use module_oriented_software.TcpServer.{Code, code, negative, Run, ended, waits}
use module_oriented_software.Tls.{
  ready, not_ready, HandshakeAnswer, error_none, want_write, want_read, want_x509_lookup,
  want_accept, want_connect, zero_return, error_ssl, error_other, error_syscall, PeerCertificate,
  no_certificate, verify_throws, verified, not_verified, PeerAnswers, Outcome, returns, throws,
  TransferAnswer, transfer,
}

-- The four pointers, and the handles that were freed, the last one first.
pub record TlsClient : Type 0 where
  pub handle : Option ℕ
  pub context : Option ℕ
  pub cert : Option ℕ
  pub rsa_priv_key : Option ℕ
  pub freed : List ℕ

-- The loop of `connect_`, which goes on where `errno` is `EAGAIN`.
unfoldable pub do_connect : List HandshakeAnswer → Run Code
do_connect [] = waits
do_connect (error_none ∷ answers) = ended (code 0)
do_connect (want_write ready ∷ answers) = do_connect answers
do_connect (want_write not_ready ∷ answers) = ended negative
do_connect (want_read ready ∷ answers) = do_connect answers
do_connect (want_read not_ready ∷ answers) = ended negative
do_connect (want_x509_lookup ∷ answers) = do_connect answers
do_connect (want_accept ∷ answers) = ended negative
do_connect (want_connect ∷ answers) = do_connect answers
do_connect (zero_return ∷ answers) = ended negative
do_connect (error_syscall true ∷ answers) = do_connect answers
do_connect (error_syscall false ∷ answers) = ended negative
do_connect (error_ssl ∷ answers) = ended negative
do_connect (error_other ∷ answers) = ended negative

-- A pointer to a handle that is assigned to, or reset, frees what it held.
unfoldable pub free_held : Option ℕ → List ℕ → List ℕ
free_held none freed = freed
free_held (some h) freed = h ∷ freed

unfoldable pub verify_server : ℕ → ℕ → ℕ × ℕ → PeerCertificate → TlsClient → TlsClient × Outcome
unfolding free_held
verify_server context handle signed no_certificate s =
    (record s { freed = handle ∷ s.freed }, throws)
verify_server context handle signed verify_throws s = (s, throws)
verify_server context handle signed not_verified s =
    (record s { freed = handle ∷ s.freed }, returns negative)
verify_server context handle (cert, key) verified s = (
  record {
    handle = some handle;
    context = some context;
    cert = some cert;
    rsa_priv_key = some key;
    freed = free_held s.handle s.freed;
  },
  returns (code 0),
)

unfoldable pub connect_server : ℕ → ℕ → ℕ × ℕ → PeerAnswers → TlsClient → Run (TlsClient × Outcome)
unfolding do_connect verify_server
connect_server context handle signed q s = elim (do_connect q.handshake) [
  | ended (code zero) ↦ ended (verify_server context handle signed q.certificate s)
  | ended c ↦ ended (record s { freed = handle ∷ s.freed }, returns c)
  | _ ↦ waits
]

-- `connect_`
unfoldable pub tls_connect : PeerAnswers → TlsClient → Run (TlsClient × Outcome)
unfolding connect_server
tls_connect q s = elim q.signed [
  | none ↦ ended (s, throws)
  | some signed ↦ elim q.context [
    | none ↦ ended (s, throws)
    | some context ↦
        if q.initialized
        then (elim q.handle [
          | none ↦ ended (s, throws)
          | some handle ↦ connect_server context handle signed q s
        ])
        else ended (s, throws)
  ]
]

-- `clear_`
unfoldable pub tls_clear : TlsClient → TlsClient
unfolding free_held
tls_clear s = record {
  handle = none;
  context = none;
  cert = none;
  rsa_priv_key = none;
  freed = free_held s.handle s.freed;
}

-- `recv_` and `send_` of a client
unfoldable pub client_recv : List (TransferAnswer (List ℕ)) → TlsClient → Run (Option (List ℕ))
unfolding transfer
client_recv answers s = elim s.handle [ none ↦ ended none | some h ↦ transfer answers ]

unfoldable pub client_send : List (TransferAnswer ℕ) → TlsClient → Run (Option ℕ)
unfolding transfer
client_send answers s = elim s.handle [ none ↦ ended none | some h ↦ transfer answers ]
