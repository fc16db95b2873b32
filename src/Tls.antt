-- ===== src/Tls.antt =====
-- env/inc/tls.hpp, where `secure_socket_type` is `SERVER_UNICAST_SECURE_TLS`: the credentials that a server keeps of its
-- peers, in four maps by the descriptor. What OpenSSL and the kernel answer is given, in the order of the calls. Objects of
-- OpenSSL are numbers, and `freed` are the handles that `SSL_free` was called with, the last one first.
pub mod Client
pub mod Handshakes
pub mod Store
pub mod Subject
use module_oriented_software.Common.{
  ℕ, zero, Bool, true, false, Option, none, some, List, [], ◌∷◌, length, if◌then◌else◌,
}
use module_oriented_software.Common.OrderedMap.{OrderedMap, lookup, insert, erase}
use module_oriented_software.TcpServer.{Code, code, negative, Run, ended, waits}

-- What `select` answers: a positive number, or 0 for the time that is over, or less for an error.
pub data Selected : Type 0 where
  ready not_ready : Selected

-- What `SSL_get_error` says of `SSL_accept` and `SSL_connect`, with the answer of the `select` that follows, and
-- whether `errno` is `EAGAIN`.
pub data HandshakeAnswer : Type 0 where
  error_none : HandshakeAnswer
  want_write want_read : Selected → HandshakeAnswer
  want_x509_lookup want_accept want_connect : HandshakeAnswer
  zero_return error_ssl error_other : HandshakeAnswer
  error_syscall : Bool → HandshakeAnswer

-- The loop of `register_client_`, with its value of `rc`.
unfoldable pub do_accept : List HandshakeAnswer → Run Code
do_accept [] = waits
do_accept (error_none ∷ answers) = ended (code 0)
do_accept (want_write ready ∷ answers) = do_accept answers
do_accept (want_write not_ready ∷ answers) = ended negative
do_accept (want_read ready ∷ answers) = do_accept answers
do_accept (want_read not_ready ∷ answers) = ended negative
do_accept (want_x509_lookup ∷ answers) = do_accept answers
do_accept (want_accept ∷ answers) = do_accept answers
do_accept (want_connect ∷ answers) = ended negative
do_accept (zero_return ∷ answers) = ended negative
do_accept (error_syscall again ∷ answers) = ended negative
do_accept (error_ssl ∷ answers) = ended negative
do_accept (error_other ∷ answers) = ended negative

-- What `SSL_get_peer_certificate` gives, and what `sig_verify_` says of it: it can throw.
pub data PeerCertificate : Type 0 where
  no_certificate verify_throws verified not_verified : PeerCertificate

-- What `register_client_` and `connect_` are answered; `none` and `false` stand for a call that throws.
pub record PeerAnswers : Type 0 where
  pub context : Option ℕ
  pub signed : Option (ℕ × ℕ)
  pub initialized : Bool
  pub handle : Option ℕ
  pub handshake : List HandshakeAnswer
  pub certificate : PeerCertificate

-- A method that returns, or throws.
pub data Outcome : Type 0 where
  returns : Code → Outcome
  throws : Outcome

pub record TlsServer : Type 0 where
  pub handles : OrderedMap ℕ
  pub contexts : OrderedMap ℕ
  pub certs : OrderedMap ℕ
  pub rsa_priv_keys : OrderedMap ℕ
  pub freed : List ℕ

unfoldable pub free_handle : ℕ → TlsServer → TlsServer
free_handle h s = record s { freed = h ∷ s.freed }

-- What follows the handshake in `register_client_`. A `sig_verify_` that throws leaves the handle as it is.
unfoldable pub verify_peer : ℕ → ℕ → ℕ → ℕ × ℕ → PeerCertificate → TlsServer → TlsServer × Outcome
unfolding free_handle insert
verify_peer fd context handle signed no_certificate s = (free_handle handle s, throws)
verify_peer fd context handle signed verify_throws s = (s, throws)
verify_peer fd context handle signed not_verified s = (free_handle handle s, returns negative)
verify_peer fd context handle (cert, key) verified s = (
  record s {
    handles = insert fd handle s.handles;
    contexts = insert fd context s.contexts;
    certs = insert fd cert s.certs;
    rsa_priv_keys = insert fd key s.rsa_priv_keys;
  },
  returns (code 0),
)

-- The rest of `register_client_` once there is a handle.
unfoldable pub accept_peer : ℕ → ℕ → ℕ → ℕ × ℕ → PeerAnswers → TlsServer → Run (TlsServer × Outcome)
unfolding do_accept free_handle verify_peer
accept_peer fd context handle signed q s = elim (do_accept q.handshake) [
  | ended (code zero) ↦ ended (verify_peer fd context handle signed q.certificate s)
  | ended c ↦ ended (free_handle handle s, returns c)
  | _ ↦ waits
]

-- Where the descriptor is new to both maps.
unfoldable pub register_new : ℕ → PeerAnswers → TlsServer → Run (TlsServer × Outcome)
unfolding accept_peer
register_new fd q s = elim q.context [
  | none ↦ ended (s, throws)
  | some context ↦ elim q.signed [
    | none ↦ ended (s, throws)
    | some signed ↦
        if q.initialized
        then (elim q.handle [
          | none ↦ ended (s, throws)
          | some handle ↦ accept_peer fd context handle signed q s
        ])
        else ended (s, throws)
  ]
]

unfoldable pub register_client : ℕ → PeerAnswers → TlsServer → Run (TlsServer × Outcome)
unfolding lookup register_new
register_client fd q s = elim (lookup fd s.contexts) [
  | some context ↦ ended (s, returns (code 1))
  | none ↦ elim (lookup fd s.handles) [
    | some handle ↦ ended (s, returns (code 1))
    | none ↦ register_new fd q s
  ]
]

-- `find` and `erase` of one map
unfoldable pub erase_found : ℕ → OrderedMap ℕ → OrderedMap ℕ
unfolding lookup erase
erase_found fd m = elim (lookup fd m) [ none ↦ m | some v ↦ erase fd m ]

-- `clear_peer_creds_`: the handle that is erased is freed.
unfoldable pub clear_peer_creds : ℕ → TlsServer → TlsServer
unfolding erase_found lookup
clear_peer_creds fd s = record {
  handles = erase_found fd s.handles;
  contexts = erase_found fd s.contexts;
  certs = erase_found fd s.certs;
  rsa_priv_keys = erase_found fd s.rsa_priv_keys;
  freed = elim (lookup fd s.handles) [ none ↦ s.freed | some h ↦ h ∷ s.freed ];
}

-- What `SSL_get_error` says of `SSL_read`, with the bytes, and of `SSL_write`, with their number, and the answer of the
-- `select` that follows. `other_wanted` are the four other wants, whose `select` is given a set that nothing has set.
pub data TransferAnswer (A : Type 0) : Type 0 where
  transferred : A → TransferAnswer A
  wanted other_wanted : Selected → TransferAnswer A
  transfer_fails : TransferAnswer A

-- The loops of `recv_` and `send_`, which differ in the call only: what is transferred, or `none` for -1.
unfoldable pub transfer : {A : Type 0} → List (TransferAnswer A) → Run (Option A)
transfer [] = waits
transfer (transferred a ∷ answers) = ended (some a)
transfer (wanted ready ∷ answers) = transfer answers
transfer (wanted not_ready ∷ answers) = ended none
transfer (other_wanted ready ∷ answers) = transfer answers
transfer (other_wanted not_ready ∷ answers) = ended none
transfer (transfer_fails ∷ answers) = ended none

-- `recv_` and `send_` of a server
unfoldable pub tls_recv : ℕ → List (TransferAnswer (List ℕ)) → TlsServer → Run (Option (List ℕ))
unfolding lookup transfer
tls_recv fd answers s = elim (lookup fd s.handles) [ none ↦ ended none | some h ↦ transfer answers ]

unfoldable pub tls_send : ℕ → List (TransferAnswer ℕ) → TlsServer → Run (Option ℕ)
unfolding lookup transfer
tls_send fd answers s = elim (lookup fd s.handles) [ none ↦ ended none | some h ↦ transfer answers ]
