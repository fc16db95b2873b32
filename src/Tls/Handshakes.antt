-- ===== src/Tls/Handshakes.antt =====
-- When a handshake of env/inc/tls.hpp comes to an end, and how the two sides differ.
use module_oriented_software.Common.{◌≡◌, refl, ◌∙◌, Bool, true, false, List, [], ◌∷◌, ◌++◌}
use module_oriented_software.TcpServer.{Code, code, negative, ended}
use module_oriented_software.Tls.{
  ready, not_ready, HandshakeAnswer, error_none, want_write, want_read, want_x509_lookup,
  want_accept, want_connect, zero_return, error_ssl, error_other, error_syscall, do_accept,
}
use module_oriented_software.Tls.Client.{do_connect}

-- The answers of `SSL_get_error` with which a side of the handshake goes on, and those that end it on both sides, with the
-- code. What one side goes on with and the other does not is `want_accept`, `want_connect` and `EAGAIN`.
pub data Continues (server : Bool) : HandshakeAnswer → Type 0 where
  writable : Continues server (want_write ready)
  readable : Continues server (want_read ready)
  looks_up : Continues server want_x509_lookup
  accepting : server ≡ true → Continues server want_accept
  connecting : server ≡ false → Continues server want_connect
  tries_again : server ≡ false → Continues server (error_syscall true)

pub data Decides : HandshakeAnswer → Code → Type 0 where
  succeeds : Decides error_none (code 0)
  write_timeout : Decides (want_write not_ready) negative
  read_timeout : Decides (want_read not_ready) negative
  closed : Decides zero_return negative
  protocol : Decides error_ssl negative
  system : Decides (error_syscall false) negative
  other : Decides error_other negative

pub data AllContinue (server : Bool) : List HandshakeAnswer → Type 0 where
  nil : AllContinue server []
  cons :
      {a : HandshakeAnswer} {answers : List HandshakeAnswer}
      → Continues server a
      → AllContinue server answers
      → AllContinue server (a ∷ answers)

do_accept-Decides :
    (a : HandshakeAnswer) (c : Code) (rest : List HandshakeAnswer)
    → Decides a c
    → do_accept (a ∷ rest) ≡ ended c
unfolding do_accept
do_accept-Decides a c rest succeeds = refl
do_accept-Decides a c rest write_timeout = refl
do_accept-Decides a c rest read_timeout = refl
do_accept-Decides a c rest closed = refl
do_accept-Decides a c rest protocol = refl
do_accept-Decides a c rest system = refl
do_accept-Decides a c rest other = refl

do_connect-Decides :
    (a : HandshakeAnswer) (c : Code) (rest : List HandshakeAnswer)
    → Decides a c
    → do_connect (a ∷ rest) ≡ ended c
unfolding do_connect
do_connect-Decides a c rest succeeds = refl
do_connect-Decides a c rest write_timeout = refl
do_connect-Decides a c rest read_timeout = refl
do_connect-Decides a c rest closed = refl
do_connect-Decides a c rest protocol = refl
do_connect-Decides a c rest system = refl
do_connect-Decides a c rest other = refl

do_accept-Continues :
    (a : HandshakeAnswer) (rest : List HandshakeAnswer)
    → Continues true a
    → do_accept (a ∷ rest) ≡ do_accept rest
unfolding do_accept
do_accept-Continues a rest writable = refl
do_accept-Continues a rest readable = refl
do_accept-Continues a rest looks_up = refl
do_accept-Continues a rest (accepting e) = refl
do_accept-Continues a rest (connecting e) = cc
do_accept-Continues a rest (tries_again e) = cc

do_connect-Continues :
    (a : HandshakeAnswer) (rest : List HandshakeAnswer)
    → Continues false a
    → do_connect (a ∷ rest) ≡ do_connect rest
unfolding do_connect
do_connect-Continues a rest writable = refl
do_connect-Continues a rest readable = refl
do_connect-Continues a rest looks_up = refl
do_connect-Continues a rest (accepting e) = cc
do_connect-Continues a rest (connecting e) = refl
do_connect-Continues a rest (tries_again e) = refl

do_accept-AllContinue :
    (answers rest : List HandshakeAnswer)
    → AllContinue true answers
    → do_accept (answers ++ rest) ≡ do_accept rest
do_accept-AllContinue _ rest nil = refl
do_accept-AllContinue _ rest (cons {a} {answers} k ks) =
    do_accept-Continues a (answers ++ rest) k ∙ do_accept-AllContinue answers rest ks

do_connect-AllContinue :
    (answers rest : List HandshakeAnswer)
    → AllContinue false answers
    → do_connect (answers ++ rest) ≡ do_connect rest
do_connect-AllContinue _ rest nil = refl
do_connect-AllContinue _ rest (cons {a} {answers} k ks) =
    do_connect-Continues a (answers ++ rest) k ∙ do_connect-AllContinue answers rest ks

-- However long the two sides of a handshake have to go on, each with the answers that it goes on with: as soon as an answer decides it, the loop
-- ends, with 0 for success and -1 for anything else.
handshakes_end :
    (before before' rest : List HandshakeAnswer) (a : HandshakeAnswer) (c : Code)
    → AllContinue true before
    → AllContinue false before'
    → Decides a c
    → (do_accept (before ++ a ∷ rest) ≡ ended c) × (do_connect (before' ++ a ∷ rest) ≡ ended c)
handshakes_end before before' rest a c k k' d = (
  do_accept-AllContinue before (a ∷ rest) k ∙ do_accept-Decides a c rest d,
  do_connect-AllContinue before' (a ∷ rest) k' ∙ do_connect-Decides a c rest d,
)
