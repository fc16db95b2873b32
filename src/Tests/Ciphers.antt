-- ===== src/Tests/Ciphers.antt =====
-- A secure socket for datagrams that listens, with a cipher that puts a byte in front of a text.
use module_oriented_software.Common.{
  ℕ, ◌≡◌, refl, sym, ap, true, false, Option, none, some, List, [], ◌∷◌, ◌++◌,
}
use module_oriented_software.TcpServer.{SockAddr, code, on_receive, ended}
use module_oriented_software.Tls.{returns, throws}
use module_oriented_software.Aes.{Aes, encrypt, decrypt}
use module_oriented_software.UdpSocket.{UdpSocket}
use module_oriented_software.SecureUdp.{secure_listen}
use module_oriented_software.SecureUdp.Receiving.{
  Sealed, datagram, empty, unrelated, rounds_of, events_of, Decrypts, secure_listen-told,
}
use module_oriented_software.SecureUdp.Failing.{times_out, failing_event, secure_listen-throws}

-- Nothing is written before the end, as for a text that is shorter than a block.
abbrev held_back : Option (List ℕ) → Option (List ℕ)
held_back none = none
held_back (some text) = some []

abbrev with_mark : Option (List ℕ) → Option (List ℕ)
with_mark none = none
with_mark (some text) = some (1 ∷ text)

abbrev without_mark : Option (List ℕ) → Option (List ℕ)
without_mark none = none
without_mark (some []) = none
without_mark (some (mark ∷ text)) = some text

abbrev marking : Aes
marking = record {
  encryption = record { context = true; init = true; update = held_back; final = with_mark };
  decryption = record { context = true; init = true; update = held_back; final = without_mark };
}

marking-Decrypts : Decrypts marking
unfolding encrypt decrypt
marking-Decrypts plain sealed e = ap (decrypt marking) (sym e)

marking_null : decrypt marking none ≡ none
unfolding decrypt
marking_null = refl

abbrev from : ℕ → SockAddr
from n = record { addr = n; port = 4005 }

abbrev socket : UdpSocket
socket = record { sock_fd = 6; running = false; listen_enabled = false; joinable = true; log = [] }

abbrev marked : ℕ → List ℕ → ℕ × Sealed
marked n text = (n, datagram (from n) text 1 text)

abbrev two_rounds : List (List (ℕ × Sealed))
two_rounds =
    (marked 1 (7 ∷ 8 ∷ []) ∷ (2, empty) ∷ [])
    ∷ ((0, unrelated) ∷ marked 3 [] ∷ marked 1 (9 ∷ []) ∷ [])
    ∷ []

mark_7_8 : encrypt marking (7 ∷ 8 ∷ []) ≡ some (1 ∷ 7 ∷ 8 ∷ [])
unfolding encrypt
mark_7_8 = refl

mark_nil : encrypt marking [] ≡ some (1 ∷ [])
unfolding encrypt
mark_nil = refl

mark_9 : encrypt marking (9 ∷ []) ≡ some (1 ∷ 9 ∷ [])
unfolding encrypt
mark_9 = refl

secure_listen-told_example :
    secure_listen marking (rounds_of two_rounds) socket
    ≡ ended (
      record socket {
        log =
            on_receive (from 1) (9 ∷ [])
            ∷ on_receive (from 3) []
            ∷ on_receive (from 1) (7 ∷ 8 ∷ [])
            ∷ [];
      },
      returns (code 0),
    )
secure_listen-told_example =
    secure_listen-told marking two_rounds socket marking-Decrypts
      ((mark_7_8, tt), ((mark_nil, (mark_9, tt)), tt))

abbrev first_round : List (List (ℕ × Sealed))
first_round = (marked 1 (7 ∷ 8 ∷ []) ∷ (2, empty) ∷ []) ∷ []

secure_listen-throws_example :
    secure_listen marking
      (rounds_of first_round
        ++ some (events_of (marked 3 [] ∷ []) ++ failing_event (times_out 2) ∷ []) ∷ [])
      socket
    ≡ ended (
      record socket {
        listen_enabled = true;
        running = true;
        log = on_receive (from 1) (7 ∷ 8 ∷ []) ∷ [];
      },
      throws,
    )
secure_listen-throws_example =
    secure_listen-throws marking first_round (marked 3 [] ∷ []) (times_out 2) [] [] socket
      marking-Decrypts marking_null ((mark_7_8, tt), tt)
