-- ===== src/SecureUdp/Failing.antt =====
-- What a reading that fails does to a socket of env/inc/network_udp_sock_secure.hpp that listens.
use module_oriented_software.Common.{
  ℕ, ◌≡◌, refl, ◌∙◌, true, false, Option, none, some, List, [], ◌∷◌, ◌++◌,
}
use module_oriented_software.TcpServer.{Code, code, negative, ended}
use module_oriented_software.Tls.{throws}
use module_oriented_software.Aes.{Aes, decrypt}
use module_oriented_software.UdpSocket.{
  UdpSocket, recv_fails, recv_times_out, recv_select_fails, UdpEvent, readable,
}
use module_oriented_software.UdpSocket.Listening.{after_ready}
use module_oriented_software.SecureUdp.{
  Transaction, failure, recvfrom_ret, recv_ret_events, recv_ret, deliver, secure_recv_from,
  secure_rounds, secure_listen,
}
use module_oriented_software.SecureUdp.Receiving.{
  Sealed, events_of, rounds_of, Decrypts, AllSealed, told_all, transactions,
  recvfrom_ret-after_ready, recv_ret_events-events_of, secure_rounds-rounds_of,
}

-- An event that fails: one that reports an error of the socket, or a reading that does not come to an end, after a number
-- of times that the socket becomes ready.
pub data Failing : Type 0 where
  refused : Failing
  times_out select_fails read_fails : ℕ → Failing

abbrev pub failing_event : Failing → UdpEvent
failing_event refused = readable false []
failing_event (times_out n) = readable true (after_ready n recv_times_out)
failing_event (select_fails n) = readable true (after_ready n recv_select_fails)
failing_event (read_fails n) = readable true (after_ready n recv_fails)

abbrev pub failing_code : Failing → Code
failing_code refused = negative
failing_code (times_out n) = code 0
failing_code (select_fails n) = negative
failing_code (read_fails n) = negative

recv_ret_events-failing_event :
    (ret : List Transaction) (f : Failing) (rest : List UdpEvent)
    → recv_ret_events ret (failing_event f ∷ rest) ≡ ended (failure (failing_code f) ∷ [])
unfolding recv_ret_events recvfrom_ret
recv_ret_events-failing_event ret refused rest = refl
recv_ret_events-failing_event ret (times_out n) rest =
    rw (recv_ret_events, recvfrom_ret-after_ready n recv_times_out) refl
recv_ret_events-failing_event ret (select_fails n) rest =
    rw (recv_ret_events, recvfrom_ret-after_ready n recv_select_fails) refl
recv_ret_events-failing_event ret (read_fails n) rest =
    rw (recv_ret_events, recvfrom_ret-after_ready n recv_fails) refl

secure_recv_from-failing_event :
    (a : Aes) (es : List (ℕ × Sealed)) (f : Failing) (rest : List UdpEvent) (s : UdpSocket)
    → decrypt a none ≡ none
    → secure_recv_from a (some (events_of es ++ failing_event f ∷ rest)) s ≡ ended (s, throws)
unfolding secure_recv_from recv_ret deliver
secure_recv_from-failing_event a es f rest s d =
    rw
      (
        secure_recv_from,
        recv_ret,
        recv_ret_events-events_of [] es (failing_event f ∷ rest),
        recv_ret_events-failing_event (transactions es) f rest,
        deliver,
        d,
      )
      refl

-- Where the cipher decrypts what it encrypted and refuses the null pointer, an event that fails ends the thread that listens by an
-- exception: no hook is started for the datagrams that the same round read before it, the later rounds are not
-- reached, and the socket still counts as one that listens. The hooks of the rounds before are started.
pub secure_listen-throws :
    (a : Aes) (rs : List (List (ℕ × Sealed))) (es : List (ℕ × Sealed)) (f : Failing)
    (rest : List UdpEvent) (more : List (Option (List UdpEvent))) (s : UdpSocket)
    → Decrypts a
    → decrypt a none ≡ none
    → AllSealed a rs
    → secure_listen a (rounds_of rs ++ some (events_of es ++ failing_event f ∷ rest) ∷ more) s
      ≡ ended (record s { listen_enabled = true; running = true; log = told_all rs s.log }, throws)
unfolding secure_listen secure_rounds
secure_listen-throws a rs es f rest more s d z h =
    let t : UdpSocket = record s { listen_enabled = true; running = true } in
    secure_rounds-rounds_of a rs (some (events_of es ++ failing_event f ∷ rest) ∷ more) t d h
    ∙ rw
        (
          secure_rounds,
          secure_recv_from-failing_event a es f rest (record t { log = told_all rs s.log }) z,
        )
        refl
