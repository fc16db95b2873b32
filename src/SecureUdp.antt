-- ===== src/SecureUdp.antt =====
-- env/inc/network_udp_sock_secure.hpp: a socket of env/inc/network_udp_sock.hpp whose datagrams are encrypted. The class that
-- env/inc/secure_layer.hpp puts between it and env/inc/aes.hpp passes both calls on.
pub mod Receiving
pub mod Failing
use module_oriented_software.Common.{
  ℕ, Bool, true, false, Option, none, some, List, [], ◌∷◌, ◌++◌, length,
}
use module_oriented_software.TcpServer.{
  SockAddr, Code, code, negative, unset, Effect, on_receive, on_send, Run, ended, waits, undefined,
}
use module_oriented_software.TcpClient.{zero_addr}
use module_oriented_software.Tls.{Outcome, returns, throws}
use module_oriented_software.Aes.{Aes, encrypt, decrypt}
use module_oriented_software.UdpSocket.{
  UdpSocket, SendtoAnswer, sends, sends_nothing, send_ready, send_times_out, send_select_fails,
  send_fails, RecvfromAnswer, gets, gets_nothing, recv_ready, recv_times_out, recv_select_fails,
  recv_fails, UdpEvent, readable, other_event,
}

-- From the label `sendto` of `send` of the socket below with `HOOK_OFF`: the code, and the address where bytes were sent.
unfoldable pub sendto_off : SockAddr → List SendtoAnswer → Run (Code × SockAddr)
sendto_off to [] = waits
sendto_off to (send_ready ∷ answers) = sendto_off to answers
sendto_off to (sends_nothing ∷ answers) = ended (code 0, zero_addr)
sendto_off to (send_times_out ∷ answers) = ended (code 0, zero_addr)
sendto_off to (send_select_fails ∷ answers) = ended (negative, zero_addr)
sendto_off to (send_fails ∷ answers) = ended (negative, zero_addr)
sendto_off to (sends n ∷ answers) = ended (code n, to)

-- `send` of the socket below with `HOOK_OFF`, given what `getaddrinfo` makes of the address.
unfoldable pub send_off : Option SockAddr → List SendtoAnswer → Run (Code × SockAddr)
unfolding sendto_off
send_off none answers = ended (negative, zero_addr)
send_off (some to) answers = sendto_off to answers

-- `send` with `HOOK_OFF`, its default, given what `getaddrinfo` makes of the address: the hook is started with the text whatever
-- became of the datagram.
unfoldable pub secure_send_to :
    Aes → Option SockAddr → List ℕ → List SendtoAnswer → UdpSocket → Run (UdpSocket × Outcome)
unfolding encrypt send_off
secure_send_to a to msg answers s = elim (encrypt a msg) [
  | none ↦ ended (s, throws)
  | some sealed ↦ elim (send_off to answers) [
    | ended (c, peer) ↦ ended (record s { log = on_send peer msg ∷ s.log }, returns c)
    | _ ↦ waits
  ]
]

-- A tuple that `recv` of the socket below returns with `RET`: a datagram, or a code with the null pointer.
pub record Transaction : Type 0 where
  pub size : Code
  pub bytes : Option (List ℕ)
  pub peer : SockAddr

abbrev pub failure : Code → Transaction
failure c = record { size = c; bytes = none; peer = zero_addr }

-- What one event comes to, from the label `recv`.
pub data Reading : Type 0 where
  got : SockAddr → List ℕ → Reading
  nothing blocked : Reading
  failed : Code → Reading

unfoldable pub recvfrom_ret : List RecvfromAnswer → Reading
recvfrom_ret [] = blocked
recvfrom_ret (recv_ready ∷ answers) = recvfrom_ret answers
recvfrom_ret (recv_times_out ∷ answers) = failed (code 0)
recvfrom_ret (recv_select_fails ∷ answers) = failed negative
recvfrom_ret (recv_fails ∷ answers) = failed negative
recvfrom_ret (gets_nothing ∷ answers) = nothing
recvfrom_ret (gets from b bytes ∷ answers) = got from (b ∷ bytes)

-- The loop of `recv` of the socket below with `RET`: a failure is returned alone, without what was read before it.
unfoldable pub recv_ret_events : List Transaction → List UdpEvent → Run (List Transaction)
unfolding recvfrom_ret
recv_ret_events ret [] = ended ret
recv_ret_events ret (other_event ∷ es) = recv_ret_events ret es
recv_ret_events ret (readable false answers ∷ es) = ended (failure negative ∷ [])
recv_ret_events ret (readable true answers ∷ es) = elim (recvfrom_ret answers) [
  | got from bytes ↦
      recv_ret_events
        (ret ++ record { size = code (length bytes); bytes = some bytes; peer = from } ∷ []) es
  | nothing ↦ recv_ret_events ret es
  | failed c ↦ ended (failure c ∷ [])
  | blocked ↦ waits
]

unfoldable pub recv_ret : Option (List UdpEvent) → Run (List Transaction)
unfolding recv_ret_events
recv_ret none = ended (failure negative ∷ [])
recv_ret (some es) = recv_ret_events [] es

-- The loop of `recv` over what was read. Nothing is assigned to its result before it is added to.
unfoldable pub deliver : Aes → List Transaction → UdpSocket → UdpSocket × Outcome
unfolding decrypt
deliver a [] s = (s, returns unset)
deliver a (t ∷ ts) s = elim (decrypt a t.bytes) [
  | none ↦ (s, throws)
  | some msg ↦ deliver a ts (record s { log = on_receive t.peer msg ∷ s.log })
]

-- `recv`
unfoldable pub secure_recv_from :
    Aes → Option (List UdpEvent) → UdpSocket → Run (UdpSocket × Outcome)
unfolding recv_ret deliver
secure_recv_from a es s = elim (recv_ret es) [ ended ts ↦ ended (deliver a ts s) | _ ↦ waits ]

-- The loop of `listen_`: so many rounds, before another thread ends it. An exception leaves it.
unfoldable pub secure_rounds :
    Aes → List (Option (List UdpEvent)) → UdpSocket → Run (UdpSocket × Outcome)
unfolding secure_recv_from
secure_rounds a [] s =
    ended (record s { listen_enabled = false; running = false }, returns (code 0))
secure_rounds a (r ∷ rs) s = elim (secure_recv_from a r s) [
  | ended (t, returns c) ↦ secure_rounds a rs t
  | ended (t, throws) ↦ ended (t, throws)
  | _ ↦ waits
]

-- `listen_`
unfoldable pub secure_listen :
    Aes → List (Option (List UdpEvent)) → UdpSocket → Run (UdpSocket × Outcome)
unfolding secure_rounds
secure_listen a rs s = secure_rounds a rs (record s { listen_enabled = true; running = true })
