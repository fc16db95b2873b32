-- ===== src/SecureUdp/Receiving.antt =====
-- What a socket of env/inc/network_udp_sock_secure.hpp hands on.
use module_oriented_software.Common.{
  ℕ, zero, suc, ◌≡◌, refl, sym, ap, ◌∙◌, true, false, Option, some, List, [], ◌∷◌, ◌++◌, length,
}
use module_oriented_software.TcpServer.{SockAddr, code, unset, Effect, on_receive, ended}
use module_oriented_software.Tls.{returns}
use module_oriented_software.Aes.{Aes, encrypt, decrypt}
use module_oriented_software.UdpSocket.{
  UdpSocket, RecvfromAnswer, gets, gets_nothing, UdpEvent, readable, other_event,
}
use module_oriented_software.UdpSocket.Listening.{after_ready}
use module_oriented_software.SecureUdp.{
  Transaction, recvfrom_ret, recv_ret_events, recv_ret, deliver, secure_recv_from, secure_rounds,
  secure_listen,
}

-- What the cipher promises: a text that was encrypted is decrypted to what it was.
abbrev pub Decrypts : Aes → Type 0
Decrypts a =
    (plain sealed : List ℕ) → encrypt a plain ≡ some sealed → decrypt a (some sealed) ≡ some plain

-- The reading of one event: a datagram with the text that was encrypted, and the bytes that came, an empty one, or
-- another event.
pub data Sealed : Type 0 where
  datagram : SockAddr → List ℕ → ℕ → List ℕ → Sealed
  empty unrelated : Sealed

-- An event, after a number of times that the socket would block and becomes ready.
abbrev pub event_of : ℕ × Sealed → UdpEvent
event_of (n, datagram from plain b bytes) = readable true (after_ready n (gets from b bytes))
event_of (n, empty) = readable true (after_ready n gets_nothing)
event_of (n, unrelated) = other_event

abbrev pub events_of : List (ℕ × Sealed) → List UdpEvent
events_of [] = []
events_of (e ∷ es) = event_of e ∷ events_of es

abbrev pub rounds_of : List (List (ℕ × Sealed)) → List (Option (List UdpEvent))
rounds_of [] = []
rounds_of (r ∷ rs) = some (events_of r) ∷ rounds_of rs

-- The bytes of each datagram are the cipher of its text.
abbrev pub AreSealed : Aes → List (ℕ × Sealed) → Type 0
AreSealed a [] = Unit {0}
AreSealed a ((n, datagram from plain b bytes) ∷ es) =
    (encrypt a plain ≡ some (b ∷ bytes)) × AreSealed a es
AreSealed a ((n, empty) ∷ es) = AreSealed a es
AreSealed a ((n, unrelated) ∷ es) = AreSealed a es

abbrev pub AllSealed : Aes → List (List (ℕ × Sealed)) → Type 0
AllSealed a [] = Unit {0}
AllSealed a (r ∷ rs) = AreSealed a r × AllSealed a rs

-- The hooks that are started: one for each datagram, with its text.
abbrev pub told : List (ℕ × Sealed) → List Effect → List Effect
told [] log = log
told ((n, datagram from plain b bytes) ∷ es) log = told es (on_receive from plain ∷ log)
told ((n, empty) ∷ es) log = told es log
told ((n, unrelated) ∷ es) log = told es log

abbrev pub told_all : List (List (ℕ × Sealed)) → List Effect → List Effect
told_all [] log = log
told_all (r ∷ rs) log = told_all rs (told r log)

-- What the socket below returns.
abbrev pub transactions : List (ℕ × Sealed) → List Transaction
transactions [] = []
transactions ((n, datagram from plain b bytes) ∷ es) =
    record { size = code (length (b ∷ bytes)); bytes = some (b ∷ bytes); peer = from }
    ∷ transactions es
transactions ((n, empty) ∷ es) = transactions es
transactions ((n, unrelated) ∷ es) = transactions es

pub recvfrom_ret-after_ready :
    (n : ℕ) (a : RecvfromAnswer) → recvfrom_ret (after_ready n a) ≡ recvfrom_ret (a ∷ [])
unfolding recvfrom_ret
recvfrom_ret-after_ready zero a = refl
recvfrom_ret-after_ready (suc n) a = recvfrom_ret-after_ready n a

append_nil_events : (es : List UdpEvent) → es ++ [] ≡ es
append_nil_events [] = refl
append_nil_events (e ∷ es) = ap (◌∷◌ e) (append_nil_events es)

append_nil : (xs : List Transaction) → xs ++ [] ≡ xs
append_nil [] = refl
append_nil (z ∷ xs) = ap (◌∷◌ z) (append_nil xs)

-- The step of the loop of the socket below for an event that is handled here.
recv_ret_events-event_of :
    (ret : List Transaction) (e : ℕ × Sealed) (rest : List UdpEvent)
    → recv_ret_events ret (event_of e ∷ rest) ≡ recv_ret_events (ret ++ transactions (e ∷ [])) rest
unfolding recv_ret_events recvfrom_ret
recv_ret_events-event_of ret (n, unrelated) rest =
    ap (λ r. recv_ret_events r rest) (sym (append_nil ret))
recv_ret_events-event_of ret (n, empty) rest =
    rw (recv_ret_events, recvfrom_ret-after_ready n gets_nothing)
      (ap (λ r. recv_ret_events r rest) (sym (append_nil ret)))
recv_ret_events-event_of ret (n, datagram from plain b bytes) rest =
    rw (recv_ret_events, recvfrom_ret-after_ready n (gets from b bytes)) refl

transactions_cons :
    (e : ℕ × Sealed) (es : List (ℕ × Sealed))
    → transactions (e ∷ es) ≡ transactions (e ∷ []) ++ transactions es
transactions_cons (n, unrelated) es = refl
transactions_cons (n, empty) es = refl
transactions_cons (n, datagram from plain b bytes) es = refl

append_assoc : (xs ys zs : List Transaction) → (xs ++ ys) ++ zs ≡ xs ++ (ys ++ zs)
append_assoc [] ys zs = refl
append_assoc (x ∷ xs) ys zs = ap (◌∷◌ x) (append_assoc xs ys zs)

pub recv_ret_events-events_of :
    (ret : List Transaction) (es : List (ℕ × Sealed)) (rest : List UdpEvent)
    → recv_ret_events ret (events_of es ++ rest) ≡ recv_ret_events (ret ++ transactions es) rest
recv_ret_events-events_of ret [] rest = ap (λ r. recv_ret_events r rest) (sym (append_nil ret))
recv_ret_events-events_of ret (e ∷ es) rest =
    recv_ret_events-event_of ret e (events_of es ++ rest)
    ∙ recv_ret_events-events_of (ret ++ transactions (e ∷ [])) es rest
    ∙ ap (λ r. recv_ret_events r rest)
        (append_assoc ret (transactions (e ∷ [])) (transactions es)
          ∙ ap (◌++◌ ret) (sym (transactions_cons e es)))

deliver-transactions :
    (a : Aes) (es : List (ℕ × Sealed)) (s : UdpSocket)
    → Decrypts a
    → AreSealed a es
    → deliver a (transactions es) s ≡ (record s { log = told es s.log }, returns unset)
unfolding deliver
deliver-transactions a [] s d h = refl
deliver-transactions a ((n, empty) ∷ es) s d h = deliver-transactions a es s d h
deliver-transactions a ((n, unrelated) ∷ es) s d h = deliver-transactions a es s d h
deliver-transactions a ((n, datagram from plain b bytes) ∷ es) s d (e, h) =
    rw (deliver, d plain (b ∷ bytes) e)
      (deliver-transactions a es (record s { log = on_receive from plain ∷ s.log }) d h)

secure_recv_from-events_of :
    (a : Aes) (es : List (ℕ × Sealed)) (s : UdpSocket)
    → Decrypts a
    → AreSealed a es
    → secure_recv_from a (some (events_of es)) s
      ≡ ended (record s { log = told es s.log }, returns unset)
unfolding secure_recv_from recv_ret recv_ret_events
secure_recv_from-events_of a es s d h =
    rw
      (
        secure_recv_from,
        recv_ret,
        sym (append_nil_events (events_of es)),
        recv_ret_events-events_of [] es [],
      )
      (ap ended (deliver-transactions a es s d h))

append_nil_rounds : (rs : List (Option (List UdpEvent))) → rs ++ [] ≡ rs
append_nil_rounds [] = refl
append_nil_rounds (r ∷ rs) = ap (◌∷◌ r) (append_nil_rounds rs)

-- Such rounds are told, before whatever comes after them.
pub secure_rounds-rounds_of :
    (a : Aes) (rs : List (List (ℕ × Sealed))) (more : List (Option (List UdpEvent))) (s : UdpSocket)
    → Decrypts a
    → AllSealed a rs
    → secure_rounds a (rounds_of rs ++ more) s
      ≡ secure_rounds a more (record s { log = told_all rs s.log })
unfolding secure_rounds
secure_rounds-rounds_of a [] more s d h = refl
secure_rounds-rounds_of a (r ∷ rs) more s d (h, hs) =
    rw (secure_rounds, secure_recv_from-events_of a r s d h)
      (secure_rounds-rounds_of a rs more (record s { log = told r s.log }) d hs)

-- Where the cipher decrypts what it encrypted, a thread that listens starts, over any number of rounds of datagrams that
-- hold encrypted texts, of empty datagrams and of other events, one hook for each datagram, in their order, with the
-- text that was encrypted and the address it came from, and ends as a stopped socket.
pub secure_listen-told :
    (a : Aes) (rs : List (List (ℕ × Sealed))) (s : UdpSocket)
    → Decrypts a
    → AllSealed a rs
    → secure_listen a (rounds_of rs) s
      ≡ ended (
        record s { listen_enabled = false; running = false; log = told_all rs s.log },
        returns (code 0),
      )
unfolding secure_listen secure_rounds
secure_listen-told a rs s d h =
    rw (sym (append_nil_rounds (rounds_of rs)))
      (secure_rounds-rounds_of a rs [] (record s { listen_enabled = true; running = true }) d h)
