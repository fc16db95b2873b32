-- ===== src/TcpServer/Sending.antt =====
-- What a server's `send_` does with a peer: it goes on while it would block, and tells the loss of a peer once.
use module_oriented_software.Common.{
  ℕ, zero, suc, ◌≡◌, refl, ◌==◌, List, ◌∷◌, none, some, if◌then◌else◌,
}
use module_oriented_software.Common.OrderedMap.{lookup, erase, IsOrdered, lookup-erase_if}
use module_oriented_software.TcpServer.{
  SockAddr, Code, code, negative, on_disconnect, on_disconnect_internal, close, TcpServer,
  drop_peer, disconnect_fd, lose, SendAnswer, sends_nothing, send_ready, send_times_out,
  send_select_fails, send_lost, send_, ended,
}

-- The answers after `n` times that the socket would block and can go on.
abbrev pub after_waiting : ℕ → List SendAnswer → List SendAnswer
after_waiting zero answers = answers
after_waiting (suc n) answers = send_ready ∷ after_waiting n answers

-- An answer that the code takes for the loss of the peer, and the code that is returned.
pub data Loses : SendAnswer → Code → Type 0 where
  nothing : Loses sends_nothing (code 0)
  timeout : Loses send_times_out (code 0)
  select_error : Loses send_select_fails negative
  error : Loses send_lost negative

send_-after_waiting :
    (n fd : ℕ) (peer : SockAddr) (msg : List ℕ) (answers : List SendAnswer) (s : TcpServer)
    → send_ fd peer msg (after_waiting n answers) s ≡ send_ fd peer msg answers s
unfolding send_
send_-after_waiting zero fd peer msg answers s = refl
send_-after_waiting (suc n) fd peer msg answers s = send_-after_waiting n fd peer msg answers s

pub lose_absent :
    (fd : ℕ) (told : SockAddr → SockAddr) (s : TcpServer)
    → lookup fd s.peers ≡ none
    → lose fd told s ≡ s
unfolding lose
lose_absent fd told s e = rw (lose, e) refl

pub lose_connected :
    (fd : ℕ) (told : SockAddr → SockAddr) (b : SockAddr) (s : TcpServer)
    → lookup fd s.peers ≡ some b
    → lose fd told s ≡ record s {
      peers = erase fd s.peers;
      log = on_disconnect_internal fd ∷ close fd ∷ on_disconnect (told b) ∷ s.log;
    }
unfolding lose disconnect_fd drop_peer
lose_connected fd told b s e = rw (e, lose, e, disconnect_fd)

send_-Loses :
    {a : SendAnswer} {c : Code} (fd : ℕ) (peer : SockAddr) (msg : List ℕ)
    (answers : List SendAnswer) (s : TcpServer)
    → Loses a c
    → send_ fd peer msg (a ∷ answers) s ≡ ended (lose fd (λ b. peer) s, c)
unfolding send_
send_-Loses fd peer msg answers s nothing = refl
send_-Loses fd peer msg answers s timeout = refl
send_-Loses fd peer msg answers s select_error = refl
send_-Loses fd peer msg answers s error = refl

-- However often a message would block first: where the connection turns out to be lost, or the time is over, `send_`
-- ends, closes the descriptor of the connected peer, starts the hook for its address once and forgets it; all other peers stay.
pub send_-lost :
    {a : SendAnswer} {c : Code} (n fd : ℕ) (peer b : SockAddr) (msg : List ℕ)
    (answers : List SendAnswer) (s : TcpServer)
    → Loses a c
    → IsOrdered s.peers
    → lookup fd s.peers ≡ some b
    → (t : TcpServer) × (send_ fd peer msg (after_waiting n (a ∷ answers)) s ≡ ended (t, c))
      × (t.log ≡ on_disconnect_internal fd ∷ close fd ∷ on_disconnect peer ∷ s.log)
      × ((k : ℕ) → lookup k t.peers ≡ (if fd == k then none else lookup k s.peers))
send_-lost {a} n fd peer b msg answers s l o e = (
  record s {
    peers = erase fd s.peers;
    log = on_disconnect_internal fd ∷ close fd ∷ on_disconnect peer ∷ s.log;
  },
  rw (
    send_-after_waiting n fd peer msg (a ∷ answers) s,
    send_-Loses fd peer msg answers s l,
    lose_connected fd (λ d. peer) b s e,
  ),
  refl,
  λ k. lookup-erase_if fd k s.peers o,
)
