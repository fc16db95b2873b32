-- ===== src/DomainServer/Network.antt =====
-- How the server of env/inc/domain_tcp_sock.hpp and that of env/inc/network_tcp_sock.hpp agree.
use module_oriented_software.Common.{
  ℕ, ◌≡◌, refl, sym, ap, ◌∙◌, arith, none, some, Option-cases, List, [], ◌∷◌, inl, inr,
}
use module_oriented_software.Common.OrderedMap.{OrderedMap, lookup, insert, erase}
use module_oriented_software.TcpServer.{
  SockAddr, Code, code, negative, Effect, on_connect, on_disconnect, on_receive, on_send,
  on_disconnect_internal, close, TcpServer, lose, send_, SendAnswer, sends, sends_nothing,
  send_ready, send_times_out, send_select_fails, send_lost, send_fails, Run, ended, waits,
  undefined,
}
use module_oriented_software.TcpServer.Sending.{lose_connected, lose_absent}
use module_oriented_software.DomainServer.{
  UnixPath, DomainEffect, tells_connect, tells_disconnect, tells_receive, tells_send,
  tells_internal, closes, DomainServer, domain_disconnect_peer, domain_lose, domain_send,
}

module _ (f : UnixPath → SockAddr) where
  -- A server for paths as one for addresses, where each path stands for an address.
  abbrev pub peers_of : OrderedMap UnixPath → OrderedMap SockAddr
  peers_of [] = []
  peers_of ((fd, a) ∷ m) = (fd, f a) ∷ peers_of m

  abbrev pub effect_of : DomainEffect → Effect
  effect_of (tells_connect a) = on_connect (f a)
  effect_of (tells_disconnect a) = on_disconnect (f a)
  effect_of (tells_receive a m) = on_receive (f a) m
  effect_of (tells_send a m) = on_send (f a) m
  effect_of (tells_internal fd) = on_disconnect_internal fd
  effect_of (closes fd) = close fd

  abbrev pub log_of : List DomainEffect → List Effect
  log_of [] = []
  log_of (e ∷ log) = effect_of e ∷ log_of log

  abbrev pub network_of : DomainServer → TcpServer
  network_of s = record {
    sock_fd = s.sock_fd;
    peers = peers_of s.peers;
    state = s.state;
    listen_enabled = s.listen_enabled;
    joinable = s.joinable;
    log = log_of s.log;
  }

  abbrev pub run_of : Run (DomainServer × Code) → Run (TcpServer × Code)
  run_of (ended (t, c)) = ended (network_of t, c)
  run_of waits = waits
  run_of undefined = undefined

  pub lookup-peers_of :
      (fd : ℕ) (m : OrderedMap UnixPath)
      → lookup fd (peers_of m) ≡ (elim (lookup fd m) [ none ↦ none | some a ↦ some (f a) ])
  unfolding lookup
  lookup-peers_of fd [] = refl
  lookup-peers_of fd ((j, a) ∷ m) = ground (arith, lookup-peers_of fd m)

  pub erase-peers_of :
      (fd : ℕ) (m : OrderedMap UnixPath) → erase fd (peers_of m) ≡ peers_of (erase fd m)
  unfolding erase
  erase-peers_of fd [] = refl
  erase-peers_of fd ((j, a) ∷ m) = ground (arith, erase-peers_of fd m)

  pub insert-peers_of :
      (fd : ℕ) (a : UnixPath) (m : OrderedMap UnixPath)
      → insert fd (f a) (peers_of m) ≡ peers_of (insert fd a m)
  unfolding insert
  insert-peers_of fd a [] = refl
  insert-peers_of fd a ((j, b) ∷ m) = ground (arith, insert-peers_of fd a m)

  domain_lose-connected :
      (fd : ℕ) (told : UnixPath → UnixPath) (a : UnixPath) (s : DomainServer)
      → lookup fd s.peers ≡ some a
      → domain_lose fd told s ≡ record s {
        peers = erase fd s.peers;
        log = tells_internal fd ∷ closes fd ∷ tells_disconnect (told a) ∷ s.log;
      }
  unfolding domain_lose domain_disconnect_peer
  domain_lose-connected fd told a s e = rw (e, domain_lose, e, domain_disconnect_peer)

  domain_lose-absent :
      (fd : ℕ) (told : UnixPath → UnixPath) (s : DomainServer)
      → lookup fd s.peers ≡ none
      → domain_lose fd told s ≡ s
  unfolding domain_lose
  domain_lose-absent fd told s e = rw (domain_lose, e) refl

  dropped-network_of :
      (fd : ℕ) (a : UnixPath) (b : SockAddr) (s : DomainServer)
      → f a ≡ b
      → network_of (record s {
        peers = erase fd s.peers;
        log = tells_internal fd ∷ closes fd ∷ tells_disconnect a ∷ s.log;
      })
        ≡ record (network_of s) {
          peers = erase fd (peers_of s.peers);
          log = on_disconnect_internal fd ∷ close fd ∷ on_disconnect b ∷ log_of s.log;
        }
  dropped-network_of fd a b s h = rw (erase-peers_of fd s.peers, h) refl

  -- Losing a peer, where the address that is told stands for the path that is told.
  pub domain_lose-network_of :
      (fd : ℕ) (told : UnixPath → UnixPath) (told' : SockAddr → SockAddr) (s : DomainServer)
      → ((a : UnixPath) → f (told a) ≡ told' (f a))
      → network_of (domain_lose fd told s) ≡ lose fd told' (network_of s)
  domain_lose-network_of fd told told' s h =
      let l = lookup-peers_of fd s.peers in
      elim (Option-cases (lookup fd s.peers)) [
        | inl e ↦
            ap network_of (domain_lose-absent fd told s e)
            ∙ sym (lose_absent fd told' (network_of s) (rw (l, e) refl))
        | inr (a, e) ↦
            ap network_of (domain_lose-connected fd told a s e)
            ∙ dropped-network_of fd (told a) (told' (f a)) s (h a)
            ∙ sym (lose_connected fd told' (f a) (network_of s) (rw (l, e) refl))
      ]

  lost :
      (fd : ℕ) (peer : UnixPath) (s : DomainServer) (c : Code)
      → run_of (ended (domain_lose fd (λ a. peer) s, c))
        ≡ ended (lose fd (λ a. f peer) (network_of s), c)
  lost fd peer s c =
      ap (λ t. ended (t, c)) (domain_lose-network_of fd (λ a. peer) (λ a. f peer) s (λ a. refl))

  -- Sending to a peer does in a server for paths what it does in one for addresses, whatever the kernel answers: the same peers stay, the same
  -- hooks are started, the same descriptors are closed, and the code is the same.
  domain_send-network_of :
      (fd : ℕ) (peer : UnixPath) (msg : List ℕ) (answers : List SendAnswer) (s : DomainServer)
      → run_of (domain_send fd peer msg answers s) ≡ send_ fd (f peer) msg answers (network_of s)
  unfolding domain_send send_
  domain_send-network_of fd peer msg [] s = refl
  domain_send-network_of fd peer msg (send_ready ∷ answers) s =
      domain_send-network_of fd peer msg answers s
  domain_send-network_of fd peer msg (sends_nothing ∷ answers) s = lost fd peer s (code 0)
  domain_send-network_of fd peer msg (send_times_out ∷ answers) s = lost fd peer s (code 0)
  domain_send-network_of fd peer msg (send_select_fails ∷ answers) s = lost fd peer s negative
  domain_send-network_of fd peer msg (send_lost ∷ answers) s = lost fd peer s negative
  domain_send-network_of fd peer msg (send_fails ∷ answers) s = refl
  domain_send-network_of fd peer msg (sends n ∷ answers) s = refl
