-- ===== src/DomainServer/Clearing.antt =====
-- What `clear_` of the server of env/inc/domain_tcp_sock.hpp leaves.
use module_oriented_software.Common.{◌≡◌, refl, ap, ◌∙◌, List, [], ◌∷◌, arith}
use module_oriented_software.Common.OrderedMap.{OrderedMap}
use module_oriented_software.DomainServer.{
  UnixPath, DomainEffect, tells_disconnect, closes, DomainServer, domain_stop, domain_close_all,
  domain_clear,
}

-- What closing the peers comes to, in the order of the calls: for each the hook with its path, and `close` of its descriptor.
abbrev pub partings : OrderedMap UnixPath → List DomainEffect
partings [] = []
partings ((fd, a) ∷ m) = tells_disconnect a ∷ closes fd ∷ partings m

-- A log after these effects, with the last one first.
abbrev pub logged : List DomainEffect → List DomainEffect → List DomainEffect
logged [] log = log
logged (e ∷ es) log = logged es (e ∷ log)

domain_close_all-partings :
    (m : OrderedMap UnixPath) (log : List DomainEffect)
    → domain_close_all m log ≡ logged (partings m) log
unfolding domain_close_all
domain_close_all-partings [] log = refl
domain_close_all-partings ((fd, a) ∷ m) log =
    domain_close_all-partings m (closes fd ∷ tells_disconnect a ∷ log)

domain_stop_keeps :
    (s : DomainServer)
    → ((domain_stop s).0.peers ≡ s.peers)
      × ((domain_stop s).0.log ≡ s.log)
      × ((domain_stop s).0.sock_fd ≡ s.sock_fd)
unfolding domain_stop
domain_stop_keeps s = ground arith

domain_clear-log :
    (s : DomainServer) → (domain_clear s).log ≡ closes s.sock_fd ∷ domain_close_all s.peers s.log
unfolding domain_clear
domain_clear-log s = let (p, l, f) = domain_stop_keeps s in rw (p, l, f) refl

domain_clear-sock_fd : (s : DomainServer) → (domain_clear s).sock_fd ≡ s.sock_fd
unfolding domain_clear
domain_clear-sock_fd s = let (p, l, f) = domain_stop_keeps s in f

-- `clear_` closes the server whether it listens or not: no peer stays; for each peer, in the order of the descriptors, the hook of
-- `on_disconnect` is started with its path and its descriptor is closed, then that of the socket, and nothing else happens. A second `clear_`,
-- as that of the destructor after `reset`, closes the descriptor of the socket again and does nothing else.
pub domain_clear-again :
    (s : DomainServer)
    → ((domain_clear s).peers ≡ [])
      × ((domain_clear s).log ≡ closes s.sock_fd ∷ logged (partings s.peers) s.log)
      × ((domain_clear (domain_clear s)).log ≡ closes s.sock_fd ∷ (domain_clear s).log)
unfolding domain_clear domain_close_all
domain_clear-again s = (
  refl,
  domain_clear-log s ∙ ap (◌∷◌ (closes s.sock_fd)) (domain_close_all-partings s.peers s.log),
  domain_clear-log (domain_clear s)
      ∙ ap (λ fd. closes fd ∷ (domain_clear s).log) (domain_clear-sock_fd s),
)
