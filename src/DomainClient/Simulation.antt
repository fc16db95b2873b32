-- ===== src/DomainClient/Simulation.antt =====
-- The steps of the client of env/inc/domain_tcp_sock.hpp as steps of that of env/inc/network_tcp_sock.hpp.
use module_oriented_software.Common.{ℕ, ◌≡◌, Bool, false, Option, none, some, List}
use module_oriented_software.TcpServer.{Code, SendAnswer, ended}
use module_oriented_software.TcpClient.{Event, ConnectEvent}
use module_oriented_software.TcpClient.Told as network_steps
use module_oriented_software.TcpClient.Told.{AtMostOne}
use module_oriented_software.DomainServer.{UnixPath}
use module_oriented_software.DomainClient.{
  DomainClient, domain_connected, domain_client_clear, domain_client_send, domain_recv,
  domain_client_setup,
}

-- One entry at most of those that the loop of `connect_` reads is of the socket; its bound is not the number that `epoll_wait` gives.
abbrev pub AtMostOneOf : Option (List ConnectEvent) → Type 0
AtMostOneOf none = Unit {0}
AtMostOneOf (some es) = AtMostOne es

-- What a program does with a client: it sends, receives, disconnects, and connects while it is not connected.
pub data Step : DomainClient → DomainClient → Type 0 where
  sends_ :
      (msg : List ℕ) (answers : List SendAnswer) (s t : DomainClient) (c : Code)
      → domain_client_send msg answers s ≡ ended (t, c)
      → Step s t
  receives_ :
      (es : Option (List Event)) (s t : DomainClient) (c : Code)
      → domain_recv es s ≡ ended (t, c)
      → Step s t
  clears_ : (s : DomainClient) → Step s (domain_client_clear s)
  sets_up :
      (path : UnixPath) (opened : Option ℕ) (options accepted : Bool)
      (es : Option (List ConnectEvent)) (s t : DomainClient) (c : Code)
      → domain_connected s ≡ false
      → AtMostOneOf es
      → domain_client_setup path opened options accepted es s ≡ ended (t, c)
      → Step s t

pub data Reach (s : DomainClient) : DomainClient → Type 0 where
  here : Reach s s
  next : {t u : DomainClient} → Reach s t → Step t u → Reach s u
