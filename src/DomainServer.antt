-- ===== src/DomainServer.antt =====
-- env/inc/domain_tcp_sock.hpp, where `socket_class` is `SERVER_UNICAST`: the server of env/inc/network_tcp_sock.hpp, written again for
-- paths. As there, what the kernel answers is given, and the log has its last entry first. The class itself does not listen.
pub mod Network
pub mod Simulation
pub mod Clearing
pub mod Copies
use module_oriented_software.Common.{
  ℕ, zero, suc, ◌==◌, Bool, true, false, Option, none, some, List, [], ◌∷◌, length, if◌then◌else◌,
}
use module_oriented_software.Common.OrderedMap.{OrderedMap, lookup, insert, erase}
use module_oriented_software.TcpServer.{
  SocketState, connecting, stopped, Code, code, negative, unset, SendAnswer, sends, sends_nothing,
  send_ready, send_times_out, send_select_fails, send_lost, send_fails, Run, ended, waits,
  undefined,
}

-- `sun_path`
abbrev pub UnixPath : Type 0
UnixPath = List ℕ

-- The text of a path, up to the first zero byte.
unfoldable pub c_str : UnixPath → UnixPath
c_str [] = []
c_str (c ∷ path) = let rest = c_str path in if c == 0 then [] else c ∷ rest

-- So many bytes of a text, or the text and zeros behind it.
unfoldable pub padded : ℕ → UnixPath → UnixPath
padded zero path = []
padded (suc n) [] = 0 ∷ padded n []
padded (suc n) (c ∷ path) = c ∷ padded n path

-- What `std::strncpy` writes.
unfoldable pub strncpy : ℕ → UnixPath → UnixPath
unfolding c_str padded
strncpy n path = padded n (c_str path)

-- Bytes that are written to an array with room for so many, one after the other: `none` where one goes behind its end.
unfoldable pub write_all : ℕ → List ℕ → Option (List ℕ)
write_all room [] = some []
write_all zero (b ∷ bs) = none
write_all (suc room) (b ∷ bs) = elim (write_all room bs) [
  | none ↦ none
  | some written ↦ some (b ∷ written)
]

-- `std::strncpy(path.sun_path, path.c_str(), path.size())`, to the 108 bytes of `sun_path`.
unfoldable pub copy_path : UnixPath → Option UnixPath
unfolding strncpy write_all
copy_path path = write_all 108 (strncpy (length path) path)

-- The hooks that are started, the internal hook, and `close`.
pub data DomainEffect : Type 0 where
  tells_connect tells_disconnect : UnixPath → DomainEffect
  tells_receive tells_send : UnixPath → List ℕ → DomainEffect
  tells_internal : ℕ → DomainEffect
  closes : ℕ → DomainEffect

pub record DomainServer : Type 0 where
  pub sock_fd : ℕ
  pub peers : OrderedMap UnixPath
  pub state : SocketState
  pub listen_enabled : Bool
  pub joinable : Bool
  pub log : List DomainEffect

-- `disconnect_peer_` with a descriptor
unfoldable pub domain_disconnect_peer : ℕ → DomainServer → DomainServer × Code
unfolding lookup erase
domain_disconnect_peer fd s = elim (lookup fd s.peers) [
  | none ↦ (s, negative)
  | some a ↦
      (record s { peers = erase fd s.peers; log = tells_internal fd ∷ closes fd ∷ s.log }, code fd)
]

-- What follows the label `disconnect` in `send_` and `handle_incoming_data_`.
unfoldable pub domain_lose : ℕ → (UnixPath → UnixPath) → DomainServer → DomainServer
unfolding domain_disconnect_peer lookup
domain_lose fd told s = elim (lookup fd s.peers) [
  | none ↦ s
  | some a ↦ (domain_disconnect_peer fd (record s { log = tells_disconnect (told a) ∷ s.log })).0
]

-- `send_`
unfoldable pub domain_send :
    ℕ → UnixPath → List ℕ → List SendAnswer → DomainServer → Run (DomainServer × Code)
unfolding domain_lose
domain_send fd peer msg [] s = waits
domain_send fd peer msg (send_ready ∷ answers) s = domain_send fd peer msg answers s
domain_send fd peer msg (sends_nothing ∷ answers) s = ended (domain_lose fd (λ a. peer) s, code 0)
domain_send fd peer msg (send_times_out ∷ answers) s = ended (domain_lose fd (λ a. peer) s, code 0)
domain_send fd peer msg (send_select_fails ∷ answers) s =
    ended (domain_lose fd (λ a. peer) s, negative)
domain_send fd peer msg (send_lost ∷ answers) s = ended (domain_lose fd (λ a. peer) s, negative)
domain_send fd peer msg (send_fails ∷ answers) s = ended (s, negative)
domain_send fd peer msg (sends n ∷ answers) s =
    ended (record s { log = tells_send peer msg ∷ s.log }, code n)

-- `accept`, with the `select` that follows where it would block: its 0 for the time, or its error, is returned.
pub data DomainAccept : Type 0 where
  accepts_path : ℕ → UnixPath → DomainAccept
  path_ready path_times_out path_select_fails path_fails : DomainAccept

unfoldable pub domain_accept : List DomainAccept → DomainServer → Run (DomainServer × Code)
unfolding insert
domain_accept [] s = waits
domain_accept (path_ready ∷ answers) s = domain_accept answers s
domain_accept (path_times_out ∷ answers) s = ended (s, code 0)
domain_accept (path_select_fails ∷ answers) s = ended (s, negative)
domain_accept (path_fails ∷ answers) s = ended (s, negative)
domain_accept (accepts_path fd a ∷ answers) s =
    ended (record s { peers = insert fd a s.peers; log = tells_connect a ∷ s.log }, code fd)

-- `handle_incoming_peer_`
unfoldable pub domain_incoming_peer : List DomainAccept → DomainServer → Run (DomainServer × Code)
unfolding domain_accept
domain_incoming_peer answers s = domain_accept answers (record s { state = connecting })

-- `recv`: bytes, with the answer of `getpeername`, no bytes, it would block, the connection is lost, or there is
-- another error.
pub data DomainRecv : Type 0 where
  receives_path : List ℕ → Option UnixPath → DomainRecv
  path_closed path_waits path_gives_up path_select_error path_lost path_error : DomainRecv

-- An end of the connection that was found returns a variable that nothing was assigned to.
unfoldable pub domain_receive : ℕ → List DomainRecv → DomainServer → Run (DomainServer × Code)
unfolding domain_lose lookup
domain_receive fd [] s = waits
domain_receive fd (path_waits ∷ answers) s = domain_receive fd answers s
domain_receive fd (path_closed ∷ answers) s =
    ended (domain_lose fd (λ a. a) s, elim (lookup fd s.peers) [ none ↦ code 0 | some a ↦ unset ])
domain_receive fd (path_lost ∷ answers) s = ended (domain_lose fd (λ a. a) s, negative)
domain_receive fd (path_gives_up ∷ answers) s = ended (domain_lose fd (λ a. a) s, code 0)
domain_receive fd (path_select_error ∷ answers) s = ended (domain_lose fd (λ a. a) s, negative)
domain_receive fd (path_error ∷ answers) s = ended (s, negative)
domain_receive fd (receives_path bytes none ∷ answers) s = ended (s, negative)
domain_receive fd (receives_path bytes (some a) ∷ answers) s =
    ended (record s { log = tells_receive a bytes ∷ s.log }, code (length bytes))

-- `handle_incoming_data_`: nothing is read where `ioctl` fails.
unfoldable pub domain_incoming_data :
    ℕ → Bool → List DomainRecv → DomainServer → Run (DomainServer × Code)
unfolding domain_receive
domain_incoming_data fd false answers s = ended (s, negative)
domain_incoming_data fd true answers s = domain_receive fd answers s

-- `stop`: where there is a thread to join, it has ended its loop.
unfoldable pub domain_stop : DomainServer → DomainServer × Code
domain_stop s =
    if s.listen_enabled
    then if s.joinable
      then (record s { listen_enabled = false; joinable = false; state = stopped }, code 0)
      else (record s { listen_enabled = false }, negative)
    else (s, negative)

-- The loop of `clear_`: the hook and `close` for each peer.
unfoldable pub domain_close_all : OrderedMap UnixPath → List DomainEffect → List DomainEffect
domain_close_all [] log = log
domain_close_all ((fd, a) ∷ m) log = domain_close_all m (closes fd ∷ tells_disconnect a ∷ log)

-- `clear_`, which does not read what `stop` returns.
unfoldable pub domain_clear : DomainServer → DomainServer
unfolding domain_stop domain_close_all
domain_clear s =
    let t = (domain_stop s).0 in
    record t {
      peers = [];
      state = stopped;
      log = closes t.sock_fd ∷ domain_close_all t.peers t.log;
    }

-- `setup_` with `open_` and `bind_`, given the answers of `socket`, of `setsockopt` both times, and of `bind`, which is given the bytes of a
-- pointer in place of the path. The path is first copied into a `sun_path`.
unfoldable pub domain_setup :
    UnixPath → Option ℕ → Bool → Bool → DomainServer → Run (DomainServer × Code)
unfolding domain_clear copy_path
domain_setup path opened options bound s = elim (copy_path path) [
  | none ↦ undefined
  | some sun_path ↦ (elim opened [
    | none ↦ ended (domain_clear s, negative)
    | some fd ↦
        let s' = record s { sock_fd = fd } in
        if options
        then (if bound then ended (s', code 0) else ended (domain_clear s', negative))
        else ended (s', negative)
  ])
]
