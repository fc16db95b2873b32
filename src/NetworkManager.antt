-- ===== src/NetworkManager.antt =====
-- env/inc/network_manager.hpp: how an environment learns of others from the probes that they send to a multicast
-- group, invites one of them with each probe of its own, and connects to those that invite it.
-- The handler of a probe holds the locks of both containers from end to end, the other steps hold one, and so each is
-- one step. The bytes of an address are those of the whole buffer of `inet_ntop`. What is parsed, accepted and
-- connected is given.
pub mod Steps
pub mod Types
pub mod Consistency
pub mod Answers
use module_oriented_software.Common.{
  ℕ, ◌+◌, ◌%◌, ◌/◌, ◌^◌, ◌==◌, ◌&&◌, not, Bool, true, false, Option, none, some, List, [], ◌∷◌,
  ◌++◌, if◌then◌else◌,
}
use module_oriented_software.Common.OrderedMap.{OrderedMap, lookup, insert, erase}
use module_oriented_software.Sha256.{Hash, xor_hash}
use module_oriented_software.Environment.{EnvCfgHeader}

abbrev pub Bytes : Type 0
Bytes = List ℕ

-- `std::string` of a buffer: the bytes in front of the first zero.
unfoldable pub text : Bytes → Bytes
text [] = []
text (b ∷ bs) = if b == 0 then [] else b ∷ text bs

unfoldable pub same_bytes : Bytes → Bytes → Bool
same_bytes [] [] = true
same_bytes [] (b ∷ bs) = false
same_bytes (a ∷ as') [] = false
same_bytes (a ∷ as') (b ∷ bs) = a == b && same_bytes as' bs

-- An element of `peers_`: the header, the address, and the client socket, which a number stands for.
pub record Peer : Type 0 where
  pub header : EnvCfgHeader
  pub address : Bytes
  pub unit : ℕ

-- `expirations` are the detached threads that sleep; `header` and `sent` are the header of `run_probing_` and what it
-- has sent, the last one first.
pub record Manager : Type 0 where
  pub host_hash : Hash
  pub host_addr : Bytes
  pub known_envs : List (Hash × ℕ)
  pub peers : OrderedMap Peer
  pub expirations : List (Hash × ℕ)
  pub units : ℕ
  pub header : EnvCfgHeader
  pub sent : List EnvCfgHeader

-- `std::find(…) != known_envs_.end()`
unfoldable pub is_known : Hash → ℕ → List (Hash × ℕ) → Bool
is_known h p [] = false
is_known h p ((h', p') ∷ es) =
    let rest = is_known h p es in if h' == h && p' == p then true else rest

-- `known_envs_.erase(it)` for the first that is found, if there is one.
unfoldable pub forget : Hash → ℕ → List (Hash × ℕ) → List (Hash × ℕ)
forget h p [] = []
forget h p ((h', p') ∷ es) = if h' == h && p' == p then es else (h', p') ∷ forget h p es

unfoldable pub out_connection_established : Hash → OrderedMap Peer → Bool
unfolding lookup
out_connection_established h peers = elim (lookup h peers) [ none ↦ false | some p ↦ true ]

-- `handle_probe_`: the code -1 is `none`. `connects` says whether `connect` to the peer succeeds.
unfoldable pub handle_probe : Bytes → Hash → EnvCfgHeader → Bool → Manager → Manager × Option ℕ
unfolding lookup insert same_bytes text
handle_probe peer_addr peer_hash header connects m =
    if not (same_bytes peer_addr (text m.host_addr))
    then elim (lookup peer_hash m.peers) [
      | some p ↦ (m, some 1)
      | none ↦
          if connects
          then (
            record m {
              peers =
                  insert peer_hash (record { header = header; address = peer_addr; unit = m.units })
                    m.peers;
              units = m.units + 1;
            },
            some 0,
          )
          else (record m { units = m.units + 1 }, none)
    ]
    else (m, none)

-- What the function "OnReceiveProbe" does with an environment that is not known: a thread is started that will
-- forget it.
unfoldable pub learn : Hash → ℕ → Manager → Manager
unfolding is_known
learn peer_hash port m =
    if not (is_known peer_hash port m.known_envs)
    then record m {
      known_envs = m.known_envs ++ (peer_hash, port) ∷ [];
      expirations = m.expirations ++ (peer_hash, port) ∷ [];
    }
    else m

unfoldable pub invite_hash : EnvCfgHeader → Hash → Hash
invite_hash header stray = elim header.env_invite [ none ↦ stray | some h ↦ h ]

-- What the function "OnReceiveProbe" does last: it connects to an environment that invites this one.
unfoldable pub answer :
    Bytes → Hash → EnvCfgHeader → Hash → Bool → Manager → Manager × Option (Option ℕ)
unfolding out_connection_established handle_probe
answer buffer peer_hash header invited connects m =
    if invited == m.host_hash && not (out_connection_established peer_hash m.peers)
    then (
      (handle_probe (text buffer) peer_hash header connects m).0,
      some (handle_probe (text buffer) peer_hash header connects m).1,
    )
    else (m, none)

module _ (compute : Bytes → Hash) where
  -- The hash of an address and a port of 16 bits, which is two bytes, the lower one first.
  unfoldable pub address_hash : Bytes → ℕ → Hash
  address_hash buffer port = xor_hash (compute buffer) (compute (port % 256 ∷ port / 256 ∷ []))

  -- `tcp_srv.is_peer_connected(hash, srv)`, given the buffers for the addresses of the connected peers
  unfoldable pub is_peer_connected : Hash → ℕ → List Bytes → Bool
  unfolding address_hash
  is_peer_connected hash srv [] = false
  is_peer_connected hash srv (buffer ∷ bs) =
      let rest = is_peer_connected hash srv bs in
      if hash == address_hash buffer srv then true else rest

  -- The function "OnReceiveProbe". Where the invite is empty, `sha256_from_string` reads what lies behind it in
  -- memory, which is `stray`. The second part of the result is that of `handle_probe_`, if it is called.
  unfoldable pub on_receive :
      Bytes → EnvCfgHeader → Hash → Bool → Manager → Manager × Option (Option ℕ)
  unfolding address_hash learn invite_hash answer
  on_receive buffer header stray connects m =
      let port = header.env_ipv4_tcp_port % 2 ^ 16 in
      let peer_hash = address_hash buffer port in
      if not (peer_hash == m.host_hash)
      then answer buffer peer_hash header (invite_hash header stray) connects
          (learn peer_hash port m)
      else (m, none)

  -- The first known environment that is not connected to this one is invited.
  unfoldable pub invite : List Bytes → List (Hash × ℕ) → EnvCfgHeader → EnvCfgHeader
  unfolding is_peer_connected
  invite connected [] header = header
  invite connected ((h, p) ∷ es) header =
      let rest = invite connected es header in
      if not (is_peer_connected h p connected) then record header { env_invite = some h } else rest

  -- One round of the loop of `run_probing_`.
  unfoldable pub probe : List Bytes → Manager → Manager
  unfolding invite
  probe connected m =
      let header = invite connected m.known_envs m.header in
      record m { header = header; sent = header ∷ m.sent }

  -- The rounds of `run_probing_`, given who is connected to this environment at each.
  unfoldable pub run_probing : List (List Bytes) → Manager → Manager
  unfolding probe
  run_probing [] m = m
  run_probing (connected ∷ rounds) m = run_probing rounds (probe connected m)

  -- `nm_s`, given the buffer of the address of the interface, the port and the header of the environment
  unfoldable pub network_manager : Bytes → ℕ → EnvCfgHeader → Manager
  unfolding address_hash
  network_manager host_addr port header = record {
    host_hash = address_hash host_addr (port % 2 ^ 16);
    host_addr = host_addr;
    known_envs = [];
    peers = [];
    expirations = [];
    units = 0;
    header = header;
    sent = [];
  }

-- The thread of an environment that has slept `known_env_lifetime_s` seconds.
unfoldable pub expire : Hash → ℕ → Manager → Manager
unfolding forget
expire h p m = record m {
  known_envs = forget h p m.known_envs;
  expirations = forget h p m.expirations;
}

-- "OnDisconnectHook" of a client socket
unfoldable pub on_disconnect : Hash → Manager → Manager
unfolding erase
on_disconnect h m = record m { peers = erase h m.peers }
