-- ===== src/Port.antt =====
-- env/inc/port_node.hpp and env/inc/base_port.hpp: what every port has. `W` is the state that handlers act
-- upon. The ports call `get_id()`, which no class of a port declares, so that what calls it compiles only once it is declared: what it
-- would give is a parameter of the constructors, of which nothing is assumed.
pub mod Connections
pub mod Queue
pub mod Observe
pub mod Sender
pub mod Receiver
pub mod Server
pub mod Client
use module_oriented_software.Common.{
  ℕ, ◌==◌, ltb, not, Bool, true, false, Option, none, some, List, [], ◌∷◌, String, if◌then◌else◌,
  length,
}
use module_oriented_software.EnvUtils.{
  EnvErrno, clear, port_exists, max_ports_connected, env_code, EnvStatus, env_status, qualify,
  qualifier_at, Outcome, returned, out_of_range, ErrorHandler, runtime,
}
use module_oriented_software.Sha256.{Hash, xor_hash}

-- `port_info_s`. Each hash is a string of 32 bytes there, which `sha256_from_string` reads back.
pub record PortInfo : Type 0 where
  pub id : Hash
  pub name_hash : Hash
  pub port_type_hash : Hash
  pub component_id : Hash
  pub composition_id : Hash

-- `port_base_s`; the environment is null until `setenv`, and else known by a number.
pub record PortBase (W : Type 0) : Type 0 where
  pub name : String
  pub info : PortInfo
  pub env : Option ℕ
  pub get_id : Hash
  pub connected : List PortInfo
  pub proxies : List PortInfo
  pub error_handler : ErrorHandler W

abbrev pub max_connections : ℕ
max_connections = 8

abbrev pub buffer_size : ℕ
buffer_size = 8

unfoldable pub find_port : Hash → List PortInfo → Option PortInfo
find_port id [] = none
find_port id (c ∷ cs) = if c.id == id then some c else find_port id cs

-- `port_manager.is_connected`
unfoldable pub manager_is_connected : Hash → Hash → Bool
manager_is_connected first second = false

module _ {W : Type 0} where
  abbrev pub report : PortBase W → EnvErrno → W → W
  report p e w = p.error_handler p.get_id (env_code e) runtime w

  abbrev pub status_of : PortBase W → EnvErrno → EnvStatus
  status_of p e = qualify (env_status p.get_id) p.get_id (env_code e)

  unfoldable pub is_connected : Hash → PortBase W → Bool
  unfolding find_port
  is_connected id p = elim (find_port id p.connected) [ none ↦ false | some c ↦ true ]

  unfoldable pub update_info : (String → Hash) → PortBase W → PortBase W
  update_info compute p = record p {
    info = record info {
      name_hash = compute p.name;
      id = xor_hash (compute p.name) info.port_type_hash;
    };
  }
    where
      open p use {info}

  unfoldable pub set_error_handler :
      (String → Hash) → ErrorHandler W → PortBase W → PortBase W × EnvStatus
  unfolding update_info
  set_error_handler compute f p =
      let q = update_info compute (record p { error_handler = f }) in
      (q, qualify (env_status q.get_id) q.info.id (env_code clear))

  unfoldable pub setenv : ℕ → PortBase W → PortBase W
  setenv env p = record p { env = some env }

  -- `connect_port_`, once `setenv` has set the environment, which is dereferenced: the port stays as it is; what is returned on success has no qualifier.
  unfoldable pub connect_port : Hash → PortBase W → W → W × EnvStatus
  unfolding manager_is_connected
  connect_port id p w =
      if ltb (length p.connected) max_connections
      then if not (manager_is_connected p.get_id id)
        then (w, env_status p.get_id)
        else (report p port_exists w, status_of p port_exists)
      else (report p max_ports_connected w, status_of p max_ports_connected)

  unfoldable pub disconnect_port : Hash → PortBase W → W → W × EnvStatus
  disconnect_port id p w = (w, env_status p.get_id)

  unfoldable pub replace_port : Hash → Hash → PortBase W → W → Outcome (W × EnvStatus) W
  unfolding disconnect_port connect_port
  replace_port id_which id_by p w =
      let (w', disconnected) = disconnect_port id_which p w in
      elim (qualifier_at disconnected p.get_id) [
        | none ↦ out_of_range w'
        | some code ↦ returned (
            if not (code == env_code clear)
            then (w', qualify (env_status p.get_id) p.get_id code)
            else connect_port id_by p w')
      ]

  -- `connect_proxy_`, `disconnect_proxy_` and `replace_proxy_`
  unfoldable pub connect_proxy : Hash → PortBase W → EnvStatus
  connect_proxy id p = env_status p.get_id

  unfoldable pub disconnect_proxy : Hash → PortBase W → EnvStatus
  disconnect_proxy id p = env_status p.get_id

  unfoldable pub replace_proxy : Hash → Hash → PortBase W → EnvStatus
  replace_proxy id_which id_by p = env_status p.get_id

unfoldable pub port_base : {W : Type 0} → Hash → String → PortBase W
port_base get_id name = record {
  name = name;
  info = record { id = 0; name_hash = 0; port_type_hash = 0; component_id = 0; composition_id = 0 };
  env = none;
  get_id = get_id;
  connected = [];
  proxies = [];
  error_handler = λ id code at w. w;
}

-- The constructors of the ports of each type: the hash of the type is set, and `update_info` called.
unfoldable pub typed_port : {W : Type 0} → (String → Hash) → Hash → String → String → PortBase W
unfolding port_base update_info
typed_port {W} compute get_id name type =
    update_info compute (record p { info = record p.info { port_type_hash = compute type } })
  where
    p : PortBase W
    p = port_base get_id name
