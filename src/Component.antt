-- ===== src/Component.antt =====
-- env/inc/component_node.hpp, component_static.hpp, port_list_static.hpp and runtime_list.hpp: a component,
-- which has ports and functions that run on signals. A port is seen as its `port_base_s`. A tuple is a list, and
-- a loop over `std::visit_at` goes through the list, which Tuple shows. The lists are the component's own copies.
pub mod Signals
use module_oriented_software.Common.{
  ℕ, ◌==◌, Option, none, some, List, [], ◌∷◌, map, String, if◌then◌else◌,
}
use module_oriented_software.Sha256.{Hash, xor_hash}
use module_oriented_software.Port
use module_oriented_software.Port.{PortBase}

-- `cmp_info_s`
pub record ComponentInfo : Type 0 where
  pub id : Hash
  pub name_hash : Hash
  pub component_type_hash : Hash
  pub composition_id : Hash

-- A function is given the arguments of the program and the environment.
abbrev pub RuntimeFunction : Type 0 → Type 0
RuntimeFunction W = List String → Option ℕ → W → W

-- An element of `runtime_list_static_s`: the hashes of its name and of its signal, and its function.
pub record Runnable (W : Type 0) : Type 0 where
  pub name_hash : Hash
  pub signal_hash : Hash
  pub function : RuntimeFunction W

-- `type_name` is `typestr` of the class.
pub record Component (W : Type 0) : Type 0 where
  pub name : String
  pub type_name : String
  pub env : Option ℕ
  pub info : ComponentInfo
  pub port_list : List (PortBase W)
  pub runtime_list : List (Runnable W)

module _ {W : Type 0} where
  -- `port_list_static_s::at`: the first port of the name; `out_of_range` is thrown at `none`.
  unfoldable pub port_at : Hash → List (PortBase W) → Option (PortBase W)
  port_at name_hash [] = none
  port_at name_hash (p ∷ ps) =
      let rest = port_at name_hash ps in if name_hash == p.info.name_hash then some p else rest

  unfoldable pub set_ports_env : ℕ → List (PortBase W) → List (PortBase W)
  unfolding Port.setenv
  set_ports_env env ps = map (Port.setenv env) ps

  unfoldable pub setenv : ℕ → Component W → Component W
  unfolding set_ports_env
  setenv env c = record c { env = some env; port_list = set_ports_env env c.port_list }

  -- `operator()` with the hash of a signal: the functions of the signal run in the order of the list.
  unfoldable pub run_signal : Hash → Option ℕ → List (Runnable W) → List String → W → W
  run_signal signal env [] argv w = w
  run_signal signal env (r ∷ rs) argv w =
      run_signal signal env rs argv (if r.signal_hash == signal then r.function argv env w else w)

  unfoldable pub call_signal_id : Hash → Component W → List String → W → W
  unfolding run_signal
  call_signal_id signal c argv w = run_signal signal c.env c.runtime_list argv w

module _ {W : Type 0} (compute : String → Hash) where
  -- What the loops of `update_info` do to one port.
  unfoldable pub update_port : Hash → Hash → PortBase W → PortBase W
  unfolding Port.update_info
  update_port composition_id component_id p = Port.update_info compute (record p {
    info = record p.info { composition_id = composition_id; component_id = component_id };
  })

  unfoldable pub update_ports : Hash → Hash → List (PortBase W) → List (PortBase W)
  unfolding update_port
  update_ports composition_id component_id [] = []
  update_ports composition_id component_id (p ∷ ps) =
      update_port composition_id component_id p ∷ update_ports composition_id component_id ps

  unfoldable pub update_info_base : Component W → Component W
  update_info_base c = record c {
    info = record c.info {
      name_hash = compute c.name;
      id = xor_hash (compute c.name) c.info.component_type_hash;
    };
  }

  unfoldable pub update_info : Component W → Component W
  unfolding update_info_base update_ports
  update_info c =
      let c' =
        update_info_base
          (record c { info = record c.info { component_type_hash = compute c.type_name } }) in
      record c' { port_list = update_ports c'.info.composition_id c'.info.id c'.port_list }

  -- `runtime_list_static_s`, given names, signals and functions
  unfoldable pub runtime_list : List (String × String × RuntimeFunction W) → List (Runnable W)
  runtime_list [] = []
  runtime_list ((name, signal, f) ∷ rs) =
      record { name_hash = compute name; signal_hash = compute signal; function = f }
      ∷ runtime_list rs

  unfoldable pub component : String → String → List (PortBase W) → List (Runnable W) → Component W
  unfolding update_info
  component name type_name ports runtimes = update_info (record {
    name = name;
    type_name = type_name;
    env = none;
    info = record { id = 0; name_hash = 0; component_type_hash = 0; composition_id = 0 };
    port_list = ports;
    runtime_list = runtimes;
  })

  -- `operator()` with the name of a signal
  unfoldable pub call_signal : String → Component W → List String → W → W
  unfolding run_signal
  call_signal signal c argv w = run_signal (compute signal) c.env c.runtime_list argv w
