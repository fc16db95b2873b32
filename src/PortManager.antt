-- ===== src/PortManager.antt =====
-- env/inc/port_manager.hpp: `pm_s` finds a port by the names of its composition, of its component and its own.
-- Each loop goes on to the end and does nothing once there is a result. The lock of the environment is held
-- during a search, which changes nothing.
pub mod Finds
pub mod Names
use module_oriented_software.Common.{
  ℕ, ◌==◌, Bool, false, Option, none, some, List, [], ◌∷◌, String, if◌then◌else◌,
}
use module_oriented_software.Sha256.{Hash}
use module_oriented_software.Port.{PortBase, PortInfo}
use module_oriented_software.Component.{Component}
use module_oriented_software.Composition.{Composition}

-- `std::runtime_error` is thrown where there is no port.
pub data Search (A : Type 0) : Type 0 where
  found : A → Search A
  runtime_error : Search A

unfoldable pub search_of : {A : Type 0} → Option A → Search A
search_of none = runtime_error
search_of (some p) = found p

-- `port_exists`
unfoldable pub port_exists : PortInfo → Bool
port_exists port = false

module _ {W : Type 0} where
  -- The loop over the ports of a component or of a composition, from the result so far.
  unfoldable pub search_ports : Hash → List (PortBase W) → Option (PortBase W) → Option (PortBase W)
  search_ports port [] result = result
  search_ports port (p ∷ ps) (some r) = search_ports port ps (some r)
  search_ports port (p ∷ ps) none =
      search_ports port ps (if port == p.info.name_hash then some p else none)

  unfoldable pub search_components :
      Hash → Hash → List (Component W) → Option (PortBase W) → Option (PortBase W)
  unfolding search_ports
  search_components component port [] result = result
  search_components component port (c ∷ cs) (some r) = search_components component port cs (some r)
  search_components component port (c ∷ cs) none =
      search_components component port cs
        (if component == c.info.name_hash then search_ports port c.port_list none else none)

module _ {N W : Type 0} where
  unfoldable pub search_compositions :
      Hash → Hash → Hash → List (Composition N W) → Option (PortBase W) → Option (PortBase W)
  unfolding search_components
  search_compositions composition component port [] result = result
  search_compositions composition component port (c ∷ cs) (some r) =
      search_compositions composition component port cs (some r)
  search_compositions composition component port (c ∷ cs) none =
      search_compositions composition component port cs (
        if composition == c.info.name_hash
        then search_components component port c.component_list none
        else none)

  -- The same for the ports that a composition has itself.
  unfoldable pub search_composition_ports :
      Hash → Hash → List (Composition N W) → Option (PortBase W) → Option (PortBase W)
  unfolding search_ports
  search_composition_ports composition port [] result = result
  search_composition_ports composition port (c ∷ cs) (some r) =
      search_composition_ports composition port cs (some r)
  search_composition_ports composition port (c ∷ cs) none =
      search_composition_ports composition port cs
        (if composition == c.info.name_hash then search_ports port c.port_list none else none)

  module _ (compute : String → Hash) where
    -- `find_port` with the names of a composition, a component and a port
    unfoldable pub find_component_port :
        String → String → String → List (Composition N W) → Search (PortBase W)
    unfolding search_of search_compositions
    find_component_port composition component port cs =
        search_of
          (search_compositions (compute composition) (compute component) (compute port) cs none)

    -- `find_port` with the names of a composition and a port
    unfoldable pub find_composition_port :
        String → String → List (Composition N W) → Search (PortBase W)
    unfolding search_of search_composition_ports
    find_composition_port composition port cs =
        search_of (search_composition_ports (compute composition) (compute port) cs none)
