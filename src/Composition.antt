-- ===== src/Composition.antt =====
-- env/inc/composition_node.hpp, composition_static.hpp and composition_list_static.hpp: a composition has ports
-- and components, and in its second form compositions too. `N` is the type of these, which no operation of the
-- composition that holds them reads. A tuple is a list, and a loop over `std::visit_at` goes through the list.
pub mod Links
use module_oriented_software.Common.{ℕ, Option, none, some, List, [], ◌∷◌, map, String}
use module_oriented_software.Sha256.{Hash, xor_hash}
use module_oriented_software.Port.{PortBase}
use module_oriented_software.Component as component_module
use module_oriented_software.Component.{Component, set_ports_env, update_ports}

-- `cmps_info_s`
pub record CompositionInfo : Type 0 where
  pub id : Hash
  pub name_hash : Hash
  pub composition_type_hash : Hash

pub record Composition (N W : Type 0) : Type 0 where
  pub name : String
  pub type_name : String
  pub env : Option ℕ
  pub info : CompositionInfo
  pub composition_list : N
  pub component_list : List (Component W)
  pub port_list : List (PortBase W)

module _ {N W : Type 0} where
  -- `setenv`: the composition, its components and its ports, and not the compositions that it holds.
  unfoldable pub setenv : ℕ → Composition N W → Composition N W
  unfolding component_module.setenv set_ports_env
  setenv env c = record c {
    env = some env;
    component_list = map (component_module.setenv env) c.component_list;
    port_list = set_ports_env env c.port_list;
  }

  -- `cmps_list_static_s::setenv`
  unfoldable pub set_all_env : ℕ → List (Composition N W) → List (Composition N W)
  unfolding setenv
  set_all_env env cs = map (setenv env) cs

module _ {W : Type 0} (compute : String → Hash) where
  -- What the second loop of `update_info` does to one component.
  unfoldable pub update_component : Hash → Component W → Component W
  unfolding component_module.update_info
  update_component composition_id c =
      component_module.update_info compute
        (record c { info = record c.info { composition_id = composition_id } })

module _ {N W : Type 0} (compute : String → Hash) where
  unfoldable pub update_info_base : Composition N W → Composition N W
  update_info_base c = record c {
    info = record c.info {
      name_hash = compute c.name;
      id = xor_hash (compute c.name) c.info.composition_type_hash;
    };
  }

  -- The ports of the composition itself get its identifier as that of their component too.
  unfoldable pub update_info : Composition N W → Composition N W
  unfolding update_info_base update_component update_ports
  update_info c =
      let c' =
        update_info_base
          (record c { info = record c.info { composition_type_hash = compute c.type_name } }) in
      record c' {
        port_list = update_ports compute c'.info.id c'.info.id c'.port_list;
        component_list = map (update_component compute c'.info.id) c'.component_list;
      }

  -- `cmps_list_static_s::update_info`
  unfoldable pub update_all : List (Composition N W) → List (Composition N W)
  unfolding update_info
  update_all cs = map update_info cs

  -- The constructors
  unfoldable pub composition :
      String → String → List (PortBase W) → List (Component W) → N → Composition N W
  unfolding update_info
  composition name type_name ports components compositions = update_info (record {
    name = name;
    type_name = type_name;
    env = none;
    info = record { id = 0; name_hash = 0; composition_type_hash = 0 };
    composition_list = compositions;
    component_list = components;
    port_list = ports;
  })
