-- ===== src/Composition/Links.antt =====
-- How a composition that is built and put in an environment links its ports.
use module_oriented_software.Common.{ℕ, ◌≡◌, refl, some, List, [], ◌∷◌, map, String}
use module_oriented_software.Sha256.{Hash, xor_hash}
use module_oriented_software.Port
use module_oriented_software.Port.{PortBase}
use module_oriented_software.Component as component_module
use module_oriented_software.Component.{Component, update_port, update_ports, set_ports_env}
use module_oriented_software.Composition.{Composition, update_component, composition, setenv}

-- Each of a list has a property.
abbrev pub All : {A : Type 0} → (A → Type 0) → List A → Type 0
All P [] = Unit {0}
All P (x ∷ xs) = P x × All P xs

module _ {W : Type 0} (compute : String → Hash) where
  -- The port is in the environment, and knows the identifiers of its composition and its component and the
  -- hash of its name.
  pub record IsLinkedPort (env : ℕ) (composition_id component_id : Hash) (p : PortBase W)
      : Type 0 where
    pub in_env : p.env ≡ some env
    pub of_composition : p.info.composition_id ≡ composition_id
    pub of_component : p.info.component_id ≡ component_id
    pub by_name : p.info.name_hash ≡ compute p.name
    pub by_id : p.info.id ≡ xor_hash (compute p.name) p.info.port_type_hash

  -- So for a component and each of its ports.
  pub record IsLinkedComponent (env : ℕ) (composition_id : Hash) (c : Component W) : Type 0 where
    pub in_env : c.env ≡ some env
    pub of_composition : c.info.composition_id ≡ composition_id
    pub by_name : c.info.name_hash ≡ compute c.name
    pub ports : All (IsLinkedPort env composition_id c.info.id) c.port_list

  pub record IsLinked {N : Type 0} (env : ℕ) (c : Composition N W) : Type 0 where
    pub in_env : c.env ≡ some env
    pub by_name : c.info.name_hash ≡ compute c.name
    pub components : All (IsLinkedComponent env c.info.id) c.component_list
    pub ports : All (IsLinkedPort env c.info.id c.info.id) c.port_list

  ports-IsLinked :
      (env : ℕ) (composition_id component_id : Hash) (ps : List (PortBase W))
      → All
          (IsLinkedPort env composition_id component_id)
          (set_ports_env env (update_ports compute composition_id component_id ps))
  unfolding set_ports_env update_ports update_port Port.setenv Port.update_info
  ports-IsLinked env composition_id component_id [] = tt
  ports-IsLinked env composition_id component_id (p ∷ ps) = (
    record {
      in_env = refl;
      of_composition = refl;
      of_component = refl;
      by_name = refl;
      by_id = refl;
    },
    ports-IsLinked env composition_id component_id ps,
  )

  components-IsLinked :
      (env : ℕ) (composition_id : Hash) (cs : List (Component W))
      → All
          (IsLinkedComponent env composition_id)
          (map (component_module.setenv env) (map (update_component compute composition_id) cs))
  unfolding update_component component_module.setenv component_module.update_info
  components-IsLinked env composition_id [] = tt
  components-IsLinked env composition_id (c ∷ cs) = (
    record {
      in_env = refl;
      of_composition = refl;
      by_name = refl;
      ports = ports-IsLinked env composition_id _ c.port_list;
    },
    components-IsLinked env composition_id cs,
  )

  -- A composition that its constructor made of any ports and components, once it is put in an environment, is
  -- linked through: it, its components and all their ports are in the environment, each port carries the
  -- identifiers of its composition and its component, where a port of the composition itself has the
  -- composition for both, and all carry the hashes of their names.
  pub composition-IsLinked :
      {N : Type 0} (env : ℕ) (name type_name : String) (ps : List (PortBase W))
      (cs : List (Component W)) (compositions : N)
      → IsLinked env (setenv env (composition compute name type_name ps cs compositions))
  unfolding composition setenv
  composition-IsLinked env name type_name ps cs compositions = record {
    in_env = refl;
    by_name = refl;
    components = components-IsLinked env _ cs;
    ports = ports-IsLinked env _ _ ps;
  }
