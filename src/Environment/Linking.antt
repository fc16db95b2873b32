-- ===== src/Environment/Linking.antt =====
-- env/inc/env_static.hpp: what the compositions of a static environment know once it has started.
use module_oriented_software.Common.{ℕ, List, [], ◌∷◌, map, String}
use module_oriented_software.Sha256.{Hash}
use module_oriented_software.Port.{PortBase}
use module_oriented_software.Component.{Component}
use module_oriented_software.Composition.{Composition, composition, set_all_env}
use module_oriented_software.Composition.Links.{All, IsLinked, composition-IsLinked}
use module_oriented_software.Environment.{env_static}

-- What a program gives to the constructor of a composition.
pub record Plan (N W : Type 0) : Type 0 where
  pub name : String
  pub type_name : String
  pub ports : List (PortBase W)
  pub components : List (Component W)
  pub compositions : N

abbrev pub made : {N W : Type 0} → (String → Hash) → Plan N W → Composition N W
made compute p = composition compute p.name p.type_name p.ports p.components p.compositions

-- An environment that is started with any compositions, each made by its constructor of any ports and components, is linked
-- through: every composition, its components and all their ports are in the environment, each port
-- carries the identifiers of its composition and its component, where a port of the composition itself has the
-- composition for both, and all carry the hashes of their names.
pub env_static-IsLinked :
    {N W : Type 0} (compute : String → Hash) (env : ℕ) (plans : List (Plan N W))
    → All (IsLinked compute env) (env_static env (map (made compute) plans))
unfolding env_static set_all_env
env_static-IsLinked compute env [] = tt
env_static-IsLinked compute env (p ∷ ps) = (
  composition-IsLinked compute env p.name p.type_name p.ports p.components p.compositions,
  env_static-IsLinked compute env ps,
)
