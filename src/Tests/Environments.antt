-- ===== src/Tests/Environments.antt =====
-- A small environment: a composition of one component, a property, and a tuple. The length of a name stands for
-- its hash.
use Prim.Native.String.{len}
use mathlib.Core.List.{Memᴰ}
use module_oriented_software.Common.{ℕ, ◌≡◌, refl, ◌+◌, ◌*◌, some, List, [], ◌∷◌, String, map}
use module_oriented_software.Hook.{Hook}
use module_oriented_software.Port.{PortBase, port_base}
use module_oriented_software.Component as component_module
use module_oriented_software.Component.{
  Component, RuntimeFunction, component, runtime_list, call_signal,
}
use module_oriented_software.Component.Signals.{functions_of, run_in_turn, call_signal-component}
use module_oriented_software.Composition
use module_oriented_software.Composition.{Composition, composition}
use module_oriented_software.Composition.Links.{All, IsLinked, IsLinkedPort, composition-IsLinked}
use module_oriented_software.Environment.{env_static}
use module_oriented_software.Environment.Linking.{Plan, made, env_static-IsLinked}
use module_oriented_software.PortManager.{found, search_of, find_component_port}
use module_oriented_software.PortManager.Finds.{
  first, fits, places, port_of, find_component_port-first,
}
use module_oriented_software.PortManager.Names.{find_component_port_linked}
use module_oriented_software.Property.{Property}
use module_oriented_software.Property.Accesses.{
  Access, writes, reads, clears, changes, seen, before_clear, shown, run_accesses,
  run_accesses-shown,
}
use module_oriented_software.Tuple.{visit_at, visited, get_elem?}
use module_oriented_software.Tuple.Search.{visit_at_finds}

abbrev runtimes : List (String × String × RuntimeFunction ℕ)
runtimes =
    ("first", "go", λ argv env w. w * 10 + 1)
    ∷ ("second", "stop", λ argv env w. w * 10 + 2)
    ∷ ("third", "go", λ argv env w. w * 10 + 3)
    ∷ []

abbrev a_component : Component ℕ
a_component =
    component len "source" "type" (port_base 50 "in" ∷ port_base 50 "out" ∷ [])
      (runtime_list len runtimes)

abbrev built : Composition ℕ ℕ
built = composition len "whole" "type" (port_base 50 "own" ∷ []) (a_component ∷ []) 0

abbrev in_env : Composition ℕ ℕ
in_env = Composition.setenv 1 built

-- An environment that is started with the composition twice.
abbrev plan : Plan ℕ ℕ
plan = record {
  name = "whole";
  type_name = "type";
  ports = port_base 50 "own" ∷ [];
  components = a_component ∷ [];
  compositions = 0;
}

env_static-IsLinked_example :
    All (IsLinked len 1) (env_static 1 (map (made len) (plan ∷ plan ∷ [])))
env_static-IsLinked_example = env_static-IsLinked len 1 (plan ∷ plan ∷ [])

call_signal-component_example :
    call_signal len "go" (component_module.setenv 1 a_component) [] 7
    ≡ run_in_turn (functions_of len "go" runtimes) [] (some 1) 7
call_signal-component_example =
    call_signal-component len "source" "type" "go" (port_base 50 "in" ∷ port_base 50 "out" ∷ []) 1
      runtimes [] 7

find_component_port-first_example :
    find_component_port len "whole" "source" "out" (in_env ∷ in_env ∷ [])
    ≡ search_of (
        port_of
          (first (fits (len "whole") (len "source") (len "out")) (places (in_env ∷ in_env ∷ []))))
find_component_port-first_example =
    find_component_port-first len "whole" "source" "out" (in_env ∷ in_env ∷ [])

-- The parts of the composition that is in the environment.
abbrev head_component : Composition ℕ ℕ → Component ℕ
head_component c = elim c.component_list [ [] ↦ a_component | d ∷ ds ↦ d ]

abbrev head_port : Component ℕ → PortBase ℕ
head_port c = elim c.port_list [ [] ↦ port_base 50 "none" | p ∷ ps ↦ p ]

find_component_port_linked_example :
    (q : PortBase ℕ) × (find_component_port len in_env.name
        (head_component in_env).name
        (head_port (head_component in_env)).name
        (in_env ∷ [])
      ≡ found q)
    × (q.info.name_hash ≡ len (head_port (head_component in_env)).name)
    × (c' : Composition ℕ ℕ) × Memᴰ c' (in_env ∷ [])
    × (c'.info.name_hash ≡ len in_env.name)
    × (d' : Component ℕ) × Memᴰ d' c'.component_list
    × (d'.info.name_hash ≡ len (head_component in_env).name)
    × Memᴰ q d'.port_list
    × IsLinkedPort len 1 c'.info.id d'.info.id q
unfolding Composition.setenv composition component
find_component_port_linked_example =
    find_component_port_linked len 1 (in_env ∷ [])
      (composition-IsLinked len 1 "whole" "type" (port_base 50 "own" ∷ []) (a_component ∷ []) 0, tt)
      in_env (head_component in_env) (head_port (head_component in_env)) (Memᴰ.head refl)
      (Memᴰ.head refl) (Memᴰ.head refl)

-- A hook that writes the value behind the state, with a digit of its own before it.
abbrev noting : ℕ → Hook ℕ ℕ
noting d = record {
  registry = record {
    id = d;
    error_handler = λ id code at w. w;
    entries = (0, (2, λ x w. (w * 10 + d) * 10 + x)) ∷ [];
    current_number = 1;
  };
  call_count = 0;
  hash = 0;
}

abbrev a_property : Property ℕ ℕ
a_property = record { on_read_hook = noting 8; on_write_hook = noting 9; value = 1 }

abbrev accesses : List (Access ℕ)
accesses = reads ∷ writes 3 ∷ changes 4 ∷ reads ∷ clears ∷ writes 5 ∷ reads ∷ []

run_accesses-shown_example :
    (run_accesses accesses a_property 0).1.1
    ≡ shown
        (noting 8).registry.entries
        (noting 9).registry.entries
        (seen (before_clear accesses) 1)
        0
run_accesses-shown_example = run_accesses-shown accesses a_property 0

abbrev tuple : List ℕ
tuple = 4 ∷ 5 ∷ 6 ∷ 7 ∷ []

visit_at_finds_example : visit_at 2 (λ (x : ℕ). x * 2) tuple ≡ visited 12
unfolding get_elem?
visit_at_finds_example = visit_at_finds (λ (x : ℕ). x * 2) tuple 2 6 refl
