-- ===== src/Tests/Calls.antt =====
-- Hooks, sequences and functors with two functions, under the numbers 0 and 1. Every function writes a
-- digit behind the state, so that the state tells the order of the calls.
use Prim.Native.String.{len}
use module_oriented_software.Common.{ℕ, ◌≡◌, refl, ◌+◌, ◌*◌, [], ◌∷◌, arith}
use module_oriented_software.Common.OrderedMap.{OrderedMap, find_if, lookup}
use module_oriented_software.Sha256.{Hash}
use module_oriented_software.Registry.{Registry, find_entry}
use module_oriented_software.Registry.Invariant.{IsValid}
use module_oriented_software.Hook
use module_oriented_software.Hook.{Hook, HookFunction, run_entries}
use module_oriented_software.Sequence
use module_oriented_software.Sequence.{Sequence, Part, Base}
use module_oriented_software.Functor
use module_oriented_software.Functor.{Functor, TypeNames}
use module_oriented_software.Sequence.Run.{run_parts-add_at, through}
use module_oriented_software.Functor.Calls.{invoke-add}

abbrev digit : ℕ → ℕ → ℕ → ℕ
digit d args w = w * 10 + d

abbrev part : ℕ → Part ℕ ℕ
part d x w = (x * 2 + d, w * 10 + d)

abbrev adder : Base ℕ ℕ ℕ
adder x w = (x + 1, w * 10 + 9)

-- Two entries, for the names of two and of four letters.
abbrev entries : {F : Type 0} → F → F → ℕ → OrderedMap (Hash × F)
entries f g n = (0, (2, f)) ∷ (n, (4, g)) ∷ []

abbrev registry : {F : Type 0} → F → F → ℕ → Registry F ℕ
registry f g n = record {
  id = 7;
  error_handler = λ id code at w. w * 10 + code;
  entries = entries f g n;
  current_number = 1 + n;
}

registry-IsValid : {F : Type 0} (f g : F) → IsValid (registry f g 1)
registry-IsValid f g = record { ordered = ground arith; distinct = ground arith }

spaced-IsValid : {F : Type 0} (f g : F) → IsValid (registry f g 5)
spaced-IsValid f g = record { ordered = ground arith; distinct = ground arith }

abbrev hook : ℕ → Hook ℕ ℕ
hook n = record { registry = registry (digit 1) (digit 2) n; call_count = 0; hash = 0 }

abbrev sequence : ℕ → Sequence ℕ ℕ ℕ
sequence n = record {
  registry = registry (part 1) (part 2) n;
  base = adder;
  call_count = 0;
  hash = 0;
}

abbrev functor : Functor ℕ ℕ ℕ
functor = record {
  id = 8;
  error_handler = λ id code at w. w;
  base = adder;
  sequence = sequence 1;
  hooks_before = hook 1;
  hooks_after = hook 1;
  call_count = 0;
  last_state = 0;
  hash = 0;
}

invoke-add_example :
    let g' = record functor {
      hooks_before = (Hook.add len "before" (digit 3) (hook 1) 0).0;
      hooks_after = (Hook.add len "after" (digit 5) (hook 1) 0).0;
    } in
    let w₁ = digit 3 7 (Hook.run (hook 1) 7 0).1 in
    let s = (Sequence.run (sequence 1) 7 w₁).1 in
    (Functor.invoke g' 7 0).1 ≡ (s.0, digit 5 7 (Hook.run (hook 1) 7 s.1).1)
unfolding find_entry find_if
invoke-add_example =
    invoke-add len functor "before" "after" (digit 3) (digit 5) 7 0 0 (registry-IsValid _ _)
      (registry-IsValid _ _) (ground arith) (ground arith) refl refl

run_parts-add_at_example :
    (Sequence.run (Sequence.add_at len "a part" 3 (part 4) (sequence 5) 0).0 7 0).1
    ≡ through len (sequence 5) (spaced-IsValid _ _) 3 (part 4) 7 0
unfolding find_entry find_if lookup
run_parts-add_at_example =
    run_parts-add_at len (sequence 5) (spaced-IsValid _ _) "a part" 3 (part 4) 7 0 0 refl refl
