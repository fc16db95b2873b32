-- ===== src/Tests/Registries.antt =====
-- Registries with two entries, under the numbers 1 and 3.
use module_oriented_software.Common.{ℕ, ◌≡◌, refl, ◌+◌, [], ◌∷◌, List, arith}
use module_oriented_software.Common.OrderedMap.{lookup, find_if}
use module_oriented_software.EnvUtils.{clear}
use module_oriented_software.Registry.{Registry, past_end, find_entry, reply, add_entry}
use module_oriented_software.Registry.Invariant.{
  IsValid, Call, adds, adds_at, removes, replaces, clears, run_calls, run_calls-IsValid,
}
use module_oriented_software.Registry.Numbering.{IsFresh, run_calls-IsFresh}
use module_oriented_software.Registry.Behaviour.{add_entry_collides}

-- The next number is 3, which is taken, or 4.
abbrev two_entries : ℕ → Registry ℕ ℕ
two_entries next = record {
  id = 7;
  error_handler = λ id code at w. w + code;
  entries = (1, (10, 100)) ∷ (3, (30, 300)) ∷ [];
  current_number = next;
}

two_entries-IsValid : (next : ℕ) → IsValid (two_entries next)
two_entries-IsValid next = record { ordered = ground arith; distinct = ground arith }

abbrev history : List (Call ℕ)
history =
    adds 10 5 ∷ adds 50 6 ∷ adds_at 60 3 7 ∷ replaces 30 10 8 ∷ removes 10 ∷ clears ∷ adds 1 1 ∷ []

run_calls-IsValid_example : IsValid (run_calls history (two_entries 3, 0)).0
run_calls-IsValid_example = run_calls-IsValid history (two_entries 3) 0 (two_entries-IsValid 3)

abbrev automatic : List (Call ℕ)
automatic = adds 10 5 ∷ adds 50 6 ∷ replaces 30 10 8 ∷ removes 10 ∷ adds 60 1 ∷ []

run_calls-IsFresh_example : IsFresh (run_calls automatic (two_entries 4, 0)).0
run_calls-IsFresh_example =
    run_calls-IsFresh automatic (two_entries 4) 0 (two_entries-IsValid 4) (ground arith) tt
      (ground arith)

add_entry_collides_example :
    let (r', w', d) = add_entry 50 500 (two_entries 3) 0 in
    (r'.entries ≡ (two_entries 3).entries)
    × (w' ≡ 0)
    × (d ≡ reply (two_entries 3) clear (50, past_end))
unfolding find_entry find_if lookup
add_entry_collides_example =
    add_entry_collides (two_entries 3) (two_entries-IsValid 3) 0 50 500 (30, 300) refl refl
