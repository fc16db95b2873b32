-- ===== src/Tuple.antt =====
-- utils/tuple/inc/tuple.hpp: `std::visit_at`, which calls a function on the element of a tuple that has a given
-- number. A list stands for the tuple, its values for the references; `A` is what all elements can be seen as.
pub mod Search
use module_oriented_software.Common.{
  ℕ, zero, suc, ◌+◌, ◌-◌, ◌/◌, ltb, ◌==◌, not, Bool, true, false, Option, some, none, List, [], ◌∷◌,
  length,
}

pub data Visit (B : Type 0) : Type 0 where
  visited : B → Visit B
  thrown no_fuel : Visit B

-- `std::get<n>`
unfoldable pub get_elem? : {A : Type 0} → List A → ℕ → Option A
get_elem? [] n = none
get_elem? (x ∷ xs) zero = some x
get_elem? (x ∷ xs) (suc n) = get_elem? xs n

module _ {A B : Type 0} where
  -- `visit_at_<Mid, Mid, Mid>::apply_`
  unfoldable pub visit_single : ℕ → ℕ → (A → B) → List A → Visit B
  unfolding get_elem?
  visit_single mid n f xs = elim (n == mid) [
    | false ↦ thrown
    | true ↦ elim (get_elem? xs mid) [ none ↦ thrown | some x ↦ visited (f x) ]
  ]

  -- `visit_at_<Low, High>::apply_`, where `end` is `High + 1`. The first number is the fuel.
  unfoldable pub visit_between : ℕ → ℕ → ℕ → ℕ → (A → B) → List A → Visit B
  unfolding visit_single
  visit_between zero low end n f xs = no_fuel
  visit_between (suc k) low end n f xs = elim (ltb low end) [
    | false ↦ thrown
    | true ↦ elim (suc low == end) [
      | true ↦ visit_single low n f xs
      | false ↦ elim (ltb n ((low + (end - 1)) / 2)) [
        | true ↦ visit_between k low ((low + (end - 1)) / 2) n f xs
        | false ↦ elim (n == (low + (end - 1)) / 2) [
          | true ↦ visit_single ((low + (end - 1)) / 2) n f xs
          | false ↦ visit_between k (suc ((low + (end - 1)) / 2)) end n f xs
        ]
      ]
    ]
  ]

  unfoldable pub visit_at : ℕ → (A → B) → List A → Visit B
  unfolding visit_between
  visit_at n f xs = visit_between (suc (length xs)) 0 (length xs) n f xs
