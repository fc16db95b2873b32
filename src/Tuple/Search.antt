-- ===== src/Tuple/Search.antt =====
-- `visit_at` calls the function on the element that has the number, and on no other.
use module_oriented_software.Common.{
  ℕ, zero, suc, ◌≡◌, refl, ◌+◌, ◌-◌, ◌/◌, ◌<◌, ◌≤◌, ==_refl, some, List, [], ◌∷◌, length, arith,
}
use module_oriented_software.Tuple.{
  visited, thrown, get_elem?, visit_single, visit_between, visit_at,
}

module _ {A B : Type 0} (f : A → B) (xs : List A) where
  visit_single_found :
      (n : ℕ) (x : A) → get_elem? xs n ≡ some x → visit_single n n f xs ≡ visited (f x)
  unfolding visit_single
  visit_single_found n x e = rw (==_refl n, visit_single, e) refl

  visit_between_found :
      (k low end n : ℕ) (x : A)
      → low ≤ n
      → n < end
      → end < low + k
      → get_elem? xs n ≡ some x
      → visit_between k low end n f xs ≡ visited (f x)
  unfolding visit_between
  visit_between_found zero low end n x h h' enough e = absurd (omega arith)
  visit_between_found (suc k) low end n x h h' enough e =
      let mid = (low + (end - 1)) / 2 in
      ground (
        arith,
        visit_single_found n x e,
        visit_between_found k low mid n x,
        visit_between_found k (suc mid) end n x,
      )

  visit_between_thrown :
      (k low end n : ℕ) → end ≤ n → end ≤ low + k → visit_between (suc k) low end n f xs ≡ thrown
  unfolding visit_between visit_single
  visit_between_thrown zero low end n h enough = ground arith
  visit_between_thrown (suc k) low end n h enough =
      let mid = (low + (end - 1)) / 2 in ground (arith, visit_between_thrown k (suc mid) end n)

  get_elem?_bound : (ys : List A) (n : ℕ) (x : A) → get_elem? ys n ≡ some x → n < length ys
  unfolding get_elem?
  get_elem?_bound [] n x e = ground arith
  get_elem?_bound (y ∷ ys) zero x e = omega arith
  get_elem?_bound (y ∷ ys) (suc n) x e = omega (arith, get_elem?_bound ys n x e)

  -- On the number of an element the binary search of `visit_at` ends, and the function is called on that
  -- element.
  pub visit_at_finds : (n : ℕ) (x : A) → get_elem? xs n ≡ some x → visit_at n f xs ≡ visited (f x)
  unfolding visit_at
  visit_at_finds n x e =
      visit_between_found (suc (length xs)) 0 (length xs) n x (omega arith)
        (get_elem?_bound xs n x e) (omega arith) e

  -- On a number that no element has, the search ends and `out_of_range` is thrown.
  pub visit_at_throws : (n : ℕ) → length xs ≤ n → visit_at n f xs ≡ thrown
  unfolding visit_at
  visit_at_throws n h = visit_between_thrown (length xs) 0 (length xs) n h (omega arith)
