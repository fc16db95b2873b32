-- ===== src/Common/OrderedMap.antt =====
-- `std::map` with unsigned keys: a list in ascending order of the keys, which is the order in which
-- its iterators run. `insert` leaves an entry that is there, `erase` of a missing key does nothing.
use Prim.Native.Nat.{ℕ, suc, ◌≤◌, ◌<◌}
use mathlib.Core.Path.{◌≡◌, refl}
use mathlib.Core.Bool.{Bool, false}
use mathlib.Core.Option.{Option, none, some}
use mathlib.Core.List.{List, [], ◌∷◌, ◌++◌}
use native.Mathlib.Omega.{arith}
use module_oriented_software.Common.Tests.{ltb, ◌==◌, if◌then◌else◌}

abbrev pub OrderedMap {ℓ} : Type ℓ → Type ℓ
OrderedMap V = List (ℕ × V)

module _ {ℓ} {V : Type ℓ} where
  unfoldable pub lookup : ℕ → OrderedMap V → Option V
  lookup k [] = none
  lookup k ((j, v) ∷ m) = if j == k then some v else lookup k m

  unfoldable pub insert : ℕ → V → OrderedMap V → OrderedMap V
  insert k v [] = (k, v) ∷ []
  insert k v ((j, w) ∷ m) =
      if ltb k j then (k, v) ∷ (j, w) ∷ m else if k == j then (j, w) ∷ m else (j, w) ∷ insert k v m

  unfoldable pub erase : ℕ → OrderedMap V → OrderedMap V
  erase k [] = []
  erase k ((j, v) ∷ m) = if j == k then m else (j, v) ∷ erase k m

  -- `std::find_if` over the entries: the first that passes the test, with its key.
  unfoldable pub find_if : (V → Bool) → OrderedMap V → Option (ℕ × V)
  find_if p [] = none
  find_if p ((j, v) ∷ m) = if p v then some (j, v) else find_if p m

  -- The keys ascend, and none lies under `lo`.
  abbrev pub OrderedFrom : ℕ → OrderedMap V → Type 0
  OrderedFrom lo [] = Unit {0}
  OrderedFrom lo ((k, v) ∷ m) = (lo ≤ k) × OrderedFrom (suc k) m

  abbrev pub IsOrdered : OrderedMap V → Type 0
  IsOrdered m = OrderedFrom 0 m

  -- Every key lies under `hi`.
  abbrev pub AllBelow : ℕ → OrderedMap V → Type 0
  AllBelow hi [] = Unit {0}
  AllBelow hi ((k, v) ∷ m) = (k < hi) × AllBelow hi m

module _ {ℓ} {V : Type ℓ} where
  pub OrderedFrom-mono :
      (lo hi : ℕ) (m : OrderedMap V) → lo ≤ hi → OrderedFrom hi m → OrderedFrom lo m
  OrderedFrom-mono lo hi [] h o = tt
  OrderedFrom-mono lo hi ((k, v) ∷ m) h o = (omega arith, o.1)

  pub insert-OrderedFrom :
      (lo k : ℕ) (v : V) (m : OrderedMap V)
      → lo ≤ k
      → OrderedFrom lo m
      → OrderedFrom lo (insert k v m)
  unfolding insert
  insert-OrderedFrom lo k v [] h o = (h, tt)
  insert-OrderedFrom lo k v ((j, w) ∷ m) h o = ground (arith, insert-OrderedFrom (suc j) k v m)

  pub erase-OrderedFrom :
      (lo k : ℕ) (m : OrderedMap V) → OrderedFrom lo m → OrderedFrom lo (erase k m)
  unfolding erase
  erase-OrderedFrom lo k [] o = tt
  erase-OrderedFrom lo k ((j, w) ∷ m) o =
      ground (arith, erase-OrderedFrom (suc j) k m, OrderedFrom-mono lo (suc j) m)

  -- A key under the lower bound is not there.
  pub lookup_under : (lo k : ℕ) (m : OrderedMap V) → k < lo → OrderedFrom lo m → lookup k m ≡ none
  unfolding lookup
  lookup_under lo k [] h o = refl
  lookup_under lo k ((j, w) ∷ m) h o = ground (arith, lookup_under (suc j) k m)

  -- A key over all of them is not there, and its entry goes to the end.
  pub lookup_over : (k : ℕ) (m : OrderedMap V) → AllBelow k m → lookup k m ≡ none
  unfolding lookup
  lookup_over k [] b = refl
  lookup_over k ((j, w) ∷ m) b = ground (arith, lookup_over k m)

  pub insert_over :
      (k : ℕ) (v : V) (m : OrderedMap V) → AllBelow k m → insert k v m ≡ m ++ (k, v) ∷ []
  unfolding insert
  insert_over k v [] b = refl
  insert_over k v ((j, w) ∷ m) b = ground (arith, insert_over k v m)

  -- A key that is there keeps its entry.
  pub insert_present :
      (lo k : ℕ) (v w : V) (m : OrderedMap V)
      → OrderedFrom lo m
      → lookup k m ≡ some w
      → insert k v m ≡ m
  unfolding insert lookup
  insert_present lo k v w [] o e = cc
  insert_present lo k v w ((j, u) ∷ m) o e =
      ground (arith, insert_present (suc j) k v w m, lookup_under (suc j) k m)

  pub lookup-insert :
      (lo k j : ℕ) (v : V) (m : OrderedMap V)
      → OrderedFrom lo m
      → lookup k m ≡ none
      → lookup j (insert k v m) ≡ (if k == j then some v else lookup j m)
  unfolding insert lookup
  lookup-insert lo k j v [] o e = refl
  lookup-insert lo k j v ((i, w) ∷ m) o e = ground (arith, lookup-insert (suc i) k j v m)

  -- What was inserted under a new key is erased without a trace.
  pub erase-insert :
      (k : ℕ) (v : V) (m : OrderedMap V) → lookup k m ≡ none → erase k (insert k v m) ≡ m
  unfolding insert lookup erase
  erase-insert k v [] e = ground arith
  erase-insert k v ((i, w) ∷ m) e = ground (arith, erase-insert k v m)

  -- What was erased can be put back.
  pub insert-erase :
      (lo k : ℕ) (v : V) (m : OrderedMap V)
      → OrderedFrom lo m
      → lookup k m ≡ some v
      → insert k v (erase k m) ≡ m
  unfolding insert lookup erase
  insert-erase lo k v [] o e = cc
  insert-erase lo k v ((i, w) ∷ []) o e = ground arith
  insert-erase lo k v ((i, w) ∷ (j, u) ∷ m) o e =
      ground (arith, insert-erase (suc i) k v ((j, u) ∷ m))

  pub lookup-erase : (lo k : ℕ) (m : OrderedMap V) → OrderedFrom lo m → lookup k (erase k m) ≡ none
  unfolding lookup erase
  lookup-erase lo k [] o = refl
  lookup-erase lo k ((i, w) ∷ m) o =
      ground (arith, lookup-erase (suc i) k m, lookup_under (suc i) k m)

  pub lookup-erase_ne :
      (k j : ℕ) (m : OrderedMap V) → (k == j) ≡ false → lookup j (erase k m) ≡ lookup j m
  unfolding lookup erase
  lookup-erase_ne k j [] h = refl
  lookup-erase_ne k j ((i, w) ∷ m) h = ground (arith, lookup-erase_ne k j m)

  -- The map after `erase`, in one equation.
  pub lookup-erase_if :
      (k j : ℕ) (m : OrderedMap V)
      → IsOrdered m
      → lookup j (erase k m) ≡ (if k == j then none else lookup j m)
  lookup-erase_if k j m o = ground (arith, lookup-erase 0 k m, lookup-erase_ne k j m)

  pub AllBelow-mono : (lo hi : ℕ) (m : OrderedMap V) → lo ≤ hi → AllBelow lo m → AllBelow hi m
  AllBelow-mono lo hi [] h b = tt
  AllBelow-mono lo hi ((i, w) ∷ m) h b = ground (arith, AllBelow-mono lo hi m)

  pub insert-AllBelow :
      (hi k : ℕ) (v : V) (m : OrderedMap V) → k < hi → AllBelow hi m → AllBelow hi (insert k v m)
  unfolding insert
  insert-AllBelow hi k v [] h b = (h, tt)
  insert-AllBelow hi k v ((i, w) ∷ m) h b = ground (arith, insert-AllBelow hi k v m)

  pub erase-AllBelow : (hi k : ℕ) (m : OrderedMap V) → AllBelow hi m → AllBelow hi (erase k m)
  unfolding erase
  erase-AllBelow hi k [] b = tt
  erase-AllBelow hi k ((i, w) ∷ m) b = ground (arith, erase-AllBelow hi k m)

  pub lookup-lt :
      (hi k : ℕ) (v : V) (m : OrderedMap V) → AllBelow hi m → lookup k m ≡ some v → k < hi
  unfolding lookup
  lookup-lt hi k v [] b e = cc
  lookup-lt hi k v ((i, w) ∷ m) b e = ground (arith, lookup-lt hi k v m)
