-- ===== src/Common/Keys.antt =====
-- The keys of an ordered map, whatever its values are.
use Prim.Native.Nat.{ℕ}
use mathlib.Core.Path.{◌≡◌, refl, ap}
use mathlib.Core.Logic.{inl, inr}
use mathlib.Core.Bool.{Bool, true, false}
use mathlib.Core.Option.{Option, none, some}
use mathlib.Core.List.{List, [], ◌∷◌}
use native.Mathlib.Omega.{arith}
use module_oriented_software.Common.Tests.{ltb, ◌==◌, if◌then◌else◌, Option-cases}
use module_oriented_software.Common.OrderedMap.{OrderedMap, lookup, insert, erase}

abbrev pub keys {ℓ} : {V : Type ℓ} → OrderedMap V → List ℕ
keys [] = []
keys ((k, v) ∷ m) = k ∷ keys m

abbrev insert_key : ℕ → List ℕ → List ℕ
insert_key k [] = k ∷ []
insert_key k (j ∷ js) =
    if ltb k j then k ∷ j ∷ js else if k == j then j ∷ js else j ∷ insert_key k js

abbrev erase_key : ℕ → List ℕ → List ℕ
erase_key k [] = []
erase_key k (j ∷ js) = if j == k then js else j ∷ erase_key k js

abbrev pub has_key : ℕ → List ℕ → Bool
has_key k [] = false
has_key k (j ∷ js) = if j == k then true else has_key k js

abbrev pub is_some {ℓ} : {A : Type ℓ} → Option A → Bool
is_some none = false
is_some (some a) = true

module _ {ℓ} {V : Type ℓ} where
  pub keys-insert : (k : ℕ) (v : V) (m : OrderedMap V) → keys (insert k v m) ≡ insert_key k (keys m)
  unfolding insert
  keys-insert k v [] = refl
  keys-insert k v ((j, w) ∷ m) = ground (arith, keys-insert k v m)

  pub keys-erase : (k : ℕ) (m : OrderedMap V) → keys (erase k m) ≡ erase_key k (keys m)
  unfolding erase
  keys-erase k [] = refl
  keys-erase k ((j, w) ∷ m) = ground (arith, keys-erase k m)

  pub has_key-lookup : (k : ℕ) (m : OrderedMap V) → has_key k (keys m) ≡ is_some (lookup k m)
  unfolding lookup
  has_key-lookup k [] = refl
  has_key-lookup k ((j, w) ∷ m) = ground (arith, has_key-lookup k m)

  pub erase_absent : (k : ℕ) (m : OrderedMap V) → lookup k m ≡ none → erase k m ≡ m
  unfolding erase lookup
  erase_absent k [] e = refl
  erase_absent k ((j, w) ∷ m) e = ground (arith, erase_absent k m)

module _ {ℓ ℓ'} {V : Type ℓ} {W : Type ℓ'} where
  -- Two maps with the same keys keep them the same.
  pub insert-SameKeys :
      (k : ℕ) (v : V) (w : W) (m : OrderedMap V) (n : OrderedMap W)
      → keys m ≡ keys n
      → keys (insert k v m) ≡ keys (insert k w n)
  insert-SameKeys k v w m n e = rw (keys-insert k v m, keys-insert k w n, e) refl

  pub erase-SameKeys :
      (k : ℕ) (m : OrderedMap V) (n : OrderedMap W)
      → keys m ≡ keys n
      → keys (erase k m) ≡ keys (erase k n)
  erase-SameKeys k m n e = rw (keys-erase k m, keys-erase k n, e) refl

  pub lookup-SameKeys :
      (k : ℕ) (m : OrderedMap V) (n : OrderedMap W)
      → keys m ≡ keys n
      → lookup k m ≡ none
      → lookup k n ≡ none
  lookup-SameKeys k m n e h =
      let p = has_key-lookup k m in
      let q = has_key-lookup k n in
      let r = ap (has_key k) e in
      elim (Option-cases (lookup k n)) [
        | inl g ↦ g
        | inr (v, g) ↦ let i = ap is_some g in let j = ap is_some h in cc
      ]
