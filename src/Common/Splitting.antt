-- ===== src/Common/Splitting.antt =====
-- An ordered map cut at a key: what comes before it and what comes after it.
use Prim.Native.Nat.{ℕ, suc, ◌<◌}
use mathlib.Core.Path.{◌≡◌, refl}
use mathlib.Core.Option.{none}
use mathlib.Core.List.{[], ◌∷◌, ◌++◌}
use native.Mathlib.Omega.{arith}
use module_oriented_software.Common.Tests.{ltb, if◌then◌else◌}
use module_oriented_software.Common.OrderedMap.{OrderedMap, OrderedFrom, lookup, insert, erase}

module _ {ℓ} {V : Type ℓ} where
  abbrev pub under : ℕ → OrderedMap V → OrderedMap V
  under n [] = []
  under n ((k, e) ∷ m) = if ltb k n then (k, e) ∷ under n m else under n m

  abbrev pub over : ℕ → OrderedMap V → OrderedMap V
  over n [] = []
  over n ((k, e) ∷ m) = if ltb n k then (k, e) ∷ over n m else over n m

module _ {ℓ} {V : Type ℓ} where
  over_all :
      (lo n : ℕ) (m : OrderedMap V) → n < lo → OrderedFrom lo m → (under n m ≡ []) × (over n m ≡ m)
  over_all lo n [] h o = (refl, refl)
  over_all lo n ((k, e) ∷ m) h o = ground (arith, over_all (suc k) n m)

  -- A new entry stands between the smaller keys and the larger ones.
  pub insert-split :
      (lo n : ℕ) (v : V) (m : OrderedMap V)
      → OrderedFrom lo m
      → lookup n m ≡ none
      → insert n v m ≡ under n m ++ (n, v) ∷ over n m
  unfolding insert lookup
  insert-split lo n v [] o e = refl
  insert-split lo n v ((k, u) ∷ m) o e =
      ground (arith, insert-split (suc k) n v m, over_all (suc k) n m)

  -- Erasing the entry at the cut leaves both sides.
  pub erase-split :
      (lo n : ℕ) (m : OrderedMap V)
      → OrderedFrom lo m
      → (under n (erase n m) ≡ under n m) × (over n (erase n m) ≡ over n m)
  unfolding erase
  erase-split lo n [] o = (refl, refl)
  erase-split lo n ((k, u) ∷ m) o = ground (arith, erase-split (suc k) n m, over_all (suc k) n m)
