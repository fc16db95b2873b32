-- ===== src/Registry/Ids.antt =====
-- The search by identifier (`find_function_`, `find_part_`) over an ordered map, with what `insert`
-- and `erase` do to it.
use module_oriented_software.Common.{ℕ, suc, ◌≤◌, ◌≡◌, refl, ◌≢◌, none, some, [], ◌∷◌, arith}
use module_oriented_software.Common.OrderedMap.{OrderedMap, OrderedFrom, lookup, insert, erase}
use module_oriented_software.Sha256.{Hash}
use module_oriented_software.Registry.{find_entry}

module _ {F : Type 0} where
  -- No entry has the identifier.
  abbrev pub Lacks : Hash → OrderedMap (Hash × F) → Type 0
  Lacks id [] = Unit {0}
  Lacks id ((n, (i, f)) ∷ m) = (i ≢ id) × Lacks id m

  -- No identifier stands twice.
  abbrev pub IdsDistinct : OrderedMap (Hash × F) → Type 0
  IdsDistinct [] = Unit {0}
  IdsDistinct ((n, (i, f)) ∷ m) = Lacks i m × IdsDistinct m

module _ {F : Type 0} where
  pub find-Lacks : (id : Hash) (m : OrderedMap (Hash × F)) → Lacks id m → find_entry id m ≡ none
  unfolding find_entry
  find-Lacks id [] l = refl
  find-Lacks id ((n, (i, f)) ∷ m) l = ground (arith, find-Lacks id m)

  pub Lacks-find : (id : Hash) (m : OrderedMap (Hash × F)) → find_entry id m ≡ none → Lacks id m
  unfolding find_entry
  Lacks-find id [] e = tt
  Lacks-find id ((n, (i, f)) ∷ m) e = ground (arith, Lacks-find id m)

  -- What the search finds has the identifier, and is the entry of its number.
  pub find_entry-some :
      (lo : ℕ) (id : Hash) (m : OrderedMap (Hash × F)) (n : ℕ) (i : Hash) (f : F)
      → OrderedFrom lo m
      → find_entry id m ≡ some (n, (i, f))
      → (i ≡ id) × (lookup n m ≡ some (i, f)) × (lo ≤ n)
  unfolding find_entry lookup
  find_entry-some lo id [] n i f o e = cc
  find_entry-some lo id ((k, (j, g)) ∷ m) n i f o e =
      ground (arith, find_entry-some (suc k) id m n i f)

  -- An identifier that is new is found where it was inserted, if its number was free.
  pub find-insert_self :
      (id : Hash) (n : ℕ) (f : F) (m : OrderedMap (Hash × F))
      → Lacks id m
      → lookup n m ≡ none
      → find_entry id (insert n (id, f) m) ≡ some (n, (id, f))
  unfolding find_entry insert lookup
  find-insert_self id n f [] l e = ground arith
  find-insert_self id n f ((k, (j, g)) ∷ m) l e = ground (arith, find-insert_self id n f m)

  pub find-insert_ne :
      (j id : Hash) (n : ℕ) (f : F) (m : OrderedMap (Hash × F))
      → id ≢ j
      → find_entry j (insert n (id, f) m) ≡ find_entry j m
  unfolding find_entry insert
  find-insert_ne j id n f [] h = ground arith
  find-insert_ne j id n f ((k, (i, g)) ∷ m) h = ground (arith, find-insert_ne j id n f m)

  pub insert-Lacks :
      (j id : Hash) (n : ℕ) (f : F) (m : OrderedMap (Hash × F))
      → id ≢ j
      → Lacks j m
      → Lacks j (insert n (id, f) m)
  unfolding insert
  insert-Lacks j id n f [] h l = (h, tt)
  insert-Lacks j id n f ((k, (i, g)) ∷ m) h l = ground (arith, insert-Lacks j id n f m)

  pub insert-IdsDistinct :
      (id : Hash) (n : ℕ) (f : F) (m : OrderedMap (Hash × F))
      → Lacks id m
      → IdsDistinct m
      → IdsDistinct (insert n (id, f) m)
  unfolding insert
  insert-IdsDistinct id n f [] l d = (tt, tt)
  insert-IdsDistinct id n f ((k, (i, g)) ∷ m) l d =
      ground (arith, insert-IdsDistinct id n f m, insert-Lacks i id n f m)

  pub erase-Lacks : (j : Hash) (n : ℕ) (m : OrderedMap (Hash × F)) → Lacks j m → Lacks j (erase n m)
  unfolding erase
  erase-Lacks j n [] l = tt
  erase-Lacks j n ((k, (i, g)) ∷ m) l = ground (arith, erase-Lacks j n m)

  pub erase-IdsDistinct :
      (n : ℕ) (m : OrderedMap (Hash × F)) → IdsDistinct m → IdsDistinct (erase n m)
  unfolding erase
  erase-IdsDistinct n [] d = tt
  erase-IdsDistinct n ((k, (i, g)) ∷ m) d = ground (arith, erase-IdsDistinct n m, erase-Lacks i n m)

  -- Once its entry is erased, an identifier is gone.
  pub erase_found-Lacks :
      (lo : ℕ) (id : Hash) (m : OrderedMap (Hash × F)) (n : ℕ) (e : Hash × F)
      → OrderedFrom lo m
      → IdsDistinct m
      → find_entry id m ≡ some (n, e)
      → Lacks id (erase n m)
  unfolding find_entry erase
  erase_found-Lacks lo id [] n e o d h = cc
  erase_found-Lacks lo id ((k, (i, g)) ∷ m) n (i', f') o d h =
      ground
        (arith, erase_found-Lacks (suc k) id m n (i', f'), find_entry-some (suc k) id m n i' f')

  -- Erasing another entry does not hide an identifier.
  pub find-erase_ne :
      (lo : ℕ) (j : Hash) (n : ℕ) (i : Hash) (f : F) (m : OrderedMap (Hash × F))
      → OrderedFrom lo m
      → lookup n m ≡ some (i, f)
      → i ≢ j
      → find_entry j (erase n m) ≡ find_entry j m
  unfolding find_entry erase lookup
  find-erase_ne lo j n i f [] o e h = refl
  find-erase_ne lo j n i f ((k, (i', g)) ∷ m) o e h =
      ground (arith, find-erase_ne (suc k) j n i f m)
