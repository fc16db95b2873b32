-- ===== src/Sequence/Run.antt =====
-- What a call of a sequence returns, and how its operations change that.
use module_oriented_software.Common.{ℕ, ◌≡◌, refl, none, some, [], ◌∷◌, ◌++◌, String}
use module_oriented_software.Common.OrderedMap.{
  OrderedMap, erase, lookup, lookup-erase, erase-OrderedFrom,
}
use module_oriented_software.Common.Splitting.{under, over, insert-split, erase-split}
use module_oriented_software.EnvUtils.{returned, clear}
use module_oriented_software.Sha256.{Hash}
use module_oriented_software.Registry.{at_number, reply, find_entry}
use module_oriented_software.Registry.Invariant.{IsValid}
use module_oriented_software.Registry.Numbering.{IsFresh, add_entry_appends}
use module_oriented_software.Registry.Behaviour.{add_entry_at_new}
use module_oriented_software.Registry.Replace.{replaced, replace_entry_in_place}
use module_oriented_software.Sequence.{
  Sequence, Part, run_parts, run, add, add_at, add_part, add_part_at, replace,
}

module _ {R W : Type 0} where
  pub run_parts-append :
      (m l : OrderedMap (Hash × Part R W)) (s : R × W)
      → run_parts (m ++ l) s ≡ run_parts l (run_parts m s)
  unfolding run_parts
  run_parts-append [] l s = refl
  run_parts-append ((n, (id, f)) ∷ m) l s = run_parts-append m l (f s.0 s.1)

  run_parts-insert :
      (n : ℕ) (id : Hash) (f : Part R W) (m l : OrderedMap (Hash × Part R W)) (s : R × W)
      → run_parts (m ++ (n, (id, f)) ∷ l) s ≡ run_parts l (f (run_parts m s).0 (run_parts m s).1)
  unfolding run_parts
  run_parts-insert n id f m l s = run_parts-append m ((n, (id, f)) ∷ l) s

module _ {A R W : Type 0} (compute : String → Hash) (q : Sequence A R W)
    (v : IsValid q.registry) where
  -- A part that is added without a number comes last, where no caller has taken a number: the result
  -- of the sequence goes through it.
  pub run_parts-add :
      (name : String) (f : Part R W) (args : A) (w u : W)
      → IsFresh q.registry
      → find_entry (compute name) q.registry.entries ≡ none
      → (run (add compute name f q u).0 args w).1 ≡ f (run q args w).1.0 (run q args w).1.1
  unfolding run add add_part run_parts
  run_parts-add name f args w u fresh e =
      rw (add_entry_appends q.registry v fresh u (compute name) f e).0
        (run_parts-append q.registry.entries _ (q.base args w))

  -- The result of the parts under a number, given to a part, and what that gives to the parts over it.
  abbrev pub through : ℕ → Part R W → A → W → R × W
  through n f args w =
      let s = run_parts (under n q.registry.entries) (q.base args w) in
      run_parts (over n q.registry.entries) (f s.0 s.1)

  -- In a valid sequence a part of a new name that is added under a free number takes its place by that number: the result of the
  -- function goes through the parts with lower numbers, then through it, then through those with higher numbers.
  pub run_parts-add_at :
      (name : String) (n : ℕ) (f : Part R W) (args : A) (w u : W)
      → find_entry (compute name) q.registry.entries ≡ none
      → lookup n q.registry.entries ≡ none
      → (run (add_at compute name n f q u).0 args w).1 ≡ through n f args w
  unfolding run add_at add_part_at
  run_parts-add_at name n f args w u e free =
      rw
        (
          add_entry_at_new q.registry v u (compute name) n f e free,
          insert-split 0 n (compute name, f) q.registry.entries v.ordered free,
        )
        (run_parts-insert n (compute name) f (under n q.registry.entries)
          (over n q.registry.entries) (q.base args w))

  replace_in_place :
      (name new_name : String) (n : ℕ) (f g : Part R W) (u : W)
      → find_entry (compute name) q.registry.entries ≡ some (n, (compute name, g))
      → find_entry (compute new_name) (erase n q.registry.entries) ≡ none
      → replace compute name new_name f q u
        ≡ returned (
          record q { registry = replaced q.registry v u (compute new_name) n f },
          u,
          reply q.registry clear (compute new_name, at_number n),
        )
  unfolding replace
  replace_in_place name new_name n f g u e free = rw (
    replace_entry_in_place q.registry v u (compute name) (compute new_name) n f g e free,
    replace,
  )

  -- A part that replaces another runs in its place: between the same parts, under the same number.
  run_parts-replace :
      (name new_name : String) (n : ℕ) (f g : Part R W) (u : W)
      → find_entry (compute name) q.registry.entries ≡ some (n, (compute name, g))
      → find_entry (compute new_name) (erase n q.registry.entries) ≡ none
      → (q' : Sequence A R W) × (replace compute name new_name f q u
          ≡ returned (q', u, reply q.registry clear (compute new_name, at_number n)))
        × ((args : A) (w : W) → (run q' args w).1 ≡ through n f args w)
  unfolding run
  run_parts-replace name new_name n f g u e free = (
    record q { registry = replaced q.registry v u (compute new_name) n f },
    replace_in_place name new_name n f g u e free,
    λ args w.
        rw
          (
            insert-split 0 n (compute new_name, f) (erase n q.registry.entries)
                (erase-OrderedFrom 0 n q.registry.entries v.ordered)
                (lookup-erase 0 n q.registry.entries v.ordered),
            (erase-split 0 n q.registry.entries v.ordered).0,
            (erase-split 0 n q.registry.entries v.ordered).1,
          )
          (run_parts-insert n (compute new_name) f (under n q.registry.entries)
            (over n q.registry.entries) (q.base args w)),
  )
