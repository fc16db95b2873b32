-- ===== src/VoidSequence/Run.antt =====
-- What a call of a sequence of actions does, and how its operations change that.
use module_oriented_software.Common.{ℕ, ◌≡◌, refl, none, some, [], ◌∷◌, ◌++◌, String}
use module_oriented_software.Common.OrderedMap.{
  OrderedMap, erase, lookup, lookup-erase, erase-OrderedFrom,
}
use module_oriented_software.Common.Splitting.{under, over, insert-split, erase-split}
use module_oriented_software.EnvUtils.{returned, clear}
use module_oriented_software.Sha256.{Hash}
use module_oriented_software.Registry.{at_number, reply, find_entry}
use module_oriented_software.Registry.Invariant.{IsValid}
use module_oriented_software.Registry.Numbering.{IsFresh, add_entry_appends}
use module_oriented_software.Registry.Behaviour.{add_entry_at_new}
use module_oriented_software.Registry.Replace.{replaced, replace_entry_in_place}
use module_oriented_software.VoidSequence.{
  VoidSequence, Part, run_parts, run, add, add_at, add_part, add_part_at, replace,
}

module _ {W : Type 0} where
  pub run_parts-append :
      (m l : OrderedMap (Hash × Part W)) (w : W)
      → run_parts (m ++ l) w ≡ run_parts l (run_parts m w)
  unfolding run_parts
  run_parts-append [] l w = refl
  run_parts-append ((n, (id, f)) ∷ m) l w = run_parts-append m l (f w)

  run_parts-insert :
      (n : ℕ) (id : Hash) (f : Part W) (m l : OrderedMap (Hash × Part W)) (w : W)
      → run_parts (m ++ (n, (id, f)) ∷ l) w ≡ run_parts l (f (run_parts m w))
  unfolding run_parts
  run_parts-insert n id f m l w = run_parts-append m ((n, (id, f)) ∷ l) w

module _ {A W : Type 0} (compute : String → Hash) (q : VoidSequence A W)
    (v : IsValid q.registry) where
  -- A part that is added without a number comes last, where no caller has taken a number: a call of
  -- the sequence is a call of the sequence before, followed by it.
  pub void_run-add :
      (name : String) (f : Part W) (args : A) (w u : W)
      → IsFresh q.registry
      → find_entry (compute name) q.registry.entries ≡ none
      → (run (add compute name f q u).0 args w).1 ≡ f (run q args w).1
  unfolding run add add_part run_parts
  void_run-add name f args w u fresh e =
      rw (add_entry_appends q.registry v fresh u (compute name) f e).0
        (run_parts-append q.registry.entries _ (q.base args w))

  -- The first action, the parts under a number, a part, and the parts over the number.
  abbrev pub through : ℕ → Part W → A → W → W
  through n f args w =
      run_parts (over n q.registry.entries)
        (f (run_parts (under n q.registry.entries) (q.base args w)))

  -- A part that is added under a free number of the caller's takes its place among the others by
  -- that number.
  pub void_run-add_at :
      (name : String) (n : ℕ) (f : Part W) (args : A) (w u : W)
      → find_entry (compute name) q.registry.entries ≡ none
      → lookup n q.registry.entries ≡ none
      → (run (add_at compute name n f q u).0 args w).1 ≡ through n f args w
  unfolding run add_at add_part_at
  void_run-add_at name n f args w u e free =
      rw
        (
          add_entry_at_new q.registry v u (compute name) n f e free,
          insert-split 0 n (compute name, f) q.registry.entries v.ordered free,
        )
        (run_parts-insert n (compute name) f (under n q.registry.entries)
          (over n q.registry.entries) (q.base args w))

  replace_in_place :
      (name new_name : String) (n : ℕ) (f g : Part W) (u : W)
      → find_entry (compute name) q.registry.entries ≡ some (n, (compute name, g))
      → find_entry (compute new_name) (erase n q.registry.entries) ≡ none
      → replace compute name new_name f q u
        ≡ returned (
          record q { registry = replaced q.registry v u (compute new_name) n f },
          u,
          reply q.registry clear (compute new_name, at_number n),
        )
  unfolding replace
  replace_in_place name new_name n f g u e free = rw (
    replace_entry_in_place q.registry v u (compute name) (compute new_name) n f g e free,
    replace,
  )

  -- A part that replaces another runs in its place: between the same parts, under the same number.
  void_run-replace :
      (name new_name : String) (n : ℕ) (f g : Part W) (u : W)
      → find_entry (compute name) q.registry.entries ≡ some (n, (compute name, g))
      → find_entry (compute new_name) (erase n q.registry.entries) ≡ none
      → (q' : VoidSequence A W) × (replace compute name new_name f q u
          ≡ returned (q', u, reply q.registry clear (compute new_name, at_number n)))
        × ((args : A) (w : W) → (run q' args w).1 ≡ through n f args w)
  unfolding run
  void_run-replace name new_name n f g u e free = (
    record q { registry = replaced q.registry v u (compute new_name) n f },
    replace_in_place name new_name n f g u e free,
    λ args w.
        rw
          (
            insert-split 0 n (compute new_name, f) (erase n q.registry.entries)
                (erase-OrderedFrom 0 n q.registry.entries v.ordered)
                (lookup-erase 0 n q.registry.entries v.ordered),
            (erase-split 0 n q.registry.entries v.ordered).0,
            (erase-split 0 n q.registry.entries v.ordered).1,
          )
          (run_parts-insert n (compute new_name) f (under n q.registry.entries)
            (over n q.registry.entries) (q.base args w)),
  )
