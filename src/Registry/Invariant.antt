-- ===== src/Registry/Invariant.antt =====
-- The representation invariant of a registry, over every history of calls.
use module_oriented_software.Common.{ℕ, List, [], ◌∷◌, inl, inr, arith, Option-cases}
use module_oriented_software.Common.OrderedMap.{IsOrdered, insert-OrderedFrom, erase-OrderedFrom}
use module_oriented_software.EnvUtils.{Outcome, returned, out_of_range, EnvData}
use module_oriented_software.Sha256.{Hash}
use module_oriented_software.Registry.{
  Registry, Slot, find_entry, add_entry, add_entry_at, remove_entry, replace_entry, clear_entries,
}
use module_oriented_software.Registry.Ids.{
  IdsDistinct, Lacks-find, insert-IdsDistinct, erase-IdsDistinct,
}

-- The numbers ascend, and no identifier is registered twice.
pub record IsValid {F W : Type 0} (r : Registry F W) : Type 0 where
  pub ordered : IsOrdered r.entries
  pub distinct : IdsDistinct r.entries

-- A call of a client that changes a registry.
pub data Call (F : Type 0) : Type 0 where
  adds : Hash → F → Call F
  adds_at : Hash → ℕ → F → Call F
  removes : Hash → Call F
  replaces : Hash → Hash → F → Call F
  clears : Call F

module _ {F W : Type 0} where
  -- What is left of a registry and of the rest after a replacement, thrown or not.
  abbrev pub settled :
      Outcome (Registry F W × W × EnvData (Hash × Slot)) (Registry F W × W) → Registry F W × W
  settled (returned (r, w, d)) = (r, w)
  settled (out_of_range (r, w)) = (r, w)

  unfoldable pub step : Call F → Registry F W × W → Registry F W × W
  step (adds id f) (r, w) = let (r', w', d) = add_entry id f r w in (r', w')
  step (adds_at id n f) (r, w) = let (r', w', d) = add_entry_at id n f r w in (r', w')
  step (removes id) (r, w) = let (r', w', d) = remove_entry id r w in (r', w')
  step (replaces id new_id f) (r, w) = settled (replace_entry id new_id f r w)
  step clears (r, w) = ((clear_entries r).0, w)

  unfoldable pub run_calls : List (Call F) → Registry F W × W → Registry F W × W
  unfolding step
  run_calls [] s = s
  run_calls (c ∷ cs) s = run_calls cs (step c s)

  add_entry-IsValid :
      (id : Hash) (f : F) (r : Registry F W) (w : W) → IsValid r → IsValid (add_entry id f r w).0
  unfolding add_entry
  add_entry-IsValid id f r w v = ground (
    arith,
    Lacks-find id r.entries,
    insert-OrderedFrom 0 r.current_number (id, f) r.entries,
    insert-IdsDistinct id r.current_number f r.entries,
  )

  add_entry_at-IsValid :
      (id : Hash) (n : ℕ) (f : F) (r : Registry F W) (w : W)
      → IsValid r
      → IsValid (add_entry_at id n f r w).0
  unfolding add_entry_at
  add_entry_at-IsValid id n f r w v = ground (
    arith,
    Lacks-find id r.entries,
    insert-OrderedFrom 0 n (id, f) r.entries,
    insert-IdsDistinct id n f r.entries,
  )

  remove_entry-IsValid :
      (id : Hash) (r : Registry F W) (w : W) → IsValid r → IsValid (remove_entry id r w).0
  unfolding remove_entry
  remove_entry-IsValid id r w v = elim (Option-cases (find_entry id r.entries)) [
    | inl e ↦ ground arith
    | inr ((n, e'), e) ↦
        ground (arith, erase-OrderedFrom 0 n r.entries, erase-IdsDistinct n r.entries)
  ]

  replace_entry-IsValid :
      (id new_id : Hash) (f : F) (r : Registry F W) (w : W)
      → IsValid r
      → IsValid (settled (replace_entry id new_id f r w)).0
  unfolding replace_entry
  replace_entry-IsValid id new_id f r w v = ground (
    arith,
    remove_entry-IsValid id r w v,
    add_entry_at-IsValid new_id (remove_entry id r w).2.value.1 f (remove_entry id r w).0
        (remove_entry id r w).1,
  )

  clear_entries-IsValid : (r : Registry F W) → IsValid (clear_entries r).0
  unfolding clear_entries
  clear_entries-IsValid r = record { ordered = tt; distinct = tt }

  pub step-IsValid : (c : Call F) (r : Registry F W) (w : W) → IsValid r → IsValid (step c (r, w)).0
  unfolding step
  step-IsValid (adds id f) r w v = add_entry-IsValid id f r w v
  step-IsValid (adds_at id n f) r w v = add_entry_at-IsValid id n f r w v
  step-IsValid (removes id) r w v = remove_entry-IsValid id r w v
  step-IsValid (replaces id new_id f) r w v = replace_entry-IsValid id new_id f r w v
  step-IsValid clears r w v = clear_entries-IsValid r

  -- Whatever calls are made, in whatever order and whether they succeed or not, a valid registry
  -- stays one: its numbers ascend and no identifier is registered twice.
  pub run_calls-IsValid :
      (cs : List (Call F)) (r : Registry F W) (w : W) → IsValid r → IsValid (run_calls cs (r, w)).0
  unfolding run_calls
  run_calls-IsValid [] r w v = v
  run_calls-IsValid (c ∷ cs) r w v =
      run_calls-IsValid cs (step c (r, w)).0 (step c (r, w)).1 (step-IsValid c r w v)
