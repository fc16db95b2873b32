-- ===== src/Registry/Numbering.antt =====
-- Registries to which functions are added without a number of the caller's: the next number is
-- always free, so that no function is dropped, and the functions run in the order of the additions.
use module_oriented_software.Common.{
  ◌≡◌, ◌+◌, ◌^◌, ◌≤◌, ◌<◌, none, List, [], ◌∷◌, ◌++◌, inl, inr, arith, length, Option-cases,
}
use module_oriented_software.Common.OrderedMap.{
  AllBelow, erase, lookup_over, insert_over, insert-AllBelow, erase-AllBelow, AllBelow-mono,
  lookup-lt,
}
use module_oriented_software.EnvUtils.{clear}
use module_oriented_software.Sha256.{Hash}
use module_oriented_software.Registry.{
  Registry, at_number, find_entry, reply, add_entry, add_entry_at, remove_entry, replace_entry,
  clear_entries,
}
use module_oriented_software.Registry.Ids.{find_entry-some}
use module_oriented_software.Registry.Invariant.{
  IsValid, Call, adds, adds_at, removes, replaces, clears, settled, step, run_calls, step-IsValid,
}
use module_oriented_software.Registry.Behaviour.{add_entry_new}

-- Every number is under the next one.
abbrev pub IsFresh : {F W : Type 0} → Registry F W → Type 0
IsFresh r = AllBelow r.current_number r.entries

-- The calls that take no number from the caller.
abbrev pub Automatic : {F : Type 0} → List (Call F) → Type 0
Automatic [] = Unit {0}
Automatic (adds id f ∷ cs) = Automatic cs
Automatic (adds_at id n f ∷ cs) = ⊥
Automatic (removes id ∷ cs) = Automatic cs
Automatic (replaces id new_id f ∷ cs) = Automatic cs
Automatic (clears ∷ cs) = Automatic cs

module _ {F W : Type 0} (r : Registry F W) (v : IsValid r) (fresh : IsFresh r) (w : W) where
  -- A new name goes behind all the others, under the next number, and is reported there.
  pub add_entry_appends :
      (id : Hash) (f : F)
      → find_entry id r.entries ≡ none
      → let (r', w', d) = add_entry id f r w in
        (r'.entries ≡ r.entries ++ (r.current_number, (id, f)) ∷ [])
        × (d ≡ reply r clear (id, at_number r.current_number))
  unfolding add_entry
  add_entry_appends id f e = ground (
    arith,
    insert_over r.current_number (id, f) r.entries,
    lookup_over r.current_number r.entries,
    add_entry_new r v w id f,
  )

  -- One more number is enough for one more call.
  abbrev Grown : Registry F W → Type 0
  Grown r' = IsFresh r' × (r'.current_number ≤ r.current_number + 1)

  add_entry-Grown :
      (id : Hash) (f : F) → r.current_number + 1 < 2 ^ 64 → Grown (add_entry id f r w).0
  unfolding add_entry
  add_entry-Grown id f h = ground (
    arith,
    AllBelow-mono r.current_number (r.current_number + 1) r.entries,
    insert-AllBelow (r.current_number + 1) r.current_number (id, f) r.entries,
  )

  remove_entry-Grown : (id : Hash) → Grown (remove_entry id r w).0
  unfolding remove_entry
  remove_entry-Grown id = elim (Option-cases (find_entry id r.entries)) [
    | inl e ↦ ground arith
    | inr ((n, e'), e) ↦ ground (arith, erase-AllBelow r.current_number n r.entries)
  ]

  replace_entry-Grown :
      (id new_id : Hash) (f : F) → Grown (settled (replace_entry id new_id f r w)).0
  unfolding replace_entry remove_entry add_entry_at
  replace_entry-Grown id new_id f = elim (Option-cases (find_entry id r.entries)) [
    | inl e ↦ ground arith
    | inr ((n, (i, g)), e) ↦ ground (
      arith,
      find_entry-some 0 id r.entries n i g,
      lookup-lt r.current_number n (i, g) r.entries,
      erase-AllBelow r.current_number n r.entries,
      insert-AllBelow r.current_number n (new_id, f) (erase n r.entries),
    )
  ]

  clear_entries-Grown : Grown (clear_entries r).0
  unfolding clear_entries
  clear_entries-Grown = (tt, omega arith)

module _ {F W : Type 0} where
  step-Grown :
      (c : Call F) (cs : List (Call F)) (r : Registry F W) (w : W)
      → IsValid r
      → IsFresh r
      → Automatic (c ∷ cs)
      → r.current_number + 1 < 2 ^ 64
      → IsFresh (step c (r, w)).0
        × ((step c (r, w)).0.current_number ≤ r.current_number + 1)
        × Automatic cs
  unfolding step
  step-Grown (adds id f) cs r w v fresh a h = ground (arith, add_entry-Grown r v fresh w id f h)
  step-Grown (adds_at id n f) cs r w v fresh a h = absurd a
  step-Grown (removes id) cs r w v fresh a h = ground (arith, remove_entry-Grown r v fresh w id)
  step-Grown (replaces id new_id f) cs r w v fresh a h =
      ground (arith, replace_entry-Grown r v fresh w id new_id f)
  step-Grown clears cs r w v fresh a h = ground (arith, clear_entries-Grown r v fresh w)

  -- Calls that leave the numbering to the registry, fewer than the numbers that are left, keep every
  -- number under the next one, so that `add_entry_appends` holds after each of them.
  pub run_calls-IsFresh :
      (cs : List (Call F)) (r : Registry F W) (w : W)
      → IsValid r
      → IsFresh r
      → Automatic cs
      → r.current_number + length cs < 2 ^ 64
      → IsFresh (run_calls cs (r, w)).0
  unfolding run_calls
  run_calls-IsFresh [] r w v fresh a h = fresh
  run_calls-IsFresh (c ∷ cs) r w v fresh a h =
      let (fresh', grown, a') = step-Grown c cs r w v fresh a (omega arith) in
      run_calls-IsFresh cs (step c (r, w)).0 (step c (r, w)).1 (step-IsValid c r w v) fresh' a'
        (omega arith)
