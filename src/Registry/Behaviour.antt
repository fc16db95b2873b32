-- ===== src/Registry/Behaviour.antt =====
-- What each operation of a registry does, on every branch.
use module_oriented_software.Common.{ℕ, ◌≡◌, refl, ◌==◌, none, some, arith, if◌then◌else◌}
use module_oriented_software.Common.OrderedMap.{
  lookup, insert, erase, insert_present, erase-insert, insert-erase, lookup-erase, lookup-erase_if,
}
use module_oriented_software.EnvUtils.{clear, missing, exists}
use module_oriented_software.Sha256.{Hash}
use module_oriented_software.Registry.{
  Registry, at_number, past_end, find_entry, report, reply, add_entry, add_entry_at, remove_entry,
}
use module_oriented_software.Registry.Ids.{
  find-Lacks, Lacks-find, find_entry-some, find-insert_self, erase_found-Lacks,
}
use module_oriented_software.Registry.Invariant.{IsValid}

module _ {F W : Type 0} (r : Registry F W) (v : IsValid r) (w : W) where
  -- A name that is there is refused: the registry stays, the handler is told `exists`, and the
  -- pointer is to the function that has the name.
  pub add_entry_known :
      (id : Hash) (f g : F) (n : ℕ)
      → find_entry id r.entries ≡ some (n, (id, g))
      → add_entry id f r w ≡ (r, report r exists w, reply r exists (id, at_number n))
  unfolding add_entry
  add_entry_known id f g n e = ground arith

  -- A new name whose number is free is found under that number, nothing else changes, and the
  -- pointer is to it.
  pub add_entry_new :
      (id : Hash) (f : F)
      → find_entry id r.entries ≡ none
      → lookup r.current_number r.entries ≡ none
      → let (r', w', d) = add_entry id f r w in
        (find_entry id r'.entries ≡ some (r.current_number, (id, f)))
        × (erase r.current_number r'.entries ≡ r.entries)
        × (w' ≡ w)
        × (d ≡ reply r clear (id, at_number r.current_number))
  unfolding add_entry
  add_entry_new id f e free = ground (
    arith,
    Lacks-find id r.entries,
    find-insert_self id r.current_number f r.entries,
    erase-insert r.current_number (id, f) r.entries,
  )

  -- Where a caller took the next number before, the function is dropped: success is reported, the
  -- entries stay as they were, and the pointer is formed from `end()`.
  pub add_entry_collides :
      (id : Hash) (f : F) (other : Hash × F)
      → find_entry id r.entries ≡ none
      → lookup r.current_number r.entries ≡ some other
      → let (r', w', d) = add_entry id f r w in
        (r'.entries ≡ r.entries) × (w' ≡ w) × (d ≡ reply r clear (id, past_end))
  unfolding add_entry
  add_entry_collides id f other e taken =
      ground (arith, insert_present 0 r.current_number (id, f) other r.entries)

  pub add_entry_at_new :
      (id : Hash) (n : ℕ) (f : F)
      → find_entry id r.entries ≡ none
      → lookup n r.entries ≡ none
      → add_entry_at id n f r w
        ≡ (record r { entries = insert n (id, f) r.entries }, w, reply r clear (id, at_number n))
  unfolding add_entry_at
  add_entry_at_new id n f e free =
      ground (arith, Lacks-find id r.entries, find-insert_self id n f r.entries)

  -- A new name for a number that is taken is refused, and the pointer is formed from `end()`.
  add_entry_at_taken :
      (id : Hash) (n : ℕ) (f : F) (other : Hash × F)
      → find_entry id r.entries ≡ none
      → lookup n r.entries ≡ some other
      → add_entry_at id n f r w ≡ (r, report r exists w, reply r exists (id, past_end))
  unfolding add_entry_at
  add_entry_at_taken id n f other e taken = ground arith

  pub add_entry_at_known :
      (id : Hash) (n m : ℕ) (f g : F)
      → find_entry id r.entries ≡ some (m, (id, g))
      → add_entry_at id n f r w ≡ (r, report r exists w, reply r exists (id, at_number m))
  unfolding add_entry_at
  add_entry_at_known id n m f g e = ground arith

  pub remove_entry_missing :
      (id : Hash)
      → find_entry id r.entries ≡ none
      → remove_entry id r w ≡ (r, report r missing w, reply r missing (id, 0))
  unfolding remove_entry
  remove_entry_missing id e = ground arith

  pub remove_entry_found :
      (id : Hash) (n : ℕ) (e : Hash × F)
      → find_entry id r.entries ≡ some (n, e)
      → remove_entry id r w ≡ (record r { entries = erase n r.entries }, w, reply r clear (id, n))
  unfolding remove_entry
  remove_entry_found id n e h = ground arith

  -- Putting a function back under the number that it had restores the registry.
  add_entry_at-erase :
      (id : Hash) (n : ℕ) (f : F)
      → find_entry id r.entries ≡ some (n, (id, f))
      → (add_entry_at id n f (record r { entries = erase n r.entries }) w).0 ≡ r
  unfolding add_entry_at
  add_entry_at-erase id n f e = ground (
    arith,
    find_entry-some 0 id r.entries n id f,
    find-Lacks id (erase n r.entries),
    erase_found-Lacks 0 id r.entries n (id, f),
    lookup-erase 0 n r.entries,
    insert-erase 0 n (id, f) r.entries,
  )

  -- Removing a name gives its number, empties that number, keeps the function of every other
  -- number, and leaves no entry of the name; put back under the number, the function restores all.
  remove_entry_present :
      (id : Hash) (n : ℕ) (f : F)
      → find_entry id r.entries ≡ some (n, (id, f))
      → let (r', w', d) = remove_entry id r w in
        (d ≡ reply r clear (id, n))
        × (w' ≡ w)
        × (find_entry id r'.entries ≡ none)
        × ((j : ℕ) → lookup j r'.entries ≡ (if n == j then none else lookup j r.entries))
        × ((add_entry_at id n f r' w').0 ≡ r)
  remove_entry_present id n f e = rw (remove_entry_found id n (id, f) e) (
    refl,
    refl,
    find-Lacks id _ (erase_found-Lacks 0 id r.entries n (id, f) v.ordered v.distinct e),
    λ j. lookup-erase_if n j r.entries v.ordered,
    add_entry_at-erase id n f e,
  )
