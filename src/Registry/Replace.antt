-- ===== src/Registry/Replace.antt =====
-- What `replace` of a registry does: it removes one name and adds another under the same number.
use module_oriented_software.Common.{
  ℕ, ◌≡◌, refl, ◌≢◌, ◌==◌, none, some, arith, if◌then◌else◌, ◌∙◌, ap,
}
use module_oriented_software.Common.OrderedMap.{
  lookup, insert, erase, lookup-erase, erase-OrderedFrom, lookup-insert, lookup-erase_if,
}
use module_oriented_software.EnvUtils.{returned, clear, missing, exists}
use module_oriented_software.Sha256.{Hash}
use module_oriented_software.Registry.{
  Registry, null_pointer, at_number, find_entry, report, reply, add_entry_at, replace_entry,
}
use module_oriented_software.Registry.Ids.{find_entry-some, find-erase_ne, erase-IdsDistinct}
use module_oriented_software.Registry.Invariant.{IsValid}
use module_oriented_software.Registry.Behaviour.{
  add_entry_at_new, add_entry_at_known, remove_entry_missing, remove_entry_found,
}

module _ {F W : Type 0} (r : Registry F W) (v : IsValid r) (w : W) where
  -- A replacement of a name that is not there changes nothing, and tells the handler twice.
  replace_entry_missing :
      (id new_id : Hash) (f : F)
      → find_entry id r.entries ≡ none
      → replace_entry id new_id f r w
        ≡ returned (r, report r missing (report r missing w), reply r missing (id, null_pointer))
  unfolding replace_entry
  replace_entry_missing id new_id f e =
      rw (remove_entry_missing r v w id e, replace_entry) (ground arith)

  replace_entry_found :
      (id new_id : Hash) (n : ℕ) (f : F) (e : Hash × F)
      → find_entry id r.entries ≡ some (n, e)
      → replace_entry id new_id f r w
        ≡ returned (add_entry_at new_id n f (record r { entries = erase n r.entries }) w)
  unfolding replace_entry
  replace_entry_found id new_id n f e h =
      rw (remove_entry_found r v w id n e h, replace_entry) (ground arith)

  without-IsValid : (n : ℕ) → IsValid (record r { entries = erase n r.entries })
  without-IsValid n = record {
    ordered = erase-OrderedFrom 0 n r.entries v.ordered;
    distinct = erase-IdsDistinct n r.entries v.distinct;
  }

  -- The registry after a replacement that succeeds.
  abbrev pub replaced : Hash → ℕ → F → Registry F W
  replaced new_id n f = record r { entries = insert n (new_id, f) (erase n r.entries) }

  pub replace_entry_in_place :
      (id new_id : Hash) (n : ℕ) (f g : F)
      → find_entry id r.entries ≡ some (n, (id, g))
      → find_entry new_id (erase n r.entries) ≡ none
      → replace_entry id new_id f r w
        ≡ returned (replaced new_id n f, w, reply r clear (new_id, at_number n))
  replace_entry_in_place id new_id n f g e free =
      replace_entry_found id new_id n f (id, g) e
      ∙ ap returned (
          add_entry_at_new (record r { entries = erase n r.entries }) (without-IsValid n) w new_id n
            f free (lookup-erase 0 n r.entries v.ordered))

  -- Replacing by a name that no other function has puts the new function under the number of the
  -- old one: every other number keeps its function, and so does the next number.
  replace_entry_present :
      (id new_id : Hash) (n : ℕ) (f g : F)
      → find_entry id r.entries ≡ some (n, (id, g))
      → find_entry new_id (erase n r.entries) ≡ none
      → (r' : Registry F W) × (replace_entry id new_id f r w
          ≡ returned (r', w, reply r clear (new_id, at_number n)))
        × ((j : ℕ)
            → lookup j r'.entries ≡ (if n == j then some (new_id, f) else lookup j r.entries))
        × (r'.current_number ≡ r.current_number)
  replace_entry_present id new_id n f g e free = (
    replaced new_id n f,
    replace_entry_in_place id new_id n f g e free,
    λ j. ground (
      arith,
      lookup-insert 0 n j (new_id, f) (erase n r.entries),
      erase-OrderedFrom 0 n r.entries v.ordered,
      lookup-erase 0 n r.entries v.ordered,
      lookup-erase_if n j r.entries v.ordered,
    ),
    refl,
  )

  -- Replacing by a name that another function has loses the function: its entry is gone, the new
  -- one is not registered, and `exists` is reported.
  replace_entry_clashes :
      (id new_id : Hash) (n m : ℕ) (f g h : F)
      → find_entry id r.entries ≡ some (n, (id, g))
      → find_entry new_id r.entries ≡ some (m, (new_id, h))
      → id ≢ new_id
      → replace_entry id new_id f r w
        ≡ returned (
          record r { entries = erase n r.entries },
          report r exists w,
          reply r exists (new_id, at_number m),
        )
  replace_entry_clashes id new_id n m f g h e known ne =
      replace_entry_found id new_id n f (id, g) e
      ∙ ap returned (
          add_entry_at_known (record r { entries = erase n r.entries }) (without-IsValid n) w new_id
            n m f h
            (find-erase_ne 0 new_id n id g r.entries v.ordered
                (find_entry-some 0 id r.entries n id g v.ordered e).1 ne
              ∙ known))
