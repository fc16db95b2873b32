-- ===== src/Property/Accesses.antt =====
-- What a client of a property sees over any reads and writes, and what the hooks see.
use module_oriented_software.Common.{
  Bool, true, false, ◌∙◌, ℕ, suc, ◌≡◌, refl, ap, ◌+◌, ◌^◌, ◌<◌, List, [], ◌∷◌, arith,
}
use module_oriented_software.Common.OrderedMap.{OrderedMap}
use module_oriented_software.Sha256.{Hash}
use module_oriented_software.Registry.{clear_entries}
use module_oriented_software.Hook
use module_oriented_software.Hook.{HookFunction, run_entries}
use module_oriented_software.Property
use module_oriented_software.Property.{Property, set_value, get_value, write_through}

-- `changes` is a write through the reference of an earlier read.
pub data Access (A : Type 0) : Type 0 where
  writes changes : A → Access A
  reads clears : Access A

-- The values that the reads among the accesses give to a plain variable.
abbrev pub cell_reads : {A : Type 0} → List (Access A) → A → List A
cell_reads [] x = []
cell_reads (writes y ∷ as') x = cell_reads as' y
cell_reads (changes y ∷ as') x = cell_reads as' y
cell_reads (reads ∷ as') x = x ∷ cell_reads as' x
cell_reads (clears ∷ as') x = cell_reads as' x

-- How many of the accesses read, and how many write.
abbrev pub read_count : {A : Type 0} → List (Access A) → ℕ
read_count [] = 0
read_count (writes y ∷ as') = read_count as'
read_count (changes y ∷ as') = read_count as'
read_count (reads ∷ as') = suc (read_count as')
read_count (clears ∷ as') = read_count as'

abbrev pub write_count : {A : Type 0} → List (Access A) → ℕ
write_count [] = 0
write_count (writes y ∷ as') = suc (write_count as')
write_count (changes y ∷ as') = write_count as'
write_count (reads ∷ as') = write_count as'
write_count (clears ∷ as') = write_count as'

-- The accesses in front of the first `clear`.
abbrev pub before_clear : {A : Type 0} → List (Access A) → List (Access A)
before_clear [] = []
before_clear (clears ∷ as') = []
before_clear (writes y ∷ as') = writes y ∷ before_clear as'
before_clear (changes y ∷ as') = changes y ∷ before_clear as'
before_clear (reads ∷ as') = reads ∷ before_clear as'

-- The values that hooks are to see, of a variable that holds `x` first: each that is written, with `true`, and each that is read.
abbrev pub seen : {A : Type 0} → List (Access A) → A → List (Bool × A)
seen [] x = []
seen (writes y ∷ as') x = (true, y) ∷ seen as' y
seen (changes y ∷ as') x = seen as' y
seen (reads ∷ as') x = (false, x) ∷ seen as' x
seen (clears ∷ as') x = seen as' x

-- The functions of one hook on each value that is read, and those of another on each that is written.
abbrev pub shown :
    {A W : Type 0}
    → OrderedMap (Hash × HookFunction A W)
    → OrderedMap (Hash × HookFunction A W)
    → List (Bool × A)
    → W
    → W
shown r s [] w = w
shown r s ((true, x) ∷ xs) w = shown r s xs (run_entries s x w)
shown r s ((false, x) ∷ xs) w = shown r s xs (run_entries r x w)

module _ {A W : Type 0} where
  unfoldable pub run_accesses : List (Access A) → Property A W → W → Property A W × (List A × W)
  run_accesses [] p w = (p, ([], w))
  run_accesses (writes y ∷ as') p w = let (p', w') = set_value y p w in run_accesses as' p' w'
  run_accesses (changes y ∷ as') p w = run_accesses as' (write_through y p) w
  run_accesses (reads ∷ as') p w =
      let (p', s) = get_value p w in
      let (p'', t) = run_accesses as' p' s.1 in (p'', (s.0 ∷ t.0, t.1))
  run_accesses (clears ∷ as') p w = run_accesses as' (Property.clear p) w

  -- Whatever the functions of its hooks do, a property is a variable to its client: each read gives the value
  -- of the last write before it, by a method or through a reference, or the first value where there is none.
  run_accesses_reads :
      (as' : List (Access A)) (p : Property A W) (w : W)
      → (run_accesses as' p w).1.0 ≡ cell_reads as' p.value
  unfolding run_accesses write_through set_value get_value Property.clear
  run_accesses_reads [] p w = refl
  run_accesses_reads (writes y ∷ as') p w =
      run_accesses_reads as' (set_value y p w).0 (set_value y p w).1
  run_accesses_reads (changes y ∷ as') p w = run_accesses_reads as' (write_through y p) w
  run_accesses_reads (reads ∷ as') p w =
      ap (◌∷◌ p.value) (run_accesses_reads as' (get_value p w).0 (get_value p w).1.1)
  run_accesses_reads (clears ∷ as') p w = run_accesses_reads as' (Property.clear p) w

  -- With no function in its hooks, a property has no effect on the rest of the state.
  run_accesses_unhooked :
      (as' : List (Access A)) (p : Property A W) (w : W)
      → p.on_read_hook.registry.entries ≡ []
      → p.on_write_hook.registry.entries ≡ []
      → (run_accesses as' p w).1.1 ≡ w
  unfolding run_accesses write_through set_value get_value Property.clear Hook.run Hook.clear
      clear_entries run_entries
  run_accesses_unhooked [] p w r s = refl
  run_accesses_unhooked (writes y ∷ as') p w r s =
      run_accesses_unhooked as' (set_value y p w).0 (set_value y p w).1 r s
      ∙ rw (set_value, Hook.run, s, run_entries) refl
  run_accesses_unhooked (changes y ∷ as') p w r s =
      run_accesses_unhooked as' (write_through y p) w r s
  run_accesses_unhooked (reads ∷ as') p w r s =
      run_accesses_unhooked as' (get_value p w).0 (get_value p w).1.1 r s
      ∙ rw (get_value, Hook.run, r, run_entries) refl
  run_accesses_unhooked (clears ∷ as') p w r s =
      run_accesses_unhooked as' (Property.clear p) w refl refl

  -- The rest of the state sees, up to the first `clear`, the functions of the read hook run on each value that is read, and those of
  -- the write hook on each that is written by a method, in the order of the accesses, and nothing afterwards. What is
  -- written through the reference that a read returned is seen by no hook, and is what the next read gives.
  pub run_accesses-shown :
      (as' : List (Access A)) (p : Property A W) (w : W)
      → (run_accesses as' p w).1.1
        ≡ shown p.on_read_hook.registry.entries p.on_write_hook.registry.entries
            (seen (before_clear as') p.value)
            w
  unfolding run_accesses write_through set_value get_value Property.clear Hook.run Hook.clear
      clear_entries
  run_accesses-shown [] p w = refl
  run_accesses-shown (writes y ∷ as') p w =
      run_accesses-shown as' (set_value y p w).0 (set_value y p w).1
  run_accesses-shown (changes y ∷ as') p w = run_accesses-shown as' (write_through y p) w
  run_accesses-shown (reads ∷ as') p w =
      run_accesses-shown as' (get_value p w).0 (get_value p w).1.1
  run_accesses-shown (clears ∷ as') p w = run_accesses_unhooked as' (Property.clear p) w refl refl

  -- The read hook counts the reads and the write hook the writes, those after a `clear` included, while the
  -- counters do not wrap.
  pub run_accesses_counts :
      (as' : List (Access A)) (p : Property A W) (w : W)
      → p.on_read_hook.call_count + read_count as' < 2 ^ 64
      → p.on_write_hook.call_count + write_count as' < 2 ^ 64
      → let p' = (run_accesses as' p w).0 in
        (p'.on_read_hook.call_count ≡ p.on_read_hook.call_count + read_count as')
        × (p'.on_write_hook.call_count ≡ p.on_write_hook.call_count + write_count as')
  unfolding run_accesses write_through set_value get_value Property.clear Hook.run Hook.clear
  run_accesses_counts [] p w h k = (omega arith, omega arith)
  run_accesses_counts (writes y ∷ as') p w h k =
      let (e, f) =
        run_accesses_counts as' (set_value y p w).0 (set_value y p w).1 (omega arith)
          (omega arith) in
      (omega (arith, e), omega (arith, f))
  run_accesses_counts (changes y ∷ as') p w h k = run_accesses_counts as' (write_through y p) w h k
  run_accesses_counts (reads ∷ as') p w h k =
      let (e, f) =
        run_accesses_counts as' (get_value p w).0 (get_value p w).1.1 (omega arith) (omega arith) in
      (omega (arith, e), omega (arith, f))
  run_accesses_counts (clears ∷ as') p w h k = run_accesses_counts as' (Property.clear p) w h k
