-- ===== src/Hook/Run.antt =====
-- In which order a hook runs its functions, and how its operations change what a call of it does.
use module_oriented_software.Common.{ℕ, ◌≡◌, refl, none, [], ◌∷◌, ◌++◌, String}
use module_oriented_software.Common.OrderedMap.{OrderedMap, lookup}
use module_oriented_software.Common.Splitting.{under, over, insert-split}
use module_oriented_software.Sha256.{Hash}
use module_oriented_software.Registry.{find_entry}
use module_oriented_software.Registry.Invariant.{IsValid}
use module_oriented_software.Registry.Numbering.{IsFresh, add_entry_appends}
use module_oriented_software.Registry.Behaviour.{add_entry_at_new}
use module_oriented_software.Hook.{Hook, HookFunction, run_entries, run, add, add_at}

module _ {A W : Type 0} where
  run_entries-append :
      (m l : OrderedMap (Hash × HookFunction A W)) (args : A) (w : W)
      → run_entries (m ++ l) args w ≡ run_entries l args (run_entries m args w)
  unfolding run_entries
  run_entries-append [] l args w = refl
  run_entries-append ((n, (id, f)) ∷ m) l args w = run_entries-append m l args (f args w)

  run_entries-insert :
      (n : ℕ) (id : Hash) (f : HookFunction A W) (m l : OrderedMap (Hash × HookFunction A W))
      (args : A) (w : W)
      → run_entries (m ++ (n, (id, f)) ∷ l) args w
        ≡ run_entries l args (f args (run_entries m args w))
  unfolding run_entries
  run_entries-insert n id f m l args w = run_entries-append m ((n, (id, f)) ∷ l) args w

module _ {A W : Type 0} (compute : String → Hash) (h : Hook A W) (v : IsValid h.registry) where
  -- A function that is added under a free number of the caller's runs after those with smaller
  -- numbers and before those with larger ones, on the same arguments.
  run-add_at :
      (name : String) (n : ℕ) (f : HookFunction A W) (args : A) (w u : W)
      → find_entry (compute name) h.registry.entries ≡ none
      → lookup n h.registry.entries ≡ none
      → (run (add_at compute name n f h u).0 args w).1
        ≡ run_entries
            (over n h.registry.entries)
            args
            (f args (run_entries (under n h.registry.entries) args w))
  unfolding run add_at
  run-add_at name n f args w u e free =
      rw
        (
          add_entry_at_new h.registry v u (compute name) n f e free,
          insert-split 0 n (compute name, f) h.registry.entries v.ordered free,
        )
        (run_entries-insert n (compute name) f (under n h.registry.entries)
          (over n h.registry.entries) args w)

  -- A function that is added without a number runs after all the others, where no caller has taken
  -- a number: a call of the hook is then a call of the hook before, followed by the function.
  pub run-add :
      (name : String) (f : HookFunction A W) (args : A) (w u : W)
      → IsFresh h.registry
      → find_entry (compute name) h.registry.entries ≡ none
      → (run (add compute name f h u).0 args w).1 ≡ f args (run h args w).1
  unfolding run add run_entries
  run-add name f args w u fresh e =
      rw (add_entry_appends h.registry v fresh u (compute name) f e).0
        (run_entries-append h.registry.entries _ args w)
