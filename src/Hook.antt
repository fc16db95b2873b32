-- ===== src/Hook.antt =====
-- env/inc/hook.hpp: `hook_impl_t<void(Args...)>`, a list of functions that one call runs in turn. `A` is
-- the tuple of the arguments, and a function is what `to_std_function` makes of a callable: it takes the
-- arguments and acts on the state `W`. `compute` is `sha256::compute`, `types` the hashes of the names of
-- the types `Args...`. Functions and handlers do not call the hook that runs them.
pub mod Run
use module_oriented_software.Common.{ℕ, Bool, true, false, List, [], ◌∷◌, String, u64_suc}
use module_oriented_software.Common.OrderedMap.{OrderedMap}
use module_oriented_software.EnvUtils.{
  EnvStatus, EnvData, Outcome, returned, out_of_range, ErrorHandler,
}
use module_oriented_software.Sha256.{Hash, types_hash}
use module_oriented_software.Registry
use module_oriented_software.Registry.{
  Registry, Slot, add_entry, add_entry_at, remove_entry, replace_entry, clear_entries,
}

abbrev pub HookFunction : Type 0 → Type 0 → Type 0
HookFunction A W = A → W → W

pub record Hook (A W : Type 0) : Type 0 where
  pub registry : Registry (HookFunction A W) W
  pub call_count : ℕ
  pub hash : Hash

module _ {A W : Type 0} where
  -- The effects of the functions, in the order of the map.
  unfoldable pub run_entries : OrderedMap (Hash × HookFunction A W) → A → W → W
  run_entries [] args w = w
  run_entries ((n, (id, f)) ∷ m) args w = run_entries m args (f args w)

  unfoldable pub run : Hook A W → A → W → Hook A W × W
  unfolding run_entries
  run h args w =
      (record h { call_count = u64_suc h.call_count }, run_entries h.registry.entries args w)

  unfoldable pub clear : Hook A W → Hook A W × EnvStatus
  unfolding clear_entries
  clear h = let (r, status) = clear_entries h.registry in (record h { registry = r }, status)

  unfoldable pub set_error_handler : ErrorHandler W → Hook A W → Hook A W × EnvStatus
  unfolding Registry.set_error_handler
  set_error_handler f h =
      let (r, status) = Registry.set_error_handler f h.registry in
      (record h { registry = r }, status)

  unfoldable pub is_empty : Hook A W → Bool
  is_empty h = elim h.registry.entries [ [] ↦ true | e ∷ m ↦ false ]

module _ {A W : Type 0} (compute : String → Hash) where
  unfoldable pub named : String → List Hash → Hook A W
  unfolding types_hash
  named name types = record {
    registry = record {
      id = compute name;
      error_handler = λ id code at w. w;
      entries = [];
      current_number = 0;
    };
    call_count = 0;
    hash = types_hash types;
  }

  unfoldable pub unnamed : List Hash → Hook A W
  unfolding named
  unnamed types = named "unnamed_hook" types

  unfoldable pub add :
      String → HookFunction A W → Hook A W → W → Hook A W × W × EnvData (Hash × Slot)
  unfolding add_entry
  add name f h w =
      let (r, w', d) = add_entry (compute name) f h.registry w in (record h { registry = r }, w', d)

  unfoldable pub add_at :
      String → ℕ → HookFunction A W → Hook A W → W → Hook A W × W × EnvData (Hash × Slot)
  unfolding add_entry_at
  add_at name number f h w =
      let (r, w', d) = add_entry_at (compute name) number f h.registry w in
      (record h { registry = r }, w', d)

  unfoldable pub remove : String → Hook A W → W → Hook A W × W × EnvData (Hash × ℕ)
  unfolding remove_entry
  remove name h w =
      let (r, w', d) = remove_entry (compute name) h.registry w in
      (record h { registry = r }, w', d)

  unfoldable pub replace :
      String
      → String
      → HookFunction A W
      → Hook A W
      → W
      → Outcome (Hook A W × W × EnvData (Hash × Slot)) (Hook A W × W)
  unfolding replace_entry
  replace name new_name f h w =
      elim (replace_entry (compute name) (compute new_name) f h.registry w) [
        | returned (r, w', d) ↦ returned (record h { registry = r }, w', d)
        | out_of_range (r, w') ↦ out_of_range (record h { registry = r }, w')
      ]
