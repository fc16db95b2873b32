-- ===== src/VoidSequence.antt =====
-- env/inc/sequence.hpp: `sequence_t<void(Args...), Class>`, an action that is followed by a chain of parts
-- with no arguments. `A` is the tuple of the arguments of the first, `W` the state that all act upon.
pub mod Run
use module_oriented_software.Common.{ℕ, List, [], ◌∷◌, String, u64_suc}
use module_oriented_software.Common.OrderedMap.{OrderedMap}
use module_oriented_software.EnvUtils.{
  EnvStatus, EnvData, Outcome, returned, out_of_range, ErrorHandler,
}
use module_oriented_software.Sha256.{Hash, types_hash}
use module_oriented_software.Registry
use module_oriented_software.Registry.{
  Registry, Slot, add_entry, add_entry_at, remove_entry, replace_entry, clear_entries,
}

abbrev pub Part : Type 0 → Type 0
Part W = W → W

abbrev pub Base : Type 0 → Type 0 → Type 0
Base A W = A → W → W

pub record VoidSequence (A W : Type 0) : Type 0 where
  pub registry : Registry (Part W) W
  pub base : Base A W
  pub call_count : ℕ
  pub hash : Hash

module _ {W : Type 0} where
  -- The loop of `run_`: `it->second.second()`.
  unfoldable pub run_parts : OrderedMap (Hash × Part W) → W → W
  run_parts [] w = w
  run_parts ((n, (id, f)) ∷ m) w = run_parts m (f w)

module _ {A W : Type 0} where
  unfoldable pub run : VoidSequence A W → A → W → VoidSequence A W × W
  unfolding run_parts
  run q args w =
      (record q { call_count = u64_suc q.call_count }, run_parts q.registry.entries (q.base args w))

  unfoldable pub clear : VoidSequence A W → VoidSequence A W × EnvStatus
  unfolding clear_entries
  clear q = let (r, status) = clear_entries q.registry in (record q { registry = r }, status)

  unfoldable pub set_error_handler :
      ErrorHandler W → VoidSequence A W → VoidSequence A W × EnvStatus
  unfolding Registry.set_error_handler
  set_error_handler f q =
      let (r, status) = Registry.set_error_handler f q.registry in
      (record q { registry = r }, status)

  unfoldable pub add_part :
      Hash → Part W → VoidSequence A W → W → VoidSequence A W × W × EnvData (Hash × Slot)
  unfolding add_entry
  add_part id f q w =
      let (r, w', d) = add_entry id f q.registry w in (record q { registry = r }, w', d)

  unfoldable pub add_part_at :
      Hash → ℕ → Part W → VoidSequence A W → W → VoidSequence A W × W × EnvData (Hash × Slot)
  unfolding add_entry_at
  add_part_at id number f q w =
      let (r, w', d) = add_entry_at id number f q.registry w in (record q { registry = r }, w', d)

  unfoldable pub remove_part :
      Hash → VoidSequence A W → W → VoidSequence A W × W × EnvData (Hash × ℕ)
  unfolding remove_entry
  remove_part id q w =
      let (r, w', d) = remove_entry id q.registry w in (record q { registry = r }, w', d)

module _ {A W : Type 0} (compute : String → Hash) where
  unfoldable pub named : String → List Hash → Base A W → VoidSequence A W
  unfolding types_hash
  named name types f = record {
    registry = record {
      id = compute name;
      error_handler = λ id code at w. w;
      entries = [];
      current_number = 0;
    };
    base = f;
    call_count = 0;
    hash = types_hash types;
  }

  unfoldable pub unnamed : List Hash → Base A W → VoidSequence A W
  unfolding named
  unnamed types f = named "unnamed_sequence" types f

  unfoldable pub add :
      String → Part W → VoidSequence A W → W → VoidSequence A W × W × EnvData (Hash × Slot)
  unfolding add_part
  add name f q w = add_part (compute name) f q w

  unfoldable pub add_at :
      String → ℕ → Part W → VoidSequence A W → W → VoidSequence A W × W × EnvData (Hash × Slot)
  unfolding add_part_at
  add_at name number f q w = add_part_at (compute name) number f q w

  unfoldable pub remove : String → VoidSequence A W → W → VoidSequence A W × W × EnvData (Hash × ℕ)
  unfolding remove_part
  remove name q w = remove_part (compute name) q w

  unfoldable pub replace :
      String
      → String
      → Part W
      → VoidSequence A W
      → W
      → Outcome (VoidSequence A W × W × EnvData (Hash × Slot)) (VoidSequence A W × W)
  unfolding replace_entry
  replace name new_name f q w =
      elim (replace_entry (compute name) (compute new_name) f q.registry w) [
        | returned (r, w', d) ↦ returned (record q { registry = r }, w', d)
        | out_of_range (r, w') ↦ out_of_range (record q { registry = r }, w')
      ]
