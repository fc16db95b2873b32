-- ===== src/Sequence.antt =====
-- env/inc/sequence.hpp: `sequence_t<RetType(Args...), Class>`, a function whose result goes through a chain
-- of parts. `A` is the tuple of the arguments, `R` the result, and `W` the state of all else. A part takes
-- the value by reference and returns a reference to the value that the next part is given: a function
-- from `R` to `R`. `compute` is `sha256::compute`, `types` the hashes of the names of the types.
pub mod Run
use module_oriented_software.Common.{ℕ, List, [], ◌∷◌, String, u64_suc}
use module_oriented_software.Common.OrderedMap.{OrderedMap}
use module_oriented_software.EnvUtils.{
  EnvStatus, EnvData, Outcome, returned, out_of_range, ErrorHandler,
}
use module_oriented_software.Sha256.{Hash, types_hash}
use module_oriented_software.Registry
use module_oriented_software.Registry.{
  Registry, Slot, add_entry, add_entry_at, remove_entry, replace_entry, clear_entries,
}

abbrev pub Part : Type 0 → Type 0 → Type 0
Part R W = R → W → R × W

abbrev pub Base : Type 0 → Type 0 → Type 0 → Type 0
Base A R W = A → W → R × W

pub record Sequence (A R W : Type 0) : Type 0 where
  pub registry : Registry (Part R W) W
  pub base : Base A R W
  pub call_count : ℕ
  pub hash : Hash

module _ {R W : Type 0} where
  -- The loop of `run_`: `temp = it->second.second(temp)`.
  unfoldable pub run_parts : OrderedMap (Hash × Part R W) → R × W → R × W
  run_parts [] s = s
  run_parts ((n, (id, f)) ∷ m) s = run_parts m (f s.0 s.1)

module _ {A R W : Type 0} where
  unfoldable pub run : Sequence A R W → A → W → Sequence A R W × (R × W)
  unfolding run_parts
  run q args w =
      (record q { call_count = u64_suc q.call_count }, run_parts q.registry.entries (q.base args w))

  unfoldable pub clear : Sequence A R W → Sequence A R W × EnvStatus
  unfolding clear_entries
  clear q = let (r, status) = clear_entries q.registry in (record q { registry = r }, status)

  unfoldable pub set_error_handler : ErrorHandler W → Sequence A R W → Sequence A R W × EnvStatus
  unfolding Registry.set_error_handler
  set_error_handler f q =
      let (r, status) = Registry.set_error_handler f q.registry in
      (record q { registry = r }, status)

  unfoldable pub add_part :
      Hash → Part R W → Sequence A R W → W → Sequence A R W × W × EnvData (Hash × Slot)
  unfolding add_entry
  add_part id f q w =
      let (r, w', d) = add_entry id f q.registry w in (record q { registry = r }, w', d)

  unfoldable pub add_part_at :
      Hash → ℕ → Part R W → Sequence A R W → W → Sequence A R W × W × EnvData (Hash × Slot)
  unfolding add_entry_at
  add_part_at id number f q w =
      let (r, w', d) = add_entry_at id number f q.registry w in (record q { registry = r }, w', d)

  unfoldable pub remove_part : Hash → Sequence A R W → W → Sequence A R W × W × EnvData (Hash × ℕ)
  unfolding remove_entry
  remove_part id q w =
      let (r, w', d) = remove_entry id q.registry w in (record q { registry = r }, w', d)

module _ {A R W : Type 0} (compute : String → Hash) where
  unfoldable pub named : String → List Hash → Base A R W → Sequence A R W
  unfolding types_hash
  named name types f = record {
    registry = record {
      id = compute name;
      error_handler = λ id code at w. w;
      entries = [];
      current_number = 0;
    };
    base = f;
    call_count = 0;
    hash = types_hash types;
  }

  unfoldable pub unnamed : List Hash → Base A R W → Sequence A R W
  unfolding named
  unnamed types f = named "unnamed_sequence" types f

  unfoldable pub add :
      String → Part R W → Sequence A R W → W → Sequence A R W × W × EnvData (Hash × Slot)
  unfolding add_part
  add name f q w = add_part (compute name) f q w

  unfoldable pub add_at :
      String → ℕ → Part R W → Sequence A R W → W → Sequence A R W × W × EnvData (Hash × Slot)
  unfolding add_part_at
  add_at name number f q w = add_part_at (compute name) number f q w

  unfoldable pub remove : String → Sequence A R W → W → Sequence A R W × W × EnvData (Hash × ℕ)
  unfolding remove_part
  remove name q w = remove_part (compute name) q w

  unfoldable pub replace :
      String
      → String
      → Part R W
      → Sequence A R W
      → W
      → Outcome (Sequence A R W × W × EnvData (Hash × Slot)) (Sequence A R W × W)
  unfolding replace_entry
  replace name new_name f q w =
      elim (replace_entry (compute name) (compute new_name) f q.registry w) [
        | returned (r, w', d) ↦ returned (record q { registry = r }, w', d)
        | out_of_range (r, w') ↦ out_of_range (record q { registry = r }, w')
      ]
