-- ===== src/Registry.antt =====
-- What `hook_impl_t` (env/inc/hook.hpp) and both `sequence_t` (env/inc/sequence.hpp) keep: functions
-- by number in a `std::map`, each under the hash of its name. The three classes write this code
-- out; Hook, Sequence and VoidSequence apply it. `F` is the type of the functions, and `W` the state
-- of all that they and the error handler act upon.
pub mod Ids
pub mod Invariant
pub mod Behaviour
pub mod Replace
pub mod Numbering
use module_oriented_software.Common.{
  ℕ, ◌==◌, Bool, true, false, not, ◌&&◌, Option, none, some, [], if◌then◌else◌, u64_suc,
}
use module_oriented_software.Common.OrderedMap.{OrderedMap, lookup, insert, erase, find_if}
use module_oriented_software.EnvUtils.{
  RegistryErrno, clear, missing, exists, registry_code, EnvStatus, env_status, qualify,
  qualifier_at, EnvData, Outcome, returned, out_of_range, ErrorHandler, runtime,
}
use module_oriented_software.Sha256.{Hash}

-- The `std::function *` of a result: null, that of the entry with a number, or the address that
-- `&find_(id)->second.second` forms where the search ended at `end()`, which is undefined behaviour.
pub data Slot : Type 0 where
  null_pointer : Slot
  at_number : ℕ → Slot
  past_end : Slot

pub record Registry (F W : Type 0) : Type 0 where
  pub id : Hash
  pub error_handler : ErrorHandler W
  pub entries : OrderedMap (Hash × F)
  pub current_number : ℕ

module _ {F : Type 0} where
  unfoldable pub find_entry : Hash → OrderedMap (Hash × F) → Option (ℕ × (Hash × F))
  unfolding find_if
  find_entry id m = find_if (λ e. e.0 == id) m

  unfoldable pub entry_exists : Hash → OrderedMap (Hash × F) → Bool
  unfolding find_entry
  entry_exists id m = elim (find_entry id m) [ none ↦ false | some e ↦ true ]

  unfoldable pub slot_of : Hash → OrderedMap (Hash × F) → Slot
  unfolding find_entry
  slot_of id m = elim (find_entry id m) [ none ↦ past_end | some (n, e) ↦ at_number n ]

  -- `functions_.find(number) == functions_.end()`
  unfoldable pub number_free : ℕ → OrderedMap (Hash × F) → Bool
  unfolding lookup
  number_free n m = elim (lookup n m) [ none ↦ true | some e ↦ false ]

module _ {F W : Type 0} where
  abbrev pub report : Registry F W → RegistryErrno → W → W
  report r e w = r.error_handler r.id (registry_code e) runtime w

  abbrev pub reply : {A : Type 0} → Registry F W → RegistryErrno → A → EnvData A
  reply r e v = record { status = qualify (env_status r.id) r.id (registry_code e); value = v }

  -- `add_(id, function)`: under the next number. `insert` leaves an entry that has the number.
  unfoldable pub add_entry : Hash → F → Registry F W → W → Registry F W × W × EnvData (Hash × Slot)
  unfolding entry_exists slot_of insert
  add_entry id f r w =
      if not (entry_exists id r.entries)
      then (added, w, reply r clear (id, slot_of id added.entries))
      else (r, report r exists w, reply r exists (id, slot_of id r.entries))
    where
      added : Registry F W
      added = record r {
        entries = insert r.current_number (id, f) r.entries;
        current_number = u64_suc r.current_number;
      }

  -- `add_(id, number, function)`: under a number of the caller's.
  unfoldable pub add_entry_at :
      Hash → ℕ → F → Registry F W → W → Registry F W × W × EnvData (Hash × Slot)
  unfolding entry_exists number_free slot_of insert
  add_entry_at id number f r w =
      if not (entry_exists id r.entries) && number_free number r.entries
      then (added, w, reply r clear (id, slot_of id added.entries))
      else (r, report r exists w, reply r exists (id, slot_of id r.entries))
    where
      added : Registry F W
      added = record r { entries = insert number (id, f) r.entries }

  -- `remove_(id)`: the number of the entry comes back, or 0 where there is none.
  unfoldable pub remove_entry : Hash → Registry F W → W → Registry F W × W × EnvData (Hash × ℕ)
  unfolding find_entry erase
  remove_entry id r w = elim (find_entry id r.entries) [
    | none ↦ (r, report r missing w, reply r missing (id, 0))
    | some (number, e) ↦
        (record r { entries = erase number r.entries }, w, reply r clear (id, number))
  ]

  -- `replace(name, new_name, function)`, given the hashes of both names. The `at` would throw where
  -- the status of `remove` has no qualifier of this object.
  unfoldable pub replace_entry :
      Hash
      → Hash
      → F
      → Registry F W
      → W
      → Outcome (Registry F W × W × EnvData (Hash × Slot)) (Registry F W × W)
  unfolding remove_entry add_entry_at
  replace_entry id new_id f r w =
      let (r', w', removed) = remove_entry id r w in
      elim (qualifier_at removed.status r.id) [
        | none ↦ out_of_range (r', w')
        | some code ↦ returned (
            if not (code == registry_code clear)
            then (
              r',
              r'.error_handler r.id code runtime w',
              record {
                status = qualify (env_status r.id) r.id code;
                value = (removed.value.0, null_pointer);
              },
            )
            else add_entry_at new_id removed.value.1 f r' w')
      ]

  -- `clear_()`: `call_count_` stays.
  unfoldable pub clear_entries : Registry F W → Registry F W × EnvStatus
  clear_entries r = (
    record r { current_number = 0; entries = [] },
    qualify (env_status r.id) r.id (registry_code clear),
  )

  -- `set_error_handler(function)`
  unfoldable pub set_error_handler : ErrorHandler W → Registry F W → Registry F W × EnvStatus
  set_error_handler h r =
      (record r { error_handler = h }, qualify (env_status r.id) r.id (registry_code clear))
