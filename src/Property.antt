-- ===== src/Property.antt =====
-- env/inc/property.hpp: `property_t<PropertyType>`, a value with a hook that runs when it is read and one that
-- runs when it is written. `A` is the type of the value, `W` the state of all else. The methods are `const`
-- and change `mutable` members. The hooks' functions do not use the property whose hook runs them.
pub mod Accesses
use module_oriented_software.Common.{Bool, List, String}
use module_oriented_software.Sha256.{Hash}
use module_oriented_software.Hook
use module_oriented_software.Hook.{Hook}

pub record Property (A W : Type 0) : Type 0 where
  pub on_read_hook : Hook A W
  pub on_write_hook : Hook A W
  pub value : A

module _ {A W : Type 0} where
  unfoldable pub property : (String → Hash) → List Hash → A → Property A W
  unfolding Hook.unnamed
  property compute types value = record {
    on_read_hook = Hook.unnamed compute types;
    on_write_hook = Hook.unnamed compute types;
    value = value;
  }

  -- `set_value_`, and `operator=` of a value: the hook is run on the new value.
  unfoldable pub set_value : A → Property A W → W → Property A W × W
  unfolding Hook.run
  set_value value p w =
      let (hook, w') = Hook.run p.on_write_hook value w in
      (record p { value = value; on_write_hook = hook }, w')

  -- `get_value_`, `operator PropertyType` and `operator()`: the value, or a reference to it.
  unfoldable pub get_value : Property A W → W → Property A W × (A × W)
  unfolding Hook.run
  get_value p w =
      let (hook, w') = Hook.run p.on_read_hook p.value w in
      (record p { on_read_hook = hook }, (p.value, w'))

  -- What a program writes through the reference that `get_value_` returns, which is not constant: no hook is run.
  unfoldable pub write_through : A → Property A W → Property A W
  write_through value p = record p { value = value }

  -- Both hooks are cleared; the value stays.
  unfoldable pub clear : Property A W → Property A W
  unfolding Hook.clear
  clear p = record p {
    on_write_hook = (Hook.clear p.on_write_hook).0;
    on_read_hook = (Hook.clear p.on_read_hook).0;
  }

  -- `operator==` with a value: the equality of the type is given, and no hook is run.
  unfoldable pub equals : (A → A → Bool) → A → Property A W → Bool
  equals eq value p = eq p.value value
