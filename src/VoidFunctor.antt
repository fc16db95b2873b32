-- ===== src/VoidFunctor.antt =====
-- env/inc/functor.hpp: `functor_t<void(Args...), Class>`, an action with its sequence between two hooks. `A` is
-- the tuple of the arguments, `W` the state that all act upon.
pub mod Calls
use module_oriented_software.Common.{ℕ, List, [], ◌∷◌, String, u64_suc}
use module_oriented_software.EnvUtils.{
  RegistryErrno, EnvStatus, env_status, qualify, functor_clear, ErrorHandler,
}
use module_oriented_software.Sha256.{Hash, types_hash}
use module_oriented_software.Functor.{TypeNames}
use module_oriented_software.Hook
use module_oriented_software.Hook.{Hook}
use module_oriented_software.VoidSequence
use module_oriented_software.VoidSequence.{VoidSequence, Base}

pub record VoidFunctor (A W : Type 0) : Type 0 where
  pub id : Hash
  pub error_handler : ErrorHandler W
  pub base : Base A W
  pub sequence : VoidSequence A W
  pub hooks_before : Hook A W
  pub hooks_after : Hook A W
  pub call_count : ℕ
  pub hash : Hash

module _ {A W : Type 0} where
  -- `operator()`
  unfoldable pub invoke : VoidFunctor A W → A → W → VoidFunctor A W × W
  invoke g args w =
      let (before, w₁) = Hook.run g.hooks_before args w in
      let (sequence, w₂) = VoidSequence.run g.sequence args w₁ in
      let (after, w₃) = Hook.run g.hooks_after args w₂ in
      (
        record g {
          hooks_before = before;
          sequence = sequence;
          hooks_after = after;
          call_count = u64_suc g.call_count;
        },
        w₃,
      )

  -- `assign`: all that the other holds.
  unfoldable pub assign : VoidFunctor A W → VoidFunctor A W → VoidFunctor A W
  assign g other = other

  unfoldable pub set_error_handler : ErrorHandler W → VoidFunctor A W → VoidFunctor A W × EnvStatus
  set_error_handler f g =
      (record g { error_handler = f }, qualify (env_status g.id) g.id functor_clear)

  unfoldable pub named : (String → Hash) → String → TypeNames → Base A W → VoidFunctor A W
  unfolding types_hash Hook.unnamed VoidSequence.unnamed
  named compute name types f = record {
    id = compute name;
    error_handler = λ id code at w. w;
    base = f;
    sequence = VoidSequence.unnamed compute types.of_sequence f;
    hooks_before = Hook.unnamed compute types.of_hooks;
    hooks_after = Hook.unnamed compute types.of_hooks;
    call_count = 0;
    hash = types_hash types.of_functor;
  }

  unfoldable pub unnamed : (String → Hash) → TypeNames → Base A W → VoidFunctor A W
  unfolding named
  unnamed compute types f = named compute "unnamed_functor" types f
