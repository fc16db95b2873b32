-- ===== src/Functor.antt =====
-- env/inc/functor.hpp: `functor_t<RetType(Args...), Class>`, a sequence between two hooks that keeps its last
-- result. `A` is the tuple of the arguments, `R` the result, `W` the state of all else. The calls of a
-- functor do not call it again.
pub mod Calls
pub mod Plain
use module_oriented_software.Common.{ℕ, List, [], ◌∷◌, String, u64_suc}
use module_oriented_software.EnvUtils.{
  RegistryErrno, EnvStatus, env_status, qualify, functor_clear, ErrorHandler,
}
use module_oriented_software.Sha256.{Hash, types_hash}
use module_oriented_software.Hook
use module_oriented_software.Hook.{Hook}
use module_oriented_software.Sequence
use module_oriented_software.Sequence.{Sequence, Base}

pub record Functor (A R W : Type 0) : Type 0 where
  pub id : Hash
  pub error_handler : ErrorHandler W
  pub base : Base A R W
  pub sequence : Sequence A R W
  pub hooks_before : Hook A W
  pub hooks_after : Hook A W
  pub call_count : ℕ
  pub last_state : R
  pub hash : Hash

-- The hashes of the names of the types of a functor, of its sequence and of its hooks.
pub record TypeNames : Type 0 where
  pub of_functor : List Hash
  pub of_sequence : List Hash
  pub of_hooks : List Hash

module _ {A R W : Type 0} where
  -- `operator()`
  unfoldable pub invoke : Functor A R W → A → W → Functor A R W × (R × W)
  invoke g args w =
      let (before, w₁) = Hook.run g.hooks_before args w in
      let (sequence, s) = Sequence.run g.sequence args w₁ in
      let (after, w₃) = Hook.run g.hooks_after args s.1 in
      (
        record g {
          hooks_before = before;
          sequence = sequence;
          hooks_after = after;
          call_count = u64_suc g.call_count;
          last_state = s.0;
        },
        (s.0, w₃),
      )

  -- `assign`: all that the other holds.
  unfoldable pub assign : Functor A R W → Functor A R W → Functor A R W
  assign g other = other

  unfoldable pub set_error_handler : ErrorHandler W → Functor A R W → Functor A R W × EnvStatus
  set_error_handler f g =
      (record g { error_handler = f }, qualify (env_status g.id) g.id functor_clear)

  -- `default` stands for the value that `RetType()` makes.
  unfoldable pub named : (String → Hash) → String → TypeNames → R → Base A R W → Functor A R W
  unfolding types_hash Hook.unnamed Sequence.unnamed
  named compute name types default f = record {
    id = compute name;
    error_handler = λ id code at w. w;
    base = f;
    sequence = Sequence.unnamed compute types.of_sequence f;
    hooks_before = Hook.unnamed compute types.of_hooks;
    hooks_after = Hook.unnamed compute types.of_hooks;
    call_count = 0;
    last_state = default;
    hash = types_hash types.of_functor;
  }

  unfoldable pub unnamed : (String → Hash) → TypeNames → R → Base A R W → Functor A R W
  unfolding named
  unnamed compute types default f = named compute "unnamed_functor" types default f
