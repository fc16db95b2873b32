-- ===== src/Functor/Calls.antt =====
-- What the calls of a functor return and count.
use module_oriented_software.Common.{
  ℕ, ◌≡◌, refl, ◌+◌, ◌^◌, ◌<◌, List, [], ◌∷◌, arith, String, length, none, subst,
}
use module_oriented_software.Sha256.{Hash}
use module_oriented_software.Hook
use module_oriented_software.Hook.{HookFunction}
use module_oriented_software.Sequence
use module_oriented_software.Sequence.{Base, Part}
use module_oriented_software.Registry.{find_entry}
use module_oriented_software.Registry.Invariant.{IsValid}
use module_oriented_software.Registry.Numbering.{IsFresh}
use module_oriented_software.Functor.{Functor, TypeNames, invoke, named}

module _ {A R W : Type 0} where
  -- The calls with each of the arguments in turn.
  unfoldable pub invoke_all : Functor A R W → List A → W → Functor A R W × W
  invoke_all g [] w = (g, w)
  invoke_all g (a ∷ as') w = let (g', s) = invoke g a w in invoke_all g' as' s.1

  -- How often each part of a functor was called.
  pub record Counts (g : Functor A R W) (n : ℕ) : Type 0 where
    pub of_functor : g.call_count ≡ n
    pub of_sequence : g.sequence.call_count ≡ n
    pub of_hooks_before : g.hooks_before.call_count ≡ n
    pub of_hooks_after : g.hooks_after.call_count ≡ n

  invoke-Counts :
      (g : Functor A R W) (n : ℕ) (args : A) (w : W)
      → n + 1 < 2 ^ 64
      → Counts g n
      → Counts (invoke g args w).0 (n + 1)
  unfolding invoke Hook.run Sequence.run
  invoke-Counts g n args w h c = record {
    of_functor = omega (arith, c.of_functor);
    of_sequence = omega (arith, c.of_sequence);
    of_hooks_before = omega (arith, c.of_hooks_before);
    of_hooks_after = omega (arith, c.of_hooks_after);
  }

  -- Every call of a functor calls its hooks and its sequence once: after any calls, fewer than 2 ^ 64,
  -- the four counters, equal before, have grown by the number of the calls.
  invoke_all-Counts :
      (as' : List A) (g : Functor A R W) (n : ℕ) (w : W)
      → n + length as' < 2 ^ 64
      → Counts g n
      → Counts (invoke_all g as' w).0 (length as' + n)
  unfolding invoke_all
  invoke_all-Counts [] g n w h c = subst (Counts g) (omega arith) c
  invoke_all-Counts (a ∷ as') g n w h c =
      subst (Counts (invoke_all g (a ∷ as') w).0) (omega arith) (
        invoke_all-Counts as' (invoke g a w).0 (n + 1) (invoke g a w).1.1 (omega arith)
          (invoke-Counts g n a w (omega arith) c))

  -- A functor to which nothing was added is its function: it returns what that returns, has no other
  -- effect, and remembers the result.
  invoke-named :
      (compute : String → Hash) (name : String) (types : TypeNames) (default : R) (f : Base A R W)
      (args : A) (w : W)
      → let (g, s) = invoke (named compute name types default f) args w in
        (s ≡ f args w) × (g.last_state ≡ (f args w).0) × (g.base ≡ f)
  unfolding invoke named Hook.run Sequence.run
  invoke-named compute name types default f args w = (refl, refl, refl)

  -- A call of a functor, to whose hook before and hook after a function each was added, none of the names registered before: the
  -- first is run behind the other functions before, then the function and the parts of the sequence, then the functions after,
  -- and the second last; what is returned is what the sequence gives.
  pub invoke-add :
      (compute : String → Hash) (g : Functor A R W) (before after : String) (f k : HookFunction A W)
      (args : A) (w u : W)
      → IsValid g.hooks_before.registry
      → IsValid g.hooks_after.registry
      → IsFresh g.hooks_before.registry
      → IsFresh g.hooks_after.registry
      → find_entry (compute before) g.hooks_before.registry.entries ≡ none
      → find_entry (compute after) g.hooks_after.registry.entries ≡ none
      → let g' = record g {
        hooks_before = (Hook.add compute before f g.hooks_before u).0;
        hooks_after = (Hook.add compute after k g.hooks_after u).0;
      } in
        let w₁ = f args (Hook.run g.hooks_before args w).1 in
        let s = (Sequence.run g.sequence args w₁).1 in
        (invoke g' args w).1 ≡ (s.0, k args (Hook.run g.hooks_after args s.1).1)
  unfolding invoke
  invoke-add compute g before after f k args w u vb va fb fa eb ea = rw (
    Hook.Run.run-add compute g.hooks_before vb before f args w u fb eb,
    Hook.Run.run-add compute g.hooks_after va after k args _ u fa ea,
  )
