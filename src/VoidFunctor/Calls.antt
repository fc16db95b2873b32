-- ===== src/VoidFunctor/Calls.antt =====
-- What the calls of a functor without a result do and count.
use module_oriented_software.Common.{
  ℕ, ◌≡◌, refl, ◌+◌, ◌^◌, ◌<◌, List, [], ◌∷◌, arith, String, length, none, subst,
}
use module_oriented_software.Sha256.{Hash}
use module_oriented_software.Hook
use module_oriented_software.Hook.{HookFunction}
use module_oriented_software.VoidSequence
use module_oriented_software.VoidSequence.{Base, Part}
use module_oriented_software.Registry.{find_entry}
use module_oriented_software.Registry.Invariant.{IsValid}
use module_oriented_software.Registry.Numbering.{IsFresh}
use module_oriented_software.VoidFunctor.{VoidFunctor, invoke, named}
use module_oriented_software.Functor.{TypeNames}

module _ {A W : Type 0} where
  -- The calls with each of the arguments in turn.
  unfoldable pub invoke_all : VoidFunctor A W → List A → W → VoidFunctor A W × W
  invoke_all g [] w = (g, w)
  invoke_all g (a ∷ as') w = let (g', w') = invoke g a w in invoke_all g' as' w'

  -- How often each part of a functor was called.
  pub record Counts (g : VoidFunctor A W) (n : ℕ) : Type 0 where
    pub of_functor : g.call_count ≡ n
    pub of_sequence : g.sequence.call_count ≡ n
    pub of_hooks_before : g.hooks_before.call_count ≡ n
    pub of_hooks_after : g.hooks_after.call_count ≡ n

  invoke-Counts :
      (g : VoidFunctor A W) (n : ℕ) (args : A) (w : W)
      → n + 1 < 2 ^ 64
      → Counts g n
      → Counts (invoke g args w).0 (n + 1)
  unfolding invoke Hook.run VoidSequence.run
  invoke-Counts g n args w h c = record {
    of_functor = omega (arith, c.of_functor);
    of_sequence = omega (arith, c.of_sequence);
    of_hooks_before = omega (arith, c.of_hooks_before);
    of_hooks_after = omega (arith, c.of_hooks_after);
  }

  -- Every call of a functor calls its hooks and its sequence once: after any calls, fewer than 2 ^ 64,
  -- the four counters, equal before, have grown by the number of the calls.
  pub void_invoke_all-Counts :
      (as' : List A) (g : VoidFunctor A W) (n : ℕ) (w : W)
      → n + length as' < 2 ^ 64
      → Counts g n
      → Counts (invoke_all g as' w).0 (length as' + n)
  unfolding invoke_all
  void_invoke_all-Counts [] g n w h c = subst (Counts g) (omega arith) c
  void_invoke_all-Counts (a ∷ as') g n w h c =
      subst (Counts (invoke_all g (a ∷ as') w).0) (omega arith) (
        void_invoke_all-Counts as' (invoke g a w).0 (n + 1) (invoke g a w).1 (omega arith)
          (invoke-Counts g n a w (omega arith) c))

  -- A functor to which nothing was added is its function: it has the effect of that and no other.
  pub void_invoke-named :
      (compute : String → Hash) (name : String) (types : TypeNames) (f : Base A W) (args : A)
      (w : W)
      → let (g, w') = invoke (named compute name types f) args w in (w' ≡ f args w) × (g.base ≡ f)
  unfolding invoke named Hook.run VoidSequence.run
  void_invoke-named compute name types f args w = (refl, refl)

  -- Adding to the hook before, to the sequence and to the hook after one function each composes
  -- them in that order.
  void_invoke-add :
      (compute : String → Hash) (g : VoidFunctor A W) (before after part : String)
      (f k : HookFunction A W) (p : Part W) (args : A) (w u : W)
      → IsValid g.hooks_before.registry
      → IsValid g.hooks_after.registry
      → IsValid g.sequence.registry
      → IsFresh g.hooks_before.registry
      → IsFresh g.hooks_after.registry
      → IsFresh g.sequence.registry
      → find_entry (compute before) g.hooks_before.registry.entries ≡ none
      → find_entry (compute after) g.hooks_after.registry.entries ≡ none
      → find_entry (compute part) g.sequence.registry.entries ≡ none
      → let g' = record g {
        hooks_before = (Hook.add compute before f g.hooks_before u).0;
        sequence = (VoidSequence.add compute part p g.sequence u).0;
        hooks_after = (Hook.add compute after k g.hooks_after u).0;
      } in
        let w₁ = f args (Hook.run g.hooks_before args w).1 in
        let w₂ = p (VoidSequence.run g.sequence args w₁).1 in
        (invoke g' args w).1 ≡ k args (Hook.run g.hooks_after args w₂).1
  unfolding invoke
  void_invoke-add compute g before after part f k p args w u vb va vs fb fa fs eb ea es = rw (
    Hook.Run.run-add compute g.hooks_before vb before f args w u fb eb,
    VoidSequence.Run.void_run-add compute g.sequence vs part p args
        (f args (Hook.run g.hooks_before args w).1) u fs es,
    Hook.Run.run-add compute g.hooks_after va after k args _ u fa ea,
  )
