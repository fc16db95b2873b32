-- ===== src/Functor/Plain.antt =====
-- Functors to which no function was added: each call of one is a call of its function.
use module_oriented_software.Common.{◌≡◌, refl, [], String}
use module_oriented_software.Sha256.{Hash}
use module_oriented_software.Hook
use module_oriented_software.Sequence
use module_oriented_software.Sequence.{Base}
use module_oriented_software.Functor.{Functor, TypeNames, invoke, named, unnamed}

-- The hooks and the sequence hold nothing, and the sequence begins with `f`.
pub record IsPlain {A R W : Type 0} (f : Base A R W) (g : Functor A R W) : Type 0 where
  pub before : g.hooks_before.registry.entries ≡ []
  pub after : g.hooks_after.registry.entries ≡ []
  pub parts : g.sequence.registry.entries ≡ []
  pub base : g.sequence.base ≡ f

module _ {A R W : Type 0} (f : Base A R W) where
  pub invoke-IsPlain :
      (g : Functor A R W) (args : A) (w : W) → IsPlain f g → IsPlain f (invoke g args w).0
  unfolding invoke Hook.run Sequence.run
  invoke-IsPlain g args w p = record {
    before = p.before;
    after = p.after;
    parts = p.parts;
    base = p.base;
  }

  pub invoke_plain :
      (g : Functor A R W) (args : A) (w : W) → IsPlain f g → (invoke g args w).1 ≡ f args w
  unfolding invoke Hook.run Sequence.run
  invoke_plain g args w p =
      rw
        (p.before, Hook.run_entries, p.parts, Sequence.run_parts, p.after, Hook.run_entries, p.base)

  pub named-IsPlain :
      (compute : String → Hash) (name : String) (types : TypeNames) (default : R)
      → IsPlain f (named compute name types default f)
  unfolding named
  named-IsPlain compute name types default = record {
    before = refl;
    after = refl;
    parts = refl;
    base = refl;
  }

  pub unnamed-IsPlain :
      (compute : String → Hash) (types : TypeNames) (default : R)
      → IsPlain f (unnamed compute types default f)
  unfolding unnamed
  unnamed-IsPlain compute types default = named-IsPlain compute "unnamed_functor" types default
