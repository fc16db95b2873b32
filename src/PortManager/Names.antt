-- ===== src/PortManager/Names.antt =====
-- Every port of an environment is found by the names of its composition, its component and its own.
use mathlib.Core.List.{Memᴰ}
use module_oriented_software.Common.{
  ℕ, ◌≡◌, refl, ◌∙◌, ◌==◌, ==→eq, Bool, true, false, inl, inr, sym, ap, ◌⊎◌, Option, none, some,
  List, [], ◌∷◌, String, if◌then◌else◌, arith, subst,
}
use module_oriented_software.Sha256.{Hash}
use module_oriented_software.Port.{PortBase}
use module_oriented_software.Component.{Component}
use module_oriented_software.Composition.{Composition}
use module_oriented_software.Composition.Links.{All, IsLinked, IsLinkedComponent, IsLinkedPort}
use module_oriented_software.PortManager.{
  found, search_of, search_ports, search_components, search_compositions, find_component_port,
}
use module_oriented_software.PortManager.Finds.{
  or_else, search_ports_done, search_components_from, search_compositions_from,
}

All-Memᴰ : {A : Type 0} (P : A → Type 0) {x : A} {xs : List A} → All P xs → Memᴰ x xs → P x
All-Memᴰ P a (Memᴰ.head e) = subst P (sym e) a.0
All-Memᴰ P a (Memᴰ.tail m) = All-Memᴰ P a.1 m

-- What a search of one list leaves over is searched in the next.
or_else-some :
    {A : Type 0} (b : Bool) (o q : Option A) (x : A)
    → or_else (if b then o else none) q ≡ some x
    → ((b ≡ true) × (o ≡ some x)) ⊎ (q ≡ some x)
or_else-some true none q x e = inr e
or_else-some true (some y) q x e = inl (refl, e)
or_else-some false o q x e = inr e

-- A search that succeeds here or further on succeeds.
or_else_here : {A : Type 0} (o q : Option A) {x : A} → o ≡ some x → (y : A) × (or_else o q ≡ some y)
or_else_here none q e = cc
or_else_here (some y) q e = (y, refl)

or_else_later :
    {A : Type 0} (o q : Option A) {x : A} → q ≡ some x → (y : A) × (or_else o q ≡ some y)
or_else_later none q {x} e = (x, e)
or_else_later (some y) q e = (y, refl)

branch_taken :
    {A : Type 0} {a b : ℕ} {o : Option A} {x : A}
    → a ≡ b
    → o ≡ some x
    → (if a == b then o else none) ≡ some x
branch_taken {a} {b} h e = ground arith

test_passes : {A : Type 0} {a b : ℕ} → a ≡ b → (x : A) → (if a == b then some x else none) ≡ some x
test_passes h x = branch_taken h refl

module _ {W : Type 0} (n k : Hash) where
  search_ports_cons :
      (p : PortBase W) (ps : List (PortBase W))
      → search_ports k (p ∷ ps) none
        ≡ or_else (if k == p.info.name_hash then some p else none) (search_ports k ps none)
  unfolding search_ports
  search_ports_cons p ps = ground (arith, search_ports_done n n k ps p)

  search_components_cons :
      (c : Component W) (cs : List (Component W))
      → search_components n k (c ∷ cs) none
        ≡ or_else
            (if n == c.info.name_hash then search_ports k c.port_list none else none)
            (search_components n k cs none)
  unfolding search_components
  search_components_cons c cs = search_components_from n n k cs _

  search_ports_sound :
      (ps : List (PortBase W)) (p : PortBase W)
      → search_ports k ps none ≡ some p
      → Memᴰ p ps × (p.info.name_hash ≡ k)
  search_ports_sound [] p e = unfold search_ports in cc (e)
  search_ports_sound (q ∷ ps) p e =
      elim (or_else-some (k == q.info.name_hash) (some q) (search_ports k ps none) p
        (sym (search_ports_cons q ps) ∙ e)) [
          | inl (h, e') ↦
              let same : p ≡ q = cc (e') in
              (Memᴰ.head same, ap (λ r. r.info.name_hash) same ∙ sym (==→eq k q.info.name_hash h))
          | inr e' ↦ let r = search_ports_sound ps p e' in (Memᴰ.tail r.0, r.1)
        ]

  search_ports_complete :
      {p : PortBase W} {ps : List (PortBase W)}
      → Memᴰ p ps
      → p.info.name_hash ≡ k
      → (q : PortBase W) × (search_ports k ps none ≡ some q)
  search_ports_complete (Memᴰ.head {x} {xs} e) h = rw (search_ports_cons x xs) (
      or_else_here _ (search_ports k xs none)
        (test_passes (sym h ∙ ap (λ r. r.info.name_hash) e) x))
  search_ports_complete (Memᴰ.tail {x} {xs} m) h =
      rw (search_ports_cons x xs)
        (or_else_later _ (search_ports k xs none) (search_ports_complete m h).1)

  search_components_complete :
      {c : Component W} {cs : List (Component W)} {p : PortBase W}
      → Memᴰ c cs
      → c.info.name_hash ≡ n
      → Memᴰ p c.port_list
      → p.info.name_hash ≡ k
      → (q : PortBase W) × (search_components n k cs none ≡ some q)
  search_components_complete {p} (Memᴰ.head {x} {xs} e) h m h' =
      let (q, f) = search_ports_complete (subst (λ d. Memᴰ p d.port_list) e m) h' in
      rw (search_components_cons x xs) (
        or_else_here _ (search_components n k xs none)
          (branch_taken (sym h ∙ ap (λ r. r.info.name_hash) e) f))
  search_components_complete (Memᴰ.tail {x} {xs} r) h m h' =
      rw (search_components_cons x xs)
        (or_else_later _ (search_components n k xs none) (search_components_complete r h m h').1)

  search_components_sound :
      (cs : List (Component W)) (p : PortBase W)
      → search_components n k cs none ≡ some p
      → (c : Component W) × Memᴰ c cs
        × (c.info.name_hash ≡ n)
        × Memᴰ p c.port_list
        × (p.info.name_hash ≡ k)
  search_components_sound [] p e = unfold search_components in cc (e)
  search_components_sound (c ∷ cs) p e =
      elim (or_else-some (n == c.info.name_hash) (search_ports k c.port_list none)
        (search_components n k cs none) p (sym (search_components_cons c cs) ∙ e)) [
          | inl (h, e') ↦
              let r = search_ports_sound c.port_list p e' in
              (c, Memᴰ.head refl, sym (==→eq n c.info.name_hash h), r.0, r.1)
          | inr e' ↦
              let (d, m, h, m', h') = search_components_sound cs p e' in (d, Memᴰ.tail m, h, m', h')
        ]

module _ {N W : Type 0} (m n k : Hash) where
  search_compositions_cons :
      (c : Composition N W) (cs : List (Composition N W))
      → search_compositions m n k (c ∷ cs) none
        ≡ or_else
            (if m == c.info.name_hash then search_components n k c.component_list none else none)
            (search_compositions m n k cs none)
  unfolding search_compositions
  search_compositions_cons c cs = search_compositions_from m n k cs _

  search_compositions_sound :
      (cs : List (Composition N W)) (p : PortBase W)
      → search_compositions m n k cs none ≡ some p
      → (c : Composition N W) × Memᴰ c cs
        × (c.info.name_hash ≡ m)
        × (d : Component W) × Memᴰ d c.component_list
        × (d.info.name_hash ≡ n)
        × Memᴰ p d.port_list
        × (p.info.name_hash ≡ k)
  search_compositions_sound [] p e = unfold search_compositions in cc (e)
  search_compositions_sound (c ∷ cs) p e =
      elim (or_else-some (m == c.info.name_hash) (search_components n k c.component_list none)
        (search_compositions m n k cs none) p (sym (search_compositions_cons c cs) ∙ e)) [
          | inl (h, e') ↦
              let (d, r, g, t, g') = search_components_sound n k c.component_list p e' in
              (c, Memᴰ.head refl, sym (==→eq m c.info.name_hash h), d, r, g, t, g')
          | inr e' ↦
              let (c', s, h, d, r, g, t, g') = search_compositions_sound cs p e' in
              (c', Memᴰ.tail s, h, d, r, g, t, g')
        ]

  search_compositions_complete :
      {c : Composition N W} {cs : List (Composition N W)} {d : Component W} {p : PortBase W}
      → Memᴰ c cs
      → c.info.name_hash ≡ m
      → Memᴰ d c.component_list
      → d.info.name_hash ≡ n
      → Memᴰ p d.port_list
      → p.info.name_hash ≡ k
      → (q : PortBase W) × (search_compositions m n k cs none ≡ some q)
  search_compositions_complete {d} (Memᴰ.head {x} {xs} e) h r h' t h'' =
      let (q, f) =
        search_components_complete n k (subst (λ b. Memᴰ d b.component_list) e r) h' t h'' in
      rw (search_compositions_cons x xs) (
        or_else_here _ (search_compositions m n k xs none)
          (branch_taken (sym h ∙ ap (λ b. b.info.name_hash) e) f))
  search_compositions_complete (Memᴰ.tail {x} {xs} s) h r h' t h'' =
      rw (search_compositions_cons x xs) (
        or_else_later _ (search_compositions m n k xs none)
          (search_compositions_complete s h r h' t h'').1)

module _ {N W : Type 0} (compute : String → Hash) where
  -- In an environment of linked compositions a search by the names of a port, its component and its
  -- composition succeeds. The port that it gives has the hash of the name, stands in a component and a
  -- composition with the hashes of theirs, is in the environment and carries the identifiers of both.
  pub find_component_port_linked :
      (env : ℕ) (cs : List (Composition N W))
      → All (IsLinked compute env) cs
      → (c : Composition N W) (d : Component W) (p : PortBase W) → Memᴰ c cs
      → Memᴰ d c.component_list
      → Memᴰ p d.port_list
      → (q : PortBase W) × (find_component_port compute c.name d.name p.name cs ≡ found q)
        × (q.info.name_hash ≡ compute p.name)
        × (c' : Composition N W) × Memᴰ c' cs
        × (c'.info.name_hash ≡ compute c.name)
        × (d' : Component W) × Memᴰ d' c'.component_list
        × (d'.info.name_hash ≡ compute d.name)
        × Memᴰ q d'.port_list
        × IsLinkedPort compute env c'.info.id d'.info.id q
  unfolding find_component_port search_of
  find_component_port_linked env cs linked c d p mc md mp =
      let lc = All-Memᴰ (IsLinked compute env) linked mc in
      let ld = All-Memᴰ (IsLinkedComponent compute env c.info.id) lc.components md in
      let lp = All-Memᴰ (IsLinkedPort compute env c.info.id d.info.id) ld.ports mp in
      let (q, e) =
        search_compositions_complete (compute c.name) (compute d.name) (compute p.name) mc
          lc.by_name md ld.by_name mp lp.by_name in
      let (c', mc', hc, d', md', hd, mq, hq) =
        search_compositions_sound (compute c.name) (compute d.name) (compute p.name) cs q e in
      let lc' = All-Memᴰ (IsLinked compute env) linked mc' in
      let ld' = All-Memᴰ (IsLinkedComponent compute env c'.info.id) lc'.components md' in
      (
        q,
        rw e,
        hq,
        c',
        mc',
        hc,
        d',
        md',
        hd,
        mq,
        All-Memᴰ (IsLinkedPort compute env c'.info.id d'.info.id) ld'.ports mq,
      )
