-- ===== src/PortManager/Finds.antt =====
-- What the searches of the port manager find, as the first fit in the list of all ports.
use module_oriented_software.Common.{
  ◌≡◌, refl, ◌==◌, ◌&&◌, Bool, Option, none, some, List, [], ◌∷◌, ◌++◌, String, if◌then◌else◌,
  arith,
}
use module_oriented_software.Sha256.{Hash}
use module_oriented_software.Port.{PortBase}
use module_oriented_software.Component.{Component}
use module_oriented_software.Composition.{Composition}
use module_oriented_software.PortManager.{
  search_of, search_ports, search_components, search_compositions, find_component_port,
}

-- The first value of a list that passes the test.
abbrev pub first : {A : Type 0} → (A → Bool) → List A → Option A
first p [] = none
first p (x ∷ xs) = if p x then some x else first p xs

-- A port with the hashes of the names of its composition and its component.
pub record Place (W : Type 0) : Type 0 where
  pub composition_hash : Hash
  pub component_hash : Hash
  pub port : PortBase W

abbrev pub port_of : {W : Type 0} → Option (Place W) → Option (PortBase W)
port_of none = none
port_of (some e) = some e.port

abbrev pub places_of_ports : {W : Type 0} → Hash → Hash → List (PortBase W) → List (Place W)
places_of_ports c d [] = []
places_of_ports c d (p ∷ ps) =
    record { composition_hash = c; component_hash = d; port = p } ∷ places_of_ports c d ps

abbrev pub places_of_components : {W : Type 0} → Hash → List (Component W) → List (Place W)
places_of_components c [] = []
places_of_components c (d ∷ ds) =
    places_of_ports c d.info.name_hash d.port_list ++ places_of_components c ds

-- The ports of the components of the compositions, in their order.
abbrev pub places : {N W : Type 0} → List (Composition N W) → List (Place W)
places [] = []
places (c ∷ cs) = places_of_components c.info.name_hash c.component_list ++ places cs

abbrev pub fits : {W : Type 0} → Hash → Hash → Hash → Place W → Bool
fits composition component port e =
    composition == e.composition_hash
    && (component == e.component_hash && port == e.port.info.name_hash)

abbrev pub or_else : {A : Type 0} → Option A → Option A → Option A
or_else (some x) o = some x
or_else none o = o

first-append :
    {W : Type 0} (p : Place W → Bool) (xs ys : List (Place W))
    → port_of (first p (xs ++ ys)) ≡ or_else (port_of (first p xs)) (port_of (first p ys))
first-append p [] ys = refl
first-append p (x ∷ xs) ys = ground (arith, first-append p xs ys)

module _ {W : Type 0} (m n k : Hash) where
  pub search_ports_done :
      (ps : List (PortBase W)) (r : PortBase W) → search_ports k ps (some r) ≡ some r
  unfolding search_ports
  search_ports_done [] r = refl
  search_ports_done (p ∷ ps) r = search_ports_done ps r

  search_components_done :
      (cs : List (Component W)) (r : PortBase W) → search_components n k cs (some r) ≡ some r
  unfolding search_components
  search_components_done [] r = refl
  search_components_done (c ∷ cs) r = search_components_done cs r

  search_ports-first :
      (c d : Hash) (ps : List (PortBase W))
      → port_of (first (fits m n k) (places_of_ports c d ps))
        ≡ (if m == c then if n == d then search_ports k ps none else none else none)
  unfolding search_ports
  search_ports-first c d [] = ground arith
  search_ports-first c d (p ∷ ps) =
      ground (arith, search_ports-first c d ps, search_ports_done ps p)

  pub search_components_from :
      (cs : List (Component W)) (r : Option (PortBase W))
      → search_components n k cs r ≡ or_else r (search_components n k cs none)
  search_components_from cs none = refl
  search_components_from cs (some r) = search_components_done cs r

  search_components-first :
      (c : Hash) (ds : List (Component W))
      → port_of (first (fits m n k) (places_of_components c ds))
        ≡ (if m == c then search_components n k ds none else none)
  unfolding search_components
  search_components-first c [] = ground arith
  search_components-first c (d ∷ ds) =
      rw
        (
          first-append (fits m n k) (places_of_ports c d.info.name_hash d.port_list)
              (places_of_components c ds),
          search_ports-first c d.info.name_hash d.port_list,
          search_components-first c ds,
          search_components_from ds
              (if n == d.info.name_hash then search_ports k d.port_list none else none),
        )
        (ground arith)

module _ {N W : Type 0} (m n k : Hash) where
  pub search_compositions_from :
      (cs : List (Composition N W)) (r : Option (PortBase W))
      → search_compositions m n k cs r ≡ or_else r (search_compositions m n k cs none)
  unfolding search_compositions
  search_compositions_from cs none = refl
  search_compositions_from [] (some r) = refl
  search_compositions_from (c ∷ cs) (some r) = search_compositions_from cs (some r)

  search_compositions-first :
      (cs : List (Composition N W))
      → search_compositions m n k cs none ≡ port_of (first (fits m n k) (places cs))
  unfolding search_compositions
  search_compositions-first [] = refl
  search_compositions-first (c ∷ cs) =
      rw
        (
          first-append (fits m n k) (places_of_components c.info.name_hash c.component_list)
              (places cs),
          search_components-first m n k c.info.name_hash c.component_list,
          search_compositions_from cs
              (if m == c.info.name_hash then search_components n k c.component_list none else none),
          search_compositions-first cs,
        )
        refl

module _ {N W : Type 0} (compute : String → Hash) where
  -- The three nested loops of `find_port` give the first port, in the order of the compositions, of their components and
  -- of the ports of these, where the hashes of all three names are those that are looked for; where there is none, the search throws.
  pub find_component_port-first :
      (composition component port : String) (cs : List (Composition N W))
      → find_component_port compute composition component port cs
        ≡ search_of (
            port_of
              (first (fits (compute composition) (compute component) (compute port)) (places cs)))
  unfolding find_component_port
  find_component_port-first composition component port cs =
      rw (search_compositions-first (compute composition) (compute component) (compute port) cs)
