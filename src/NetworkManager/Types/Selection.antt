-- ===== src/NetworkManager/Types/Selection.antt =====
-- That the sockets of a network manager are those that its type of networking is named for.
use module_oriented_software.Common.{
  ◌≡◌, refl, Bool, true, false, some, List, [], ◌∷◌, map, if◌then◌else◌,
}
use module_oriented_software.Environment.{
  NetworkingType, domain, ipv4, ipv6, ipv4_ipv6, domain_ipv4, domain_ipv6, domain_ipv4_ipv6,
  domain_sc, ipv4_sc, ipv6_sc, ipv4_ipv6_sc, domain_ipv4_sc, domain_ipv6_sc, domain_ipv4_ipv6_sc,
  env_netw_type_num, undefined,
}
use module_oriented_software.NetworkManager.Types.{
  Family, of_domain, of_ipv4, of_ipv6, Protocol, udp, tcp, Role, server, SocketType, socket,
  selected,
}

-- The families that a type of networking is named for.
abbrev pub families : NetworkingType → List Family
families domain = of_domain ∷ []
families domain_sc = of_domain ∷ []
families ipv4 = of_ipv4 ∷ []
families ipv4_sc = of_ipv4 ∷ []
families ipv6 = of_ipv6 ∷ []
families ipv6_sc = of_ipv6 ∷ []
families ipv4_ipv6 = of_ipv4 ∷ of_ipv6 ∷ []
families ipv4_ipv6_sc = of_ipv4 ∷ of_ipv6 ∷ []
families domain_ipv4 = of_domain ∷ of_ipv4 ∷ []
families domain_ipv4_sc = of_domain ∷ of_ipv4 ∷ []
families domain_ipv6 = of_domain ∷ of_ipv6 ∷ []
families domain_ipv6_sc = of_domain ∷ of_ipv6 ∷ []
families _ = of_domain ∷ of_ipv4 ∷ of_ipv6 ∷ []

-- A type that stands for networking, and not for a count or for none.
abbrev pub IsNetworking : NetworkingType → Type 0
IsNetworking env_netw_type_num = ⊥
IsNetworking undefined = ⊥
IsNetworking _ = Unit {0}

-- Whether a type of networking is named `_SC`.
abbrev pub named_secure : NetworkingType → Bool
named_secure domain_sc = true
named_secure ipv4_sc = true
named_secure ipv6_sc = true
named_secure ipv4_ipv6_sc = true
named_secure domain_ipv4_sc = true
named_secure domain_ipv6_sc = true
named_secure domain_ipv4_ipv6_sc = true
named_secure _ = false

-- Whether a type has all three families.
abbrev pub is_triple : NetworkingType → Bool
is_triple domain_ipv4_ipv6 = true
is_triple domain_ipv4_ipv6_sc = true
is_triple _ = false

-- The socket of a family: of the protocol and the role that are asked for, but for the IPv6 one of three.
abbrev pub socket_of : NetworkingType → Protocol → Role → Family → SocketType
socket_of nt protocol role of_domain = socket (named_secure nt) of_domain protocol role
socket_of nt protocol role of_ipv4 = socket (named_secure nt) of_ipv4 protocol role
socket_of nt protocol role of_ipv6 =
    if is_triple nt
    then socket (named_secure nt) of_ipv6 udp server
    else socket (named_secure nt) of_ipv6 protocol role

-- For every type of networking, protocol and role the number that is computed selects a socket for each
-- of the families that the type is named for, in their order, secure where its name says so, and of the
-- protocol and the role that are asked for. The one exception is the IPv6 socket of the types with three
-- families, which is a UDP server whatever is asked for.
selected-families :
    (nt : NetworkingType)
    → IsNetworking nt
    → (protocol : Protocol) (role : Role)
    → selected nt protocol role ≡ some (map (socket_of nt protocol role) (families nt))
unfolding selected
selected-families domain n udp server = refl
selected-families domain n tcp server = refl
selected-families domain n _ _ = refl
selected-families ipv4 n udp server = refl
selected-families ipv4 n tcp server = refl
selected-families ipv4 n _ _ = refl
selected-families ipv6 n udp server = refl
selected-families ipv6 n tcp server = refl
selected-families ipv6 n _ _ = refl
selected-families ipv4_ipv6 n udp server = refl
selected-families ipv4_ipv6 n tcp server = refl
selected-families ipv4_ipv6 n _ _ = refl
selected-families domain_ipv4 n udp server = refl
selected-families domain_ipv4 n tcp server = refl
selected-families domain_ipv4 n _ _ = refl
selected-families domain_ipv6 n udp server = refl
selected-families domain_ipv6 n tcp server = refl
selected-families domain_ipv6 n _ _ = refl
selected-families domain_ipv4_ipv6 n udp server = refl
selected-families domain_ipv4_ipv6 n tcp server = refl
selected-families domain_ipv4_ipv6 n _ _ = refl
selected-families domain_sc n udp server = refl
selected-families domain_sc n tcp server = refl
selected-families domain_sc n _ _ = refl
selected-families ipv4_sc n udp server = refl
selected-families ipv4_sc n tcp server = refl
selected-families ipv4_sc n _ _ = refl
selected-families ipv6_sc n udp server = refl
selected-families ipv6_sc n tcp server = refl
selected-families ipv6_sc n _ _ = refl
selected-families ipv4_ipv6_sc n udp server = refl
selected-families ipv4_ipv6_sc n tcp server = refl
selected-families ipv4_ipv6_sc n _ _ = refl
selected-families domain_ipv4_sc n udp server = refl
selected-families domain_ipv4_sc n tcp server = refl
selected-families domain_ipv4_sc n _ _ = refl
selected-families domain_ipv6_sc n udp server = refl
selected-families domain_ipv6_sc n tcp server = refl
selected-families domain_ipv6_sc n _ _ = refl
selected-families domain_ipv4_ipv6_sc n udp server = refl
selected-families domain_ipv4_ipv6_sc n tcp server = refl
selected-families domain_ipv4_ipv6_sc n _ _ = refl
selected-families env_netw_type_num n protocol role = absurd n
selected-families undefined n protocol role = absurd n
