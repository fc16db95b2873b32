-- ===== src/NetworkManager/Types.antt =====
-- env/inc/network_manager.hpp: which types of sockets a network manager has, for each type of networking. A tuple of
-- sockets is the list of its parts, and a socket by itself a list of one.
pub mod Selection
use module_oriented_software.Common.{
  ℕ, zero, suc, ◌≡◌, ◌≢◌, refl, ◌+◌, ◌*◌, ◌/◌, ◌%◌, Bool, true, false, Option, none, some, List, [],
  ◌∷◌, ◌++◌, map, if◌then◌else◌, ◌⊎◌,
}
use module_oriented_software.Environment.{
  NetworkingType, domain, ipv4, ipv6, ipv4_ipv6, domain_ipv4, domain_ipv6, domain_ipv4_ipv6,
  domain_sc, ipv4_sc, ipv6_sc, ipv4_ipv6_sc, domain_ipv4_sc, domain_ipv6_sc, domain_ipv4_ipv6_sc,
  env_netw_type_num, undefined, networking_code, is_secure_type,
}

pub data Family : Type 0 where
  of_domain of_ipv4 of_ipv6 : Family

pub data Protocol : Type 0 where
  udp tcp : Protocol

pub data Role : Type 0 where
  server client : Role

-- A class of sockets: with its family, what it speaks, its role, and whether it is one of the secure ones.
pub record SocketType : Type 0 where
  pub family : Family
  pub protocol : Protocol
  pub role : Role
  pub secure : Bool

abbrev pub socket : Bool → Family → Protocol → Role → SocketType
socket secure family protocol role = record {
  family = family;
  protocol = protocol;
  role = role;
  secure = secure;
}

-- `nm_all_types_t`: for each of seven combinations of families a UDP server, a UDP client, a TCP server and a
-- TCP client. `s` is `is_secure_type(nt)`.
unfoldable pub all_types : Bool → List (List SocketType)
all_types s =
    (socket s of_domain udp server ∷ [])
    ∷ (socket s of_domain udp client ∷ [])
    ∷ (socket s of_domain tcp server ∷ [])
    ∷ (socket s of_domain tcp client ∷ [])
    ∷ (socket s of_ipv4 udp server ∷ [])
    ∷ (socket s of_ipv4 udp client ∷ [])
    ∷ (socket s of_ipv4 tcp server ∷ [])
    ∷ (socket s of_ipv4 tcp client ∷ [])
    ∷ (socket s of_ipv6 udp server ∷ [])
    ∷ (socket s of_ipv6 udp client ∷ [])
    ∷ (socket s of_ipv6 tcp server ∷ [])
    ∷ (socket s of_ipv6 tcp client ∷ [])
    ∷ (socket s of_ipv4 udp server ∷ socket s of_ipv6 udp server ∷ [])
    ∷ (socket s of_ipv4 udp client ∷ socket s of_ipv6 udp client ∷ [])
    ∷ (socket s of_ipv4 tcp server ∷ socket s of_ipv6 tcp server ∷ [])
    ∷ (socket s of_ipv4 tcp client ∷ socket s of_ipv6 tcp client ∷ [])
    ∷ (socket s of_domain udp server ∷ socket s of_ipv4 udp server ∷ [])
    ∷ (socket s of_domain udp client ∷ socket s of_ipv4 udp client ∷ [])
    ∷ (socket s of_domain tcp server ∷ socket s of_ipv4 tcp server ∷ [])
    ∷ (socket s of_domain tcp client ∷ socket s of_ipv4 tcp client ∷ [])
    ∷ (socket s of_domain udp server ∷ socket s of_ipv6 udp server ∷ [])
    ∷ (socket s of_domain udp client ∷ socket s of_ipv6 udp client ∷ [])
    ∷ (socket s of_domain tcp server ∷ socket s of_ipv6 tcp server ∷ [])
    ∷ (socket s of_domain tcp client ∷ socket s of_ipv6 tcp client ∷ [])
    ∷ (socket s of_domain udp server
        ∷ socket s of_ipv4 udp server
        ∷ socket s of_ipv6 udp server
        ∷ [])
    ∷ (socket s of_domain udp client
        ∷ socket s of_ipv4 udp client
        ∷ socket s of_ipv6 udp server
        ∷ [])
    ∷ (socket s of_domain tcp server
        ∷ socket s of_ipv4 tcp server
        ∷ socket s of_ipv6 udp server
        ∷ [])
    ∷ (socket s of_domain tcp client
        ∷ socket s of_ipv4 tcp client
        ∷ socket s of_ipv6 udp server
        ∷ [])
    ∷ []

-- `std::tuple_element_t`; out of range there is no type, and the program does not compile.
unfoldable pub tuple_element : {A : Type 0} → ℕ → List A → Option A
tuple_element n [] = none
tuple_element zero (x ∷ xs) = some x
tuple_element (suc n) (x ∷ xs) = tuple_element n xs

-- The numbers `udp_srv_order_n`, `udp_cli_order_n`, `tcp_srv_order_n` and `tcp_cli_order_n`.
abbrev pub order_of : Protocol → Role → ℕ
order_of udp server = 0
order_of udp client = 1
order_of tcp server = 2
order_of tcp client = 3

-- `udp_srv_t`, `udp_cli_t`, `tcp_srv_t` and `tcp_cli_t`
unfoldable pub selected : NetworkingType → Protocol → Role → Option (List SocketType)
unfolding all_types tuple_element is_secure_type
selected nt protocol role =
    tuple_element
      (networking_code nt % (networking_code env_netw_type_num / 2) * 4 + order_of protocol role)
      (all_types (is_secure_type nt))
