-- ===== src/Environment.antt =====
-- env/inc/env_base.hpp and env_static.hpp: the types of networking, the start of an environment, and its
-- compositions. A text that the code takes apart is a list of bytes; what `getenv`, `gethostname` and
-- `getpid` answer is given.
pub mod Linking
use Prim.Native.Char.{code}
use module_oriented_software.Common.{
  ℕ, ◌==◌, ◌||◌, not, ◌&&◌, Bool, true, false, Option, none, some, List, [], ◌∷◌, ◌++◌, String,
  if◌then◌else◌,
}
use module_oriented_software.Sha256.{Hash}
use module_oriented_software.Composition.{Composition, set_all_env}

-- `env_networking_type_e`
pub data NetworkingType : Type 0 where
  domain ipv4 ipv6 ipv4_ipv6 domain_ipv4 domain_ipv6 domain_ipv4_ipv6 : NetworkingType
  domain_sc ipv4_sc ipv6_sc ipv4_ipv6_sc : NetworkingType
  domain_ipv4_sc domain_ipv6_sc domain_ipv4_ipv6_sc : NetworkingType
  env_netw_type_num undefined : NetworkingType

abbrev pub networking_code : NetworkingType → ℕ
networking_code domain = 0
networking_code ipv4 = 1
networking_code ipv6 = 2
networking_code ipv4_ipv6 = 3
networking_code domain_ipv4 = 4
networking_code domain_ipv6 = 5
networking_code domain_ipv4_ipv6 = 6
networking_code domain_sc = 7
networking_code ipv4_sc = 8
networking_code ipv6_sc = 9
networking_code ipv4_ipv6_sc = 10
networking_code domain_ipv4_sc = 11
networking_code domain_ipv6_sc = 12
networking_code domain_ipv4_ipv6_sc = 13
networking_code env_netw_type_num = 14
networking_code undefined = 15

abbrev pub same_type : NetworkingType → NetworkingType → Bool
same_type a b = networking_code a == networking_code b

unfoldable pub is_secure_type : NetworkingType → Bool
is_secure_type nt =
    same_type nt ipv4_sc
    || same_type nt ipv6_sc
    || same_type nt ipv4_ipv6_sc
    || same_type nt domain_sc
    || same_type nt domain_ipv4_sc
    || same_type nt domain_ipv6_sc
    || same_type nt domain_ipv4_ipv6_sc

abbrev pub codes : String → List ℕ
codes String.[] = []
codes (String.◌∷◌ c s) = code c ∷ codes s

abbrev pub is_slash : ℕ → Bool
is_slash b = b == b'/'

-- Whether the last byte, at `length() - 1`, is a slash.
unfoldable pub ends_in_slash : List ℕ → Bool
ends_in_slash [] = false
ends_in_slash (b ∷ []) = is_slash b
ends_in_slash (b ∷ c ∷ bs) = ends_in_slash (c ∷ bs)

-- The fields of `env_cfg_s` that the constructor of `env_base_s` sets.
pub record EnvCfg : Type 0 where
  pub env_name : String
  pub env_headers_path : String
  pub env_mountpoint : String
  pub env_components_path : String
  pub env_network_ifname : String
  pub env_ipv4_multicast_group_addr : String
  pub env_ipv4_broadcast_port : ℕ
  pub env_ipv4_tcp_port : ℕ
  pub env_ipv4_multicast_port : ℕ
  pub env_ipv6_multicast_group_addr : String
  pub env_ipv6_tcp_port : ℕ
  pub env_ipv6_multicast_port : ℕ
  pub env_ipv4_enabled : Bool
  pub env_ipv6_enabled : Bool
  pub domain_udp_socket_path : String
  pub domain_tcp_socket_path : String
  pub env_max_buffsize : ℕ
  pub env_broadcast_interval_ms : ℕ
  pub env_pid : ℕ
  pub env_ca_cert_file : List ℕ
  pub env_ca_priv_key_file : List ℕ
  pub env_cert_exp_time : ℕ
  pub env_cert_info : String
  pub env_host_name : String

pub data Start : Type 0 where
  started : EnvCfg → Start
  runtime_error : Start

-- The folder of the certificates: a slash is put behind a path that ends in one.
unfoldable pub ca_files_path : List ℕ → List ℕ
unfolding ends_in_slash
ca_files_path path =
    if not (elim path [ [] ↦ true | b ∷ bs ↦ false ]) && ends_in_slash path
    then path ++ b'/' ∷ []
    else path

-- `env_base_s`, given the name, the answers of `getenv("CA_FILES")`, `gethostname` and `getpid`
unfoldable pub env_base : String → Option (List ℕ) → String → ℕ → Start
unfolding ca_files_path
env_base name none host_name pid = runtime_error
env_base name (some path) host_name pid = elim (ca_files_path path) [
  | [] ↦ runtime_error
  | b ∷ bs ↦ started (record {
    env_name = name;
    env_headers_path = "./headers";
    env_mountpoint = "./mountpoint";
    env_components_path = "./components";
    env_network_ifname = "enp1s0";
    env_ipv4_multicast_group_addr = "224.0.0.1";
    env_ipv4_broadcast_port = 4000;
    env_ipv4_tcp_port = 4001;
    env_ipv4_multicast_port = 4003;
    env_ipv6_multicast_group_addr = "ff02:1::1";
    env_ipv6_tcp_port = 4003;
    env_ipv6_multicast_port = 4005;
    env_ipv4_enabled = true;
    env_ipv6_enabled = true;
    domain_udp_socket_path = "./udp_socket.socket";
    domain_tcp_socket_path = "./tcp_socket.socket";
    env_max_buffsize = 1024;
    env_broadcast_interval_ms = 100;
    env_pid = pid;
    env_ca_cert_file = (b ∷ bs) ++ codes "ca_cert.crt";
    env_ca_priv_key_file = (b ∷ bs) ++ codes "ca_key.key";
    env_cert_exp_time = 60;
    env_cert_info = "C=XX; ST=XXX; L=XXX; O=Mappd_Testing; OU=Developers; CN=mappd.localhost";
    env_host_name = host_name;
  })
]

-- `env_cfg_header_s`: what an environment sends of itself. `env_invite` is a hash, or empty: the constructor sets
-- it from a hash of zeros that it reads as a text that a zero ends.
pub record EnvCfgHeader : Type 0 where
  pub env_name : String
  pub env_ipv4_tcp_port : ℕ
  pub env_ipv6_tcp_port : ℕ
  pub env_pid : ℕ
  pub env_host_name : String
  pub env_invite : Option Hash
  pub domain_tcp_socket_path : String

unfoldable pub get_info_header : EnvCfg → EnvCfgHeader
get_info_header info = record {
  env_name = info.env_name;
  env_ipv4_tcp_port = info.env_ipv4_tcp_port;
  env_ipv6_tcp_port = info.env_ipv6_tcp_port;
  env_pid = info.env_pid;
  env_host_name = info.env_host_name;
  env_invite = none;
  domain_tcp_socket_path = info.domain_tcp_socket_path;
}

-- The constructor of `env_static_s` puts the compositions in the environment, which a number stands for.
unfoldable pub env_static : {N W : Type 0} → ℕ → List (Composition N W) → List (Composition N W)
unfolding set_all_env
env_static env compositions = set_all_env env compositions
