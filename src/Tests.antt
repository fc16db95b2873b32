-- ===== src/Tests.antt =====
-- The theorems on concrete values: what a client sees of small registries, hooks, sequences, functors and
-- ports. The length of a name stands for its hash, numbers are the arguments, results and the state.
pub mod Registries
pub mod Calls
pub mod Ports
pub mod Servers
pub mod Environments
pub mod Networks
pub mod Sockets
pub mod Hashes
pub mod Datagrams
pub mod Ciphers
pub mod Credentials
pub mod Domains
pub mod Paths
