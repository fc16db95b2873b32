-- ===== src/Lib.antt =====
-- The core of a framework for module-oriented software: an environment holds compositions of
-- components, components talk through ports, and environments find and reach each other over a
-- network. This library models these parts and what they are made of, and proves what a client of
-- each can rely on.
--
-- The parts, from the bottom, and the files of the repository that they follow:
--   Sha256, EnvUtils   utils/hash/sha256/sha256.hpp and utils/env/inc/env_utils.hpp: hashes as
--     numbers, error codes, the status `env_status_s` and the result `env_data_s` of every operation.
--   Sha256.Compute, Sha256.Literal   utils/hash/sha256/sha256.cpp with intmem.hpp, and sha256_literal.hpp:
--     the hash function on bytes at run time, and that of literals at compile time.
--   Registry           the map of numbered and named functions that env/inc/hook.hpp and
--     env/inc/sequence.hpp each write out: `add_`, `remove_`, `replace` and `clear_`.
--     Its children prove the invariant of the map, each branch of each operation, and the numbering.
--   Hook               env/inc/hook.hpp: `hook_impl_t`, a registry that one call runs in order.
--   Sequence, VoidSequence   env/inc/sequence.hpp: a function and the parts its result goes through.
--   Functor, VoidFunctor     env/inc/functor.hpp: a sequence between two hooks.
--   Property           env/inc/property.hpp: a value with a hook on reading and one on writing.
--   Tuple              utils/tuple/inc/tuple.hpp: `visit_at`, a binary search on the index.
--   Port               env/inc/port_node.hpp and env/inc/base_port.hpp: identifiers and connections.
--     Port.Receiver, Port.Sender, Port.Server and Port.Client follow env/inc/base_receiver_port.hpp
--     and receiver_port.hpp, and so on for each kind. Port.Queue is the bounded queue that a buffer
--     promises; Port.Observe reads a status as a reply of that queue.
--   Component          env/inc/component_node.hpp, component_static.hpp, port_list_static.hpp and
--     runtime_list.hpp: ports, and functions that run on signals.
--   Composition        env/inc/composition_node.hpp, composition_static.hpp and
--     composition_list_static.hpp: components and ports, and how an environment links them.
--   PortManager        env/inc/port_manager.hpp: the search of a port by names.
--   Environment        env/inc/env_base.hpp and env_static.hpp: what an environment starts from.
--   TcpServer, TcpClient     env/inc/network_tcp_sock.hpp: the two classes of sockets of its one
--     template. TcpServer.Steps has the steps of the threads that use a server.
--   Tls                env/inc/tls.hpp: the credentials of the peers of a server, and of a client;
--     Tls.Subject reads the subject of a certificate.
--   SecureServer, SecureClient   env/inc/network_tcp_sock_secure.hpp: a socket of TcpServer or TcpClient
--     over Tls. env/inc/secure_layer.hpp, between them, passes every call on.
--   DomainServer, DomainClient   env/inc/domain_tcp_sock.hpp: the same two classes for paths, and how
--     they agree with TcpServer and TcpClient.
--   UdpSocket          env/inc/network_udp_sock.hpp: a socket for datagrams.
--   DomainUdp          env/inc/domain_udp_sock.hpp: such a socket for paths, and how it agrees with UdpSocket.
--   Aes, SecureUdp     env/inc/aes.hpp and network_udp_sock_secure.hpp: a UdpSocket whose datagrams are
--     encrypted, with the functions of the cipher given.
--   NetworkManager     env/inc/network_manager.hpp: probes, invitations and peers.
--     NetworkManager.Types selects the types of sockets.
--   Common             library names, Boolean tests, lists and ordered maps that stand for `std::map`.
--   Tests              the theorems on concrete values.
--
-- How state and effects are modelled. An object is a record with the fields of its class, and a
-- method a function from the record and the state `W` of everything else to both after the call:
-- registered functions and error handlers act on `W`, and so the order of their calls is visible.
-- Functions and handlers are taken not to call the object that is calling them. The `const` methods
-- change `mutable` members and are modelled by what they change. `std::map::at` on a missing key
-- throws `std::out_of_range`, which is the second case of `Outcome`; the null pointer, the pointer to
-- an entry and the one formed from `end()` are the three cases of `Slot`. A `std::tuple` of ports or
-- components is a list of them.
--
-- Sockets. A call of the kernel is answered from a list of answers that the method is given, and a
-- method that needs more of them than there are waits. The hooks that detached threads run and the
-- descriptors that are closed are entries of a log, the last one first. What several threads do to
-- one object is a sequence of steps, each of which is one method or one part of a method that holds
-- the lock; the relations `Reach` are the sequences of steps in every order. OpenSSL is answered in
-- the same way, and its objects are numbers. An exception of it that nothing catches is an outcome of
-- its own, which ends the thread and with it the program.
--
-- Bounds. Counters are `uint64_t` and wrap at 2 ^ 64; where a theorem needs that they do not, it says
-- so. Error codes are the numbers of their enumerations. Loops are structural recursion on the map,
-- on the list of connected ports, on the number of transactions or on the answers of the kernel. The
-- two loops with fuel are the search of `visit_at`, for which the length of the tuple and one more is
-- enough, and the reading of a certificate's subject, for which the length of its first token is.
--
-- Parameters. Where the parts use a hash, it is any function `compute` from texts to numbers, of
-- which nothing is assumed, so that what is proved of them rests on no property of the one that
-- Sha256.Compute models; the hashes of the names of types are given as lists. `W`, the data of a
-- port and the arguments and results of its functions are arbitrary types. The answers of the
-- kernel are arbitrary, but for what a theorem names: `accept` gives no descriptor that is open, and
-- the loop of a `connect_` reads one entry of the socket at most.
--
-- What does not compile. The operations of the ports call `get_id()`, which no class of a port
-- declares, pass an `env_errno_e`, which is scoped, as a number, and take from buffers in constant
-- methods. They are templates that nothing instantiates. The models follow their text: what `get_id()`
-- would give is a parameter of the constructors of ports, and the buffers are taken as mutable. A port
-- is connected nowhere, so that of `forward` only the case of no connected port is reached. The
-- sequence of a functor is given out as a constant, so that nothing can be added to it there.
--
-- Not modelled: the secure sockets over domain sockets, which the pattern of the others would follow;
-- the making of keys and certificates, the code generator and the dynamic linker, which drive other
-- libraries; the dynamic environment, whose methods are empty; the vendored address library and the
-- generated messages; printing.
pub mod Common
pub mod Sha256
pub mod EnvUtils
pub mod Registry
pub mod Hook
pub mod Sequence
pub mod VoidSequence
pub mod Functor
pub mod VoidFunctor
pub mod Tuple
pub mod Property
pub mod Port
pub mod Component
pub mod Composition
pub mod PortManager
pub mod Environment
pub mod TcpServer
pub mod Tls
pub mod SecureServer
pub mod DomainServer
pub mod TcpClient
pub mod SecureClient
pub mod DomainClient
pub mod DomainUdp
pub mod UdpSocket
pub mod Aes
pub mod SecureUdp
pub mod NetworkManager
pub mod Tests
