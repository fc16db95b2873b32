-- ===== src/DomainClient/Paths.antt =====
-- The paths of env/inc/domain_tcp_sock.hpp in the 108 bytes of a `sun_path`.
use module_oriented_software.Common.{Bool, true, false}
use module_oriented_software.TcpServer.{Run, ended, waits, undefined}
use module_oriented_software.DomainServer.{DomainServer}
use module_oriented_software.DomainClient.{DomainClient}

-- Whether a method has returned, and neither waits nor has written behind the end of an array.
abbrev pub has_ended : {A : Type 0} → Run A → Bool
has_ended (ended r) = true
has_ended waits = false
has_ended undefined = false
