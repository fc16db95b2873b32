-- ===== src/Port/Connections.antt =====
-- What connecting, disconnecting and replacing come to for a port.
use module_oriented_software.Common.{◌≡◌, refl}
use module_oriented_software.EnvUtils.{out_of_range}
use module_oriented_software.Common.OrderedMap.{lookup}
use module_oriented_software.Sha256.{Hash}
use module_oriented_software.Port.{PortBase, disconnect_port, replace_port}

module _ {W : Type 0} where
  -- Replacing a connection always throws, whatever the port and the identifiers: the code that
  -- `disconnect` should give is read from a status that has none.
  replace_port_throws :
      (id_which id_by : Hash) (p : PortBase W) (w : W)
      → replace_port id_which id_by p w ≡ out_of_range w
  unfolding replace_port disconnect_port lookup
  replace_port_throws id_which id_by p w = refl
