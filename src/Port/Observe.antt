-- ===== src/Port/Observe.antt =====
-- What a client of a port's buffer sees of a call, read from the status as the clients in the source do:
-- by the qualifier of the port.
use module_oriented_software.Common.{◌==◌, Option, none, some, if◌then◌else◌}
use module_oriented_software.EnvUtils.{clear, env_code, EnvStatus, EnvData, qualifier_at}
use module_oriented_software.Sha256.{Hash}
use module_oriented_software.Port.Queue.{Reply, accepted, overflow, empty, given}

module _ {D : Type 0} where
  abbrev pub put_reply : Hash → EnvStatus → Reply D
  put_reply id s = elim (qualifier_at s id) [
    | none ↦ overflow
    | some code ↦ if code == env_code clear then accepted else overflow
  ]

  abbrev pub get_reply : Hash → EnvData (Option D) → Reply D
  get_reply id d = elim (qualifier_at d.status id) [
    | none ↦ empty
    | some code ↦
        if code == env_code clear then elim d.value [ none ↦ empty | some x ↦ given x ] else empty
  ]
