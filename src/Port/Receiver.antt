-- ===== src/Port/Receiver.antt =====
-- env/inc/base_receiver_port.hpp and env/inc/receiver_port.hpp: a port that buffers what it is sent, and passes
-- it through a functor, the reader, when it is read. `D` is the type of the data.
pub mod Refinement
pub mod Friends
use module_oriented_software.Common.{
  ℕ, ◌==◌, ltb, not, Bool, true, false, Option, none, some, List, [], ◌∷◌, ◌++◌, String,
  if◌then◌else◌, length,
}
use module_oriented_software.EnvUtils.{
  clear, buffer_empty, buffer_overflow, EnvStatus, EnvData, Outcome, returned, out_of_range,
  env_code, qualifier_at,
}
use module_oriented_software.Sha256.{Hash}
use module_oriented_software.Hook
use module_oriented_software.Hook.{Hook}
use module_oriented_software.Functor
use module_oriented_software.Functor.{Functor, TypeNames, invoke, assign}
use module_oriented_software.Sequence.{Base}
use module_oriented_software.Port.{PortBase, buffer_size, report, status_of, typed_port}

pub record Receiver (D W : Type 0) : Type 0 where
  pub port : PortBase W
  pub queue_size : ℕ
  pub hook : Hook D W
  pub reader : Functor D D W
  pub buffer : List D

module _ {D W : Type 0} where
  -- A value that is not set is `none`.
  unfoldable pub dequeue_data : Receiver D W → W → Receiver D W × W × EnvData (Option D)
  unfolding invoke
  dequeue_data p w = elim p.buffer [
    | [] ↦ (
      p,
      report p.port buffer_empty w,
      record { status = status_of p.port buffer_empty; value = none },
    )
    | x ∷ rest ↦
        let (reader, s) = invoke p.reader x w in
        (
          record p { reader = reader; buffer = rest },
          s.1,
          record { status = status_of p.port clear; value = some s.0 },
        )
  ]

  unfoldable pub enqueue_data : D → Receiver D W → W → Receiver D W × W × EnvStatus
  enqueue_data x p w =
      if ltb (length p.buffer) p.queue_size
      then (record p { buffer = p.buffer ++ x ∷ [] }, w, status_of p.port clear)
      else (p, report p.port buffer_overflow w, status_of p.port buffer_overflow)

  -- `read(data)`: the variable that is passed keeps its value where nothing is read.
  unfoldable pub read :
      D → Receiver D W → W → Outcome (Receiver D W × W × D × EnvStatus) (Receiver D W × W)
  unfolding dequeue_data
  read old p w =
      let (p', w', d) = dequeue_data p w in
      elim (qualifier_at d.status p.port.get_id) [
        | none ↦ out_of_range (p', w')
        | some code ↦ returned (
          p',
          w',
          (if not (code == env_code clear) then old else elim d.value [ none ↦ old | some x ↦ x ]),
          d.status,
        )
      ]

  unfoldable pub set_reader : Functor D D W → Receiver D W → Receiver D W × EnvStatus
  unfolding assign
  set_reader f p = (record p { reader = assign p.reader f }, status_of p.port clear)

abbrev pub identity : {D W : Type 0} → Base D D W
identity x w = (x, w)

module _ {D W : Type 0} (compute : String → Hash) (types : TypeNames) where
  unfoldable pub reset_reader : D → Receiver D W → Receiver D W × EnvStatus
  unfolding set_reader
  reset_reader default p = set_reader (Functor.unnamed compute types default identity) p

  unfoldable pub receiver_port : D → Hash → String → String → Receiver D W
  receiver_port default get_id name type = record {
    port = typed_port compute get_id name type;
    queue_size = buffer_size;
    hook = Hook.unnamed compute types.of_hooks;
    reader = Functor.unnamed compute types default identity;
    buffer = [];
  }

-- `PORT_TYPE_SENDER_SYNC` and `PORT_TYPE_SENDER_ASYNC`
abbrev pub friend_ports : List ℕ
friend_ports = 2 ∷ 3 ∷ []

-- The loop of `is_friend` leaves at the first number that differs.
unfoldable pub is_friend_of : ℕ → List ℕ → Bool
is_friend_of type [] = true
is_friend_of type (t ∷ ts) = if not (type == t) then false else is_friend_of type ts

unfoldable pub is_friend : ℕ → Bool
unfolding is_friend_of
is_friend type = is_friend_of type friend_ports
