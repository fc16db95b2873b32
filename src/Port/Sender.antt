-- ===== src/Port/Sender.antt =====
-- env/inc/base_sender_port.hpp and env/inc/sender_port.hpp: a port that passes what is written through a functor,
-- the writer, buffers it, and hands it on by `forward`. `D` is the type of the data.
pub mod Forwarding
pub mod Rounds
use module_oriented_software.Common.{
  ℕ, zero, suc, ◌==◌, ltb, not, ◌-◌, Option, none, some, List, [], ◌∷◌, ◌++◌, String, if◌then◌else◌,
  length, u64_suc,
}
use module_oriented_software.EnvUtils.{
  clear, buffer_empty, buffer_overflow, no_transactions, env_code, EnvStatus, env_status, qualify,
  qualifier_at, EnvData, Outcome, returned, out_of_range, runtime,
}
use module_oriented_software.Sha256.{Hash}
use module_oriented_software.Hook
use module_oriented_software.Hook.{Hook}
use module_oriented_software.Functor
use module_oriented_software.Functor.{Functor, TypeNames, invoke, assign}
use module_oriented_software.Sequence.{Base}
use module_oriented_software.Port.{PortBase, PortInfo, buffer_size, report, status_of, typed_port}

pub record Sender (D W : Type 0) : Type 0 where
  pub port : PortBase W
  pub queue_size : ℕ
  pub transaction_count : ℕ
  pub hook : Hook D W
  pub functor : Functor D D W
  pub buffer : List D

module _ {D W : Type 0} where
  -- The value is passed through the writer before it is buffered.
  unfoldable pub enqueue_data : D → Sender D W → W → Sender D W × W × EnvStatus
  enqueue_data x p w =
      if ltb (length p.buffer) p.queue_size
      then (let (functor, s) = invoke p.functor x w in
          (
            record p {
              functor = functor;
              buffer = p.buffer ++ s.0 ∷ [];
              transaction_count = u64_suc p.transaction_count;
            },
            s.1,
            status_of p.port clear,
          ))
      else (p, report p.port buffer_overflow w, status_of p.port buffer_overflow)

  -- A value that is not set is `none`.
  unfoldable pub dequeue_data : Sender D W → W → Sender D W × W × EnvData (Option D)
  dequeue_data p w = elim p.buffer [
    | [] ↦ (
      p,
      report p.port buffer_empty w,
      record { status = status_of p.port buffer_empty; value = none },
    )
    | x ∷ rest ↦
        (record p { buffer = rest }, w, record { status = status_of p.port clear; value = some x })
  ]

  -- The body of the inner loop of `forward_`, for one connected port after another: a value is taken
  -- from the buffer and the hook is run on it; with no value left, `goto next` leaves the loop. That the
  -- value is set is what the code `ENV_CLEAR` says, the test of the source.
  unfoldable pub send_round :
      List PortInfo → Sender D W → W → EnvStatus → Sender D W × W × EnvStatus
  unfolding dequeue_data
  send_round [] p w status = (p, w, status)
  send_round (c ∷ cs) p w status =
      let (p', w', d) = dequeue_data p w in
      elim d.value [
        | some x ↦
            let (hook, w'') = Hook.run p'.hook x w' in
            send_round cs (record p' { hook = hook }) w''
              (qualify status p.port.get_id (env_code clear))
        | none ↦ (
          p',
          report p'.port buffer_empty w',
          qualify status p.port.get_id (env_code buffer_empty),
        )
      ]

  -- The outer loop: `while (transaction_count_) { ...; transaction_count_--; }`
  unfoldable pub send_rounds : ℕ → Sender D W → W → EnvStatus → Sender D W × W × EnvStatus
  unfolding send_round
  send_rounds zero p w status = (p, w, status)
  send_rounds (suc n) p w status =
      let (p', w', status') = send_round p.port.connected p w status in
      send_rounds n (record p' { transaction_count = n }) w' status'

  -- `forward_`. Nothing in the repository puts a port among the connected ones, and the loop over them takes each by a reference that is
  -- not constant from a constant list: this is what its text says for any list.
  unfoldable pub forward : Sender D W → W → Sender D W × W × EnvStatus
  unfolding send_rounds
  forward p w =
      if not (p.transaction_count == 0)
      then send_rounds p.transaction_count p w (env_status p.port.get_id)
      else (p, report p.port no_transactions w, status_of p.port no_transactions)

  -- `sync_sender_port_t::write`
  unfoldable pub sync_write : D → Sender D W → W → Sender D W × W × EnvStatus
  sync_write x p w = enqueue_data x p w

  -- `async_sender_port_t::write`: the status that is asked is the one of `write`, which has no qualifier,
  -- and not the one of `enqueue_data`.
  unfoldable pub async_write :
      D → Sender D W → W → Outcome (Sender D W × W × EnvStatus) (Sender D W × W)
  unfolding forward
  async_write x p w =
      let status = env_status p.port.get_id in
      let (p', w', enqueued) = enqueue_data x p w in
      elim (qualifier_at status p.port.get_id) [
        | none ↦ out_of_range (p', w')
        | some code ↦
            returned (if not (code == env_code clear) then (p', w', status) else forward p' w')
      ]

  unfoldable pub set_writer : Functor D D W → Sender D W → Sender D W × EnvStatus
  unfolding assign
  set_writer f p = (record p { functor = assign p.functor f }, status_of p.port clear)

abbrev pub identity : {D W : Type 0} → Base D D W
identity x w = (x, w)

module _ {D W : Type 0} (compute : String → Hash) (types : TypeNames) where
  unfoldable pub reset_writer : D → Sender D W → Sender D W × EnvStatus
  unfolding set_writer
  reset_writer default p = set_writer (Functor.unnamed compute types default identity) p

  unfoldable pub sender_port : D → Hash → String → String → Sender D W
  sender_port default get_id name type = record {
    port = typed_port compute get_id name type;
    queue_size = buffer_size;
    transaction_count = 0;
    hook = Hook.unnamed compute types.of_hooks;
    functor = Functor.unnamed compute types default identity;
    buffer = [];
  }
