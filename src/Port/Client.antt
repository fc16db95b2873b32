-- ===== src/Port/Client.antt =====
-- env/inc/base_client_port.hpp and env/inc/client_port.hpp: a port that buffers requests to servers and their
-- responses. `A` is the tuple of the arguments, `R` the result.
pub mod Buffers
use module_oriented_software.Common.{
  ℕ, zero, suc, ◌==◌, ltb, not, Option, none, some, List, [], ◌∷◌, ◌++◌, String, if◌then◌else◌,
  length, u64_suc,
}
use module_oriented_software.EnvUtils.{
  clear, buffer_empty, buffer_overflow, no_transactions, env_code, EnvStatus, env_status, qualify,
  EnvData, qualifier_at, Outcome, returned, out_of_range,
}
use module_oriented_software.Sha256.{Hash}
use module_oriented_software.Hook
use module_oriented_software.Hook.{Hook}
use module_oriented_software.Functor.{TypeNames}
use module_oriented_software.Port.{PortBase, buffer_size, report, status_of, typed_port}
use module_oriented_software.Port.Server.{Request, Response}

pub record Client (A R W : Type 0) : Type 0 where
  pub port : PortBase W
  pub transaction_count : ℕ
  pub response_queue_size : ℕ
  pub request_queue_size : ℕ
  pub before_call_hook : Hook A W
  pub after_call_hook : Hook A W
  pub response_queue : List (Response R)
  pub request_queue : List (Request A)

module _ {A R W : Type 0} where
  unfoldable pub create_request : Hash → Hash → A → Client A R W → W → Client A R W × W × EnvStatus
  create_request server_id request_id args p w =
      if ltb (length p.request_queue) p.request_queue_size
      then (
        record p {
          request_queue =
              p.request_queue
              ++ record { server_id = server_id; request_id = request_id; payload = args } ∷ [];
          transaction_count = u64_suc p.transaction_count;
        },
        w,
        status_of p.port clear,
      )
      else (p, report p.port buffer_overflow w, status_of p.port buffer_overflow)

  -- A value that is not set is `none`. The method is constant and the queue not mutable: this is what its text says, once the queue is.
  unfoldable pub get_request : Client A R W → W → Client A R W × W × EnvData (Option (Request A))
  get_request p w = elim p.request_queue [
    | [] ↦ (
      p,
      report p.port buffer_empty w,
      record { status = status_of p.port buffer_empty; value = none },
    )
    | x ∷ rest ↦ (
      record p { request_queue = rest },
      w,
      record { status = status_of p.port clear; value = some x },
    )
  ]

  unfoldable pub push_response : Response R → Client A R W → W → Client A R W × W × EnvStatus
  push_response resp p w =
      if ltb (length p.response_queue) p.response_queue_size
      then (record p { response_queue = p.response_queue ++ resp ∷ [] }, w, status_of p.port clear)
      else (p, report p.port buffer_overflow w, status_of p.port buffer_overflow)

  -- As `get_request`, of a queue that is not mutable there either.
  unfoldable pub get_response : Client A R W → W → Client A R W × W × EnvData (Option (Response R))
  get_response p w = elim p.response_queue [
    | [] ↦ (
      p,
      report p.port buffer_empty w,
      record { status = status_of p.port buffer_empty; value = none },
    )
    | x ∷ rest ↦ (
      record p { response_queue = rest },
      w,
      record { status = status_of p.port clear; value = some x },
    )
  ]

  -- `while (transaction_count_) { transaction_count_--; }`: all else of the body is a comment there.
  unfoldable pub count_down : ℕ → Client A R W → Client A R W
  count_down zero p = p
  count_down (suc n) p = count_down n (record p { transaction_count = n })

  unfoldable pub forward : Client A R W → W → Client A R W × W × EnvStatus
  unfolding count_down
  forward p w =
      if not (p.transaction_count == 0)
      then (count_down p.transaction_count p, w, env_status p.port.get_id)
      else (p, report p.port no_transactions w, status_of p.port no_transactions)

  -- The end of `call__`, once the requests are forwarded.
  unfoldable pub after_forward :
      Hash
      → Client A R W × W × EnvStatus
      → Outcome (Client A R W × W × EnvData (Option (Response R))) (Client A R W × W)
  unfolding get_response
  after_forward id (p, w, forwarding_status) =
      let (p', w', response) = get_response p w in
      elim (qualifier_at forwarding_status id) [
        | none ↦ out_of_range (p, w)
        | some code ↦
            if not (code == env_code clear)
            then returned (p, w, record { status = qualify (env_status id) id code; value = none })
            else (elim (qualifier_at response.status id) [
              | none ↦ out_of_range (p', w')
              | some code' ↦ returned (
                p',
                w',
                record {
                  status = qualify (env_status id) id code';
                  value = if not (code' == env_code clear) then none else response.value;
                },
              )
            ])
      ]

  -- What `call__` does with the outcome of `create_request_`.
  unfoldable pub after_request :
      Hash
      → Client A R W × W × EnvStatus
      → Outcome (Client A R W × W × EnvData (Option (Response R))) (Client A R W × W)
  unfolding after_forward
  after_request id (p, w, request_status) = elim (qualifier_at request_status id) [
    | none ↦ out_of_range (p, w)
    | some code ↦
        if not (code == env_code clear)
        then returned (p, w, record { status = qualify (env_status id) id code; value = none })
        else after_forward id (forward p w)
  ]

module _ {A R W : Type 0} (compute : String → Hash) where
  -- `request__` of a synchronous client
  unfoldable pub request : String → String → A → Client A R W → W → Client A R W × W × EnvStatus
  unfolding create_request
  request server_name call_name args p w =
      create_request (compute server_name) (compute call_name) args p w

  -- `call__` of an asynchronous client. Its value is set on the last branch alone.
  unfoldable pub call :
      String
      → String
      → A
      → Client A R W
      → W
      → Outcome (Client A R W × W × EnvData (Option (Response R))) (Client A R W × W)
  unfolding after_request
  call server_name call_name args p w =
      after_request p.port.get_id
        (create_request (compute server_name) (compute call_name) args p w)

  unfoldable pub client_port : TypeNames → Hash → String → String → Client A R W
  client_port types get_id name type = record {
    port = typed_port compute get_id name type;
    transaction_count = 0;
    response_queue_size = buffer_size;
    request_queue_size = buffer_size;
    before_call_hook = Hook.unnamed compute types.of_hooks;
    after_call_hook = Hook.unnamed compute types.of_hooks;
    response_queue = [];
    request_queue = [];
  }
