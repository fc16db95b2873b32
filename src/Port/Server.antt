-- ===== src/Port/Server.antt =====
-- env/inc/base_server_port.hpp and env/inc/server_port.hpp: a port that keeps functions by the hashes of their names,
-- calls them, and buffers requests and responses. `A` is the tuple of the arguments, `R` the result.
pub mod Calls
pub mod Buffers
use module_oriented_software.Common.{
  ℕ, ◌==◌, ltb, not, Bool, true, false, Option, none, some, List, [], ◌∷◌, ◌++◌, String,
  if◌then◌else◌, length, u64_suc,
}
use module_oriented_software.Common.OrderedMap.{OrderedMap, insert, lookup, erase}
use module_oriented_software.EnvUtils.{
  clear, buffer_empty, buffer_overflow, call_exists, call_missing, env_code, EnvStatus, EnvData,
  qualifier_at, runtime, ErrorHandler, Outcome, returned, out_of_range,
}
use module_oriented_software.Sha256.{Hash}
use module_oriented_software.Hook
use module_oriented_software.Hook.{Hook}
use module_oriented_software.Functor.{TypeNames}
use module_oriented_software.Sequence.{Base}
use module_oriented_software.Port.{PortBase, buffer_size, report, status_of, port_base, typed_port}

-- `request<Args...>` and `response<RetType>`. Their identifiers are declared `uint64_t` and given hashes; the
-- model keeps the hashes.
pub record Request (A : Type 0) : Type 0 where
  pub server_id : Hash
  pub request_id : Hash
  pub payload : A

pub record Response (R : Type 0) : Type 0 where
  pub client_id : Hash
  pub payload : R

pub record Server (A R W : Type 0) : Type 0 where
  pub port : PortBase W
  pub transaction_count : ℕ
  pub response_queue_size : ℕ
  pub request_queue_size : ℕ
  pub before_call_hook : Hook A W
  pub after_call_hook : Hook A W
  pub response_buffer : List (Response R)
  pub request_buffer : List (Request A)
  pub calls : OrderedMap (Base A R W)

-- `back()` of a queue, its oldest value first; it is called where the queue holds a value.
unfoldable pub back : {D : Type 0} → D → List D → D
back x [] = x
back x (y ∷ ys) = back y ys

module _ {A R W : Type 0} where
  unfoldable pub call_known : Hash → Server A R W → Bool
  unfolding lookup
  call_known id p = elim (lookup id p.calls) [ none ↦ false | some f ↦ true ]

  -- `register_(id, function)`
  unfoldable pub register : Hash → Base A R W → Server A R W → W → Server A R W × W × EnvStatus
  unfolding call_known insert
  register id f p w =
      if not (call_known id p)
      then (record p { calls = insert id f p.calls }, w, status_of p.port clear)
      else (p, report p.port call_exists w, status_of p.port call_exists)

  -- `remove_(id)`
  unfoldable pub remove : Hash → Server A R W → W → Server A R W × W × EnvStatus
  unfolding call_known erase
  remove id p w =
      if call_known id p
      then (record p { calls = erase id p.calls }, w, status_of p.port clear)
      else (p, report p.port call_missing w, status_of p.port call_missing)

  -- The response is made between the two hooks.
  unfoldable pub create_response : Hash → A → Server A R W → W → Server A R W × W × EnvStatus
  unfolding lookup
  create_response call_id args p w =
      if ltb (length p.response_buffer) p.response_queue_size
      then (elim (lookup call_id p.calls) [
        | none ↦ (p, report p.port call_missing w, status_of p.port call_missing)
        | some f ↦
            let (before, w₁) = Hook.run p.before_call_hook args w in
            let (result, w₂) = f args w₁ in
            let (after, w₃) = Hook.run p.after_call_hook args w₂ in
            (
              record p {
                before_call_hook = before;
                after_call_hook = after;
                response_buffer =
                    p.response_buffer
                    ++ record { client_id = p.port.get_id; payload = result } ∷ [];
                transaction_count = u64_suc p.transaction_count;
              },
              w₃,
              status_of p.port clear,
            )
      ])
      else (p, report p.port buffer_overflow w, status_of p.port buffer_overflow)

  -- The value is `back()`, the newest; `pop()` takes the front away, the oldest. A value that is not set
  -- is `none`. The method is constant and the buffer not mutable: this is what its text says, once the buffer is.
  unfoldable pub get_response : Server A R W → W → Server A R W × W × EnvData (Option (Response R))
  unfolding back
  get_response p w = elim p.response_buffer [
    | [] ↦ (
      p,
      report p.port buffer_empty w,
      record { status = status_of p.port buffer_empty; value = none },
    )
    | x ∷ rest ↦ (
      record p { response_buffer = rest },
      w,
      record { status = status_of p.port clear; value = some (back x rest) },
    )
  ]

  unfoldable pub push_request : Request A → Server A R W → W → Server A R W × W × EnvStatus
  push_request request p w =
      if ltb (length p.request_buffer) p.request_queue_size
      then (
        record p { request_buffer = p.request_buffer ++ request ∷ [] },
        w,
        status_of p.port clear,
      )
      else (p, report p.port buffer_overflow w, status_of p.port buffer_overflow)

  -- As `get_response`, of a buffer that is not mutable there either.
  unfoldable pub get_request : Server A R W → W → Server A R W × W × EnvData (Option (Request A))
  unfolding back
  get_request p w = elim p.request_buffer [
    | [] ↦ (
      p,
      report p.port buffer_empty w,
      record { status = status_of p.port buffer_empty; value = none },
    )
    | x ∷ rest ↦ (
      record p { request_buffer = rest },
      w,
      record { status = status_of p.port clear; value = some (back x rest) },
    )
  ]

module _ {A R W : Type 0} (compute : String → Hash) where
  unfoldable pub register_call :
      String → Base A R W → Server A R W → W → Server A R W × W × EnvStatus
  unfolding register
  register_call name f p w = register (compute name) f p w

  unfoldable pub remove_call : String → Server A R W → W → Server A R W × W × EnvStatus
  unfolding remove
  remove_call name p w = remove (compute name) p w

  -- `std::for_each` over an initializer list: every element is registered, whatever the results.
  unfoldable pub register_all : List (String × Base A R W) → Server A R W → W → Server A R W × W
  unfolding register
  register_all [] p w = (p, w)
  register_all ((name, f) ∷ fs) p w =
      let (p', w', s) = register (compute name) f p w in register_all fs p' w'

  -- The constructor of a pack of functions leaves at the first that is refused, and tells the handler
  -- once more.
  unfoldable pub register_until :
      List (String × Base A R W) → Server A R W → W → Outcome (Server A R W × W) (Server A R W × W)
  unfolding register
  register_until [] p w = returned (p, w)
  register_until ((name, f) ∷ fs) p w =
      let (p', w', s) = register (compute name) f p w in
      let rest = register_until fs p' w' in
      elim (qualifier_at s p'.port.get_id) [
        | none ↦ out_of_range (p', w')
        | some code ↦
            if not (code == env_code clear)
            then returned (p', p'.port.error_handler p'.port.get_id code runtime w')
            else rest
      ]

  unfoldable pub base_server_port : TypeNames → Hash → String → Server A R W
  base_server_port types get_id name = record {
    port = port_base get_id name;
    transaction_count = 0;
    response_queue_size = buffer_size;
    request_queue_size = buffer_size;
    before_call_hook = Hook.unnamed compute types.of_hooks;
    after_call_hook = Hook.unnamed compute types.of_hooks;
    response_buffer = [];
    request_buffer = [];
    calls = [];
  }

  unfoldable pub server_port : TypeNames → Hash → String → String → Server A R W
  unfolding base_server_port
  server_port types get_id name type = record (base_server_port types get_id name) {
    port = typed_port compute get_id name type;
  }
