-- ===== src/Port/Client/Buffers.antt =====
-- The buffers of a client port against the bounded queue of Port.Queue, and what a call comes to.
use module_oriented_software.Common.{
  ℕ, zero, suc, ◌≡◌, ◌≢◌, refl, ap, ap₂, ◌∙◌, ◌+◌, ◌<◌, ◌^◌, none, List, [], ◌∷◌, ◌++◌, arith,
  String, length, lt→ltb, ge→ltb, u64_suc, ==_ne, ==_refl, ◌≤◌,
}
use module_oriented_software.Common.OrderedMap.{insert, lookup}
use module_oriented_software.EnvUtils.{
  env_status, env_code, qualify, clear, buffer_overflow, returned, out_of_range,
}
use module_oriented_software.Sha256.{Hash}
use module_oriented_software.Port.{report, status_of}
use module_oriented_software.Port.Queue
use module_oriented_software.Port.Queue.{Call, put, get, Reply}
use module_oriented_software.Port.Observe.{put_reply, get_reply}
use module_oriented_software.Port.Server.{Response}
use module_oriented_software.Port.Client.{
  Client, create_request, push_response, get_response, count_down, forward, call, after_request,
  after_forward,
}

-- A client with one more request, and a number of transactions.
abbrev pub queued : {A R W : Type 0} → Hash → Hash → A → ℕ → Client A R W → Client A R W
queued server_id request_id args n p = record p {
  request_queue =
      p.request_queue
      ++ record { server_id = server_id; request_id = request_id; payload = args } ∷ [];
  transaction_count = n;
}

module _ {A R W : Type 0} where
  -- The calls that fill and empty the responses of a client, with what is seen of each.
  unfoldable pub run : List (Call (Response R)) → Client A R W → W → List (Reply (Response R))
  run [] p w = []
  run (put x ∷ cs) p w =
      let (p', w', s) = push_response x p w in put_reply p.port.get_id s ∷ run cs p' w'
  run (get ∷ cs) p w =
      let (p', w', d) = get_response p w in get_reply p.port.get_id d ∷ run cs p' w'

  put_refines :
      (x : Response R) (p : Client A R W) (w : W)
      → let (p', w', s) = push_response x p w in
        (◌≡◌ {A = List (Response R) × Reply (Response R)}
          (p'.response_queue, put_reply p.port.get_id s)
          (Queue.push p.response_queue_size x p.response_queue))
        × (p'.response_queue_size ≡ p.response_queue_size)
  unfolding push_response Queue.push insert lookup
  put_refines x p w = ground arith

  get_refines :
      (p : Client A R W) (w : W)
      → let (p', w', d) = get_response p w in
        (◌≡◌ {A = List (Response R) × Reply (Response R)}
          (p'.response_queue, get_reply p.port.get_id d)
          (Queue.pop p.response_queue))
        × (p'.response_queue_size ≡ p.response_queue_size)
  unfolding get_response Queue.pop insert lookup
  get_refines p w = ground arith

  -- Whatever `get_id()` gives, which the source calls and does not declare, so that these operations compile only once it is declared, and `get_response_`, which is constant and takes from the queue,
  -- only once the queue is mutable: the responses of a client are a bounded queue: over any calls it gives them in the order in which they came,
  -- refuses what exceeds its bound, and says when it is empty.
  pub run_client_refines :
      (cs : List (Call (Response R))) (p : Client A R W) (w : W)
      → run cs p w ≡ Queue.run p.response_queue_size cs p.response_queue
  unfolding run Queue.run
  run_client_refines [] p w = refl
  run_client_refines (put x ∷ cs) p w =
      let (e, size) = put_refines x p w in
      ap₂ ◌∷◌ (ap (λ r. r.1) e) (
        run_client_refines cs (push_response x p w).0 (push_response x p w).1
        ∙ ap₂ (λ cap q. Queue.run cap cs q) size (ap (λ r. r.0) e))
  run_client_refines (get ∷ cs) p w =
      let (e, size) = get_refines p w in
      ap₂ ◌∷◌ (ap (λ r. r.1) e) (
        run_client_refines cs (get_response p w).0 (get_response p w).1
        ∙ ap₂ (λ cap q. Queue.run cap cs q) size (ap (λ r. r.0) e))

  count_down_lem :
      (n : ℕ) (p : Client A R W)
      → p.transaction_count ≡ n
      → count_down n p ≡ record p { transaction_count = 0 }
  unfolding count_down
  count_down_lem zero p e = ap (λ k. record p { transaction_count = k }) e
  count_down_lem (suc n) p e = count_down_lem n (record p { transaction_count = n }) refl

  create_request_room :
      (server_id request_id : Hash) (args : A) (p : Client A R W) (w : W)
      → length p.request_queue < p.request_queue_size
      → create_request server_id request_id args p w ≡ (
        queued server_id request_id args (u64_suc p.transaction_count) p,
        w,
        status_of p.port clear,
      )
  unfolding create_request
  create_request_room server_id request_id args p w room = rw (lt→ltb _ _ room)

  create_request_full :
      (server_id request_id : Hash) (args : A) (p : Client A R W) (w : W)
      → p.request_queue_size ≤ length p.request_queue
      → create_request server_id request_id args p w
        ≡ (p, report p.port buffer_overflow w, status_of p.port buffer_overflow)
  unfolding create_request
  create_request_full server_id request_id args p w full = rw (ge→ltb _ _ full)

  forward_lem :
      (p : Client A R W) (w : W)
      → p.transaction_count ≢ 0
      → forward p w ≡ (record p { transaction_count = 0 }, w, env_status p.port.get_id)
  unfolding forward
  forward_lem p w h = rw (==_ne p.transaction_count 0 h, count_down_lem p.transaction_count p refl)

  after_request-clear :
      (id : Hash) (p : Client A R W) (w : W)
      → after_request id (p, w, qualify (env_status id) id (env_code clear))
        ≡ after_forward id (forward p w)
  unfolding after_request insert lookup
  after_request-clear id p w = ground (arith, ==_refl id)

  after_request_refused :
      (id : Hash) (p : Client A R W) (w : W)
      → after_request id (p, w, qualify (env_status id) id (env_code buffer_overflow))
        ≡ returned (
          p,
          w,
          record { status = qualify (env_status id) id (env_code buffer_overflow); value = none },
        )
  unfolding after_request insert lookup
  after_request_refused id p w = ground (arith, ==_refl id)

  after_forward_thrown :
      (id : Hash) (p : Client A R W) (w : W)
      → after_forward id (p, w, env_status id) ≡ out_of_range (p, w)
  unfolding after_forward insert lookup
  after_forward_thrown id p w = refl

  -- An asynchronous call for which there is room throws: its request stays in the queue, and the
  -- transaction that was counted for it is gone, so that no response is ever read.
  call_throws :
      (compute : String → Hash) (server_name call_name : String) (args : A) (p : Client A R W)
      (w : W)
      → p.transaction_count + 1 < 2 ^ 64
      → length p.request_queue < p.request_queue_size
      → call compute server_name call_name args p w
        ≡ out_of_range (queued (compute server_name) (compute call_name) args 0 p, w)
  unfolding call
  call_throws compute server_name call_name args p w h room =
      let id = p.port.get_id in
      let q =
        queued (compute server_name) (compute call_name) args (u64_suc p.transaction_count) p in
      ap (after_request id) (create_request_room _ _ args p w room)
      ∙ after_request-clear id q w
      ∙ ap (after_forward id) (forward_lem q w (omega arith))
      ∙ after_forward_thrown id (record q { transaction_count = 0 }) w

  -- An asynchronous call for which there is no room tells the handler, changes nothing, and returns the
  -- overflow and no value.
  call_overflows :
      (compute : String → Hash) (server_name call_name : String) (args : A) (p : Client A R W)
      (w : W)
      → p.request_queue_size ≤ length p.request_queue
      → call compute server_name call_name args p w
        ≡ returned (
          p,
          report p.port buffer_overflow w,
          record { status = status_of p.port buffer_overflow; value = none },
        )
  unfolding call
  call_overflows compute server_name call_name args p w full =
      ap (after_request p.port.get_id) (create_request_full _ _ args p w full)
      ∙ after_request_refused p.port.get_id p (report p.port buffer_overflow w)
