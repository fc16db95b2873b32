-- ===== src/Port/Server/Buffers.antt =====
-- The buffers of a server port: `back()` and `pop()` of `std::queue` act on opposite ends.
use module_oriented_software.Common.{
  ℕ, suc, zero, ◌≡◌, refl, ap, Option, some, List, [], ◌∷◌, ◌++◌, arith, length,
}
use module_oriented_software.EnvUtils.{clear}
use module_oriented_software.Port.{status_of}
use module_oriented_software.Port.Server.{
  Server, Request, Response, back, get_request, get_response,
}

pub back-append : {D : Type 0} (x y : D) (xs : List D) → back x (xs ++ y ∷ []) ≡ y
unfolding back
back-append x y [] = refl
back-append x y (z ∷ xs) = back-append z y xs

abbrev pub repeated : {D : Type 0} → ℕ → D → List D
repeated zero x = []
repeated (suc n) x = x ∷ repeated n x

module _ {A R W : Type 0} where
  -- Reading a response gives the newest one and drops the oldest: with two or more in the buffer, the
  -- oldest is lost unread and the newest stays, to be given again.
  get_response_ends :
      (p : Server A R W) (w : W) (x y : Response R) (mid : List (Response R))
      → p.response_buffer ≡ x ∷ (mid ++ y ∷ [])
      → get_response p w ≡ (
        record p { response_buffer = mid ++ y ∷ [] },
        w,
        record { status = status_of p.port clear; value = some y },
      )
  unfolding get_response
  get_response_ends p w x y mid e = rw (e, get_response) (ground (arith, back-append x y mid))

  -- With one response in the buffer the two ends are one: it is given and taken away.
  pub get_response_single :
      (p : Server A R W) (w : W) (x : Response R)
      → p.response_buffer ≡ x ∷ []
      → get_response p w ≡ (
        record p { response_buffer = [] },
        w,
        record { status = status_of p.port clear; value = some x },
      )
  unfolding get_response back
  get_response_single p w x e = rw (e, get_response)

  -- The values that a number of calls of `get_request` give.
  unfoldable pub drain_requests : ℕ → Server A R W → W → List (Option (Request A))
  drain_requests zero p w = []
  drain_requests (suc n) p w = let (p', w', d) = get_request p w in d.value ∷ drain_requests n p' w'

  get_request_newest :
      (p : Server A R W) (w : W) (x y : Request A) (xs : List (Request A))
      → p.request_buffer ≡ x ∷ (xs ++ y ∷ [])
      → get_request p w ≡ (
        record p { request_buffer = xs ++ y ∷ [] },
        w,
        record { status = status_of p.port clear; value = some y },
      )
  unfolding get_request
  get_request_newest p w x y xs e = rw (e, get_request) (ground (arith, back-append x y xs))

  get_request_last :
      (p : Server A R W) (w : W) (y : Request A)
      → p.request_buffer ≡ y ∷ []
      → get_request p w ≡ (
        record p { request_buffer = [] },
        w,
        record { status = status_of p.port clear; value = some y },
      )
  unfolding get_request back
  get_request_last p w y e = rw (e, get_request)

  -- A server that reads all its requests gets the last one that was pushed as often as there are
  -- requests, and never one of the others.
  drain_requests-repeated :
      (xs : List (Request A)) (y : Request A) (p : Server A R W) (w : W)
      → p.request_buffer ≡ xs ++ y ∷ []
      → drain_requests (suc (length xs)) p w ≡ repeated (suc (length xs)) (some y)
  unfolding drain_requests
  drain_requests-repeated [] y p w e = rw (get_request_last p w y e)
  drain_requests-repeated (x ∷ xs) y p w e = rw (get_request_newest p w x y xs e) (
      ap (◌∷◌ (some y))
        (drain_requests-repeated xs y (record p { request_buffer = xs ++ y ∷ [] }) w refl))
