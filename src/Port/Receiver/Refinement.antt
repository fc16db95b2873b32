-- ===== src/Port/Receiver/Refinement.antt =====
-- The buffer of a receiver port against the bounded queue of Port.Queue.
use module_oriented_software.Common.{
  ◌≡◌, refl, List, [], ◌∷◌, arith, String, ap, ap₂, ◌∙◌, List-cases, inl, inr,
}
use module_oriented_software.Common.OrderedMap.{insert, lookup}
use module_oriented_software.Sha256.{Hash}
use module_oriented_software.Functor.{TypeNames}
use module_oriented_software.Functor.Plain.{IsPlain, invoke-IsPlain, invoke_plain, unnamed-IsPlain}
use module_oriented_software.Port.Queue
use module_oriented_software.Port.Queue.{Call, put, get, Reply}
use module_oriented_software.Port.Observe.{put_reply, get_reply}
use module_oriented_software.Port.Receiver.{
  Receiver, identity, dequeue_data, enqueue_data, receiver_port,
}

module _ {D W : Type 0} where
  -- The calls of a client in order, with what it sees of each.
  unfoldable pub run : List (Call D) → Receiver D W → W → List (Reply D)
  run [] p w = []
  run (put x ∷ cs) p w =
      let (p', w', s) = enqueue_data x p w in put_reply p.port.get_id s ∷ run cs p' w'
  run (get ∷ cs) p w =
      let (p', w', d) = dequeue_data p w in get_reply p.port.get_id d ∷ run cs p' w'

  put_refines :
      (x : D) (p : Receiver D W) (w : W)
      → IsPlain identity p.reader
      → let (p', w', s) = enqueue_data x p w in
        (◌≡◌ {A = List D × Reply D}
          (p'.buffer, put_reply p.port.get_id s)
          (Queue.push p.queue_size x p.buffer))
        × IsPlain identity p'.reader
        × (p'.queue_size ≡ p.queue_size)
  unfolding enqueue_data Queue.push insert lookup
  put_refines x p w plain = ground arith

  get_refines :
      (p : Receiver D W) (w : W)
      → IsPlain identity p.reader
      → let (p', w', d) = dequeue_data p w in
        (◌≡◌ {A = List D × Reply D} (p'.buffer, get_reply p.port.get_id d) (Queue.pop p.buffer))
        × IsPlain identity p'.reader
        × (p'.queue_size ≡ p.queue_size)
  unfolding dequeue_data Queue.pop insert lookup
  get_refines p w plain = elim (List-cases p.buffer) [
    | inl e ↦ ground arith
    | inr (x, xs, e) ↦
        rw (e, dequeue_data)
          (
            ground (arith, invoke_plain identity p.reader x w),
            invoke-IsPlain identity p.reader x w plain,
            refl,
          )
  ]

  -- Whatever `get_id()` gives, which the source calls and does not declare, so that these operations compile only once it is declared: a receiver
  -- whose reader is the identity, as `receiver_port` makes it, is a bounded queue of what it is sent: over any calls a client sees what it
  -- would see of the queue.
  pub run_refines :
      (cs : List (Call D)) (p : Receiver D W) (w : W)
      → IsPlain identity p.reader
      → run cs p w ≡ Queue.run p.queue_size cs p.buffer
  unfolding run Queue.run
  run_refines [] p w plain = refl
  run_refines (put x ∷ cs) p w plain =
      let (e, plain', size) = put_refines x p w plain in
      ap₂ ◌∷◌ (ap (λ r. r.1) e) (
        run_refines cs (enqueue_data x p w).0 (enqueue_data x p w).1 plain'
        ∙ ap₂ (λ cap q. Queue.run cap cs q) size (ap (λ r. r.0) e))
  run_refines (get ∷ cs) p w plain =
      let (e, plain', size) = get_refines p w plain in
      ap₂ ◌∷◌ (ap (λ r. r.1) e) (
        run_refines cs (dequeue_data p w).0 (dequeue_data p w).1 plain'
        ∙ ap₂ (λ cap q. Queue.run cap cs q) size (ap (λ r. r.0) e))

  -- A receiver port as its constructor makes it is an empty bounded queue of eight values.
  run-receiver_port :
      (compute : String → Hash) (types : TypeNames) (default : D) (get_id : Hash)
      (name type : String) (cs : List (Call D)) (w : W)
      → run cs (receiver_port compute types default get_id name type) w ≡ Queue.run 8 cs []
  unfolding receiver_port
  run-receiver_port compute types default get_id name type cs w =
      run_refines cs (receiver_port compute types default get_id name type) w
        (unnamed-IsPlain identity compute types default)
