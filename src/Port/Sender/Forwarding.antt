-- ===== src/Port/Sender/Forwarding.antt =====
-- What `forward` and the two `write`s of a sender port do with the values that were written.
use module_oriented_software.Common.{
  ◌≡◌, ◌≢◌, refl, ◌∙◌, ap, ◌*◌, ◌≤◌, [], ◌∷◌, arith, length, none, take, drop, take_all, drop_all,
  empty_of_length, ==_ne, ◌==◌, false,
}
use module_oriented_software.Common.OrderedMap.{lookup}
use module_oriented_software.EnvUtils.{env_status, qualifier_at}
use module_oriented_software.Port.{PortInfo}
use module_oriented_software.Port.Sender.Rounds.{
  run_each, send_rounds-Sends, send_rounds-transaction_count, send_rounds_unconnected,
}
use module_oriented_software.Port.Sender.{Sender, forward}

module _ {D W : Type 0} where
  -- `forward` with transactions and a value for each of them and each connected port empties the
  -- transactions and runs the hook on the first values of the buffer, oldest first, one value for
  -- each transaction and each connected port; these values leave the buffer.
  forward_sends :
      (p : Sender D W) (w : W)
      → p.transaction_count ≢ 0
      → p.transaction_count * length p.port.connected ≤ length p.buffer
      → let (p', w', s') = forward p w in
        let k = p.transaction_count * length p.port.connected in
        (w' ≡ run_each p.hook.registry.entries (take k p.buffer) w)
        × (p'.buffer ≡ drop k p.buffer)
        × (p'.transaction_count ≡ 0)
  unfolding forward
  forward_sends p w some_left enough =
      let s = env_status p.port.get_id in
      let (e, t) = send_rounds-Sends p.transaction_count _ p w s refl enough in
      let waiting : (p.transaction_count == 0) ≡ false = ==_ne p.transaction_count 0 some_left in
      rw waiting (e, t.buffer, send_rounds-transaction_count p.transaction_count p w s refl)

  -- With one connected port, and a transaction for each value in the buffer, which is what the
  -- enqueued values leave, `forward` runs the hook on every value once, in the order of the buffer, and
  -- empties the buffer.
  forward_single :
      (c : PortInfo) (p : Sender D W) (w : W)
      → p.port.connected ≡ c ∷ []
      → p.transaction_count ≡ length p.buffer
      → p.buffer ≢ []
      → let (p', w', s') = forward p w in
        (w' ≡ run_each p.hook.registry.entries p.buffer w)
        × (p'.buffer ≡ [])
        × (p'.transaction_count ≡ 0)
  forward_single c p w one balanced filled =
      let size : p.transaction_count * length p.port.connected ≡ length p.buffer =
        rw (ap length one) (omega (arith, balanced)) in
      let (e, b, t) =
        forward_sends p w (λ z. filled (empty_of_length p.buffer (omega arith))) (omega arith) in
      (
        e ∙ ap (λ l. run_each p.hook.registry.entries l w) (take_all _ p.buffer (omega arith)),
        b ∙ drop_all _ p.buffer (omega arith),
        t,
      )

  -- With no port connected, `forward` drops the transactions and keeps the values: nothing is run, and
  -- the status has no qualifier, so that asking it for one throws.
  forward_unconnected :
      (p : Sender D W) (w : W)
      → p.port.connected ≡ []
      → p.transaction_count ≢ 0
      → let (p', w', s') = forward p w in
        (w' ≡ w)
        × (p'.buffer ≡ p.buffer)
        × (p'.transaction_count ≡ 0)
        × (qualifier_at s' p.port.get_id ≡ none)
  unfolding forward lookup
  forward_unconnected p w alone some_left =
      let waiting : (p.transaction_count == 0) ≡ false = ==_ne p.transaction_count 0 some_left in
      rw (waiting, send_rounds_unconnected p.transaction_count p w _ alone refl)
        (refl, refl, refl, refl)
