-- ===== src/Port/Sender/Rounds.antt =====
-- The rounds of `forward_` of a sender port: what they take from the buffer and run the hook on.
use native.Mathlib.Nat.{suc-mul}
use module_oriented_software.Common.{
  ℕ, zero, suc, ◌≡◌, refl, ◌∙◌, ap, ◌+◌, ◌*◌, subst, ◌≤◌, List, [], ◌∷◌, ◌++◌, arith, length,
  List-cases, inl, inr, u64_suc, sym, take, drop, take-add, drop-add, length-drop,
}
use module_oriented_software.Common.OrderedMap.{OrderedMap}
use module_oriented_software.EnvUtils.{EnvStatus, env_code, buffer_empty, clear, qualify}
use module_oriented_software.Sha256.{Hash}
use module_oriented_software.Hook
use module_oriented_software.Hook.{Hook, HookFunction, run_entries}
use module_oriented_software.Port.{PortInfo, report}
use module_oriented_software.Port.Sender.{Sender, send_round, send_rounds}

-- The effects of a hook's functions on each of the values in turn.
abbrev pub run_each : {D W : Type 0} → OrderedMap (Hash × HookFunction D W) → List D → W → W
run_each m [] w = w
run_each m (x ∷ xs) w = run_each m xs (run_entries m x w)

module _ {D W : Type 0} where
  -- What a round takes leaves the rest of the buffer, the port and the functions of the hook.
  pub record Taken (n : ℕ) (p p' : Sender D W) : Type 0 where
    pub buffer : p'.buffer ≡ drop n p.buffer
    pub port : p'.port ≡ p.port
    pub registry : p'.hook.registry ≡ p.hook.registry

  -- The port after one value went to one connected port.
  abbrev sent_one : Sender D W → List D → Sender D W
  sent_one p xs = record p {
    buffer = xs;
    hook = record p.hook { call_count = u64_suc p.hook.call_count };
  }

  send_round_sends :
      (c : PortInfo) (cs : List PortInfo) (p : Sender D W) (x : D) (xs : List D) (w : W)
      (s : EnvStatus)
      → p.buffer ≡ x ∷ xs
      → send_round (c ∷ cs) p w s
        ≡ send_round cs
            (sent_one p xs)
            (run_entries p.hook.registry.entries x w)
            (qualify s p.port.get_id (env_code clear))
  unfolding send_round Hook.run
  send_round_sends c cs p x xs w s e = ground arith

  send_round_starves :
      (c : PortInfo) (cs : List PortInfo) (p : Sender D W) (w : W) (s : EnvStatus)
      → p.buffer ≡ []
      → send_round (c ∷ cs) p w s ≡ (
        p,
        report p.port buffer_empty (report p.port buffer_empty w),
        qualify s p.port.get_id (env_code buffer_empty),
      )
  unfolding send_round
  send_round_starves c cs p w s e = ground arith

  send_round-Taken :
      (cs : List PortInfo) (p : Sender D W) (w : W) (s : EnvStatus)
      → Taken (length cs) p (send_round cs p w s).0
  unfolding send_round
  send_round-Taken [] p w s = record { buffer = refl; port = refl; registry = refl }
  send_round-Taken (c ∷ cs) p w s = elim (List-cases p.buffer) [
    | inl e ↦
        rw (send_round_starves c cs p w s e)
          (record { buffer = rw e; port = refl; registry = refl })
    | inr (x, xs, e) ↦
        let t =
          send_round-Taken cs (sent_one p xs) (run_entries p.hook.registry.entries x w)
            (qualify s p.port.get_id (env_code clear)) in
        rw (send_round_sends c cs p x xs w s e) (record {
          buffer = t.buffer ∙ ap (drop (suc (length cs))) (sym e);
          port = t.port;
          registry = t.registry;
        })
  ]

  send_round-run_each :
      (cs : List PortInfo) (p : Sender D W) (w : W) (s : EnvStatus)
      → length cs ≤ length p.buffer
      → (send_round cs p w s).1 ≡ run_each p.hook.registry.entries (take (length cs) p.buffer) w
  unfolding send_round
  send_round-run_each [] p w s h = refl
  send_round-run_each (c ∷ cs) p w s h = elim (List-cases p.buffer) [
    | inl e ↦ absurd (omega (arith, ap length e))
    | inr (x, xs, e) ↦
        let entries = p.hook.registry.entries in
        ap (λ r. r.1) (send_round_sends c cs p x xs w s e)
        ∙ send_round-run_each cs (sent_one p xs) (run_entries entries x w)
            (qualify s p.port.get_id (env_code clear)) (omega (arith, ap length e))
        ∙ ap (λ l. run_each entries (take (suc (length cs)) l) w) (sym e)
  ]

  run_each-append :
      (m : OrderedMap (Hash × HookFunction D W)) (xs ys : List D) (w : W)
      → run_each m (xs ++ ys) w ≡ run_each m ys (run_each m xs w)
  run_each-append m [] ys w = refl
  run_each-append m (x ∷ xs) ys w = run_each-append m xs ys (run_entries m x w)

  -- One round of `c` values, and then rounds that take `k` more.
  after_round :
      (c k : ℕ) (p p₁ p₂ : Sender D W) (w w₁ w₂ : W)
      → Taken c p p₁
      → w₁ ≡ run_each p.hook.registry.entries (take c p.buffer) w
      → (w₂ ≡ run_each p₁.hook.registry.entries (take k p₁.buffer) w₁) × Taken k p₁ p₂
      → (w₂ ≡ run_each p.hook.registry.entries (take (c + k) p.buffer) w) × Taken (c + k) p p₂
  after_round c k p p₁ p₂ w w₁ w₂ t e (e', t') = (
    rw
        (
          take-add c k p.buffer,
          run_each-append p.hook.registry.entries (take c p.buffer) (take k (drop c p.buffer)) w,
          ← e,
          ← t.buffer,
          ← ap (λ r. r.entries) t.registry,
        )
        e',
    record {
      buffer = t'.buffer ∙ ap (drop k) t.buffer ∙ sym (drop-add c k p.buffer);
      port = t'.port ∙ t.port;
      registry = t'.registry ∙ t.registry;
    },
  )

  -- What `n` rounds do when they take `k` values.
  abbrev pub Sends : ℕ → ℕ → Sender D W → W → EnvStatus → Type 0
  Sends n k p w s =
      let (p', w', s') = send_rounds n p w s in
      (w' ≡ run_each p.hook.registry.entries (take k p.buffer) w) × Taken k p p'

  pub send_rounds-Sends :
      (n k : ℕ) (p : Sender D W) (w : W) (s : EnvStatus)
      → k ≡ n * length p.port.connected
      → k ≤ length p.buffer
      → Sends n k p w s
  unfolding send_rounds
  send_rounds-Sends zero k p w s e h =
      let none_left : 0 ≡ k = omega arith in
      subst (λ j. Sends zero j p w s) none_left
        (refl, record { buffer = refl; port = refl; registry = refl })
  send_rounds-Sends (suc n) k p w s e h =
      let c = length p.port.connected in
      let r = send_round p.port.connected p w s in
      let t = send_round-Taken p.port.connected p w s in
      let same : n * c ≡ n * length r.0.port.connected =
        ap (λ b. n * length b.connected) (sym t.port) in
      let sum : c + n * c ≡ k = omega (arith, suc-mul n c) in
      subst (λ j. Sends (suc n) j p w s) sum
        (after_round c (n * c) p (record r.0 { transaction_count = n }) _ w r.1 _
          (record { buffer = t.buffer; port = t.port; registry = t.registry })
          (send_round-run_each p.port.connected p w s (omega (arith, suc-mul n c)))
          (send_rounds-Sends n (n * c) (record r.0 { transaction_count = n }) r.1 r.2 same
            (omega (arith, ap length t.buffer, length-drop c p.buffer, suc-mul n c))))

  pub send_rounds-transaction_count :
      (n : ℕ) (p : Sender D W) (w : W) (s : EnvStatus)
      → p.transaction_count ≡ n
      → (send_rounds n p w s).0.transaction_count ≡ 0
  unfolding send_rounds
  send_rounds-transaction_count zero p w s e = e
  send_rounds-transaction_count (suc n) p w s e =
      let r = send_round p.port.connected p w s in
      send_rounds-transaction_count n (record r.0 { transaction_count = n }) r.1 r.2 refl

  send_round_none :
      (l : List PortInfo) (p : Sender D W) (w : W) (s : EnvStatus)
      → l ≡ []
      → send_round l p w s ≡ (p, w, s)
  unfolding send_round
  send_round_none l p w s e = rw e

  -- Rounds with no port connected only count down.
  pub send_rounds_unconnected :
      (n : ℕ) (p : Sender D W) (w : W) (s : EnvStatus)
      → p.port.connected ≡ []
      → p.transaction_count ≡ n
      → send_rounds n p w s ≡ (record p { transaction_count = 0 }, w, s)
  unfolding send_rounds
  send_rounds_unconnected zero p w s alone e =
      ap (λ k. (record p { transaction_count = k }, w, s)) e
  send_rounds_unconnected (suc n) p w s alone e =
      rw (send_round_none p.port.connected p w s alone)
        (send_rounds_unconnected n (record p { transaction_count = n }) w s alone refl)
