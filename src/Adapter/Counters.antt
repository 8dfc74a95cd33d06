-- ===== src/Adapter/Counters.antt =====
-- The connection counters of engine/src/DeterministicBrokerAdapter.cpp.
use mynyra.Prelude.{
  ℕ, ◌+◌, ◌%◌, ◌^◌, ◌≡◌, refl, sym, ap, ◌∙◌, Bool, true, false, not, ◌&&◌, ◌||◌, String, Option,
  none, some, List, [], ◌∷◌, ◌++◌, arith, ltb, if◌then◌else◌, Bool-cases, inl, inr, subst,
}
use mynyra.Contracts.{NormalizedOrder, CancelRequest, AccountSnapshot, InstrumentSpec, Decimal64}
use mynyra.Financial.Units.{Price, Money, Fraction}
use mynyra.Doubles.{Doubles}
use mynyra.Adapter.State.{
  DeterministicBrokerAdapter, FaultConfig, bump, new_adapter, connect, disconnect, cancel,
  set_simulation_costs, with_rates,
}
use mynyra.Adapter.Submission.{
  strikes, fault_disconnect, fault_latency, settle_fill, fill_order, answer, submit,
}
use mynyra.Adapter.Controls.{
  inject_next_error, inject_next_partial_fill, set_fault_config, set_account_snapshot,
  set_instrument_spec, reconcile,
}

pub data Operation (F : Doubles) : Type 0 where
  connects : Operation F
  disconnects : Operation F
  submits : NormalizedOrder → Operation F
  cancels : CancelRequest → Operation F
  sets_costs : F.Double → F.Double → Operation F
  injects_error : String → Operation F
  injects_partial : F.Double → Operation F
  sets_faults : FaultConfig → Operation F
  sets_account : AccountSnapshot → Operation F
  sets_instrument : InstrumentSpec → Operation F
  reconciles : AccountSnapshot → ℕ → Operation F

unfoldable pub operate :
    (F : Doubles) → Operation F → DeterministicBrokerAdapter F → DeterministicBrokerAdapter F
operate F connects a = (connect F a).2
operate F disconnects a = (disconnect F a).1
operate F (submits order) a = (submit F order a).2
operate F (cancels request) a = (cancel F request a).2
operate F (sets_costs fee bps) a = (set_simulation_costs F fee bps a).1
operate F (injects_error reason) a = inject_next_error F reason a
operate F (injects_partial ratio) a = inject_next_partial_fill F ratio a
operate F (sets_faults config) a = set_fault_config F config a
operate F (sets_account snapshot) a = set_account_snapshot F snapshot a
operate F (sets_instrument spec) a = set_instrument_spec F spec a
operate F (reconciles account timestamp) a = (reconcile F account timestamp a).1

unfoldable pub operate_all :
    (F : Doubles) → List (Operation F) → DeterministicBrokerAdapter F → DeterministicBrokerAdapter F
operate_all F [] a = a
operate_all F (o ∷ os) a = operate_all F os (operate F o a)

abbrev pub one_if : Bool → ℕ
one_if true = 1
one_if false = 0

pub record Counters : Type 0 where
  pub connected : Bool
  pub ever_connected : Bool
  pub connect_count : ℕ
  pub disconnect_count : ℕ
  pub reconnect_count : ℕ
  pub fault_disconnects : ℕ

abbrev pub counters : (F : Doubles) → DeterministicBrokerAdapter F → Counters
counters F a = record {
  connected = a.connected;
  ever_connected = a.ever_connected;
  connect_count = a.connect_count;
  disconnect_count = a.disconnect_count;
  reconnect_count = a.reconnect_count;
  fault_disconnects = a.fault_disconnects;
}

-- Connections begun and ended balance, and each but the first is a reconnection, in the arithmetic of
-- 64-bit counters.
abbrev pub Balance : Counters → Type 0
Balance c =
    ((c.connect_count + c.fault_disconnects) % 2 ^ 64
      ≡ (c.disconnect_count + one_if c.connected) % 2 ^ 64)
    × ((c.connect_count + c.fault_disconnects) % 2 ^ 64
        ≡ (c.reconnect_count + one_if c.ever_connected) % 2 ^ 64)
    × ((not c.connected || c.ever_connected) ≡ true)

module _ (F : Doubles) where
  counters-settle_fill :
      (order : NormalizedOrder) (split : Decimal64 × Decimal64) (o : Option (Price × Money))
      (a : DeterministicBrokerAdapter F)
      → counters F (settle_fill F order split o a).1 ≡ counters F a
  counters-settle_fill order split none a = refl
  counters-settle_fill order split (some p) a = refl

  counters-answer :
      (order : NormalizedOrder) (a : DeterministicBrokerAdapter F)
      → counters F (answer F order a).1 ≡ counters F a
  unfolding answer fill_order
  counters-answer order a =
      elim (Bool-cases
        (a.inject_error || strikes a.fault_config a.fault_config.drop_every_n a.submit_count)) [
          | inl refused ↦ rw refused refl
          | inr filled ↦
              rw filled (counters-settle_fill order _ _ (record a { partial_fill_ratio = none }))
        ]

  counters-fault_latency :
      (a : DeterministicBrokerAdapter F) → counters F (fault_latency F a) ≡ counters F a
  unfolding fault_latency
  counters-fault_latency a =
      elim (Bool-cases (
        ltb 0 a.fault_config.latency_spike_ms
        && strikes a.fault_config a.fault_config.latency_spike_every_n a.submit_count)) [
          | inl spike ↦ rw spike refl
          | inr calm ↦ rw calm refl
        ]

  reconnected-Balance :
      (order : NormalizedOrder) (a : DeterministicBrokerAdapter F)
      → a.connected ≡ true
      → Balance (counters F a)
      → Balance (counters F (fault_disconnect F order a).1)
  unfolding fault_disconnect
  reconnected-Balance order a c h = ground arith

  submit-Balance :
      (order : NormalizedOrder) (a : DeterministicBrokerAdapter F)
      → Balance (counters F a)
      → Balance (counters F (submit F order a).2)
  unfolding submit
  submit-Balance order a h = elim (Bool-cases a.connected) [
    | inl c ↦
        let counted = record a { submit_count = bump a.submit_count } in
        let (notices, reconnected) = fault_disconnect F order counted in
        let (more, answered) = answer F order (fault_latency F reconnected) in
        let done : submit F order a ≡ (true, notices ++ more, answered) =
          ap (λ (b : Bool). if not b then (false, [], a) else (true, notices ++ more, answered))
            c in
        subst (λ r. Balance (counters F r.2)) (sym done)
          (subst Balance
            (sym (
              counters-answer order (fault_latency F reconnected)
              ∙ counters-fault_latency reconnected))
            (reconnected-Balance order counted c h))
    | inr d ↦
        let counted = record a { submit_count = bump a.submit_count } in
        let (notices, reconnected) = fault_disconnect F order counted in
        let (more, answered) = answer F order (fault_latency F reconnected) in
        let done : submit F order a ≡ (false, [], a) =
          ap (λ (b : Bool). if not b then (false, [], a) else (true, notices ++ more, answered))
            d in
        subst (λ r. Balance (counters F r.2)) (sym done) h
  ]

  counters-with_rates :
      (fee slippage : Option Fraction) (a : DeterministicBrokerAdapter F) (b : Bool)
      → counters F
          (if◌then◌else◌ {A = Bool × DeterministicBrokerAdapter F} b
            (true, with_rates F fee slippage a)
            (false, a)).1
        ≡ counters F a
  counters-with_rates fee slippage a false = refl
  counters-with_rates none slippage a true = refl
  counters-with_rates (some fee) none a true = refl
  counters-with_rates (some fee) (some slippage) a true = refl

  operate-Balance :
      (o : Operation F) (a : DeterministicBrokerAdapter F)
      → Balance (counters F a)
      → Balance (counters F (operate F o a))
  unfolding operate connect disconnect cancel set_simulation_costs inject_next_error
      inject_next_partial_fill set_fault_config set_account_snapshot set_instrument_spec reconcile
  operate-Balance connects a h = ground arith
  operate-Balance disconnects a h = ground arith
  operate-Balance (submits order) a h = submit-Balance order a h
  operate-Balance (cancels request) a h = ground arith
  operate-Balance (sets_costs fee bps) a h = subst Balance (sym (counters-with_rates _ _ a _)) h
  operate-Balance (injects_error reason) a h = h
  operate-Balance (injects_partial ratio) a h = h
  operate-Balance (sets_faults config) a h = h
  operate-Balance (sets_account snapshot) a h = h
  operate-Balance (sets_instrument spec) a h = h
  operate-Balance (reconciles account timestamp) a h = h

  operate_all-Balance :
      (os : List (Operation F)) (a : DeterministicBrokerAdapter F)
      → Balance (counters F a)
      → Balance (counters F (operate_all F os a))
  unfolding operate_all
  operate_all-Balance [] a h = h
  operate_all-Balance (o ∷ os) a h = operate_all-Balance os (operate F o a) (operate-Balance o a h)

  -- After any operations on a new adapter, injected faults included, the connections and fault
  -- reconnections together number the disconnections plus one while connected, and the
  -- reconnections plus one once there was a connection, in 64-bit arithmetic; and an adapter that
  -- is connected has connected before.
  pub operate_all_new-Balance :
      (os : List (Operation F)) → Balance (counters F (operate_all F os (new_adapter F)))
  unfolding new_adapter
  operate_all_new-Balance os = operate_all-Balance os (new_adapter F) (refl, refl, refl)
