-- ===== src/Lifecycle/Settlements.antt =====
-- The `Outcome` of the methods that settle an order: cancel results, reconciliation and `markUnknown`
-- of engine/src/OrderLifecycleStore.cpp.
use mynyra.Prelude.{◌≡◌, refl, ◌≢◌, ◌⊎◌, inl, inr, true, false, not, some, arith, Option-cases}
use mynyra.Prelude.Int.{pos}
use mynyra.Prelude.Maps.{lookup}
use mynyra.Contracts.{OrderLifecycleState as State, CancelDisposition, CancelResult}
use mynyra.Lifecycle.Record.{
  OrderLifecycleRecord, append_audit, can_transition, valid_quantities, event_is_older,
}
use mynyra.Lifecycle.Store.{OrderLifecycleStore}
use mynyra.Lifecycle.Fills.{
  settled, cancel_result_on, cancel_state, is_cancel_requested, settle_cancel, Reconciliation,
  settled_by_reconciliation, reconciliation_on,
}
use mynyra.Lifecycle.Advance.{
  Outcome, Advance, IsBalanced, guarded, keyed, true_of_not, or_false, is_cancel_requested→eq,
  valid_quantities_lem, live_of_can_transition, invalid_event-ne, invalid_transition-ne,
}

-- The state that a cancel result leads to, and why it is a move.
cancel_state_lem :
    (r : OrderLifecycleRecord) (d : CancelDisposition) (next : State)
    → r.state ≡ State.cancel_requested
    → cancel_state d r ≡ some next
    → (can_transition State.cancel_requested next ≡ true) ⊎ (next ≡ r.pre_cancel_state)
unfolding can_transition
cancel_state_lem r d next e h = ground arith

cancel_state_complete :
    (r : OrderLifecycleRecord) (d : CancelDisposition) (next : State)
    → r.state ≡ State.cancel_requested
    → cancel_state d r ≡ some next
    → IsBalanced r
    → (next ≡ State.filled → r.remaining_quantity.units ≡ pos 0) × (next ≢ State.cancel_requested)
cancel_state_complete r d next e h b = ground arith

settled-Advance :
    (c : CancelResult) (r : OrderLifecycleRecord) (next : State)
    → r.state ≡ State.cancel_requested
    → event_is_older r c.timestamp_ns c.sequence ≡ false
    → cancel_state c.disposition r ≡ some next
    → Advance c.event_key r (settled r c next)
unfolding append_audit
settled-Advance c r next asked newer h = record {
  entry = _;
  audited = refl;
  entry_state = refl;
  entry_key = refl;
  same_request = refl;
  live = ground arith;
  moves = ground (arith, cancel_state_lem r c.disposition next asked);
  newer = newer;
  fills = inl (omega arith);
  balance = λ b. ground (arith, cancel_state_complete r c.disposition next asked h b);
}

pub cancel_result_on-Outcome :
    (s : OrderLifecycleStore) (c : CancelResult) (r : OrderLifecycleRecord)
    → lookup c.local_order_id s.records ≡ some r
    → Outcome s c.local_order_id c.event_key (cancel_result_on s c r)
unfolding cancel_result_on settle_cancel
cancel_result_on-Outcome s c r found = keyed λ full fresh. guarded _ invalid_transition-ne λ able.
    let (newer, asks) =
      or_false (event_is_older r c.timestamp_ns c.sequence) (not (is_cancel_requested r.state))
        able in
    let asked = is_cancel_requested→eq r.state (true_of_not _ asks) in
    elim (Option-cases (cancel_state c.disposition r)) [
      | inl e ↦ rw (e, settle_cancel) (Outcome.refused refl invalid_event-ne)
      | inr (next, e) ↦
          rw (e, settle_cancel)
            (Outcome.recorded r (settled r c next) found full fresh
              (settled-Advance c r next asked newer e) refl refl)
    ]

pub reconciliation_on-Outcome :
    (s : OrderLifecycleStore) (c : Reconciliation) (r : OrderLifecycleRecord)
    → lookup c.local_order_id s.records ≡ some r
    → Outcome s c.local_order_id c.event_key (reconciliation_on s c r)
unfolding reconciliation_on append_audit
reconciliation_on-Outcome s c r found = keyed λ full fresh. guarded _ invalid_event-ne λ fits.
    guarded _ invalid_transition-ne λ able. guarded _ invalid_transition-ne λ resolved.
      let (newer, odd) =
        or_false (event_is_older r c.timestamp_ns c.sequence)
          (not (valid_quantities r c.cumulative_filled c.remaining)) fits in
      let (filled, remaining, total, scale, scale') =
        valid_quantities_lem r c.cumulative_filled c.remaining (true_of_not _ odd) in
      Outcome.recorded r (settled_by_reconciliation r c) found full fresh
        (record {
          entry = _;
          audited = refl;
          entry_state = refl;
          entry_key = refl;
          same_request = refl;
          live = live_of_can_transition r.state _ (true_of_not _ able);
          moves = inl (true_of_not _ able);
          newer = newer;
          fills = inr refl;
          balance = λ b. ground arith;
        })
        refl refl
