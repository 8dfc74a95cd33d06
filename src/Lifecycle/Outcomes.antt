-- ===== src/Lifecycle/Outcomes.antt =====
-- Every method of engine/src/OrderLifecycleStore.cpp that changes a record has the `Outcome`.
use mynyra.Prelude.{ℕ, ◌≡◌, refl, ◌≢◌, ◌⊎◌, inl, true, false, String, some, arith}
use mynyra.Prelude.Int.{◌≤ℤ◌}
use mynyra.Prelude.Maps.{lookup}
use mynyra.Contracts.{
  OrderLifecycleState as State, OrderAcknowledgement, ExecutionEvent, CancelRequest,
}
use mynyra.Lifecycle.Record.{
  OrderLifecycleRecord, append_audit, can_transition, valid_quantities, event_is_older,
}
use mynyra.Lifecycle.Store.{
  OrderLifecycleStore, transitioned, transition_on, acknowledged, acknowledgement_on,
}
use mynyra.Lifecycle.Fills.{
  executed, execution_on, execution_is_invalid, cancel_pending, cancel_request_on,
}
use mynyra.Lifecycle.Advance.{
  Outcome, invalid_event-ne, invalid_transition-ne, guarded, keyed, true_of_not,
  valid_quantities_lem, live_of_can_transition,
}

-- Only an accepted or partially filled order can be cancelled.
cancelable_from :
    (a : State)
    → can_transition a State.cancel_requested ≡ true
    → (a ≡ State.accepted) ⊎ (a ≡ State.partially_filled)
unfolding can_transition
cancelable_from a h = ground arith

pub transition_on-Outcome :
    (s : OrderLifecycleStore) (id : ℕ) (next : State) (key : String) (timestamp_ns sequence : ℕ)
    (r : OrderLifecycleRecord)
    → next ≢ State.filled
    → next ≢ State.cancel_requested
    → lookup id s.records ≡ some r
    → Outcome s id key (transition_on s id next key timestamp_ns sequence r)
unfolding transition_on append_audit
transition_on-Outcome s id next key timestamp_ns sequence r nf nc found = keyed λ full fresh.
    guarded _ invalid_event-ne λ newer. guarded _ invalid_transition-ne λ able.
      Outcome.recorded r (transitioned r next key timestamp_ns sequence) found full fresh
        (record {
          entry = _;
          audited = refl;
          entry_state = refl;
          entry_key = refl;
          same_request = refl;
          live = live_of_can_transition r.state next (true_of_not _ able);
          moves = inl (true_of_not _ able);
          newer = newer;
          fills = inl (omega arith);
          balance = λ b. ground arith;
        })
        refl refl

pub acknowledgement_on-Outcome :
    (s : OrderLifecycleStore) (ack : OrderAcknowledgement) (r : OrderLifecycleRecord)
    → lookup ack.local_order_id s.records ≡ some r
    → Outcome s ack.local_order_id ack.event_key (acknowledgement_on s ack r)
unfolding acknowledgement_on append_audit
acknowledgement_on-Outcome s ack r found = keyed λ full fresh. guarded _ invalid_event-ne λ newer.
    guarded _ invalid_event-ne λ named. guarded _ invalid_transition-ne λ able.
      Outcome.recorded r (acknowledged r ack) found full fresh
        (record {
          entry = _;
          audited = refl;
          entry_state = refl;
          entry_key = refl;
          same_request = refl;
          live = live_of_can_transition r.state _ (true_of_not _ able);
          moves = inl (true_of_not _ able);
          newer = newer;
          fills = inl (omega arith);
          balance = λ b. ground arith;
        })
        refl refl

-- What the tests of `applyExecution` leave.
execution_facts :
    (e : ExecutionEvent) (r : OrderLifecycleRecord)
    → execution_is_invalid e r ≡ false
    → (event_is_older r e.timestamp_ns e.sequence ≡ false)
      × (valid_quantities r e.cumulative_filled_quantity e.remaining_quantity ≡ true)
      × (r.filled_quantity.units ≤ℤ e.cumulative_filled_quantity.units)
unfolding execution_is_invalid
execution_facts e r h = ground arith

pub execution_on-Outcome :
    (s : OrderLifecycleStore) (e : ExecutionEvent) (r : OrderLifecycleRecord)
    → lookup e.local_order_id s.records ≡ some r
    → Outcome s e.local_order_id e.event_key (execution_on s e r)
unfolding execution_on append_audit
execution_on-Outcome s e r found = keyed λ full fresh. guarded _ invalid_event-ne λ fits.
    guarded _ invalid_transition-ne λ able.
      let (newer, quantities, grows) = execution_facts e r fits in
      let (filled, remaining, total, scale, scale') =
        valid_quantities_lem r e.cumulative_filled_quantity e.remaining_quantity quantities in
      Outcome.recorded r (executed r e) found full fresh
        (record {
          entry = _;
          audited = refl;
          entry_state = refl;
          entry_key = refl;
          same_request = refl;
          live = live_of_can_transition r.state _ (true_of_not _ able);
          moves = inl (true_of_not _ able);
          newer = newer;
          fills = inl grows;
          balance = λ b. ground arith;
        })
        refl refl

pub cancel_request_on-Outcome :
    (s : OrderLifecycleStore) (q : CancelRequest) (r : OrderLifecycleRecord)
    → lookup q.local_order_id s.records ≡ some r
    → Outcome s q.local_order_id q.idempotency_key (cancel_request_on s q r)
unfolding cancel_request_on append_audit
cancel_request_on-Outcome s q r found = keyed λ full fresh. guarded _ invalid_transition-ne λ able.
    let newer : event_is_older r q.timestamp_ns q.sequence ≡ false = ground arith in
    let can : can_transition r.state State.cancel_requested ≡ true = ground arith in
    Outcome.recorded r (cancel_pending r q) found full fresh
      (record {
        entry = _;
        audited = refl;
        entry_state = refl;
        entry_key = refl;
        same_request = refl;
        live = live_of_can_transition r.state _ can;
        moves = inl can;
        newer = newer;
        fills = inl (omega arith);
        balance = λ b. ground (arith, cancelable_from r.state can);
      })
      refl refl
