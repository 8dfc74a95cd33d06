-- ===== src/Lifecycle/Fills.antt =====
-- The methods of `OrderLifecycleStore` for fills, cancellation and reconciliation.
use mynyra.Prelude.{
  ℕ, Bool, true, false, not, ◌||◌, String, Option, none, some, if◌then◌else◌, is_empty,
}
use mynyra.Prelude.Int.{ltb_ℤ}
use mynyra.Prelude.Maps.{lookup, contains}
use mynyra.Contracts.{
  Decimal64, OrderLifecycleState as State, CancelDisposition, ExecutionEvent, CancelRequest,
  CancelResult, is_positive, is_negative, is_zero, same_side, same_effect,
}
use mynyra.Lifecycle.Record.{
  LifecycleApplyResult, OrderLifecycleRecord, applied, duplicate, unknown_order, invalid_event,
  invalid_transition, event_is_older, append_audit, can_transition, valid_quantities,
}
use mynyra.Lifecycle.Store.{OrderLifecycleStore, commit}

abbrev pub execution_state : Bool → State
execution_state true = State.filled
execution_state false = State.partially_filled

-- The second group of tests: what makes an execution report inconsistent with its order.
unfoldable pub execution_is_invalid : ExecutionEvent → OrderLifecycleRecord → Bool
execution_is_invalid e r =
    event_is_older r e.timestamp_ns e.sequence
    || not (valid_quantities r e.cumulative_filled_quantity e.remaining_quantity)
    || not (is_positive e.fill_price)
    || is_negative e.fee
    || not (same_side e.position_side r.request.position_side)
    || not (same_effect e.position_effect r.request.position_effect)
    || ltb_ℤ e.cumulative_filled_quantity.units r.filled_quantity.units

abbrev pub executed : OrderLifecycleRecord → ExecutionEvent → OrderLifecycleRecord
executed r e =
    append_audit
      (record r {
        state = execution_state (is_zero e.remaining_quantity);
        external_order_id = e.external_order_id;
        filled_quantity = e.cumulative_filled_quantity;
        remaining_quantity = e.remaining_quantity;
        last_timestamp_ns = e.timestamp_ns;
        last_sequence = e.sequence;
      })
      e.event_key e.timestamp_ns e.sequence none

unfoldable pub execution_on :
    OrderLifecycleStore
    → ExecutionEvent
    → OrderLifecycleRecord
    → OrderLifecycleStore × LifecycleApplyResult
execution_on s e r =
    let next = execution_state (is_zero e.remaining_quantity) in
    if is_empty e.event_key
    then (s, invalid_event)
    else if contains e.event_key s.applied_event_keys
    then (s, duplicate)
    else if execution_is_invalid e r
    then (s, invalid_event)
    else if not (can_transition r.state next)
    then (s, invalid_transition)
    else (commit s e.local_order_id e.event_key (executed r e), applied)

unfoldable pub apply_execution :
    OrderLifecycleStore → ExecutionEvent → OrderLifecycleStore × LifecycleApplyResult
apply_execution s e = elim (lookup e.local_order_id s.records) [
  | none ↦ (s, unknown_order)
  | some r ↦ execution_on s e r
]

abbrev pub cancel_pending : OrderLifecycleRecord → CancelRequest → OrderLifecycleRecord
cancel_pending r q =
    append_audit
      (record r {
        pre_cancel_state = r.state;
        state = State.cancel_requested;
        last_timestamp_ns = q.timestamp_ns;
        last_sequence = q.sequence;
      })
      q.idempotency_key q.timestamp_ns q.sequence none

unfoldable pub cancel_request_on :
    OrderLifecycleStore
    → CancelRequest
    → OrderLifecycleRecord
    → OrderLifecycleStore × LifecycleApplyResult
cancel_request_on s q r =
    if is_empty q.idempotency_key
    then (s, invalid_event)
    else if contains q.idempotency_key s.applied_event_keys
    then (s, duplicate)
    else if event_is_older r q.timestamp_ns q.sequence
        || not (can_transition r.state State.cancel_requested)
    then (s, invalid_transition)
    else (commit s q.local_order_id q.idempotency_key (cancel_pending r q), applied)

unfoldable pub request_cancel :
    OrderLifecycleStore → CancelRequest → OrderLifecycleStore × LifecycleApplyResult
request_cancel s q = elim (lookup q.local_order_id s.records) [
  | none ↦ (s, unknown_order)
  | some r ↦ cancel_request_on s q r
]

abbrev pub is_cancel_requested : State → Bool
is_cancel_requested State.cancel_requested = true
is_cancel_requested _ = false

-- The `switch` on the disposition; `none` is its early return.
abbrev pub cancel_state : CancelDisposition → OrderLifecycleRecord → Option State
cancel_state CancelDisposition.accepted r = some State.canceled
cancel_state CancelDisposition.already_canceled r = some State.canceled
cancel_state CancelDisposition.already_filled r =
    if not (is_zero r.remaining_quantity) then none else some State.filled
cancel_state CancelDisposition.rejected r = some r.pre_cancel_state
cancel_state CancelDisposition.unknown r = some State.unknown

abbrev pub settled : OrderLifecycleRecord → CancelResult → State → OrderLifecycleRecord
settled r c next =
    append_audit
      (record r {
        state = next;
        failure = c.failure;
        reason = c.reason;
        last_timestamp_ns = c.timestamp_ns;
        last_sequence = c.sequence;
      })
      c.event_key c.timestamp_ns c.sequence none

unfoldable pub settle_cancel :
    OrderLifecycleStore
    → CancelResult
    → OrderLifecycleRecord
    → Option State
    → OrderLifecycleStore × LifecycleApplyResult
settle_cancel s c r none = (s, invalid_event)
settle_cancel s c r (some next) =
    (commit s c.local_order_id c.event_key (settled r c next), applied)

unfoldable pub cancel_result_on :
    OrderLifecycleStore
    → CancelResult
    → OrderLifecycleRecord
    → OrderLifecycleStore × LifecycleApplyResult
cancel_result_on s c r =
    if is_empty c.event_key
    then (s, invalid_event)
    else if contains c.event_key s.applied_event_keys
    then (s, duplicate)
    else if event_is_older r c.timestamp_ns c.sequence || not (is_cancel_requested r.state)
    then (s, invalid_transition)
    else settle_cancel s c r (cancel_state c.disposition r)

unfoldable pub apply_cancel_result :
    OrderLifecycleStore → CancelResult → OrderLifecycleStore × LifecycleApplyResult
apply_cancel_result s c = elim (lookup c.local_order_id s.records) [
  | none ↦ (s, unknown_order)
  | some r ↦ cancel_result_on s c r
]

abbrev pub is_resolution : State → Bool
is_resolution State.filled = true
is_resolution State.partially_filled = true
is_resolution State.canceled = true
is_resolution State.expired = true
is_resolution State.rejected = true
is_resolution _ = false

-- The arguments of `applyReconciliation`.
pub record Reconciliation : Type 0 where
  pub local_order_id : ℕ
  pub resolved_state : State
  pub cumulative_filled : Decimal64
  pub remaining : Decimal64
  pub event_key : String
  pub timestamp_ns : ℕ
  pub sequence : ℕ

abbrev pub settled_by_reconciliation : OrderLifecycleRecord → Reconciliation → OrderLifecycleRecord
settled_by_reconciliation r c =
    append_audit
      (record r {
        state = State.reconciled;
        reconciled_state = some c.resolved_state;
        filled_quantity = c.cumulative_filled;
        remaining_quantity = c.remaining;
        last_timestamp_ns = c.timestamp_ns;
        last_sequence = c.sequence;
      })
      c.event_key c.timestamp_ns c.sequence (some c.resolved_state)

unfoldable pub reconciliation_on :
    OrderLifecycleStore
    → Reconciliation
    → OrderLifecycleRecord
    → OrderLifecycleStore × LifecycleApplyResult
reconciliation_on s c r =
    if is_empty c.event_key
    then (s, invalid_event)
    else if contains c.event_key s.applied_event_keys
    then (s, duplicate)
    else if event_is_older r c.timestamp_ns c.sequence
        || not (valid_quantities r c.cumulative_filled c.remaining)
    then (s, invalid_event)
    else if not (can_transition r.state State.reconciled)
    then (s, invalid_transition)
    else if not (is_resolution c.resolved_state)
    then (s, invalid_transition)
    else (commit s c.local_order_id c.event_key (settled_by_reconciliation r c), applied)

unfoldable pub apply_reconciliation :
    OrderLifecycleStore → Reconciliation → OrderLifecycleStore × LifecycleApplyResult
apply_reconciliation s c = elim (lookup c.local_order_id s.records) [
  | none ↦ (s, unknown_order)
  | some r ↦ reconciliation_on s c r
]
