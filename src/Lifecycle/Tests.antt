-- ===== src/Lifecycle/Tests.antt =====
-- Runs of the order lifecycle, and its theorems at concrete histories.
use mynyra.Prelude.{
  ℕ, ◌≡◌, refl, ◌≢◌, true, false, String, Option, some, none, List, [], ◌∷◌, ◌++◌, length,
}
use mynyra.Prelude.Int.{pos, ◌+ℤ◌, ◌-ℤ◌}
use mynyra.Prelude.Maps.{lookup, insert, contains}
use mynyra.Contracts.{
  Decimal64, OrderSide, PositionSide, PositionEffect, BrokerOrderType, OrderLifecycleState,
  FailureCategory, OrderRequest, OrderAcknowledgement, ExecutionEvent, CancelRequest,
}
use mynyra.Lifecycle.Record.{
  OrderLifecycleRecord, applied, append_audit, can_transition, valid_quantities, event_is_older,
}
use mynyra.Lifecycle.Store.{
  OrderLifecycleStore, empty_store, create, initial_record, commit, record_event_key, transition,
  transition_on, mark_risk_checked, mark_submitted, apply_acknowledgement, acknowledgement_on,
}
use mynyra.Lifecycle.Fills.{
  apply_execution, execution_on, execution_is_invalid, request_cancel, cancel_request_on,
}
use mynyra.Lifecycle.Advance.{IsBalanced}
use mynyra.Lifecycle.Events.{
  Event, Stamp, apply, risk_checks, submits, acknowledges, executes, requests_cancel,
}
use mynyra.Lifecycle.Run.{Call, step, creates, delivers, run, Kept, run-Kept}
use mynyra.Lifecycle.Balance.{run_empty-IsBalanced}
use mynyra.Lifecycle.Keys.{IsKeyed, apply_refused, apply_once, run_empty-IsKeyed}
use mynyra.Lifecycle.Trail.{IsTraced, run_empty-IsTraced}

abbrev lots : ℕ → Decimal64
lots n = record { units = pos n; scale = 2 }

abbrev order : OrderRequest
order = record {
  schema_version = 1;
  local_order_id = 7;
  canonical_symbol = "XAUUSD";
  side = OrderSide.buy;
  order_type = BrokerOrderType.market;
  quantity = lots 100;
  limit_price = none;
  stop_price = none;
  reference_price = none;
  source_id = "SMA_01";
  timestamp_ns = 10;
  sequence = 1;
  idempotency_key = "order-7";
  position_side = PositionSide.long;
  position_effect = PositionEffect.opens;
  logical_position_id = none;
}

abbrev stamp : String → ℕ → Stamp
stamp key n = record { local_order_id = 7; event_key = key; timestamp_ns = 10; sequence = n }

abbrev acknowledgement : OrderAcknowledgement
acknowledgement = record {
  schema_version = 1;
  local_order_id = 7;
  external_order_id = "paper-7";
  is_accepted = true;
  failure = FailureCategory.none;
  reason = "";
  timestamp_ns = 10;
  sequence = 4;
  event_key = "ack-7";
}

abbrev fill : ℕ → ℕ → String → ℕ → ExecutionEvent
fill done left key n = record {
  schema_version = 1;
  local_order_id = 7;
  external_order_id = "paper-7";
  cumulative_filled_quantity = lots done;
  remaining_quantity = lots left;
  fill_price = lots 250;
  fee = lots 0;
  timestamp_ns = 11;
  sequence = n;
  event_key = key;
  position_side = PositionSide.long;
  position_effect = PositionEffect.opens;
  acceptance_implied_by_fill = false;
}

abbrev cancellation : CancelRequest
cancellation = record {
  schema_version = 1;
  local_order_id = 7;
  external_order_id = "paper-7";
  timestamp_ns = 12;
  sequence = 6;
  idempotency_key = "cancel-7";
}

abbrev accepted_order : List Call
accepted_order =
    creates order
    ∷ delivers (risk_checks (stamp "risk-7" 2))
    ∷ delivers (submits (stamp "submit-7" 3))
    ∷ delivers (acknowledges acknowledgement)
    ∷ []

abbrev part_fill : Event
part_fill = executes (fill 40 60 "fill-7-1" 5)

abbrev rest : List Call
rest =
    delivers (requests_cancel cancellation)
    ∷ delivers part_fill
    ∷ delivers (executes (fill 100 0 "fill-7-2" 7))
    ∷ delivers (submits (stamp "submit-7-again" 9))
    ∷ []

abbrev history : List Call
history = accepted_order ++ delivers part_fill ∷ rest

abbrev value {ℓ} : {A : Type ℓ} → A → Option A → A
value d none = d
value d (some a) = a

abbrev blank : OrderLifecycleRecord
blank = record {
  request = order;
  state = OrderLifecycleState.created;
  pre_cancel_state = OrderLifecycleState.created;
  external_order_id = "";
  filled_quantity = lots 0;
  remaining_quantity = lots 100;
  failure = FailureCategory.none;
  reason = "";
  last_timestamp_ns = 0;
  last_sequence = 0;
  reconciled_state = none;
  audit_history = [];
}

record_after : List Call → OrderLifecycleRecord
unfolding run step apply create initial_record commit record_event_key lookup insert contains
    transition transition_on mark_risk_checked mark_submitted apply_acknowledgement
    acknowledgement_on apply_execution execution_on execution_is_invalid request_cancel
    cancel_request_on event_is_older can_transition valid_quantities append_audit ◌+ℤ◌ ◌-ℤ◌
record_after cs = value blank (lookup 7 (run empty_store cs).records)

-- A fill that arrives while the cancellation is pending completes the order, and nothing after it
-- counts.
filled_at_last :
    ((record_after history).state ≡ OrderLifecycleState.filled)
    × (length (record_after history).audit_history ≡ 7)
unfolding record_after
filled_at_last = (refl, refl)

before_fill : OrderLifecycleStore
unfolding record_after
before_fill = run empty_store accepted_order

run-Kept_example : Kept (run before_fill history) 7 (record_after accepted_order)
unfolding before_fill
run-Kept_example = run-Kept before_fill history 7 (record_after accepted_order) refl

run_empty-IsBalanced_example : IsBalanced (record_after history)
unfolding record_after
run_empty-IsBalanced_example = run_empty-IsBalanced history 7 (record_after history) refl

run_empty-IsTraced_example : IsTraced (record_after history)
unfolding record_after
run_empty-IsTraced_example = run_empty-IsTraced history 7 (record_after history) refl

run_empty-IsKeyed_example : IsKeyed (run empty_store history)
run_empty-IsKeyed_example = run_empty-IsKeyed history

-- A submission cannot be repeated.
apply_refused_example : (apply before_fill (submits (stamp "submit-7-again" 9))).0 ≡ before_fill
unfolding before_fill
apply_refused_example = apply_refused before_fill (submits (stamp "submit-7-again" 9)) (λ e. cc)

apply_once_example :
    let t = run (apply before_fill part_fill).0 rest in
    ((apply t part_fill).1 ≢ applied) × ((apply t part_fill).0 ≡ t)
unfolding before_fill
apply_once_example = apply_once before_fill part_fill part_fill rest refl refl
