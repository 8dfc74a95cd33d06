-- ===== src/Gateway/Handlers.antt =====
-- The callbacks of the gateway in engine/src/BrokerGateway.cpp that an adapter calls.
use mynyra.Prelude.{true, false, not, Option, none, some, List, [], ◌∷◌, ◌++◌, if◌then◌else◌}
use mynyra.Prelude.Maps.{lookup, insert}
use mynyra.Contracts.{
  Decimal64, OrderAcknowledgement, ExecutionEvent, CancelResult, AdapterHealthEvent, is_zero,
  OrderLifecycleState as State,
}
use mynyra.Lifecycle.Record.{LifecycleApplyResult, OrderLifecycleRecord, applied, duplicate}
use mynyra.Lifecycle.Store.{OrderLifecycleStore, apply_acknowledgement}
use mynyra.Lifecycle.Fills.{apply_execution, apply_cancel_result}
use mynyra.Doubles.{Doubles, zero_double, to_double}
use mynyra.Adapter.State.{Notice, bump}
use mynyra.Gateway.State.{IBrokerAdapter, BrokerFill, LegacyOrderContext, Published, BrokerGateway}

module _ (F : Doubles) (A : IBrokerAdapter) where
  abbrev pub count_error : BrokerGateway F A → BrokerGateway F A
  count_error g = record g { total_api_errors = bump g.total_api_errors }

  unfoldable pub failure_fill : OrderAcknowledgement → LegacyOrderContext F → BrokerFill F
  failure_fill k context = record {
    order_id = k.local_order_id;
    symbol = context.symbol;
    is_buy = context.is_buy;
    requested_price = context.requested_price;
    fill_price = zero_double F;
    quantity = context.requested_quantity;
    filled_quantity = zero_double F;
    remaining_quantity = zero_double F;
    partial_fill = false;
    fee_paid = zero_double F;
    fill_timestamp = k.timestamp_ns;
    strategy_id = context.strategy_id;
    success = false;
    error_message = k.reason;
  }

  -- A legacy fill is kept and published after the event that it comes from.
  abbrev pub keep_fill :
      Published F
      → Option (BrokerFill F)
      → BrokerGateway F A
      → List (Published F) × BrokerGateway F A
  keep_fill event none g = (event ∷ [], g)
  keep_fill event (some fill) g = (
    event ∷ Published.filled fill ∷ [],
    record g { last_legacy_fills = insert fill.order_id fill g.last_legacy_fills },
  )

  abbrev pub map_context :
      (LegacyOrderContext F → BrokerFill F) → Option (LegacyOrderContext F) → Option (BrokerFill F)
  map_context f none = none
  map_context f (some context) = some (f context)

  abbrev pub acknowledge :
      OrderAcknowledgement
      → OrderLifecycleStore × LifecycleApplyResult
      → BrokerGateway F A
      → List (Published F) × BrokerGateway F A
  acknowledge k (s, applied) g =
      let stored : BrokerGateway F A = record g { lifecycle = s } in
      if k.is_accepted
      then (Published.acknowledged k ∷ [], stored)
      else keep_fill (Published.acknowledged k)
          (map_context (failure_fill k) (lookup k.local_order_id g.legacy_contexts))
          (count_error stored)
  acknowledge k (s, other) g = ([], count_error (record g { lifecycle = s }))

  unfoldable pub handle_acknowledgement :
      OrderAcknowledgement → BrokerGateway F A → List (Published F) × BrokerGateway F A
  handle_acknowledgement k g = acknowledge k (apply_acknowledgement g.lifecycle k) g

  unfoldable pub execution_fill : ExecutionEvent → Decimal64 → LegacyOrderContext F → BrokerFill F
  execution_fill e previous_filled context = record {
    order_id = e.local_order_id;
    symbol = context.symbol;
    is_buy = context.is_buy;
    requested_price = context.requested_price;
    fill_price = to_double F e.fill_price;
    quantity = context.requested_quantity;
    filled_quantity =
        F.sub (to_double F e.cumulative_filled_quantity) (to_double F previous_filled);
    remaining_quantity = to_double F e.remaining_quantity;
    partial_fill = not (is_zero e.remaining_quantity);
    fee_paid = to_double F e.fee;
    fill_timestamp = e.timestamp_ns;
    strategy_id = context.strategy_id;
    success = true;
    error_message = "";
  }

  -- A fill of an order that is only submitted implies its acceptance.
  abbrev pub implied : State → ExecutionEvent → ExecutionEvent
  implied State.submitted e = record e { acceptance_implied_by_fill = true }
  implied _ e = e

  abbrev pub execute :
      ExecutionEvent
      → Decimal64
      → OrderLifecycleStore × LifecycleApplyResult
      → BrokerGateway F A
      → List (Published F) × BrokerGateway F A
  execute e previous_filled (s, applied) g =
      keep_fill (Published.executed e)
        (map_context (execution_fill e previous_filled) (lookup e.local_order_id g.legacy_contexts))
        (record g { lifecycle = s; total_fills_received = bump g.total_fills_received })
  execute e previous_filled (s, duplicate) g = ([], record g { lifecycle = s })
  execute e previous_filled (s, other) g = ([], count_error (record g { lifecycle = s }))

  abbrev pub execution_after :
      ExecutionEvent
      → Option OrderLifecycleRecord
      → BrokerGateway F A
      → List (Published F) × BrokerGateway F A
  execution_after e none g = ([], count_error g)
  execution_after e (some before) g =
      execute (implied before.state e) before.filled_quantity
        (apply_execution g.lifecycle (implied before.state e)) g

  unfoldable pub handle_execution :
      ExecutionEvent → BrokerGateway F A → List (Published F) × BrokerGateway F A
  handle_execution e g = execution_after e (lookup e.local_order_id g.lifecycle.records) g

  abbrev pub settle_cancel :
      CancelResult
      → OrderLifecycleStore × LifecycleApplyResult
      → BrokerGateway F A
      → List (Published F) × BrokerGateway F A
  settle_cancel c (s, applied) g = (Published.canceled c ∷ [], record g { lifecycle = s })
  settle_cancel c (s, other) g = ([], count_error (record g { lifecycle = s }))

  unfoldable pub handle_cancel :
      CancelResult → BrokerGateway F A → List (Published F) × BrokerGateway F A
  handle_cancel c g = settle_cancel c (apply_cancel_result g.lifecycle c) g

  unfoldable pub handle_health :
      AdapterHealthEvent → BrokerGateway F A → List (Published F) × BrokerGateway F A
  handle_health h g = (Published.health_changed h ∷ [], record g { health = h })

  unfoldable pub handle : Notice → BrokerGateway F A → List (Published F) × BrokerGateway F A
  handle (Notice.health_changed h) g = handle_health h g
  handle (Notice.order_acknowledged k) g = handle_acknowledgement k g
  handle (Notice.order_executed e) g = handle_execution e g
  handle (Notice.cancel_settled c) g = handle_cancel c g

  unfoldable pub handle_all :
      List Notice → BrokerGateway F A → List (Published F) × BrokerGateway F A
  handle_all [] g = ([], g)
  handle_all (n ∷ rest) g =
      let (published, next) = handle n g in
      let (more, final) = handle_all rest next in (published ++ more, final)
