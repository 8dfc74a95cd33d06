-- ===== src/Adapter/Tests.antt =====
-- The theorems of the simulated broker at a concrete order.
use mynyra.Prelude.{refl, true, none, some, List, [], ◌∷◌}
use mynyra.Prelude.Int.{pos}
use mynyra.Contracts.{
  Decimal64, OrderSide, PositionSide, PositionEffect, BrokerOrderType, NormalizedOrder,
}
use mynyra.Doubles.Fixed.{fixed}
use mynyra.Adapter.State.{DeterministicBrokerAdapter, FaultConfig, new_adapter}
use mynyra.Adapter.Submission.{submit}
use mynyra.Adapter.Controls.{inject_next_partial_fill}
use mynyra.Adapter.Counters.{
  Operation, connects, disconnects, submits, sets_faults, injects_error, counters, operate_all,
  Balance, operate_all_new-Balance,
}
use mynyra.Adapter.Notices.{IsSubmission, submit-IsSubmission}

abbrev lots : Decimal64
lots = record { units = pos 400; scale = 2 }

abbrev order : NormalizedOrder
order = record {
  request = record {
    schema_version = 1;
    local_order_id = 42;
    canonical_symbol = "XAUUSD";
    side = OrderSide.buy;
    order_type = BrokerOrderType.limit;
    quantity = lots;
    limit_price = some lots;
    stop_price = none;
    reference_price = none;
    source_id = "SMA_01";
    timestamp_ns = 10;
    sequence = 1;
    idempotency_key = "order-42";
    position_side = PositionSide.long;
    position_effect = PositionEffect.opens;
    logical_position_id = none;
  };
  execution_symbol = "XAUUSD";
  normalized_quantity = lots;
  normalized_limit_price = some lots;
  normalized_stop_price = none;
  normalized_reference_price = none;
  instrument_version = 3;
}

abbrev faults : FaultConfig
faults = record {
  enabled = true;
  drop_every_n = 3;
  latency_spike_every_n = 0;
  latency_spike_ms = 0;
  disconnect_every_n = 2;
}

abbrev operations : List (Operation fixed)
operations =
    connects
    ∷ sets_faults faults
    ∷ submits order
    ∷ submits order
    ∷ disconnects
    ∷ submits order
    ∷ connects
    ∷ injects_error "busy"
    ∷ submits order
    ∷ []

operate_all_new-Balance_example :
    Balance (counters fixed (operate_all fixed operations (new_adapter fixed)))
operate_all_new-Balance_example = operate_all_new-Balance fixed operations

-- A quarter of the order is to be filled.
abbrev partly : DeterministicBrokerAdapter fixed
partly = inject_next_partial_fill fixed (pos 2_500) (new_adapter fixed)

-- The adapter is connected, and drops nothing yet.
abbrev ready : DeterministicBrokerAdapter fixed
ready = record partly { connected = true; fault_config = faults }

submit-IsSubmission_example : IsSubmission fixed order ready (submit fixed order ready)
submit-IsSubmission_example = submit-IsSubmission fixed order ready refl
