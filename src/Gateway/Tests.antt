-- ===== src/Gateway/Tests.antt =====
-- The theorems of the gateway at a concrete order.
use mynyra.Risk.Decimals.{raise_units}
use mynyra.Prelude.{◌+◌, ◌<◌, ◌^◌, ◌≡◌, refl, true, false, none, some, [], arith}
use mynyra.Prelude.Int.{pos, IsInt64}
use mynyra.Contracts.{
  Decimal64, OrderSide, PositionSide, PositionEffect, BrokerOrderType, OrderRequest,
  NormalizedOrder, InstrumentSpec, AccountSnapshot, RiskDecision, RuleBreachAction, FailureCategory,
  is_positive,
}
use mynyra.Financial.Units.{negative}
use mynyra.Prelude.Maps.{lookup, contains}
use mynyra.Doubles.Fixed.{fixed}
use mynyra.Adapter.State.{DeterministicBrokerAdapter, new_adapter, connect, digits}
use mynyra.Gateway.Normalizing.{
  request_is_malformed, lacks_price, normalized_quantity, normalize_to_step, rescale_toward_zero,
  with_quantity, lower_units, violates_bounds, price_is_lost, normalize_for, default_instrument,
  order_for, normalized,
}
use mynyra.Gateway.Bounds.{IsPassed, normalize_for_lem}
use mynyra.Gateway.State.{BrokerGateway, GatewayConfig, SystemMode, new_gateway}
use mynyra.Gateway.Dispatch.{dispatch_order}
use mynyra.Gateway.Safety.{IsDispatch, dispatch_order_lem}
use mynyra.Gateway.Paper.{paper}
use mynyra.Gateway.Settled.{IsSettledBy, IsNew, dispatch_order-IsSettled}

abbrev none_yet : Decimal64
none_yet = record { units = pos 0; scale = 0 }

abbrev empty_account : AccountSnapshot
empty_account = record {
  schema_version = 1;
  snapshot_version = 0;
  balance = none_yet;
  equity = none_yet;
  realized_pnl = none_yet;
  unrealized_pnl = none_yet;
  margin_used = none_yet;
  free_margin = none_yet;
  currency = "";
  source_timestamp_ns = 0;
  ingestion_timestamp_ns = 0;
  complete = false;
  missing_fields = [];
}

abbrev request : OrderRequest
request = record {
  schema_version = 1;
  local_order_id = 42;
  canonical_symbol = "XAUUSD";
  side = OrderSide.buy;
  order_type = BrokerOrderType.limit;
  quantity = record { units = pos 403; scale = 2 };
  limit_price = some (record { units = pos 2_500; scale = 2 });
  stop_price = none;
  reference_price = none;
  source_id = "SMA_01";
  timestamp_ns = 10;
  sequence = 1;
  idempotency_key = "order-42";
  position_side = PositionSide.long;
  position_effect = PositionEffect.opens;
  logical_position_id = none;
}

-- The quantity comes in steps of 0.05.
abbrev gold : InstrumentSpec
gold = record (default_instrument request) {
  quantity_step = record { units = pos 5; scale = 2 };
  tick_size = record { units = pos 1; scale = 2 };
}

abbrev order : NormalizedOrder
order = order_for request gold "GOLD" (record { units = pos 400; scale = 2 })

made : normalize_for request gold "GOLD" ≡ normalized order
unfolding normalize_for request_is_malformed lacks_price normalized_quantity normalize_to_step
    rescale_toward_zero raise_units with_quantity lower_units violates_bounds price_is_lost
    order_for
made = refl

normalize_for_lem_example : IsPassed request gold order
normalize_for_lem_example = normalize_for_lem request gold "GOLD" order made

abbrev config : GatewayConfig
config = record {
  mode = SystemMode.paper;
  live_runtime_build_enabled = false;
  live_runtime_unlocked = false;
  ctrader_demo_build_enabled = false;
}

abbrev adapter : DeterministicBrokerAdapter fixed
adapter = (connect fixed (new_adapter fixed)).2

abbrev gateway : BrokerGateway fixed (paper fixed empty_account)
gateway = new_gateway fixed (paper fixed empty_account) config (some adapter) false

abbrev allowed : RiskDecision
allowed = record {
  allowed = true;
  risk_increasing = true;
  failure = FailureCategory.none;
  action = RuleBreachAction.warn;
  reason = "";
}

up : adapter.connected ≡ true
unfolding connect new_adapter
up = refl

charged : negative adapter.fee_rate.units ≡ false
unfolding connect new_adapter
charged = refl

lots : is_positive order.normalized_quantity ≡ true
unfolding order_for
lots = refl

room : order.request.sequence + 4 < 2 ^ 64
unfolding order_for
room = omega arith

narrow : IsInt64 order.normalized_quantity.units
unfolding order_for
narrow = (omega arith, omega arith)

new : IsNew fixed empty_account order room narrow gateway.lifecycle
unfolding order_for lookup contains digits
new = record {
  valid = refl;
  absent = refl;
  unseen = (
    refl,
    refl,
    (refl, (refl, (refl, (refl, tt)))),
    (
      refl,
      refl,
      (refl, (refl, (refl, tt))),
      (refl, refl, (refl, (refl, tt)), (refl, refl, (refl, tt), (refl, refl, tt, tt))),
    ),
  );
}

dispatch_order-IsSettled_example :
    IsSettledBy fixed
      (paper fixed empty_account)
      order
      (dispatch_order fixed (paper fixed empty_account) order allowed gateway)
dispatch_order-IsSettled_example =
    dispatch_order-IsSettled fixed empty_account order room narrow allowed adapter gateway refl refl
      refl up charged lots new

dispatched :
    (dispatch_order fixed (paper fixed empty_account) order allowed gateway).0.dispatched ≡ true
dispatched =
    (dispatch_order-IsSettled fixed empty_account order room narrow allowed adapter gateway refl
      refl refl up charged lots new).0

dispatch_order_lem_example : IsDispatch fixed (paper fixed empty_account) order allowed gateway
dispatch_order_lem_example =
    dispatch_order_lem fixed (paper fixed empty_account) order allowed gateway dispatched
