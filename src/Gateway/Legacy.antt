-- ===== src/Gateway/Legacy.antt =====
-- The compatibility interface of engine/src/BrokerGateway.cpp.
use mynyra.Prelude.{
  ℕ, ◌+◌, Bool, true, false, not, ◌&&◌, ◌||◌, String, str_append, Option, none, some, List, [],
  ◌==◌, if◌then◌else◌, is_empty,
}
use mynyra.Prelude.Int.{ltb_ℤ, ◌+ℤ◌, ◌-ℤ◌, int64_max}
use mynyra.Prelude.Maps.{lookup, insert}
use mynyra.Contracts.{
  Decimal64, is_positive, is_negative, OrderRequest, NormalizedOrder, OrderSide, BrokerOrderType,
  PositionSide, PositionEffect, ExecutionEvent, FailureCategory, RiskDecision, RuleBreachAction,
}
use mynyra.Financial.Units.{Rounding, bind}
use mynyra.Lifecycle.Record.{OrderLifecycleRecord}
use mynyra.Doubles.{Doubles, zero_double}
use mynyra.Doubles.Conversions.{from_double}
use mynyra.Adapter.State.{bump, to_string}
use mynyra.Gateway.Normalizing.{Normalization, normalized, rejected, normalize_order}
use mynyra.Gateway.State.{IBrokerAdapter, BrokerFill, LegacyOrderContext, Published, BrokerGateway}
use mynyra.Gateway.Handlers.{count_error, handle_execution}
use mynyra.Gateway.Dispatch.{dispatch_order}
use mynyra.Gateway.Controls.{max_sequence}

pub record LegacyOrder (F : Doubles) : Type 0 where
  pub symbol : String
  pub is_buy : Bool
  pub quantity : F.Double
  pub requested_price : F.Double
  pub timestamp : ℕ
  pub strategy_id : String

abbrev pub legacy_failure : (F : Doubles) → LegacyOrder F → ℕ → String → BrokerFill F
legacy_failure F o order_id message = record {
  order_id = order_id;
  symbol = o.symbol;
  is_buy = o.is_buy;
  requested_price = o.requested_price;
  fill_price = zero_double F;
  quantity = o.quantity;
  filled_quantity = zero_double F;
  remaining_quantity = zero_double F;
  partial_fill = false;
  fee_paid = zero_double F;
  fill_timestamp = o.timestamp;
  strategy_id = o.strategy_id;
  success = false;
  error_message = message;
}

abbrev pub legacy_request : (F : Doubles) → LegacyOrder F → ℕ → Decimal64 → Decimal64 → OrderRequest
legacy_request F o order_id quantity price = record {
  schema_version = 1;
  local_order_id = order_id;
  canonical_symbol = o.symbol;
  side = if o.is_buy then OrderSide.buy else OrderSide.sell;
  order_type = BrokerOrderType.market;
  quantity = quantity;
  limit_price = none;
  stop_price = none;
  reference_price = some price;
  source_id = o.strategy_id;
  timestamp_ns = o.timestamp;
  sequence = 1;
  idempotency_key = str_append "legacy-order-" (to_string order_id);
  position_side = PositionSide.long;
  position_effect = if o.is_buy then PositionEffect.opens else PositionEffect.closes;
  logical_position_id = none;
}

abbrev pub compatibility_decision : Bool → RiskDecision
compatibility_decision is_buy = record {
  allowed = true;
  risk_increasing = is_buy;
  failure = FailureCategory.none;
  action = RuleBreachAction.warn;
  reason = "legacy caller completed existing risk gate";
}

module _ (F : Doubles) (A : IBrokerAdapter) where
  abbrev pub last_fill_or :
      BrokerFill F
      → Option (BrokerFill F)
      → List (Published F) × BrokerGateway F A
      → BrokerFill F × List (Published F) × BrokerGateway F A
  last_fill_or failure none (published, g) = (failure, published, g)
  last_fill_or failure (some fill) (published, g) = (fill, published, g)

  -- The dispatch, and the fill that it has left under the order's number.
  unfoldable pub submit_normalized :
      LegacyOrder F
      → ℕ
      → NormalizedOrder
      → BrokerGateway F A
      → BrokerFill F × List (Published F) × BrokerGateway F A
  submit_normalized o order_id order g =
      let context : LegacyOrderContext F = record {
        symbol = o.symbol;
        is_buy = o.is_buy;
        requested_price = o.requested_price;
        requested_quantity = o.quantity;
        strategy_id = o.strategy_id;
      } in
      let (result, published, next) =
        dispatch_order F A order (compatibility_decision o.is_buy)
          (record g { legacy_contexts = insert order_id context g.legacy_contexts }) in
      let message =
        if is_empty result.reason then "no acknowledgement or execution event" else result.reason in
      last_fill_or (legacy_failure F o order_id message) (lookup order_id next.last_legacy_fills)
        (published, next)

  abbrev pub submit_if_normalized :
      LegacyOrder F
      → ℕ
      → Normalization
      → BrokerGateway F A
      → BrokerFill F × List (Published F) × BrokerGateway F A
  submit_if_normalized o order_id (rejected reason) g =
      (legacy_failure F o order_id reason, [], count_error F A g)
  submit_if_normalized o order_id (normalized order) g = submit_normalized o order_id order g

  abbrev pub positive_pair : Option Decimal64 → Option Decimal64 → Option (Decimal64 × Decimal64)
  positive_pair (some quantity) (some price) =
      if is_positive quantity && is_positive price then some (quantity, price) else none
  positive_pair none price = none
  positive_pair (some quantity) none = none

  abbrev pub submit_if_converted :
      LegacyOrder F
      → ℕ
      → Option (Decimal64 × Decimal64)
      → BrokerGateway F A
      → BrokerFill F × List (Published F) × BrokerGateway F A
  submit_if_converted o order_id none g =
      (legacy_failure F o order_id "legacy order conversion failed", [], count_error F A g)
  submit_if_converted o order_id (some (quantity, price)) g =
      submit_if_normalized o order_id
        (normalize_order g.instrument_specs g.symbol_aliases
          (legacy_request F o order_id quantity price))
        g

  unfoldable pub submit_order :
      LegacyOrder F → BrokerGateway F A → BrokerFill F × List (Published F) × BrokerGateway F A
  submit_order o g =
      submit_if_converted o g.next_order_id
        (positive_pair (from_double F o.quantity 8 Rounding.toward_zero)
          (from_double F o.requested_price 8 Rounding.nearest_ties_away_from_zero))
        (record g { next_order_id = bump g.next_order_id })

  -- The event of a simulated fill, unless its amounts do not fit the order.
  unfoldable pub simulated_execution : BrokerFill F → OrderLifecycleRecord → Option ExecutionEvent
  simulated_execution fill r =
      let scale = r.request.quantity.scale in
      let amount =
        if F.lt (zero_double F) fill.filled_quantity then fill.filled_quantity else fill.quantity in
      bind (from_double F amount scale Rounding.toward_zero) λ quantity.
        bind (from_double F fill.fill_price 8 Rounding.nearest_ties_away_from_zero) λ price.
          bind (from_double F fill.fee_paid 8 Rounding.nearest_ties_away_from_zero) λ charge.
            let cumulative = r.filled_quantity.units +ℤ quantity.units in
            if not (is_positive quantity)
              || not (is_positive price)
              || is_negative charge
              || is_negative r.filled_quantity
              || ltb_ℤ (int64_max -ℤ quantity.units) r.filled_quantity.units
              || ltb_ℤ r.request.quantity.units cumulative
              || r.last_sequence == max_sequence
            then none
            else some (record {
              schema_version = 1;
              local_order_id = fill.order_id;
              external_order_id = r.external_order_id;
              cumulative_filled_quantity = record { units = cumulative; scale = scale };
              remaining_quantity = record {
                units = r.request.quantity.units -ℤ cumulative;
                scale = scale;
              };
              fill_price = price;
              fee = charge;
              timestamp_ns = fill.fill_timestamp;
              sequence = r.last_sequence + 1;
              event_key =
                  str_append
                    (str_append (str_append "simulated-fill-" (to_string fill.order_id)) "-")
                    (to_string (r.last_sequence + 1));
              position_side = r.request.position_side;
              position_effect = r.request.position_effect;
              acceptance_implied_by_fill = false;
            })

  abbrev pub execute_if :
      Option ExecutionEvent → BrokerGateway F A → List (Published F) × BrokerGateway F A
  execute_if none g = ([], count_error F A g)
  execute_if (some e) g = handle_execution F A e g

  abbrev pub simulate_on :
      BrokerFill F
      → Option OrderLifecycleRecord
      → BrokerGateway F A
      → List (Published F) × BrokerGateway F A
  simulate_on fill none g = ([], g)
  simulate_on fill (some r) g = execute_if (simulated_execution fill r) g

  unfoldable pub simulate_fill_confirmation :
      BrokerFill F → BrokerGateway F A → List (Published F) × BrokerGateway F A
  simulate_fill_confirmation fill g = simulate_on fill (lookup fill.order_id g.lifecycle.records) g
