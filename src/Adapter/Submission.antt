-- ===== src/Adapter/Submission.antt =====
-- `submit` of engine/src/DeterministicBrokerAdapter.cpp.
use mynyra.Prelude.{
  ℕ, ◌+◌, ◌%◌, ◌^◌, Bool, true, false, not, ◌&&◌, ◌||◌, String, str_append, Option, none, some,
  List, [], ◌∷◌, ◌++◌, ltb, ◌==◌, if◌then◌else◌,
}
use mynyra.Prelude.Int.{pos, ltb_ℤ, ◌-ℤ◌}
use mynyra.Prelude.Maps.{insert}
use mynyra.Contracts.{
  Decimal64, is_positive, is_zero, OrderSide, OrderAcknowledgement, ExecutionEvent,
  AdapterHealthState, FailureCategory, NormalizedOrder,
}
use mynyra.Financial.Units.{Rounding, Price, Money, positive, bind}
use mynyra.Financial.Values.{apply_slippage, notional, fee}
use mynyra.Doubles.{Doubles, to_double}
use mynyra.Doubles.Conversions.{price_of, quantity_of, from_double}
use mynyra.Adapter.State.{
  DeterministicBrokerAdapter, FaultConfig, Notice, health_changed, order_acknowledged,
  order_executed, bump, to_string, health_event,
}

-- Every n-th submission, where n is not 0.
abbrev pub strikes : FaultConfig → ℕ → ℕ → Bool
strikes c every_n submit_number = c.enabled && ltb 0 every_n && submit_number % every_n == 0

abbrev pub notices_if : Bool → Notice → List Notice
notices_if b n = if b then n ∷ [] else []

unfoldable pub fault_disconnect :
    (F : Doubles)
    → NormalizedOrder
    → DeterministicBrokerAdapter F
    → List Notice × DeterministicBrokerAdapter F
fault_disconnect F order a =
    let event =
      health_event AdapterHealthState.connected order.request.timestamp_ns (bump a.sequence)
        FailureCategory.transport "deterministic disconnect and reconnect" in
    if strikes a.fault_config a.fault_config.disconnect_every_n a.submit_count
    then (
      health_changed event ∷ [],
      record a {
        fault_disconnects = bump a.fault_disconnects;
        disconnect_count = bump a.disconnect_count;
        reconnect_count = bump a.reconnect_count;
        connected = true;
        sequence = bump a.sequence;
        health = event;
      },
    )
    else ([], a)

unfoldable pub fault_latency :
    (F : Doubles) → DeterministicBrokerAdapter F → DeterministicBrokerAdapter F
fault_latency F a =
    if ltb 0 a.fault_config.latency_spike_ms
      && strikes a.fault_config a.fault_config.latency_spike_every_n a.submit_count
    then record a {
      fault_latency_spikes = bump a.fault_latency_spikes;
      health = record a.health { latency_ms = a.fault_config.latency_spike_ms };
    }
    else a

abbrev pub acknowledgement_of :
    NormalizedOrder → Bool → String → FailureCategory → String → OrderAcknowledgement
acknowledgement_of order is_accepted external_order_id failure reason = record {
  schema_version = 1;
  local_order_id = order.request.local_order_id;
  external_order_id = external_order_id;
  is_accepted = is_accepted;
  failure = failure;
  reason = reason;
  timestamp_ns = order.request.timestamp_ns;
  sequence = (order.request.sequence + 3) % 2 ^ 64;
  event_key = str_append "ack-" (to_string order.request.local_order_id);
}

abbrev pub paper_id : NormalizedOrder → String
paper_id order = str_append "paper-" (to_string order.request.local_order_id)

-- The whole quantity is filled, unless a part of it is asked for and can be represented.
abbrev pub split_at : Decimal64 → Option Decimal64 → Decimal64 × Decimal64
split_at whole none = (whole, record { units = pos 0; scale = whole.scale })
split_at whole (some partial) =
    if is_positive partial && ltb_ℤ partial.units whole.units
    then (partial, record { units = whole.units -ℤ partial.units; scale = whole.scale })
    else (whole, record { units = pos 0; scale = whole.scale })

unfoldable pub split_fill : (F : Doubles) → Decimal64 → Option F.Double → Decimal64 × Decimal64
split_fill F whole none = split_at whole none
split_fill F whole (some ratio) =
    split_at whole
      (from_double F (F.mul (to_double F whole) ratio) whole.scale Rounding.toward_zero)

abbrev pub value_or {ℓ} : {A : Type ℓ} → Option A → A → A
value_or none a = a
value_or (some b) a = b

abbrev pub quoted_price : NormalizedOrder → Decimal64
quoted_price order = value_or order.normalized_limit_price (
    value_or order.normalized_stop_price
      (value_or order.normalized_reference_price (record { units = pos 0; scale = 0 })))

abbrev pub is_buy : OrderSide → Bool
is_buy OrderSide.buy = true
is_buy OrderSide.sell = false

-- The slipped price and the fee of a fill, where the arithmetic can represent them.
unfoldable pub priced_fill :
    (F : Doubles)
    → DeterministicBrokerAdapter F
    → NormalizedOrder
    → Decimal64
    → Option (Price × Money)
priced_fill F a order filled =
    bind (price_of F (to_double F (quoted_price order)) Rounding.reject_unaligned) λ price.
      bind (quantity_of F (to_double F filled) Rounding.reject_unaligned) λ quantity.
        bind
          (apply_slippage price a.slippage_rate (is_buy order.request.side)
            Rounding.nearest_ties_away_from_zero)
          λ slipped. bind (notional slipped quantity Rounding.nearest_ties_away_from_zero) λ cost.
            bind (fee cost a.fee_rate Rounding.nearest_ties_away_from_zero)
              λ charge. if positive quantity.units then some (slipped, charge) else none

abbrev pub execution_of : NormalizedOrder → Decimal64 × Decimal64 → Price × Money → ExecutionEvent
execution_of order (filled, remaining) (price, charge) = record {
  schema_version = 1;
  local_order_id = order.request.local_order_id;
  external_order_id = paper_id order;
  cumulative_filled_quantity = filled;
  remaining_quantity = remaining;
  fill_price = record { units = price.units; scale = 8 };
  fee = record { units = charge.units; scale = 8 };
  timestamp_ns = order.request.timestamp_ns;
  sequence = (order.request.sequence + 4) % 2 ^ 64;
  event_key = str_append (str_append "fill-" (to_string order.request.local_order_id)) "-1";
  position_side = order.request.position_side;
  position_effect = order.request.position_effect;
  acceptance_implied_by_fill = false;
}

abbrev pub settle_fill :
    (F : Doubles)
    → NormalizedOrder
    → Decimal64 × Decimal64
    → Option (Price × Money)
    → DeterministicBrokerAdapter F
    → List Notice × DeterministicBrokerAdapter F
settle_fill F order split none a = (
  order_acknowledged (
        acknowledgement_of order false "" FailureCategory.validation
          "paper fill arithmetic is not representable")
      ∷ [],
  a,
)
settle_fill F order split (some priced) a = (
  order_acknowledged (acknowledgement_of order true (paper_id order) FailureCategory.none "")
      ∷ order_executed (execution_of order split priced)
      ∷ [],
  record a {
    pending_orders =
        if is_zero split.1
        then a.pending_orders
        else insert order.request.local_order_id order a.pending_orders;
  },
)

unfoldable pub fill_order :
    (F : Doubles)
    → NormalizedOrder
    → DeterministicBrokerAdapter F
    → List Notice × DeterministicBrokerAdapter F
fill_order F order a =
    let split = split_fill F order.normalized_quantity a.partial_fill_ratio in
    settle_fill F order split (priced_fill F a order split.0)
      (record a { partial_fill_ratio = none })

-- The branch of an injected error or a drop, and the other one.
unfoldable pub answer :
    (F : Doubles)
    → NormalizedOrder
    → DeterministicBrokerAdapter F
    → List Notice × DeterministicBrokerAdapter F
answer F order a =
    let drop = strikes a.fault_config a.fault_config.drop_every_n a.submit_count in
    if a.inject_error || drop
    then (
      order_acknowledged (
            acknowledgement_of order false ""
              (if drop then FailureCategory.transport else FailureCategory.rejected)
              (if drop then "deterministic fault drop" else a.injected_error))
          ∷ [],
      record a {
        fault_drops = if drop then bump a.fault_drops else a.fault_drops;
        inject_error = false;
        injected_error = "";
      },
    )
    else fill_order F order a

unfoldable pub submit :
    (F : Doubles)
    → NormalizedOrder
    → DeterministicBrokerAdapter F
    → Bool × List Notice × DeterministicBrokerAdapter F
submit F order a =
    let counted = record a { submit_count = bump a.submit_count } in
    let (health_notices, reconnected) = fault_disconnect F order counted in
    let (notices, answered) = answer F order (fault_latency F reconnected) in
    if not a.connected then (false, [], a) else (true, health_notices ++ notices, answered)
