-- ===== src/Gateway/Normalizing.antt =====
-- The normalization of an order for its instrument in engine/src/BrokerGateway.cpp.
use mynyra.Prelude.{
  ℕ, zero, suc, ◌-◌, ◌*◌, ◌/◌, Bool, true, false, not, ◌&&◌, ◌||◌, String, Option, none, some, List,
  ltb, ◌==◌, if◌then◌else◌, is_empty,
}
use mynyra.Prelude.Int.{ℤ, pos, negsuc, ◌-ℤ◌, ltb_ℤ, int64_max}
use mynyra.Prelude.Dictionary.{find}
use mynyra.Contracts.{
  Decimal64, is_positive, max_scale, BrokerOrderType, PositionEffect, OrderRequest, NormalizedOrder,
  InstrumentSpec, same_effect,
}
use mynyra.Financial.Units.{bind}
use mynyra.Risk.Decimals.{raise_units}

-- `units /= 10`, which truncates.
abbrev pub tenth : ℤ → ℤ
tenth (pos n) = pos (n / 10)
tenth (negsuc n) = pos 0 -ℤ pos (suc n / 10)

unfoldable pub lower_units : ℕ → ℤ → ℤ
lower_units zero units = units
lower_units (suc rounds) units = lower_units rounds (tenth units)

-- At most one of the loops has a round.
unfoldable pub rescale_toward_zero : Decimal64 → ℕ → Option Decimal64
rescale_toward_zero value target_scale =
    if ltb max_scale value.scale || ltb max_scale target_scale
    then none
    else bind (raise_units (target_scale - value.scale) value.units) λ units.
      some (record { units = lower_units (value.scale - target_scale) units; scale = target_scale })

-- `(units / step) * step`. The step is positive, and so is the amount, unless it is 0.
abbrev pub aligned_units : ℤ → ℤ → ℤ
aligned_units (pos n) (pos step) = pos (n / step * step)
aligned_units _ _ = pos 0

unfoldable pub normalize_to_step : Decimal64 → Decimal64 → Option Decimal64
normalize_to_step value step =
    if not (is_positive value) || not (is_positive step)
    then none
    else bind (rescale_toward_zero value step.scale) λ scaled.
      some (record { units = aligned_units scaled.units step.units; scale = step.scale })

abbrev pub default_instrument : OrderRequest → InstrumentSpec
default_instrument request = record {
  schema_version = 1;
  version = 1;
  canonical_symbol = request.canonical_symbol;
  execution_alias = request.canonical_symbol;
  tick_size = record { units = pos 1; scale = 8 };
  contract_size = record { units = pos 1; scale = 0 };
  minimum_quantity = record { units = pos 1; scale = request.quantity.scale };
  maximum_quantity = record { units = int64_max; scale = request.quantity.scale };
  quantity_step = record { units = pos 1; scale = request.quantity.scale };
  effective_timestamp_ns = 0;
  complete = true;
  trading_enabled = false;
  supports_long = true;
  supports_short = false;
}

pub data Normalization : Type 0 where
  normalized : NormalizedOrder → Normalization
  rejected : String → Normalization

abbrev pub is_there {ℓ} : {A : Type ℓ} → Option A → Bool
is_there none = false
is_there (some a) = true

unfoldable pub request_is_malformed : OrderRequest → Bool
request_is_malformed request =
    request.local_order_id == 0
    || is_empty request.canonical_symbol
    || not (is_positive request.quantity)
    || is_empty request.idempotency_key

unfoldable pub lacks_price : OrderRequest → Bool
lacks_price request = elim request.order_type [
  | BrokerOrderType.unknown ↦ true
  | BrokerOrderType.market ↦ not (is_there request.reference_price)
  | BrokerOrderType.limit ↦ not (is_there request.limit_price)
  | BrokerOrderType.stop ↦ not (is_there request.stop_price)
]

abbrev pub is_opening : OrderRequest → Bool
is_opening request = same_effect request.position_effect PositionEffect.opens

-- An opening quantity is a multiple of the step; one that reduces a position is left as it is.
unfoldable pub normalized_quantity : OrderRequest → InstrumentSpec → Option Decimal64
normalized_quantity request spec =
    if is_opening request
    then normalize_to_step request.quantity spec.quantity_step
    else some request.quantity

abbrev pub violates : Bool → Decimal64 → Option Decimal64 → Option Decimal64 → Bool
violates opening quantity (some minimum) (some maximum) =
    opening && ltb_ℤ quantity.units minimum.units || ltb_ℤ maximum.units quantity.units
violates opening quantity none maximum = true
violates opening quantity (some minimum) none = true

unfoldable pub violates_bounds : OrderRequest → InstrumentSpec → Decimal64 → Bool
violates_bounds request spec quantity =
    violates (is_opening request) quantity
      (rescale_toward_zero spec.minimum_quantity quantity.scale)
      (rescale_toward_zero spec.maximum_quantity quantity.scale)

abbrev pub normalize_price : InstrumentSpec → Option Decimal64 → Option Decimal64
normalize_price spec price = bind price λ p. normalize_to_step p spec.tick_size

abbrev pub lost : Option Decimal64 → Option Decimal64 → Bool
lost price normalized_price = is_there price && not (is_there normalized_price)

unfoldable pub order_for : OrderRequest → InstrumentSpec → String → Decimal64 → NormalizedOrder
order_for request spec alias quantity = record {
  request = request;
  execution_symbol = if is_empty alias then request.canonical_symbol else alias;
  normalized_quantity = quantity;
  normalized_limit_price = normalize_price spec request.limit_price;
  normalized_stop_price = normalize_price spec request.stop_price;
  normalized_reference_price = normalize_price spec request.reference_price;
  instrument_version = spec.version;
}

unfoldable pub price_is_lost : OrderRequest → NormalizedOrder → Bool
price_is_lost request order =
    lost request.limit_price order.normalized_limit_price
    || lost request.stop_price order.normalized_stop_price
    || lost request.reference_price order.normalized_reference_price

unfoldable pub with_quantity : OrderRequest → InstrumentSpec → String → Decimal64 → Normalization
with_quantity request spec alias quantity =
    let order = order_for request spec alias quantity in
    if not (is_positive quantity)
    then rejected "quantity normalizes to zero or is not representable"
    else if violates_bounds request spec quantity
    then rejected "normalized quantity violates instrument bounds"
    else if price_is_lost request order
    then rejected "price is not representable for instrument tick size"
    else normalized order

abbrev pub with_quantity_if :
    OrderRequest → InstrumentSpec → String → Option Decimal64 → Normalization
with_quantity_if request spec alias none =
    rejected "quantity normalizes to zero or is not representable"
with_quantity_if request spec alias (some quantity) = with_quantity request spec alias quantity

unfoldable pub normalize_for : OrderRequest → InstrumentSpec → String → Normalization
normalize_for request spec alias =
    if request_is_malformed request
    then rejected "invalid broker-neutral order request"
    else if lacks_price request
    then rejected "order type lacks required price evidence"
    else if not spec.complete || not (is_positive spec.quantity_step)
    then rejected "instrument metadata is incomplete"
    else with_quantity_if request spec alias (normalized_quantity request spec)

abbrev pub value_or {ℓ} : {A : Type ℓ} → Option A → A → A
value_or none a = a
value_or (some b) a = b

-- The instruments and the aliases that the gateway keeps.
unfoldable pub normalize_order :
    List (String × InstrumentSpec) → List (String × String) → OrderRequest → Normalization
normalize_order instruments aliases request =
    let spec = value_or (find request.canonical_symbol instruments) (default_instrument request) in
    let alias = value_or (find request.canonical_symbol aliases) spec.execution_alias in
    normalize_for request spec alias
