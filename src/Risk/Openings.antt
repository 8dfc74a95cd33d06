-- ===== src/Risk/Openings.antt =====
-- The decision of engine/src/RiskEngine.cpp on an intent that opens a position, and on any intent.
use mynyra.Prelude.{
  ◌-◌, Bool, true, false, not, ◌&&◌, ◌||◌, is_empty, Option, none, some, length, ltb, leb, ◌==◌,
  str_eq, if◌then◌else◌,
}
use mynyra.Contracts.{
  Decimal64, is_positive, is_zero, PositionSide, same_side, FailureCategory, RuleBreachAction,
  OrderIntent, OrderRiskContext, RiskDecision,
}
use mynyra.Doubles.{Doubles, to_double}
use mynyra.Risk.Decimals.{decimal_equal, quantity_aligned}
use mynyra.Risk.Engine.{
  RiskEngine, max_total_drawdown, max_daily_drawdown, position_cap, var_exceeds,
}
use mynyra.Risk.Orders.{
  is_opening, reject, accept, evidence_is_mixed, evidence_is_stale, maximum_age_ns, exceeds_maximum,
  evaluate_reduction,
}

unfoldable pub violates_limits : (F : Doubles) → OrderIntent → OrderRiskContext → Bool
violates_limits F intent c =
    let minimum = to_double F c.instrument.minimum_quantity in
    not (F.is_finite minimum)
    || F.lt (to_double F intent.exact_quantity) minimum
    || not (quantity_aligned intent.exact_quantity c.instrument.quantity_step)

unfoldable pub unsupported_side : OrderIntent → OrderRiskContext → Bool
unsupported_side intent c = elim intent.side [
  | PositionSide.long ↦ not c.instrument.supports_long
  | PositionSide.short ↦ not c.instrument.supports_short
]

abbrev pub expected_reference : OrderIntent → OrderRiskContext → Decimal64
expected_reference intent c = elim intent.side [
  | PositionSide.long ↦ c.ask
  | PositionSide.short ↦ c.bid
]

abbrev pub margin_is_for : PositionSide → Option PositionSide → Bool
margin_is_for side none = false
margin_is_for side (some expected) = same_side expected side

unfoldable pub price_is_unbound : OrderIntent → OrderRiskContext → Bool
price_is_unbound intent c =
    not (decimal_equal intent.reference_price (expected_reference intent c))
    || not (margin_is_for intent.side c.expected_margin_side)

unfoldable pub account_is_used : OrderRiskContext → Bool
account_is_used c =
    not (length c.reconciliation.positions == 0)
    || not (c.reconciliation.pending_order_count == 0)
    || not (length c.reconciliation.order_states == 0)
    || not (is_zero c.gross_exposure)

unfoldable pub quote_is_stale : (F : Doubles) → OrderRiskContext → Bool
quote_is_stale F c =
    not c.bbo_complete
    || not (is_positive c.bid)
    || not (is_positive c.ask)
    || F.le (to_double F c.ask) (to_double F c.bid)
    || c.bbo_source_timestamp_ns == 0
    || ltb c.evaluation_timestamp_ns c.bbo_source_timestamp_ns
    || ltb maximum_age_ns (c.evaluation_timestamp_ns - c.bbo_source_timestamp_ns)

unfoldable pub margin_is_short : (F : Doubles) → OrderRiskContext → Bool
margin_is_short F c =
    let expected = to_double F c.expected_margin in
    let free = to_double F c.account.free_margin in
    not (is_positive c.expected_margin)
    || not (F.is_finite expected)
    || not (F.is_finite free)
    || F.le free expected

unfoldable pub gate_is_shut : (F : Doubles) → RiskEngine F → Bool
gate_is_shut F e =
    e.halted
    || e.close_only
    || F.le (max_total_drawdown F) e.total_drawdown
    || F.le (max_daily_drawdown F) e.daily_drawdown

unfoldable pub evaluate_opening :
    (F : Doubles) → RiskEngine F → OrderIntent → OrderRiskContext → RiskDecision
evaluate_opening F e intent c =
    if violates_limits F intent c
    then reject intent "opening quantity violates instrument limits" RuleBreachAction.halt
        FailureCategory.validation
    else if unsupported_side intent c
    then reject intent "instrument does not support the requested direction" RuleBreachAction.halt
        FailureCategory.validation
    else if not (decimal_equal intent.exact_quantity c.instrument.minimum_quantity)
    then reject intent "DEMO commissioning requires exact minimum quantity" RuleBreachAction.halt
        FailureCategory.validation
    else if price_is_unbound intent c
    then reject intent "price or expected-margin direction is not bound to intent"
        RuleBreachAction.halt FailureCategory.validation
    else if account_is_used c
    then reject intent "DEMO account is not empty" RuleBreachAction.read_only
        FailureCategory.reconciliation_mismatch
    else if quote_is_stale F c
    then reject intent "BBO is missing or stale" RuleBreachAction.read_only
        FailureCategory.stale_data
    else if margin_is_short F c
    then reject intent "expected margin is unavailable or exceeds free margin" RuleBreachAction.halt
        FailureCategory.validation
    else if gate_is_shut F e
    then reject intent "normal risk halt or close-only gate rejected new exposure"
        RuleBreachAction.halt FailureCategory.validation
    else if ltb 0 (position_cap F e) && leb (position_cap F e) (length c.reconciliation.positions)
    then reject intent "position cap rejected new exposure" RuleBreachAction.halt
        FailureCategory.validation
    else if var_exceeds F e (to_double F c.account.equity)
    then reject intent "VaR gate rejected new exposure" RuleBreachAction.halt
        FailureCategory.validation
    else accept true RuleBreachAction.warn "RiskEngine accepted exact minimum-volume Demo exposure"

unfoldable pub is_malformed : OrderIntent → Bool
is_malformed intent =
    is_empty intent.canonical_symbol
    || not (is_positive intent.exact_quantity)
    || not (is_positive intent.reference_price)

unfoldable pub evaluate_order :
    (F : Doubles) → RiskEngine F → OrderIntent → OrderRiskContext → RiskDecision
evaluate_order F e intent c =
    if is_malformed intent
    then reject intent "exact intent is malformed" RuleBreachAction.halt FailureCategory.validation
    else if evidence_is_mixed c
    then reject intent "risk evidence is incomplete or mixed-generation" RuleBreachAction.read_only
        FailureCategory.reconciliation_mismatch
    else if evidence_is_stale c
    then reject intent "account or reconciliation evidence is stale" RuleBreachAction.read_only
        FailureCategory.stale_data
    else if not (str_eq c.instrument.canonical_symbol intent.canonical_symbol)
        || not c.instrument.trading_enabled
    then reject intent "instrument is not commissionable" RuleBreachAction.halt
        FailureCategory.validation
    else if exceeds_maximum F intent c
    then reject intent "exact quantity violates the instrument maximum" RuleBreachAction.halt
        FailureCategory.validation
    else if not (is_opening intent)
    then evaluate_reduction intent c
    else evaluate_opening F e intent c
