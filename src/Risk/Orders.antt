-- ===== src/Risk/Orders.antt =====
-- The decision of engine/src/RiskEngine.cpp on an exact intent.
use mynyra.Prelude.{
  ℕ, ◌-◌, Bool, true, false, not, ◌&&◌, ◌||◌, String, str_eq, is_empty, Option, none, some, List,
  [], ◌∷◌, ltb, leb, ◌==◌, if◌then◌else◌,
}
use mynyra.Prelude.Int.{ltb_ℤ}
use mynyra.Contracts.{
  same_side, PositionEffect, FailureCategory, ReconciliationStatus, RuleBreachAction, OrderIntent,
  OrderRiskContext, PositionSnapshot, RiskDecision,
}
use mynyra.Doubles.{Doubles, zero_double, to_double}

abbrev pub is_opening : OrderIntent → Bool
is_opening intent = elim intent.effect [
  | PositionEffect.opens ↦ true
  | PositionEffect.reduces ↦ false
  | PositionEffect.closes ↦ false
]

-- `rejectExact` with the direction of the intent.
abbrev pub reject : OrderIntent → String → RuleBreachAction → FailureCategory → RiskDecision
reject intent reason action failure = record {
  allowed = false;
  risk_increasing = is_opening intent;
  failure = failure;
  action = action;
  reason = reason;
}

abbrev pub is_matched : ReconciliationStatus → Bool
is_matched ReconciliationStatus.matched = true
is_matched _ = false

unfoldable pub evidence_is_mixed : OrderRiskContext → Bool
evidence_is_mixed c =
    not c.account.complete
    || not c.instrument.complete
    || not c.reconciliation.complete
    || not (is_matched c.reconciliation.status)
    || not c.same_generation
    || c.connection_generation == 0
    || not (c.reconciliation.connection_generation == c.connection_generation)
    || c.instrument_version == 0
    || not (c.instrument.version == c.instrument_version)
    || not (c.reconciliation.account.snapshot_version == c.account.snapshot_version)

abbrev pub maximum_age_ns : ℕ
maximum_age_ns = 5_000_000_000

unfoldable pub fresh_at_evaluation : OrderRiskContext → ℕ → Bool
fresh_at_evaluation c timestamp =
    ltb 0 timestamp
    && leb timestamp c.evaluation_timestamp_ns
    && leb (c.evaluation_timestamp_ns - timestamp) maximum_age_ns

unfoldable pub evidence_is_stale : OrderRiskContext → Bool
evidence_is_stale c =
    c.evaluation_timestamp_ns == 0
    || not (fresh_at_evaluation c c.account.source_timestamp_ns)
    || not (fresh_at_evaluation c c.account.ingestion_timestamp_ns)
    || not (fresh_at_evaluation c c.reconciliation.timestamp_ns)

unfoldable pub exceeds_maximum : (F : Doubles) → OrderIntent → OrderRiskContext → Bool
exceeds_maximum F intent c =
    let quantity = to_double F intent.exact_quantity in
    let maximum = to_double F c.instrument.maximum_quantity in
    not (F.is_finite quantity)
    || not (F.is_finite maximum)
    || F.le quantity (zero_double F)
    || F.lt maximum quantity

-- `std::find_if` by the logical position.
unfoldable pub find_position : String → List PositionSnapshot → Option PositionSnapshot
find_position logical_position_id [] = none
find_position logical_position_id (candidate ∷ rest) =
    if str_eq candidate.logical_position_id logical_position_id
    then some candidate
    else find_position logical_position_id rest

abbrev pub position_differs : OrderIntent → PositionSnapshot → Bool
position_differs intent position =
    not (str_eq position.canonical_symbol intent.canonical_symbol)
    || not (same_side position.side intent.side)
    || not (position.quantity.scale == intent.exact_quantity.scale)
    || ltb_ℤ position.quantity.units intent.exact_quantity.units

abbrev pub accept : Bool → RuleBreachAction → String → RiskDecision
accept risk_increasing action reason = record {
  allowed = true;
  risk_increasing = risk_increasing;
  failure = FailureCategory.none;
  action = action;
  reason = reason;
}

unfoldable pub evaluate_position : OrderIntent → Option PositionSnapshot → RiskDecision
evaluate_position intent none =
    reject intent "risk-reducing quantity does not match reconciliation" RuleBreachAction.close_only
      FailureCategory.reconciliation_mismatch
evaluate_position intent (some position) =
    if position_differs intent position
    then reject intent "risk-reducing quantity does not match reconciliation"
        RuleBreachAction.close_only FailureCategory.reconciliation_mismatch
    else accept false RuleBreachAction.close_only
        "RiskEngine accepted reconciled exposure reduction"

unfoldable pub evaluate_identity : OrderIntent → OrderRiskContext → Option String → RiskDecision
evaluate_identity intent c none =
    reject intent "risk-reducing intent lacks reconciled position identity"
      RuleBreachAction.close_only FailureCategory.validation
evaluate_identity intent c (some logical_position_id) =
    if is_empty logical_position_id
    then reject intent "risk-reducing intent lacks reconciled position identity"
        RuleBreachAction.close_only FailureCategory.validation
    else evaluate_position intent (find_position logical_position_id c.reconciliation.positions)

unfoldable pub evaluate_reduction : OrderIntent → OrderRiskContext → RiskDecision
evaluate_reduction intent c = evaluate_identity intent c intent.logical_position_id
