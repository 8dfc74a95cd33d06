-- ===== src/Risk/Tests.antt =====
-- The theorems of the risk engine at concrete engines.
use mynyra.Prelude.{ℕ, ◌≡◌, refl, true, false, str_eq, none, some, List, [], ◌∷◌, arith, length}
use mynyra.Prelude.Int.{pos, ◌-ℤ◌, ◌≤ℤ◌, eq_ℤ}
use mynyra.Contracts.{
  Decimal64, OrderSide, PositionSide, same_side, PositionEffect, ReconciliationStatus, OrderIntent,
  AccountSnapshot, InstrumentSpec, PositionSnapshot, OrderRiskContext,
}
use mynyra.Doubles.{to_double, power_of_ten}
use mynyra.Doubles.Fixed.{fixed}
use mynyra.Risk.Decimals.{raise_units, too_wide, decimal_equal, quantity_aligned}
use mynyra.Risk.Engine.{RiskEngine, PortfolioView, new_engine, can_trade, evaluate_side}
use mynyra.Risk.Orders.{
  evidence_is_mixed, evidence_is_stale, fresh_at_evaluation, exceeds_maximum, find_position,
  evaluate_position, evaluate_identity, evaluate_reduction,
}
use mynyra.Risk.Openings.{
  violates_limits, unsupported_side, price_is_unbound, account_is_used, quote_is_stale,
  margin_is_short, gate_is_shut, evaluate_opening, is_malformed, evaluate_order,
}
use mynyra.Risk.Values.{scaled, decimal_equal_exact}
use mynyra.Risk.Admission.{SameValue, IsFresh, Named, opening_admitted, reduction_admitted}
use mynyra.Risk.Halts.{
  Change, reports_latency, reports_error, sets_halt, sets_config, clears_latency, changes,
  halt_holds,
}
use mynyra.Risk.Restoring.{cap_holds}

abbrev decimal : ℕ → ℕ → Decimal64
decimal units scale = record { units = pos units; scale = scale }

abbrev engine : RiskEngine fixed
engine = new_engine fixed 2 (pos 500) 252

abbrev two_open : PortfolioView fixed
two_open = record { open_position_count = 2; total_equity = pos 1_000_000 }

abbrev one_open : PortfolioView fixed
one_open = record { open_position_count = 1; total_equity = pos 1_000_000 }

abbrev account : AccountSnapshot
account = record {
  schema_version = 1;
  snapshot_version = 4;
  balance = decimal 100_000 2;
  equity = decimal 100_000 2;
  realized_pnl = decimal 0 2;
  unrealized_pnl = decimal 0 2;
  margin_used = decimal 0 2;
  free_margin = decimal 100_000 2;
  currency = "EUR";
  source_timestamp_ns = 1_000;
  ingestion_timestamp_ns = 1_001;
  complete = true;
  missing_fields = [];
}

abbrev instrument : InstrumentSpec
instrument = record {
  schema_version = 1;
  version = 3;
  canonical_symbol = "XAUUSD";
  execution_alias = "XAUUSD";
  tick_size = decimal 1 2;
  contract_size = decimal 100 0;
  minimum_quantity = decimal 10 1;
  maximum_quantity = decimal 1_000 0;
  quantity_step = decimal 1 0;
  effective_timestamp_ns = 0;
  complete = true;
  trading_enabled = true;
  supports_long = true;
  supports_short = true;
}

abbrev position : PositionSnapshot
position = record {
  canonical_symbol = "XAUUSD";
  quantity = decimal 3 0;
  average_price = decimal 2_000 0;
  logical_position_id = "p-1";
  side = PositionSide.long;
}

abbrev context : List PositionSnapshot → OrderRiskContext
context positions = record {
  schema_version = 1;
  account = account;
  instrument = instrument;
  reconciliation = record {
    schema_version = 1;
    snapshot_version = 9;
    timestamp_ns = 1_002;
    account = account;
    positions = positions;
    order_states = [];
    status = ReconciliationStatus.matched;
    order_effects = [];
    pending_order_count = 0;
    connection_generation = 5;
    complete = true;
  };
  expected_margin = decimal 20 0;
  expected_margin_side = some PositionSide.long;
  gross_exposure = decimal 0 0;
  bid = decimal 1_999 0;
  ask = decimal 2_000 0;
  instrument_version = 3;
  bbo_source_timestamp_ns = 1_003;
  evaluation_timestamp_ns = 2_000;
  connection_generation = 5;
  bbo_complete = true;
  same_generation = true;
}

-- The minimum quantity 1.0 and the ask 2000, each written with another scale.
abbrev intent : PositionEffect → OrderIntent
intent effect = record {
  schema_version = 1;
  side = PositionSide.long;
  effect = effect;
  exact_quantity = decimal 1 0;
  reference_price = decimal 20_000 1;
  canonical_symbol = "XAUUSD";
  strategy_attribution = "SMA_01";
  logical_position_id = some "p-1";
  decision_timestamp_ns = 1_500;
}

opening_allowed :
    (evaluate_order fixed engine (intent PositionEffect.opens) (context [])).allowed ≡ true
unfolding evaluate_order is_malformed evidence_is_mixed evidence_is_stale fresh_at_evaluation
    exceeds_maximum to_double power_of_ten ◌-ℤ◌ evaluate_opening violates_limits quantity_aligned
    raise_units too_wide unsupported_side decimal_equal price_is_unbound account_is_used
    quote_is_stale margin_is_short gate_is_shut
opening_allowed = refl

reduction_allowed :
    (evaluate_order fixed engine (intent PositionEffect.reduces) (context (position ∷ []))).allowed
    ≡ true
unfolding evaluate_order is_malformed evidence_is_mixed evidence_is_stale fresh_at_evaluation
    exceeds_maximum to_double power_of_ten ◌-ℤ◌ evaluate_reduction evaluate_identity
    evaluate_position find_position
reduction_allowed = refl

decimal_equal_exact_example :
    decimal_equal (decimal 15 1) (decimal 1_500 3) ≡ eq_ℤ (scaled 3 (pos 15)) (scaled 1 (pos 1_500))
decimal_equal_exact_example = decimal_equal_exact (decimal 15 1) (decimal 1_500 3) refl refl

opening_admitted_example :
    SameValue (decimal 1 0) (decimal 10 1)
    × SameValue (decimal 20_000 1) (decimal 2_000 0)
    × (length (context []).reconciliation.positions ≡ 0)
    × (length (context []).reconciliation.positions ≡ 0)
    × IsFresh (context []) 1_000
    × IsFresh (context []) 1_002
    × IsFresh (context []) 1_003
    × (false ≡ false)
    × (false ≡ false)
opening_admitted_example =
    opening_admitted fixed engine (intent PositionEffect.opens) (context []) refl refl refl refl
      refl opening_allowed

abbrev halted_engine : RiskEngine fixed
halted_engine = record engine { halted = true }

reduction_admitted_example :
    ((p : PositionSnapshot) × Named (context (position ∷ [])) (some "p-1") p
      × (str_eq p.canonical_symbol "XAUUSD" ≡ true)
      × (same_side p.side PositionSide.long ≡ true)
      × (p.quantity.scale ≡ 0)
      × (pos 1 ≤ℤ p.quantity.units))
    × IsFresh (context (position ∷ [])) 1_002
    × (evaluate_order fixed halted_engine (intent PositionEffect.reduces) (context (position ∷ []))
        ≡ evaluate_order fixed engine (intent PositionEffect.reduces) (context (position ∷ [])))
reduction_admitted_example =
    reduction_admitted fixed engine halted_engine (intent PositionEffect.reduces)
      (context (position ∷ [])) refl reduction_allowed

abbrev busy : List (Change fixed)
busy =
    sets_config none
    ∷ reports_latency 900
    ∷ reports_error 1_000
    ∷ sets_halt true
    ∷ clears_latency
    ∷ []

halt_holds_example :
    (can_trade fixed one_open (changes fixed busy halted_engine) ≡ false)
    × ((evaluate_side fixed one_open (changes fixed busy halted_engine) OrderSide.buy).allowed
        ≡ false)
    × ((evaluate_order fixed
          (changes fixed busy halted_engine)
          (intent PositionEffect.opens)
          (context [])).allowed
        ≡ false)
halt_holds_example =
    halt_holds fixed busy halted_engine one_open (intent PositionEffect.opens) (context [])
      (refl, (refl, (refl, (refl, (refl, tt))))) refl refl

cap_holds_example : can_trade fixed two_open (changes fixed busy engine) ≡ false
cap_holds_example = cap_holds fixed 2 (pos 500) 252 busy two_open (omega arith) (omega arith)
