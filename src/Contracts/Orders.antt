-- ===== src/Contracts/Orders.antt =====
-- The order, fill, cancel and health events of engine/include/BrokerAdapterContracts.hpp.
-- `uint32_t` and `uint64_t` fields are numbers; a `std::string` is a text.
use mynyra.Prelude.{ℕ, Bool, String, Option}
use mynyra.Contracts.Decimal.{Decimal64}
use mynyra.Contracts.Enums.{
  OrderSide, PositionSide, PositionEffect, BrokerOrderType, FailureCategory, AdapterHealthState,
  CancelDisposition, RuleBreachAction,
}

pub record OrderRequest : Type 0 where
  pub schema_version : ℕ
  pub local_order_id : ℕ
  pub canonical_symbol : String
  pub side : OrderSide
  pub order_type : BrokerOrderType
  pub quantity : Decimal64
  pub limit_price : Option Decimal64
  pub stop_price : Option Decimal64
  pub reference_price : Option Decimal64
  pub source_id : String
  pub timestamp_ns : ℕ
  pub sequence : ℕ
  pub idempotency_key : String
  pub position_side : PositionSide
  pub position_effect : PositionEffect
  pub logical_position_id : Option String

pub record OrderIntent : Type 0 where
  pub schema_version : ℕ
  pub side : PositionSide
  pub effect : PositionEffect
  pub exact_quantity : Decimal64
  pub reference_price : Decimal64
  pub canonical_symbol : String
  pub strategy_attribution : String
  pub logical_position_id : Option String
  pub decision_timestamp_ns : ℕ

pub record NormalizedOrder : Type 0 where
  pub request : OrderRequest
  pub execution_symbol : String
  pub normalized_quantity : Decimal64
  pub normalized_limit_price : Option Decimal64
  pub normalized_stop_price : Option Decimal64
  pub normalized_reference_price : Option Decimal64
  pub instrument_version : ℕ

pub record OrderAcknowledgement : Type 0 where
  pub schema_version : ℕ
  pub local_order_id : ℕ
  pub external_order_id : String
  pub is_accepted : Bool
  pub failure : FailureCategory
  pub reason : String
  pub timestamp_ns : ℕ
  pub sequence : ℕ
  pub event_key : String

pub record ExecutionEvent : Type 0 where
  pub schema_version : ℕ
  pub local_order_id : ℕ
  pub external_order_id : String
  pub cumulative_filled_quantity : Decimal64
  pub remaining_quantity : Decimal64
  pub fill_price : Decimal64
  pub fee : Decimal64
  pub timestamp_ns : ℕ
  pub sequence : ℕ
  pub event_key : String
  pub position_side : PositionSide
  pub position_effect : PositionEffect
  pub acceptance_implied_by_fill : Bool

pub record CancelRequest : Type 0 where
  pub schema_version : ℕ
  pub local_order_id : ℕ
  pub external_order_id : String
  pub timestamp_ns : ℕ
  pub sequence : ℕ
  pub idempotency_key : String

pub record CancelResult : Type 0 where
  pub schema_version : ℕ
  pub local_order_id : ℕ
  pub disposition : CancelDisposition
  pub failure : FailureCategory
  pub reason : String
  pub timestamp_ns : ℕ
  pub sequence : ℕ
  pub event_key : String

pub record AdapterHealthEvent : Type 0 where
  pub schema_version : ℕ
  pub state : AdapterHealthState
  pub timestamp_ns : ℕ
  pub sequence : ℕ
  pub latency_ms : ℕ
  pub failure : FailureCategory
  pub reason : String
  pub event_key : String

pub record RiskDecision : Type 0 where
  pub allowed : Bool
  pub risk_increasing : Bool
  pub failure : FailureCategory
  pub action : RuleBreachAction
  pub reason : String
