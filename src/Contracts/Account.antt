-- ===== src/Contracts/Account.antt =====
-- The account, instrument and reconciliation evidence of
-- engine/include/BrokerAdapterContracts.hpp. An `unordered_map` keyed by an order id is an
-- association list.
use mynyra.Prelude.{ℕ, Bool, String, Option, List}
use mynyra.Contracts.Decimal.{Decimal64}
use mynyra.Contracts.Enums.{PositionSide, PositionEffect, OrderLifecycleState, ReconciliationStatus}

pub record PositionSnapshot : Type 0 where
  pub canonical_symbol : String
  pub quantity : Decimal64
  pub average_price : Decimal64
  pub logical_position_id : String
  pub side : PositionSide

pub record AccountSnapshot : Type 0 where
  pub schema_version : ℕ
  pub snapshot_version : ℕ
  pub balance : Decimal64
  pub equity : Decimal64
  pub realized_pnl : Decimal64
  pub unrealized_pnl : Decimal64
  pub margin_used : Decimal64
  pub free_margin : Decimal64
  pub currency : String
  pub source_timestamp_ns : ℕ
  pub ingestion_timestamp_ns : ℕ
  pub complete : Bool
  pub missing_fields : List String

pub record InstrumentSpec : Type 0 where
  pub schema_version : ℕ
  pub version : ℕ
  pub canonical_symbol : String
  pub execution_alias : String
  pub tick_size : Decimal64
  pub contract_size : Decimal64
  pub minimum_quantity : Decimal64
  pub maximum_quantity : Decimal64
  pub quantity_step : Decimal64
  pub effective_timestamp_ns : ℕ
  pub complete : Bool
  pub trading_enabled : Bool
  pub supports_long : Bool
  pub supports_short : Bool

pub record ReconciliationSnapshot : Type 0 where
  pub schema_version : ℕ
  pub snapshot_version : ℕ
  pub timestamp_ns : ℕ
  pub account : AccountSnapshot
  pub positions : List PositionSnapshot
  pub order_states : List (ℕ × OrderLifecycleState)
  pub status : ReconciliationStatus
  pub order_effects : List (ℕ × PositionEffect)
  pub pending_order_count : ℕ
  pub connection_generation : ℕ
  pub complete : Bool

pub record OrderRiskContext : Type 0 where
  pub schema_version : ℕ
  pub account : AccountSnapshot
  pub instrument : InstrumentSpec
  pub reconciliation : ReconciliationSnapshot
  pub expected_margin : Decimal64
  pub expected_margin_side : Option PositionSide
  pub gross_exposure : Decimal64
  pub bid : Decimal64
  pub ask : Decimal64
  pub instrument_version : ℕ
  pub bbo_source_timestamp_ns : ℕ
  pub evaluation_timestamp_ns : ℕ
  pub connection_generation : ℕ
  pub bbo_complete : Bool
  pub same_generation : Bool
