-- ===== src/Contracts/Enums.antt =====
-- The enumerations of engine/include/BrokerAdapterContracts.hpp, with the source's order.
use mynyra.Prelude.{Bool, true, false}

pub data OrderSide : Type 0 where
  buy sell : OrderSide

pub data PositionSide : Type 0 where
  long short : PositionSide

pub data PositionEffect : Type 0 where
  opens reduces closes : PositionEffect

pub data BrokerOrderType : Type 0 where
  market limit stop unknown : BrokerOrderType

pub data OrderLifecycleState : Type 0 where
  created risk_checked submitted accepted partially_filled filled cancel_requested canceled expired
        rejected timeout unknown reconciled :
      OrderLifecycleState

pub data FailureCategory : Type 0 where
  none validation rejected transport timeout authentication rate_limited stale_data malformed_event
        reconciliation_mismatch unknown :
      FailureCategory

pub data AdapterHealthState : Type 0 where
  disconnected connected degraded stale rate_limited authentication_failed unknown :
      AdapterHealthState

pub data CancelDisposition : Type 0 where
  accepted rejected already_filled already_canceled unknown : CancelDisposition

pub data ReconciliationStatus : Type 0 where
  matched local_only external_only quantity_mismatch price_or_cost_mismatch identity_mismatch stale
        unsupported unknown :
      ReconciliationStatus

pub data RuleBreachAction : Type 0 where
  warn pause flatten cancel_pending close_only read_only halt termination reward_adjustment :
      RuleBreachAction

-- `==` of two enumerators.
abbrev pub same_side : PositionSide → PositionSide → Bool
same_side PositionSide.long PositionSide.long = true
same_side PositionSide.short PositionSide.short = true
same_side _ _ = false

abbrev pub same_effect : PositionEffect → PositionEffect → Bool
same_effect PositionEffect.opens PositionEffect.opens = true
same_effect PositionEffect.reduces PositionEffect.reduces = true
same_effect PositionEffect.closes PositionEffect.closes = true
same_effect _ _ = false
