-- ===== src/Gateway/State.antt =====
-- The state of engine/include/BrokerGateway.hpp, over the interface of engine/include/IBrokerAdapter.hpp. A
-- call of an adapter hands its events to the gateway before it returns; they are its list of notices.
use mynyra.Prelude.{ℕ, Bool, true, false, not, ◌&&◌, ◌||◌, String, Option, none, some, List, []}
use mynyra.Contracts.{
  OrderAcknowledgement, ExecutionEvent, CancelRequest, CancelResult, AdapterHealthEvent,
  AdapterHealthState, FailureCategory, NormalizedOrder, InstrumentSpec, ReconciliationSnapshot,
}
use mynyra.Lifecycle.Store.{OrderLifecycleStore, empty_store}
use mynyra.Doubles.{Doubles}
use mynyra.Adapter.State.{Notice}

pub data SystemMode : Type 0 where
  backtest paper live demo : SystemMode

-- The mode, and what a build and its configuration unlock.
pub record GatewayConfig : Type 0 where
  pub mode : SystemMode
  pub live_runtime_build_enabled : Bool
  pub live_runtime_unlocked : Bool
  pub ctrader_demo_build_enabled : Bool

abbrev pub is_live_mode : GatewayConfig → Bool
is_live_mode c = elim c.mode [ SystemMode.live ↦ true | _ ↦ false ]

abbrev pub is_demo_mode : GatewayConfig → Bool
is_demo_mode c = elim c.mode [ SystemMode.demo ↦ true | _ ↦ false ]

abbrev pub is_paper_mode : GatewayConfig → Bool
is_paper_mode c = elim c.mode [ SystemMode.paper ↦ true | _ ↦ false ]

abbrev pub can_enter_live_runtime : GatewayConfig → Bool
can_enter_live_runtime c = is_live_mode c && c.live_runtime_build_enabled && c.live_runtime_unlocked

abbrev pub can_enter_ctrader_demo_runtime : GatewayConfig → Bool
can_enter_ctrader_demo_runtime c = is_demo_mode c && c.ctrader_demo_build_enabled

pub record IBrokerAdapter : Type 1 where
  pub State : Type 0
  pub is_deterministic : Bool  -- whether `dynamic_cast` to the deterministic adapter succeeds
  pub is_connected : State → Bool
  pub connect : State → Bool × List Notice × State
  pub disconnect : State → List Notice × State
  pub submit : NormalizedOrder → State → Bool × List Notice × State
  pub cancel : CancelRequest → State → Bool × List Notice × State
  pub reconcile : ℕ → State → ReconciliationSnapshot × State
  pub instrument_spec : String → State → Option InstrumentSpec
  pub set_instrument_spec : InstrumentSpec → State → State  -- of the deterministic adapter

pub record BrokerFill (F : Doubles) : Type 0 where
  pub order_id : ℕ
  pub symbol : String
  pub is_buy : Bool
  pub requested_price : F.Double
  pub fill_price : F.Double
  pub quantity : F.Double
  pub filled_quantity : F.Double
  pub remaining_quantity : F.Double
  pub partial_fill : Bool
  pub fee_paid : F.Double
  pub fill_timestamp : ℕ
  pub strategy_id : String
  pub success : Bool
  pub error_message : String

pub record LegacyOrderContext (F : Doubles) : Type 0 where
  pub symbol : String
  pub is_buy : Bool
  pub requested_price : F.Double
  pub requested_quantity : F.Double
  pub strategy_id : String

pub record GatewayDispatchResult : Type 0 where
  pub dispatched : Bool
  pub local_order_id : ℕ
  pub failure : FailureCategory
  pub reason : String

-- What the gateway hands to the callbacks that are set.
pub data Published (F : Doubles) : Type 0 where
  acknowledged : OrderAcknowledgement → Published F
  executed : ExecutionEvent → Published F
  canceled : CancelResult → Published F
  health_changed : AdapterHealthEvent → Published F
  filled : BrokerFill F → Published F

pub record BrokerGateway (F : Doubles) (A : IBrokerAdapter) : Type 0 where
  pub config : GatewayConfig
  pub adapter : Option A.State
  pub live_adapter_approved : Bool
  pub lifecycle : OrderLifecycleStore
  pub symbol_aliases : List (String × String)
  pub instrument_specs : List (String × InstrumentSpec)
  pub legacy_contexts : List (ℕ × LegacyOrderContext F)
  pub last_legacy_fills : List (ℕ × BrokerFill F)
  pub last_reconciliation : Option ReconciliationSnapshot
  pub health : AdapterHealthEvent
  pub next_order_id : ℕ
  pub total_orders_submitted : ℕ
  pub total_fills_received : ℕ
  pub total_api_errors : ℕ
  pub reconciliation_count : ℕ

abbrev pub new_gateway :
    (F : Doubles) → (A : IBrokerAdapter) → GatewayConfig → Option A.State → Bool → BrokerGateway F A
new_gateway F A config adapter live_adapter_approved = record {
  config = config;
  adapter = adapter;
  live_adapter_approved = live_adapter_approved;
  lifecycle = empty_store;
  symbol_aliases = [];
  instrument_specs = [];
  legacy_contexts = [];
  last_legacy_fills = [];
  last_reconciliation = none;
  health = record {
    schema_version = 1;
    state = AdapterHealthState.unknown;
    timestamp_ns = 0;
    sequence = 0;
    latency_ms = 0;
    failure = FailureCategory.none;
    reason = "";
    event_key = "";
  };
  next_order_id = 1_000;
  total_orders_submitted = 0;
  total_fills_received = 0;
  total_api_errors = 0;
  reconciliation_count = 0;
}

unfoldable pub adapter_authorized : (F : Doubles) → (A : IBrokerAdapter) → BrokerGateway F A → Bool
adapter_authorized F A g =
    is_paper_mode g.config
    || (can_enter_live_runtime g.config || can_enter_ctrader_demo_runtime g.config)
      && g.live_adapter_approved
      && not A.is_deterministic

abbrev pub adapter_connected : (A : IBrokerAdapter) → Option A.State → Bool
adapter_connected A none = false
adapter_connected A (some a) = A.is_connected a

unfoldable pub is_connected : (F : Doubles) → (A : IBrokerAdapter) → BrokerGateway F A → Bool
is_connected F A g = adapter_authorized F A g && adapter_connected A g.adapter
