-- ===== src/Gateway/Controls.antt =====
-- The other operations of engine/src/BrokerGateway.cpp.
use mynyra.Prelude.{
  ℕ, ◌+◌, ◌-◌, ◌^◌, Bool, true, false, not, ◌&&◌, ◌||◌, String, str_append, Option, none, some,
  List, [], ◌++◌, ◌==◌, if◌then◌else◌,
}
use mynyra.Prelude.Int.{pos}
use mynyra.Prelude.Dictionary.{find, assign}
use mynyra.Prelude.Maps.{lookup}
use mynyra.Contracts.{
  Decimal64, CancelRequest, AdapterHealthEvent, AdapterHealthState, FailureCategory, InstrumentSpec,
  ReconciliationSnapshot, ReconciliationStatus, OrderLifecycleState,
}
use mynyra.Lifecycle.Record.{LifecycleApplyResult, OrderLifecycleRecord}
use mynyra.Lifecycle.Store.{OrderLifecycleStore, mark_unknown}
use mynyra.Lifecycle.Fills.{apply_reconciliation}
use mynyra.Doubles.{Doubles, zero_double, to_double}
use mynyra.Portfolio.State.{PortfolioManager, value_double}
use mynyra.Adapter.State.{bump, to_string}
use mynyra.Gateway.State.{
  IBrokerAdapter, GatewayConfig, Published, BrokerGateway, is_live_mode, is_demo_mode,
  adapter_authorized, is_connected,
}
use mynyra.Gateway.Handlers.{handle_all, handle_health}
use mynyra.Gateway.Dispatch.{was_applied, request_order_cancel}

abbrev pub disconnected_event : FailureCategory → String → String → AdapterHealthEvent
disconnected_event failure reason key = record {
  schema_version = 1;
  state = AdapterHealthState.disconnected;
  timestamp_ns = 0;
  sequence = 0;
  latency_ms = 0;
  failure = failure;
  reason = reason;
  event_key = key;
}

abbrev pub max_sequence : ℕ
max_sequence = 2 ^ 64 - 1

module _ (F : Doubles) (A : IBrokerAdapter) where
  abbrev pub settle_connect :
      Bool → List (Published F) × BrokerGateway F A → List (Published F) × BrokerGateway F A
  settle_connect true (published, g) = (published, g)
  settle_connect false (published, g) =
      let (more, next) =
        handle_health F A
          (disconnected_event FailureCategory.transport "adapter connection failed"
            "gateway-connect-failed")
          g in
      (published ++ more, next)

  abbrev pub connect_adapter : A.State → BrokerGateway F A → List (Published F) × BrokerGateway F A
  connect_adapter a g =
      let (up, notices, next) = A.connect a in
      settle_connect up (handle_all F A notices (record g { adapter = some next }))

  abbrev pub fail_closed : BrokerGateway F A → List (Published F) × BrokerGateway F A
  fail_closed g =
      handle_health F A
        (disconnected_event FailureCategory.validation
          (if is_live_mode g.config
            then "LIVE adapter is not separately approved"
            else "adapter unavailable in BACKTEST")
          "gateway-fail-closed")
        g

  abbrev pub connect_on :
      Option A.State → BrokerGateway F A → List (Published F) × BrokerGateway F A
  connect_on none g = fail_closed g
  connect_on (some a) g = if adapter_authorized F A g then connect_adapter a g else fail_closed g

  unfoldable pub connect : BrokerGateway F A → List (Published F) × BrokerGateway F A
  connect g = connect_on g.adapter g

  abbrev pub disconnect_on :
      Option A.State → BrokerGateway F A → List (Published F) × BrokerGateway F A
  disconnect_on none g = ([], g)
  disconnect_on (some a) g =
      let (notices, next) = A.disconnect a in
      handle_all F A notices (record g { adapter = some next })

  unfoldable pub disconnect : BrokerGateway F A → List (Published F) × BrokerGateway F A
  disconnect g = disconnect_on g.adapter g

  unfoldable pub set_symbol_alias : String → String → BrokerGateway F A → BrokerGateway F A
  set_symbol_alias symbol alias g = record g {
    symbol_aliases = assign symbol alias g.symbol_aliases;
  }

  abbrev pub instrument_to : InstrumentSpec → Option A.State → Option A.State
  instrument_to spec none = none
  instrument_to spec (some a) =
      some (if A.is_deterministic then A.set_instrument_spec spec a else a)

  unfoldable pub set_instrument_spec : InstrumentSpec → BrokerGateway F A → BrokerGateway F A
  set_instrument_spec spec g = record g {
    instrument_specs = assign spec.canonical_symbol spec g.instrument_specs;
    adapter = instrument_to spec g.adapter;
  }

  abbrev pub spec_from :
      Option A.State → String → List (String × InstrumentSpec) → Option InstrumentSpec
  spec_from none symbol specs = find symbol specs
  spec_from (some a) symbol specs =
      if A.is_connected a then A.instrument_spec symbol a else find symbol specs

  unfoldable pub instrument_spec : String → BrokerGateway F A → Option InstrumentSpec
  instrument_spec symbol g = spec_from g.adapter symbol g.instrument_specs

  -- `std::fabs(a - b) > 0.01`.
  abbrev pub far_apart : F.Double → F.Double → Bool
  far_apart a b =
      let delta = F.sub a b in
      F.lt (F.literal (pos 1) 2)
        (if F.lt delta (zero_double F) then F.sub (zero_double F) delta else delta)

  unfoldable pub differs_from : PortfolioManager F → GatewayConfig → ReconciliationSnapshot → Bool
  differs_from p config s =
      s.account.complete
      && not (is_demo_mode config)
      && (far_apart (value_double F p.cash) (to_double F s.account.balance)
          || far_apart (value_double F p.total_equity) (to_double F s.account.equity))

  abbrev pub compared :
      PortfolioManager F → GatewayConfig → ReconciliationSnapshot → ReconciliationSnapshot
  compared p config s =
      if differs_from p config s
      then record s { status = ReconciliationStatus.price_or_cost_mismatch }
      else s

  abbrev pub reconcile_on :
      PortfolioManager F
      → ReconciliationSnapshot
      → ℕ
      → Option A.State
      → BrokerGateway F A
      → ReconciliationSnapshot × BrokerGateway F A
  reconcile_on p empty_snapshot timestamp_ns none g = (
    record empty_snapshot {
      timestamp_ns = timestamp_ns;
      status = ReconciliationStatus.unsupported;
    },
    g,
  )
  reconcile_on p empty_snapshot timestamp_ns (some a) g =
      let (snapshot, next) = A.reconcile timestamp_ns a in
      let checked = compared p g.config snapshot in
      if is_connected F A g
      then (checked, record g { adapter = some next; last_reconciliation = some checked })
      else (
        record empty_snapshot {
          timestamp_ns = timestamp_ns;
          status = ReconciliationStatus.unsupported;
        },
        g,
      )

  -- The portfolio is the one that the gateway refers to; the empty snapshot is `ReconciliationSnapshot{}`.
  unfoldable pub reconciliation_snapshot :
      PortfolioManager F
      → ReconciliationSnapshot
      → ℕ
      → BrokerGateway F A
      → ReconciliationSnapshot × BrokerGateway F A
  reconciliation_snapshot p empty_snapshot timestamp_ns g =
      reconcile_on p empty_snapshot timestamp_ns g.adapter
        (record g { reconciliation_count = bump g.reconciliation_count })

  abbrev pub keep_lifecycle :
      OrderLifecycleStore × LifecycleApplyResult → BrokerGateway F A → Bool × BrokerGateway F A
  keep_lifecycle (s, result) g = (was_applied result, record g { lifecycle = s })

  abbrev pub numbered_key : String → ℕ → OrderLifecycleRecord → String
  numbered_key prefix id r =
      str_append (str_append (str_append prefix (to_string id)) "-")
        (to_string (r.last_sequence + 1))

  abbrev pub reconcile_order_on :
      ℕ
      → OrderLifecycleState
      → Decimal64
      → Decimal64
      → ℕ
      → Option OrderLifecycleRecord
      → BrokerGateway F A
      → Bool × BrokerGateway F A
  reconcile_order_on id resolved filled remaining timestamp_ns none g = (false, g)
  reconcile_order_on id resolved filled remaining timestamp_ns (some r) g =
      if r.last_sequence == max_sequence
      then (false, g)
      else keep_lifecycle
          (apply_reconciliation g.lifecycle (record {
            local_order_id = id;
            resolved_state = resolved;
            cumulative_filled = filled;
            remaining = remaining;
            event_key = numbered_key "gateway-reconcile-order-" id r;
            timestamp_ns = timestamp_ns;
            sequence = r.last_sequence + 1;
          }))
          g

  unfoldable pub apply_order_reconciliation :
      ℕ
      → OrderLifecycleState
      → Decimal64
      → Decimal64
      → ℕ
      → BrokerGateway F A
      → Bool × BrokerGateway F A
  apply_order_reconciliation id resolved filled remaining timestamp_ns g =
      reconcile_order_on id resolved filled remaining timestamp_ns (lookup id g.lifecycle.records) g

  abbrev pub unknown_order_on :
      ℕ
      → FailureCategory
      → String
      → ℕ
      → Option OrderLifecycleRecord
      → BrokerGateway F A
      → Bool × BrokerGateway F A
  unknown_order_on id failure reason timestamp_ns none g = (false, g)
  unknown_order_on id failure reason timestamp_ns (some r) g =
      if r.last_sequence == max_sequence
      then (false, g)
      else keep_lifecycle
          (mark_unknown g.lifecycle id (numbered_key "gateway-unknown-order-" id r) failure reason
            timestamp_ns (r.last_sequence + 1))
          g

  unfoldable pub mark_order_unknown :
      ℕ → FailureCategory → String → ℕ → BrokerGateway F A → Bool × BrokerGateway F A
  mark_order_unknown id failure reason timestamp_ns g =
      unknown_order_on id failure reason timestamp_ns (lookup id g.lifecycle.records) g

  abbrev pub cancel_request_for : ℕ → OrderLifecycleRecord → CancelRequest
  cancel_request_for id r = record {
    schema_version = 1;
    local_order_id = id;
    external_order_id = r.external_order_id;
    timestamp_ns = r.last_timestamp_ns;
    sequence = bump r.last_sequence;
    idempotency_key = str_append "legacy-cancel-" (to_string id);
  }

  abbrev pub cancel_found :
      ℕ
      → Option OrderLifecycleRecord
      → BrokerGateway F A
      → Bool × List (Published F) × BrokerGateway F A
  cancel_found id none g = (false, [], g)
  cancel_found id (some r) g = request_order_cancel F A (cancel_request_for id r) g

  unfoldable pub cancel_order :
      ℕ → BrokerGateway F A → Bool × List (Published F) × BrokerGateway F A
  cancel_order id g = cancel_found id (lookup id g.lifecycle.records) g
