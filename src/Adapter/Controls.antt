-- ===== src/Adapter/Controls.antt =====
-- The settings, injections and snapshots of engine/src/DeterministicBrokerAdapter.cpp.
use mynyra.Prelude.{
  ℕ, true, false, ◌&&◌, String, str_eq, Option, none, some, List, [], ◌∷◌, map, if◌then◌else◌,
}
use mynyra.Prelude.Int.{pos}
use mynyra.Contracts.{
  AccountSnapshot, InstrumentSpec, ReconciliationSnapshot, ReconciliationStatus,
  OrderLifecycleState, NormalizedOrder,
}
use mynyra.Doubles.{Doubles, zero_double}
use mynyra.Adapter.State.{DeterministicBrokerAdapter, FaultConfig, bump}

unfoldable pub inject_next_error :
    (F : Doubles) → String → DeterministicBrokerAdapter F → DeterministicBrokerAdapter F
inject_next_error F reason a = record a { inject_error = true; injected_error = reason }

unfoldable pub inject_next_partial_fill :
    (F : Doubles) → F.Double → DeterministicBrokerAdapter F → DeterministicBrokerAdapter F
inject_next_partial_fill F ratio a = record a {
  partial_fill_ratio =
      if F.is_finite ratio && F.lt (zero_double F) ratio && F.lt ratio (F.literal (pos 1) 0)
      then some ratio
      else none;
}

unfoldable pub set_fault_config :
    (F : Doubles) → FaultConfig → DeterministicBrokerAdapter F → DeterministicBrokerAdapter F
set_fault_config F config a = record a { fault_config = config }

unfoldable pub set_account_snapshot :
    (F : Doubles) → AccountSnapshot → DeterministicBrokerAdapter F → DeterministicBrokerAdapter F
set_account_snapshot F snapshot a = record a { account_snapshot = some snapshot }

-- `m_instruments[symbol] = spec` and `find`.
unfoldable pub put_instrument :
    InstrumentSpec → List (String × InstrumentSpec) → List (String × InstrumentSpec)
put_instrument spec [] = (spec.canonical_symbol, spec) ∷ []
put_instrument spec (entry ∷ rest) =
    if str_eq entry.0 spec.canonical_symbol
    then (entry.0, spec) ∷ rest
    else entry ∷ put_instrument spec rest

unfoldable pub instrument_in : String → List (String × InstrumentSpec) → Option InstrumentSpec
instrument_in symbol [] = none
instrument_in symbol (entry ∷ rest) =
    if str_eq entry.0 symbol then some entry.1 else instrument_in symbol rest

unfoldable pub set_instrument_spec :
    (F : Doubles) → InstrumentSpec → DeterministicBrokerAdapter F → DeterministicBrokerAdapter F
set_instrument_spec F spec a = record a { instruments = put_instrument spec a.instruments }

abbrev pub instrument_spec :
    (F : Doubles) → String → DeterministicBrokerAdapter F → Option InstrumentSpec
instrument_spec F symbol a = instrument_in symbol a.instruments

abbrev pub account_or : AccountSnapshot → Option AccountSnapshot → AccountSnapshot
account_or empty_account none = empty_account
account_or empty_account (some account) = account

-- The first argument is the account of a snapshot that nothing is known of.
unfoldable pub reconcile :
    (F : Doubles)
    → AccountSnapshot
    → ℕ
    → DeterministicBrokerAdapter F
    → ReconciliationSnapshot × DeterministicBrokerAdapter F
reconcile F empty_account timestamp_ns a = (
  record {
    schema_version = 1;
    snapshot_version = bump a.sequence;
    timestamp_ns = timestamp_ns;
    account = account_or empty_account a.account_snapshot;
    positions = [];
    order_states =
        map (λ (entry : ℕ × NormalizedOrder). (entry.0, OrderLifecycleState.partially_filled))
          a.pending_orders;
    status = ReconciliationStatus.matched;
    order_effects = [];
    pending_order_count = 0;
    connection_generation = 0;
    complete = false;
  },
  record a { sequence = bump a.sequence },
)
