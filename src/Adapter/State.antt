-- ===== src/Adapter/State.antt =====
-- The state of engine/include/DeterministicBrokerAdapter.hpp and its operations outside `submit`. A call
-- under the mutex is one step; what it hands to the callbacks that are set is its list of notices.
use mynyra.Prelude.{
  ℕ, zero, suc, ◌+◌, ◌%◌, ◌/◌, ◌^◌, Bool, true, false, not, ◌&&◌, String, str_append, Option, none,
  some, List, [], ◌∷◌, ltb, ◌==◌, if◌then◌else◌,
}
use mynyra.Prelude.Int.{pos, leb_ℤ}
use mynyra.Prelude.Maps.{lookup, erase}
use mynyra.Contracts.{
  OrderAcknowledgement, ExecutionEvent, CancelRequest, CancelResult, CancelDisposition,
  AdapterHealthEvent, AdapterHealthState, FailureCategory, NormalizedOrder, AccountSnapshot,
  InstrumentSpec,
}
use mynyra.Financial.Units.{Rounding, Fraction, negative, scale_factor}
use mynyra.Doubles.{Doubles}
use mynyra.Doubles.Conversions.{fraction_of}

abbrev pub digit : ℕ → String
digit n =
    if n == 0
    then "0"
    else if n == 1
    then "1"
    else if n == 2
    then "2"
    else if n == 3
    then "3"
    else if n == 4
    then "4"
    else if n == 5
    then "5"
    else if n == 6
    then "6"
    else if n == 7
    then "7"
    else if n == 8
    then "8"
    else "9"

-- `std::to_string`: a 64-bit number has at most 20 digits.
unfoldable pub digits : ℕ → ℕ → String
digits zero n = ""
digits (suc fuel) n =
    let front = digits fuel (n / 10) in
    if ltb n 10 then digit n else str_append front (digit (n % 10))

abbrev pub to_string : ℕ → String
to_string n = digits 20 n

pub record FaultConfig : Type 0 where
  pub enabled : Bool
  pub drop_every_n : ℕ
  pub latency_spike_every_n : ℕ
  pub latency_spike_ms : ℕ
  pub disconnect_every_n : ℕ

pub record DeterministicBrokerAdapter (F : Doubles) : Type 0 where
  pub connected : Bool
  pub ever_connected : Bool
  pub sequence : ℕ
  pub submit_count : ℕ
  pub fault_drops : ℕ
  pub fault_latency_spikes : ℕ
  pub fault_disconnects : ℕ
  pub connect_count : ℕ
  pub disconnect_count : ℕ
  pub reconnect_count : ℕ
  pub inject_error : Bool
  pub injected_error : String
  pub partial_fill_ratio : Option F.Double
  pub fee_rate : Fraction
  pub slippage_rate : Fraction
  pub fault_config : FaultConfig
  pub health : AdapterHealthEvent
  pub account_snapshot : Option AccountSnapshot
  pub instruments : List (String × InstrumentSpec)
  pub pending_orders : List (ℕ × NormalizedOrder)

unfoldable pub new_adapter : (F : Doubles) → DeterministicBrokerAdapter F
new_adapter F = record {
  connected = false;
  ever_connected = false;
  sequence = 0;
  submit_count = 0;
  fault_drops = 0;
  fault_latency_spikes = 0;
  fault_disconnects = 0;
  connect_count = 0;
  disconnect_count = 0;
  reconnect_count = 0;
  inject_error = false;
  injected_error = "";
  partial_fill_ratio = none;
  fee_rate = record { units = pos 100_000 };
  slippage_rate = record { units = pos 50_000 };
  fault_config = record {
    enabled = false;
    drop_every_n = 0;
    latency_spike_every_n = 0;
    latency_spike_ms = 0;
    disconnect_every_n = 0;
  };
  health = record {
    schema_version = 1;
    state = AdapterHealthState.unknown;
    timestamp_ns = 0;
    sequence = 0;
    latency_ms = 0;
    failure = FailureCategory.none;
    reason = "";
    event_key = "";
  };
  account_snapshot = none;
  instruments = [];
  pending_orders = [];
}

pub data Notice : Type 0 where
  health_changed : AdapterHealthEvent → Notice
  order_acknowledged : OrderAcknowledgement → Notice
  order_executed : ExecutionEvent → Notice
  cancel_settled : CancelResult → Notice

-- `++` on a `uint64_t`.
abbrev pub bump : ℕ → ℕ
bump n = (n + 1) % 2 ^ 64

abbrev pub health_event : AdapterHealthState → ℕ → ℕ → FailureCategory → String → AdapterHealthEvent
health_event state timestamp_ns sequence failure reason = record {
  schema_version = 1;
  state = state;
  timestamp_ns = timestamp_ns;
  sequence = sequence;
  latency_ms = 0;
  failure = failure;
  reason = reason;
  event_key = str_append "health-" (to_string sequence);
}

unfoldable pub connect :
    (F : Doubles) → DeterministicBrokerAdapter F → Bool × List Notice × DeterministicBrokerAdapter F
connect F a =
    let event =
      health_event AdapterHealthState.connected 0 (bump a.sequence) FailureCategory.none "" in
    if a.connected then (true, [], a) else (
      true,
      health_changed event ∷ [],
      record a {
        connected = true;
        ever_connected = true;
        sequence = bump a.sequence;
        connect_count = bump a.connect_count;
        reconnect_count = if a.ever_connected then bump a.reconnect_count else a.reconnect_count;
        health = event;
      },
    )

unfoldable pub disconnect :
    (F : Doubles) → DeterministicBrokerAdapter F → List Notice × DeterministicBrokerAdapter F
disconnect F a =
    let event =
      health_event AdapterHealthState.disconnected 0 (bump a.sequence) FailureCategory.none "" in
    if not a.connected then ([], a) else (
      health_changed event ∷ [],
      record a {
        connected = false;
        sequence = bump a.sequence;
        disconnect_count = bump a.disconnect_count;
        health = event;
      },
    )

abbrev pub rates_are_valid : Option Fraction → Option Fraction → Bool
rates_are_valid (some fee) (some slippage) =
    not (negative fee.units)
    && not (leb_ℤ (pos scale_factor) fee.units)
    && not (negative slippage.units)
    && not (leb_ℤ (pos scale_factor) slippage.units)
rates_are_valid (some fee) none = false
rates_are_valid none slippage = false

abbrev pub with_rates :
    (F : Doubles)
    → Option Fraction
    → Option Fraction
    → DeterministicBrokerAdapter F
    → DeterministicBrokerAdapter F
with_rates F (some fee) (some slippage) a = record a { fee_rate = fee; slippage_rate = slippage }
with_rates F (some fee) none a = a
with_rates F none slippage a = a

unfoldable pub set_simulation_costs :
    (F : Doubles)
    → F.Double
    → F.Double
    → DeterministicBrokerAdapter F
    → Bool × DeterministicBrokerAdapter F
set_simulation_costs F fee_rate slippage_bps a =
    let fee = fraction_of F fee_rate Rounding.nearest_ties_away_from_zero in
    let slippage =
      fraction_of F (F.div slippage_bps (F.literal (pos 10_000) 0))
        Rounding.nearest_ties_away_from_zero in
    if rates_are_valid fee slippage then (true, with_rates F fee slippage a) else (false, a)

-- How the map of pending orders ends, with whether an order was there.
abbrev pub disposition_of : Option NormalizedOrder → CancelDisposition
disposition_of none = CancelDisposition.already_filled
disposition_of (some order) = CancelDisposition.accepted

unfoldable pub cancel :
    (F : Doubles)
    → CancelRequest
    → DeterministicBrokerAdapter F
    → Bool × List Notice × DeterministicBrokerAdapter F
cancel F request a =
    let result : CancelResult = record {
      schema_version = 1;
      local_order_id = request.local_order_id;
      disposition = disposition_of (lookup request.local_order_id a.pending_orders);
      failure = FailureCategory.none;
      reason = "";
      timestamp_ns = request.timestamp_ns;
      sequence = bump request.sequence;
      event_key = str_append "cancel-result-" (to_string request.local_order_id);
    } in
    if not a.connected then (false, [], a) else (
      true,
      cancel_settled result ∷ [],
      record a { pending_orders = erase request.local_order_id a.pending_orders },
    )
