-- ===== src/Lifecycle/Record.antt =====
-- The record of one order: the data of engine/include/OrderLifecycleStore.hpp and the static
-- helpers of engine/src/OrderLifecycleStore.cpp that decide whether an event may change it.
use mynyra.Prelude.{
  ℕ, Bool, true, false, not, ◌&&◌, ◌||◌, String, Option, List, [], ◌∷◌, ◌++◌, ltb, leb, ◌==◌,
  if◌then◌else◌,
}
use mynyra.Prelude.Int.{pos, ◌+ℤ◌, ◌-ℤ◌, ltb_ℤ, eq_ℤ, int64_max}
use mynyra.Contracts.{
  Decimal64, OrderLifecycleState, OrderLifecycleState as State, FailureCategory, OrderRequest,
}

pub data LifecycleApplyResult : Type 0 where
  applied duplicate unknown_order invalid_event invalid_transition : LifecycleApplyResult

pub record LifecycleAuditEntry : Type 0 where
  pub state : OrderLifecycleState
  pub reconciled_state : Option OrderLifecycleState
  pub event_key : String
  pub failure : FailureCategory
  pub reason : String
  pub timestamp_ns : ℕ
  pub sequence : ℕ

pub record OrderLifecycleRecord : Type 0 where
  pub request : OrderRequest
  pub state : OrderLifecycleState
  pub pre_cancel_state : OrderLifecycleState
  pub external_order_id : String
  pub filled_quantity : Decimal64
  pub remaining_quantity : Decimal64
  pub failure : FailureCategory
  pub reason : String
  pub last_timestamp_ns : ℕ
  pub last_sequence : ℕ
  pub reconciled_state : Option OrderLifecycleState
  pub audit_history : List LifecycleAuditEntry

-- Sequence numbers decide where both are known, and otherwise timestamps, where both are known.
unfoldable pub event_is_older : OrderLifecycleRecord → ℕ → ℕ → Bool
event_is_older r timestamp_ns sequence =
    if ltb 0 sequence && ltb 0 r.last_sequence
    then leb sequence r.last_sequence
    else ltb 0 timestamp_ns && ltb 0 r.last_timestamp_ns && ltb timestamp_ns r.last_timestamp_ns

unfoldable pub append_audit :
    OrderLifecycleRecord → String → ℕ → ℕ → Option State → OrderLifecycleRecord
append_audit r event_key timestamp_ns sequence reconciled_state = record r {
  audit_history = r.audit_history ++ entry ∷ [];
}
  where
    entry : LifecycleAuditEntry
    entry = record {
      state = r.state;
      reconciled_state = reconciled_state;
      event_key = event_key;
      failure = r.failure;
      reason = r.reason;
      timestamp_ns = timestamp_ns;
      sequence = sequence;
    }

abbrev pub is_terminal : State → Bool
is_terminal State.filled = true
is_terminal State.canceled = true
is_terminal State.expired = true
is_terminal State.rejected = true
is_terminal State.reconciled = true
is_terminal _ = false

-- The `switch` of `canTransition`, the target first.
abbrev may_enter : State → State → Bool
may_enter State.risk_checked State.created = true
may_enter State.submitted State.risk_checked = true
may_enter State.accepted State.submitted = true
may_enter State.rejected State.submitted = true
may_enter State.partially_filled State.submitted = true
may_enter State.partially_filled State.accepted = true
may_enter State.partially_filled State.partially_filled = true
may_enter State.partially_filled State.cancel_requested = true
may_enter State.partially_filled State.timeout = true
may_enter State.partially_filled State.unknown = true
may_enter State.filled State.submitted = true
may_enter State.filled State.accepted = true
may_enter State.filled State.partially_filled = true
may_enter State.filled State.cancel_requested = true
may_enter State.filled State.timeout = true
may_enter State.filled State.unknown = true
may_enter State.cancel_requested State.accepted = true
may_enter State.cancel_requested State.partially_filled = true
may_enter State.canceled State.accepted = true
may_enter State.canceled State.partially_filled = true
may_enter State.canceled State.cancel_requested = true
may_enter State.canceled State.unknown = true
may_enter State.expired State.accepted = true
may_enter State.expired State.partially_filled = true
may_enter State.expired State.cancel_requested = true
may_enter State.expired State.unknown = true
may_enter State.timeout State.submitted = true
may_enter State.timeout State.accepted = true
may_enter State.timeout State.partially_filled = true
may_enter State.timeout State.cancel_requested = true
may_enter State.timeout State.timeout = true
may_enter State.unknown State.submitted = true
may_enter State.unknown State.accepted = true
may_enter State.unknown State.partially_filled = true
may_enter State.unknown State.cancel_requested = true
may_enter State.unknown State.timeout = true
may_enter State.reconciled State.unknown = true
may_enter State.reconciled State.timeout = true
may_enter State.reconciled State.cancel_requested = true
may_enter State.reconciled State.partially_filled = true
may_enter _ _ = false

unfoldable pub can_transition : State → State → Bool
can_transition from to = if is_terminal from then false else may_enter to from

-- The first test keeps the subtraction and the sum inside `int64_t`: `remaining` is not negative
-- where the bound is computed.
unfoldable pub valid_quantities : OrderLifecycleRecord → Decimal64 → Decimal64 → Bool
valid_quantities r cumulative_filled remaining =
    let total = r.request.quantity in
    if not (cumulative_filled.scale == total.scale)
      || not (remaining.scale == total.scale)
      || ltb_ℤ cumulative_filled.units (pos 0)
      || ltb_ℤ remaining.units (pos 0)
    then false
    else if ltb_ℤ (int64_max -ℤ remaining.units) cumulative_filled.units
    then false
    else eq_ℤ (cumulative_filled.units +ℤ remaining.units) total.units
