-- ===== src/Lifecycle/Store.antt =====
-- The methods of `OrderLifecycleStore`. A method returns the store after the call and its result;
-- the part that follows the lookup of the order is a function of its own.
use mynyra.Prelude.{
  ℕ, Bool, true, false, not, ◌&&◌, ◌||◌, String, Option, none, some, List, [], ◌∷◌, ltb, ◌==◌,
  if◌then◌else◌, is_empty,
}
use mynyra.Prelude.Int.{pos}
use mynyra.Prelude.Maps.{lookup, insert, contains}
use mynyra.Contracts.{
  OrderLifecycleState as State, FailureCategory, OrderRequest, OrderAcknowledgement, is_positive,
  max_scale,
}
use mynyra.Lifecycle.Record.{
  LifecycleApplyResult, LifecycleAuditEntry, OrderLifecycleRecord, applied, duplicate,
  unknown_order, invalid_event, invalid_transition, event_is_older, append_audit, can_transition,
}

pub record OrderLifecycleStore : Type 0 where
  pub records : List (ℕ × OrderLifecycleRecord)
  pub applied_event_keys : List String

abbrev pub empty_store : OrderLifecycleStore
empty_store = record { records = []; applied_event_keys = [] }

unfoldable pub record_event_key : String → List String → List String
record_event_key key keys = if is_empty key || contains key keys then keys else key ∷ keys

-- What every accepted event ends with: the key is recorded and the order's record replaced.
unfoldable pub commit :
    OrderLifecycleStore → ℕ → String → OrderLifecycleRecord → OrderLifecycleStore
commit s id key r = record {
  records = insert id r s.records;
  applied_event_keys = record_event_key key s.applied_event_keys;
}

unfoldable pub initial_record : OrderRequest → OrderLifecycleRecord
initial_record q = append_audit fresh q.idempotency_key q.timestamp_ns q.sequence none
  where
    fresh : OrderLifecycleRecord
    fresh = record {
      request = q;
      state = State.created;
      pre_cancel_state = State.created;
      external_order_id = "";
      filled_quantity = record { units = pos 0; scale = q.quantity.scale };
      remaining_quantity = q.quantity;
      failure = FailureCategory.none;
      reason = "";
      last_timestamp_ns = q.timestamp_ns;
      last_sequence = q.sequence;
      reconciled_state = none;
      audit_history = [];
    }

abbrev pub is_some {ℓ} : {A : Type ℓ} → Option A → Bool
is_some none = false
is_some (some _) = true

abbrev pub request_is_invalid : OrderRequest → Bool
request_is_invalid q =
    q.local_order_id == 0
    || is_empty q.canonical_symbol
    || not (is_positive q.quantity)
    || is_empty q.idempotency_key
    || ltb max_scale q.quantity.scale

unfoldable pub create : OrderLifecycleStore → OrderRequest → OrderLifecycleStore × Bool
create s q =
    if request_is_invalid q
    then (s, false)
    else if is_some (lookup q.local_order_id s.records)
        || contains q.idempotency_key s.applied_event_keys
    then (s, false)
    else (
      record {
        records = insert q.local_order_id (initial_record q) s.records;
        applied_event_keys = q.idempotency_key ∷ s.applied_event_keys;
      },
      true,
    )

-- The record that `transition` writes.
abbrev pub transitioned : OrderLifecycleRecord → State → String → ℕ → ℕ → OrderLifecycleRecord
transitioned r next key timestamp_ns sequence =
    append_audit
      (record r { state = next; last_timestamp_ns = timestamp_ns; last_sequence = sequence }) key
      timestamp_ns sequence none

unfoldable pub transition_on :
    OrderLifecycleStore
    → ℕ
    → State
    → String
    → ℕ
    → ℕ
    → OrderLifecycleRecord
    → OrderLifecycleStore × LifecycleApplyResult
transition_on s id next key timestamp_ns sequence r =
    if is_empty key
    then (s, invalid_event)
    else if contains key s.applied_event_keys
    then (s, duplicate)
    else if event_is_older r timestamp_ns sequence
    then (s, invalid_event)
    else if not (can_transition r.state next)
    then (s, invalid_transition)
    else (
      commit s id key (
          append_audit
            (record r { state = next; last_timestamp_ns = timestamp_ns; last_sequence = sequence })
            key timestamp_ns sequence none),
      applied,
    )

unfoldable pub transition :
    OrderLifecycleStore → ℕ → State → String → ℕ → ℕ → OrderLifecycleStore × LifecycleApplyResult
transition s id next key timestamp_ns sequence = elim (lookup id s.records) [
  | none ↦ (s, unknown_order)
  | some r ↦ transition_on s id next key timestamp_ns sequence r
]

unfoldable pub mark_risk_checked :
    OrderLifecycleStore → ℕ → String → ℕ → ℕ → OrderLifecycleStore × LifecycleApplyResult
mark_risk_checked s id = transition s id State.risk_checked

unfoldable pub mark_submitted :
    OrderLifecycleStore → ℕ → String → ℕ → ℕ → OrderLifecycleStore × LifecycleApplyResult
mark_submitted s id = transition s id State.submitted

unfoldable pub mark_timeout :
    OrderLifecycleStore → ℕ → String → ℕ → ℕ → OrderLifecycleStore × LifecycleApplyResult
mark_timeout s id = transition s id State.timeout

-- `auditHistory.back()` with the failure and its reason.
abbrev pub explain_last :
    FailureCategory → String → List LifecycleAuditEntry → List LifecycleAuditEntry
explain_last failure reason [] = []
explain_last failure reason (e ∷ []) = record e { failure = failure; reason = reason } ∷ []
explain_last failure reason (e ∷ (d ∷ es)) = e ∷ explain_last failure reason (d ∷ es)

unfoldable pub explain : FailureCategory → String → OrderLifecycleRecord → OrderLifecycleRecord
explain failure reason r = record r {
  failure = failure;
  reason = reason;
  audit_history = explain_last failure reason r.audit_history;
}

-- The second lookup, `m_records.at`, finds the record that the transition has just written.
abbrev pub explain_applied :
    ℕ
    → FailureCategory
    → String
    → OrderLifecycleStore × LifecycleApplyResult
    → OrderLifecycleStore × LifecycleApplyResult
explain_applied id failure reason (s, applied) = elim (lookup id s.records) [
  | none ↦ (s, applied)
  | some r ↦ (record s { records = insert id (explain failure reason r) s.records }, applied)
]
explain_applied id failure reason (s, other) = (s, other)

unfoldable pub mark_unknown :
    OrderLifecycleStore
    → ℕ
    → String
    → FailureCategory
    → String
    → ℕ
    → ℕ
    → OrderLifecycleStore × LifecycleApplyResult
mark_unknown s id key failure reason timestamp_ns sequence =
    explain_applied id failure reason (transition s id State.unknown key timestamp_ns sequence)

abbrev pub acknowledged_state : Bool → State
acknowledged_state true = State.accepted
acknowledged_state false = State.rejected

abbrev pub acknowledged : OrderLifecycleRecord → OrderAcknowledgement → OrderLifecycleRecord
acknowledged r ack =
    append_audit
      (record r {
        state = acknowledged_state ack.is_accepted;
        external_order_id = ack.external_order_id;
        failure = ack.failure;
        reason = ack.reason;
        last_timestamp_ns = ack.timestamp_ns;
        last_sequence = ack.sequence;
      })
      ack.event_key ack.timestamp_ns ack.sequence none

unfoldable pub acknowledgement_on :
    OrderLifecycleStore
    → OrderAcknowledgement
    → OrderLifecycleRecord
    → OrderLifecycleStore × LifecycleApplyResult
acknowledgement_on s ack r =
    if is_empty ack.event_key
    then (s, invalid_event)
    else if contains ack.event_key s.applied_event_keys
    then (s, duplicate)
    else if event_is_older r ack.timestamp_ns ack.sequence
    then (s, invalid_event)
    else if ack.is_accepted && is_empty ack.external_order_id
    then (s, invalid_event)
    else if not (can_transition r.state (acknowledged_state ack.is_accepted))
    then (s, invalid_transition)
    else (commit s ack.local_order_id ack.event_key (acknowledged r ack), applied)

unfoldable pub apply_acknowledgement :
    OrderLifecycleStore → OrderAcknowledgement → OrderLifecycleStore × LifecycleApplyResult
apply_acknowledgement s ack = elim (lookup ack.local_order_id s.records) [
  | none ↦ (s, unknown_order)
  | some r ↦ acknowledgement_on s ack r
]
