-- ===== src/Lifecycle/Events.antt =====
-- The calls on an `OrderLifecycleStore` as events, and their `Outcome`.
use mynyra.Prelude.{
  ℕ, ◌≡◌, refl, ap, ◌∙◌, ◌≢◌, String, Option, none, some, List, [], ◌∷◌, ◌++◌, arith,
}
use mynyra.Prelude.Maps.{lookup, lookup-insert_self, insert-insert}
use mynyra.Contracts.{
  OrderLifecycleState as State, FailureCategory, OrderAcknowledgement, ExecutionEvent,
  CancelRequest, CancelResult,
}
use mynyra.Lifecycle.Record.{
  LifecycleApplyResult, LifecycleAuditEntry, OrderLifecycleRecord, applied, unknown_order,
}
use mynyra.Lifecycle.Store.{
  OrderLifecycleStore, commit, transition, mark_risk_checked, mark_submitted, mark_timeout,
  mark_unknown, explain, explain_last, explain_applied, apply_acknowledgement,
}
use mynyra.Lifecycle.Fills.{
  apply_execution, request_cancel, apply_cancel_result, Reconciliation, apply_reconciliation,
}
use mynyra.Lifecycle.Advance.{Outcome, Advance}
use mynyra.Lifecycle.Outcomes.{
  transition_on-Outcome, acknowledgement_on-Outcome, execution_on-Outcome,
  cancel_request_on-Outcome,
}
use mynyra.Lifecycle.Settlements.{cancel_result_on-Outcome, reconciliation_on-Outcome}

-- The arguments of the `mark` methods.
pub record Stamp : Type 0 where
  pub local_order_id : ℕ
  pub event_key : String
  pub timestamp_ns : ℕ
  pub sequence : ℕ

pub data Event : Type 0 where
  risk_checks : Stamp → Event
  submits : Stamp → Event
  times_out : Stamp → Event
  loses_track : Stamp → FailureCategory → String → Event
  acknowledges : OrderAcknowledgement → Event
  executes : ExecutionEvent → Event
  requests_cancel : CancelRequest → Event
  answers_cancel : CancelResult → Event
  reconciles : Reconciliation → Event

-- The order that an event is about, and its key.
abbrev pub order_of : Event → ℕ
order_of (risk_checks m) = m.local_order_id
order_of (submits m) = m.local_order_id
order_of (times_out m) = m.local_order_id
order_of (loses_track m _ _) = m.local_order_id
order_of (acknowledges a) = a.local_order_id
order_of (executes e) = e.local_order_id
order_of (requests_cancel q) = q.local_order_id
order_of (answers_cancel c) = c.local_order_id
order_of (reconciles c) = c.local_order_id

abbrev pub key_of : Event → String
key_of (risk_checks m) = m.event_key
key_of (submits m) = m.event_key
key_of (times_out m) = m.event_key
key_of (loses_track m _ _) = m.event_key
key_of (acknowledges a) = a.event_key
key_of (executes e) = e.event_key
key_of (requests_cancel q) = q.idempotency_key
key_of (answers_cancel c) = c.event_key
key_of (reconciles c) = c.event_key

unfoldable pub apply : OrderLifecycleStore → Event → OrderLifecycleStore × LifecycleApplyResult
apply s (risk_checks m) = mark_risk_checked s m.local_order_id m.event_key m.timestamp_ns m.sequence
apply s (submits m) = mark_submitted s m.local_order_id m.event_key m.timestamp_ns m.sequence
apply s (times_out m) = mark_timeout s m.local_order_id m.event_key m.timestamp_ns m.sequence
apply s (loses_track m failure reason) =
    mark_unknown s m.local_order_id m.event_key failure reason m.timestamp_ns m.sequence
apply s (acknowledges a) = apply_acknowledgement s a
apply s (executes e) = apply_execution s e
apply s (requests_cancel q) = request_cancel s q
apply s (answers_cancel c) = apply_cancel_result s c
apply s (reconciles c) = apply_reconciliation s c

-- A method that looks its order up first.
×_eq :
    {t : OrderLifecycleStore × LifecycleApplyResult} {s : OrderLifecycleStore}
    {e : LifecycleApplyResult}
    → t.0 ≡ s
    → t.1 ≡ e
    → t ≡ (s, e)
×_eq p q i = (p i, q i)

looked_up :
    {s : OrderLifecycleStore} {id : ℕ} {key : String} (o : Option OrderLifecycleRecord)
    (k : OrderLifecycleRecord → OrderLifecycleStore × LifecycleApplyResult)
    → ((r : OrderLifecycleRecord) → o ≡ some r → Outcome s id key (k r))
    → Outcome s id key (elim o [ none ↦ (s, unknown_order) | some r ↦ k r ])
looked_up none k h = Outcome.refused refl (λ e. cc)
looked_up (some r) k h = h r refl

transition-Outcome :
    (s : OrderLifecycleStore) (id : ℕ) (next : State) (key : String) (timestamp_ns sequence : ℕ)
    → next ≢ State.filled
    → next ≢ State.cancel_requested
    → Outcome s id key (transition s id next key timestamp_ns sequence)
unfolding transition
transition-Outcome s id next key timestamp_ns sequence nf nc =
    looked_up (lookup id s.records) _
      λ r found. transition_on-Outcome s id next key timestamp_ns sequence r nf nc found

abbrev explained_entry : FailureCategory → String → LifecycleAuditEntry → LifecycleAuditEntry
explained_entry failure reason e = record e { failure = failure; reason = reason }

explain_last-append :
    (failure : FailureCategory) (reason : String) (es : List LifecycleAuditEntry)
    (e : LifecycleAuditEntry)
    → explain_last failure reason (es ++ e ∷ []) ≡ es ++ explained_entry failure reason e ∷ []
explain_last-append failure reason [] e = refl
explain_last-append failure reason (d ∷ []) e = refl
explain_last-append failure reason (d ∷ (c ∷ es)) e =
    ap (◌∷◌ d) (explain_last-append failure reason (c ∷ es) e)

explain-Advance :
    (key : String) (failure : FailureCategory) (reason : String) (r r' : OrderLifecycleRecord)
    → Advance key r r'
    → Advance key r (explain failure reason r')
unfolding explain
explain-Advance key failure reason r r' a = record {
  entry = explained_entry failure reason a.entry;
  audited =
      ap (explain_last failure reason) a.audited
      ∙ explain_last-append failure reason r.audit_history a.entry;
  entry_state = a.entry_state;
  entry_key = a.entry_key;
  same_request = a.same_request;
  live = a.live;
  moves = a.moves;
  newer = a.newer;
  fills = a.fills;
  balance = λ b. let b' = a.balance b in ground arith;
}

explain_applied_refused :
    (id : ℕ) (failure : FailureCategory) (reason : String)
    (t : OrderLifecycleStore × LifecycleApplyResult)
    → t.1 ≢ applied
    → explain_applied id failure reason t ≡ t
explain_applied_refused id failure reason (s, applied) h = absurd (h refl)
explain_applied_refused id failure reason (s, other) h = refl

explain_applied_recorded :
    (id : ℕ) (failure : FailureCategory) (reason : String) (s : OrderLifecycleStore) (key : String)
    (r : OrderLifecycleRecord)
    → explain_applied id failure reason (commit s id key r, applied)
      ≡ (commit s id key (explain failure reason r), applied)
unfolding commit
explain_applied_recorded id failure reason s key r =
    rw (lookup-insert_self id r s.records, explain_applied)
      (rw (insert-insert id r (explain failure reason r) s.records))

mark_unknown-Outcome :
    (s : OrderLifecycleStore) (id : ℕ) (key : String) (failure : FailureCategory) (reason : String)
    (timestamp_ns sequence : ℕ)
    → Outcome s id key (mark_unknown s id key failure reason timestamp_ns sequence)
unfolding mark_unknown
mark_unknown-Outcome s id key failure reason timestamp_ns sequence =
    elim (transition-Outcome s id State.unknown key timestamp_ns sequence (λ e. cc) (λ e. cc)) [
      | Outcome.refused e h ↦
          rw
            (explain_applied_refused id failure reason
              (transition s id State.unknown key timestamp_ns sequence) h)
            (Outcome.refused e h)
      | Outcome.recorded r r' found full fresh a e h ↦ rw (×_eq e h) (
          rw (explain_applied_recorded id failure reason s key r') (
            Outcome.recorded r (explain failure reason r') found full fresh
              (explain-Advance key failure reason r r' a) refl refl))
    ]

-- Every event has the `Outcome` for its order and its key.
pub apply-Outcome :
    (s : OrderLifecycleStore) (v : Event) → Outcome s (order_of v) (key_of v) (apply s v)
unfolding apply mark_risk_checked mark_submitted mark_timeout apply_acknowledgement apply_execution
    request_cancel apply_cancel_result apply_reconciliation
apply-Outcome s (risk_checks m) = transition-Outcome s _ _ _ _ _ (λ e. cc) (λ e. cc)
apply-Outcome s (submits m) = transition-Outcome s _ _ _ _ _ (λ e. cc) (λ e. cc)
apply-Outcome s (times_out m) = transition-Outcome s _ _ _ _ _ (λ e. cc) (λ e. cc)
apply-Outcome s (loses_track m failure reason) = mark_unknown-Outcome s _ _ failure reason _ _
apply-Outcome s (acknowledges a) = looked_up _ _ (acknowledgement_on-Outcome s a)
apply-Outcome s (executes e) = looked_up _ _ (execution_on-Outcome s e)
apply-Outcome s (requests_cancel q) = looked_up _ _ (cancel_request_on-Outcome s q)
apply-Outcome s (answers_cancel c) = looked_up _ _ (cancel_result_on-Outcome s c)
apply-Outcome s (reconciles c) = looked_up _ _ (reconciliation_on-Outcome s c)
