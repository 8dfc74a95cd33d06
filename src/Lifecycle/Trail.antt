-- ===== src/Lifecycle/Trail.antt =====
-- The audit history of an order tells how it came to its state.
use mynyra.Prelude.{
  ℕ, ◌≡◌, refl, ap, ◌∙◌, ◌⊎◌, inl, inr, Bool, true, false, ◌||◌, Option, some, none, List, [], ◌∷◌,
  ◌++◌, arith, All, String,
}
use mynyra.Prelude.Maps.{lookup, All-lookup, All-insert}
use mynyra.Contracts.{OrderLifecycleState as State, OrderRequest}
use mynyra.Lifecycle.Record.{
  LifecycleAuditEntry, OrderLifecycleRecord, can_transition, append_audit,
}
use mynyra.Lifecycle.Store.{OrderLifecycleStore, empty_store, commit, initial_record}
use mynyra.Lifecycle.Advance.{Outcome, Advance, Moves}
use mynyra.Lifecycle.Events.{apply-Outcome}
use mynyra.Lifecycle.Run.{Call, creates, delivers, Creation, create-Creation, step, run}

abbrev is_risk_checked : State → Bool
is_risk_checked State.risk_checked = true
is_risk_checked _ = false

abbrev is_submitted : State → Bool
is_submitted State.submitted = true
is_submitted _ = false

-- Some entry records the passing of the risk check, and some the submission.
abbrev pub was_risk_checked : List LifecycleAuditEntry → Bool
was_risk_checked [] = false
was_risk_checked (e ∷ es) = is_risk_checked e.state || was_risk_checked es

abbrev pub was_submitted : List LifecycleAuditEntry → Bool
was_submitted [] = false
was_submitted (e ∷ es) = is_submitted e.state || was_submitted es

abbrev pub last_state : List LifecycleAuditEntry → Option State
last_state [] = none
last_state (e ∷ []) = some e.state
last_state (e ∷ (d ∷ es)) = last_state (d ∷ es)

-- Past the risk check; past the submission to the broker.
abbrev pub is_past_check : State → Bool
is_past_check State.created = false
is_past_check _ = true

abbrev pub is_past_submission : State → Bool
is_past_submission State.created = false
is_past_submission State.risk_checked = false
is_past_submission _ = true

pub record IsTraced (r : OrderLifecycleRecord) : Type 0 where
  pub checked : is_past_check r.state ≡ true → was_risk_checked r.audit_history ≡ true
  pub sent : is_past_submission r.state ≡ true → was_submitted r.audit_history ≡ true
  pub current : last_state r.audit_history ≡ some r.state

was_risk_checked-append :
    (es : List LifecycleAuditEntry) (e : LifecycleAuditEntry)
    → was_risk_checked (es ++ e ∷ []) ≡ (was_risk_checked es || is_risk_checked e.state)
was_risk_checked-append [] e = ground arith
was_risk_checked-append (d ∷ es) e = ground (arith, was_risk_checked-append es e)

was_submitted-append :
    (es : List LifecycleAuditEntry) (e : LifecycleAuditEntry)
    → was_submitted (es ++ e ∷ []) ≡ (was_submitted es || is_submitted e.state)
was_submitted-append [] e = ground arith
was_submitted-append (d ∷ es) e = ground (arith, was_submitted-append es e)

last_state-append :
    (es : List LifecycleAuditEntry) (e : LifecycleAuditEntry)
    → last_state (es ++ e ∷ []) ≡ some e.state
last_state-append [] e = refl
last_state-append (d ∷ []) e = refl
last_state-append (d ∷ (c ∷ es)) e = last_state-append (c ∷ es) e

or_true : (a : Bool) → (a || true) ≡ true
or_true a = ground arith

-- A move past a milestone starts past it, or ends at it.
can_transition_checked :
    (a b : State) → can_transition a b ≡ true → (is_past_check a ≡ true) ⊎ (b ≡ State.risk_checked)
unfolding can_transition
can_transition_checked a b h = ground arith

can_transition_sent :
    (a b : State)
    → can_transition a b ≡ true
    → (is_past_submission a ≡ true) ⊎ (b ≡ State.risk_checked) ⊎ (b ≡ State.submitted)
unfolding can_transition
can_transition_sent a b h = ground arith

Moves-checked :
    (a b : OrderLifecycleRecord)
    → Moves a b
    → is_past_check b.state ≡ true
    → (is_past_check a.state ≡ true) ⊎ (b.state ≡ State.risk_checked)
Moves-checked a b (inl h) p = can_transition_checked a.state b.state h
Moves-checked a b (inr h) p = inl (rw h.0)

Moves-sent :
    (a b : OrderLifecycleRecord)
    → Moves a b
    → is_past_submission b.state ≡ true
    → (is_past_submission a.state ≡ true) ⊎ (b.state ≡ State.submitted)
Moves-sent a b (inl h) p = ground (arith, can_transition_sent a.state b.state h)
Moves-sent a b (inr h) p = inl (rw h.0)

Advance-IsTraced :
    (key : String) (a b : OrderLifecycleRecord) → Advance key a b → IsTraced a → IsTraced b
Advance-IsTraced key a b adv t = record {
  checked = λ p.
      ap was_risk_checked adv.audited
      ∙ was_risk_checked-append a.audit_history adv.entry
      ∙ check_kept (Moves-checked a b adv.moves p);
  sent = λ p.
      ap was_submitted adv.audited
      ∙ was_submitted-append a.audit_history adv.entry
      ∙ sent_kept (Moves-sent a b adv.moves p);
  current =
      ap last_state adv.audited
      ∙ last_state-append a.audit_history adv.entry
      ∙ ap some adv.entry_state;
}
  where
    check_kept :
        (is_past_check a.state ≡ true) ⊎ (b.state ≡ State.risk_checked)
        → (was_risk_checked a.audit_history || is_risk_checked adv.entry.state) ≡ true
    check_kept (inl p) = rw (t.checked p)
    check_kept (inr e) = rw (adv.entry_state, e) (or_true (was_risk_checked a.audit_history))

    sent_kept :
        (is_past_submission a.state ≡ true) ⊎ (b.state ≡ State.submitted)
        → (was_submitted a.audit_history || is_submitted adv.entry.state) ≡ true
    sent_kept (inl p) = rw (t.sent p)
    sent_kept (inr e) = rw (adv.entry_state, e) (or_true (was_submitted a.audit_history))

abbrev AllTraced : OrderLifecycleStore → Type 0
AllTraced s = All (λ (e : ℕ × OrderLifecycleRecord). IsTraced e.1) s.records

initial_record-IsTraced : (q : OrderRequest) → IsTraced (initial_record q)
unfolding initial_record append_audit
initial_record-IsTraced q = record { checked = λ h. cc; sent = λ h. cc; current = refl }

commit-AllTraced :
    (s : OrderLifecycleStore) (id : ℕ) (key : String) (r : OrderLifecycleRecord)
    → AllTraced s
    → IsTraced r
    → AllTraced (commit s id key r)
unfolding commit
commit-AllTraced s id key r v t = All-insert IsTraced id r s.records v t

step-AllTraced : (s : OrderLifecycleStore) (c : Call) → AllTraced s → AllTraced (step s c)
unfolding step
step-AllTraced s (creates q) v = elim (create-Creation s q) [
  | Creation.declined e _ ↦ rw e v
  | Creation.added _ _ _ _ e _ ↦ rw e (
      All-insert IsTraced q.local_order_id (initial_record q) s.records v
        (initial_record-IsTraced q))
]
step-AllTraced s (delivers w) v = elim (apply-Outcome s w) [
  | Outcome.refused e _ ↦ rw e v
  | Outcome.recorded a b found _ _ adv e _ ↦ rw e (
      commit-AllTraced s _ _ b v
        (Advance-IsTraced _ a b adv (All-lookup IsTraced _ s.records v found)))
]

run-AllTraced : (s : OrderLifecycleStore) (cs : List Call) → AllTraced s → AllTraced (run s cs)
unfolding run
run-AllTraced s [] v = v
run-AllTraced s (c ∷ cs) v = run-AllTraced (step s c) cs (step-AllTraced s c v)

-- After any history of a new store, an order past Created has a passed risk check in its audit
-- history, one past RiskChecked also has its submission there, and the last audit entry names the
-- order's state.
pub run_empty-IsTraced :
    (cs : List Call) (id : ℕ) (r : OrderLifecycleRecord)
    → lookup id (run empty_store cs).records ≡ some r
    → IsTraced r
run_empty-IsTraced cs id r found =
    All-lookup IsTraced id (run empty_store cs).records (run-AllTraced empty_store cs tt) found
