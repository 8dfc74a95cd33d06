-- ===== src/Lifecycle/Run.antt =====
-- Histories of calls on an `OrderLifecycleStore`: what later calls keep of a record.
use mynyra.Prelude.{
  ℕ, ◌≡◌, refl, sym, ap, subst, ◌∙◌, ◌⊎◌, inl, inr, Bool, true, false, ◌||◌, String, Option, none,
  some, List, [], ◌∷◌, ◌++◌, arith, is_empty, Bool-cases, ◌==◌, if◌then◌else◌,
}
use mathlib.Core.List.{append-nil, append_assoc}
use mathlib.Core.Bool.{false≢true}
use mynyra.Prelude.Int.{◌≤ℤ◌}
use mynyra.Prelude.Maps.{lookup, insert, contains, lookup-insert, lookup-insert_ne}
use mynyra.Contracts.{OrderLifecycleState as State, OrderRequest, is_positive}
use mynyra.Lifecycle.Record.{LifecycleAuditEntry, OrderLifecycleRecord, is_terminal}
use mynyra.Lifecycle.Store.{
  OrderLifecycleStore, commit, create, initial_record, is_some, request_is_invalid,
}
use mynyra.Lifecycle.Advance.{Outcome, Advance, or_false}
use mynyra.Lifecycle.Events.{Event, apply, apply-Outcome, order_of, key_of}

pub data Call : Type 0 where
  creates : OrderRequest → Call
  delivers : Event → Call

unfoldable pub step : OrderLifecycleStore → Call → OrderLifecycleStore
step s (creates q) = (create s q).0
step s (delivers v) = (apply s v).0

unfoldable pub run : OrderLifecycleStore → List Call → OrderLifecycleStore
run s [] = s
run s (c ∷ cs) = run (step s c) cs

-- What `create` does: nothing, or it adds a record under a number and a key that are new.
pub data Creation (s : OrderLifecycleStore) (q : OrderRequest) (t : OrderLifecycleStore × Bool)
    : Type 0 where
  declined : t.0 ≡ s → t.1 ≡ false → Creation s q t
  added :
      lookup q.local_order_id s.records ≡ none
      → is_empty q.idempotency_key ≡ false
      → contains q.idempotency_key s.applied_event_keys ≡ false
      → is_positive q.quantity ≡ true
      → t.0 ≡ record {
        records = insert q.local_order_id (initial_record q) s.records;
        applied_event_keys = q.idempotency_key ∷ s.applied_event_keys;
      }
      → t.1 ≡ true
      → Creation s q t

is_some-none {ℓ} : {A : Type ℓ} (o : Option A) → is_some o ≡ false → o ≡ none
is_some-none none h = refl
is_some-none (some a) h = cc

-- How a record may differ from an earlier one of the same order.
pub record Later (r r' : OrderLifecycleRecord) : Type 0 where
  pub same_request : r'.request ≡ r.request
  pub appended : List LifecycleAuditEntry
  pub history : r'.audit_history ≡ r.audit_history ++ appended
  pub fills : (r.filled_quantity.units ≤ℤ r'.filled_quantity.units) ⊎ (r'.state ≡ State.reconciled)
  pub final : is_terminal r.state ≡ true → r' ≡ r

checked :
    {s : OrderLifecycleStore} {q : OrderRequest} {t : OrderLifecycleStore × Bool} (b : Bool)
    → (b ≡ false → Creation s q t)
    → Creation s q (if b then (s, false) else t)
checked true k = Creation.declined refl refl
checked false k = k refl

request_facts :
    (q : OrderRequest)
    → request_is_invalid q ≡ false
    → (is_empty q.idempotency_key ≡ false) × (is_positive q.quantity ≡ true)
request_facts q h = ground arith

pub create-Creation : (s : OrderLifecycleStore) (q : OrderRequest) → Creation s q (create s q)
unfolding create
create-Creation s q = checked (request_is_invalid q) λ full.
    checked
      (is_some (lookup q.local_order_id s.records)
        || contains q.idempotency_key s.applied_event_keys)
      λ new.
        let (absent, fresh) = or_false (is_some (lookup q.local_order_id s.records)) _ new in
        let (keyed, positive) = request_facts q full in
        Creation.added (is_some-none _ absent) keyed fresh positive refl refl

Later-refl : (r : OrderLifecycleRecord) → Later r r
Later-refl r = record {
  same_request = refl;
  appended = [];
  history = sym (append-nil _);
  fills = inl (omega arith);
  final = λ _. refl;
}

Later-trans : (a b c : OrderLifecycleRecord) → Later a b → Later b c → Later a c
Later-trans a b c p q = record {
  same_request = q.same_request ∙ p.same_request;
  appended = p.appended ++ q.appended;
  history =
      q.history
      ∙ ap (λ h. h ++ q.appended) p.history
      ∙ append_assoc a.audit_history p.appended q.appended;
  fills = fills_trans p.fills q.fills;
  final = λ t. q.final (subst (λ r. is_terminal r.state ≡ true) (sym (p.final t)) t) ∙ p.final t;
}
  where
    fills_trans :
        (a.filled_quantity.units ≤ℤ b.filled_quantity.units) ⊎ (b.state ≡ State.reconciled)
        → (b.filled_quantity.units ≤ℤ c.filled_quantity.units) ⊎ (c.state ≡ State.reconciled)
        → (a.filled_quantity.units ≤ℤ c.filled_quantity.units) ⊎ (c.state ≡ State.reconciled)
    fills_trans (inl h) (inl k) = inl (omega arith)
    fills_trans x (inr k) = inr k
    fills_trans (inr e) (inl k) =
        inr (
          subst (λ (r : OrderLifecycleRecord). r.state ≡ State.reconciled) (sym (q.final (rw e))) e)

Advance-Later : {key : String} (r r' : OrderLifecycleRecord) → Advance key r r' → Later r r'
Advance-Later r r' a = record {
  same_request = a.same_request;
  appended = a.entry ∷ [];
  history = a.audited;
  fills = a.fills;
  final = λ t. absurd (false≢true (sym a.live ∙ t));
}

-- One call keeps every order, and changes its record in the allowed ways only.
abbrev pub Kept : OrderLifecycleStore → ℕ → OrderLifecycleRecord → Type 0
Kept s id r = (r' : OrderLifecycleRecord) × (lookup id s.records ≡ some r') × Later r r'

lookup-commit :
    (s : OrderLifecycleStore) (id j : ℕ) (key : String) (r : OrderLifecycleRecord)
    → lookup j (commit s id key r).records ≡ (if id == j then some r else lookup j s.records)
unfolding commit
lookup-commit s id j key r = lookup-insert id j r s.records

commit-Kept :
    (s : OrderLifecycleStore) (id j : ℕ) (key : String) (a b r : OrderLifecycleRecord)
    → lookup id s.records ≡ some a
    → lookup j s.records ≡ some r
    → Advance key a b
    → Kept (commit s id key b) j r
commit-Kept s id j key a b r found found' adv = elim (Bool-cases (id == j)) [
  | inl same ↦
      let e : a ≡ r = ground arith in
      (b, lookup-commit s id j key b ∙ rw same, rw (← e) (Advance-Later a b adv))
  | inr differ ↦ (r, lookup-commit s id j key b ∙ rw differ found', Later-refl r)
]

step-Kept :
    (s : OrderLifecycleStore) (c : Call) (id : ℕ) (r : OrderLifecycleRecord)
    → lookup id s.records ≡ some r
    → Kept (step s c) id r
unfolding step
step-Kept s (creates q) id r found = elim (create-Creation s q) [
  | Creation.declined e _ ↦ rw e (r, found, Later-refl r)
  | Creation.added absent _ _ _ e _ ↦ rw e (r, other absent, Later-refl r)
]
  where
    other :
        lookup q.local_order_id s.records ≡ none
        → lookup id (insert q.local_order_id (initial_record q) s.records) ≡ some r
    other absent = lookup-insert_ne _ id _ s.records (λ e. cc) ∙ found
step-Kept s (delivers v) id r found = elim (apply-Outcome s v) [
  | Outcome.refused e _ ↦ rw e (r, found, Later-refl r)
  | Outcome.recorded a b found' _ _ adv e _ ↦
      rw e (commit-Kept s (order_of v) id (key_of v) a b r found' found adv)
]

-- Whatever calls follow, an order of the store stays in it with the same request; its audit
-- history only grows at its end; its filled quantity falls in a reconciliation at most; and a
-- record in a terminal state never changes again.
pub run-Kept :
    (s : OrderLifecycleStore) (cs : List Call) (id : ℕ) (r : OrderLifecycleRecord)
    → lookup id s.records ≡ some r
    → Kept (run s cs) id r
unfolding run
run-Kept s [] id r found = (r, found, Later-refl r)
run-Kept s (c ∷ cs) id r found =
    let (b, found', p) = step-Kept s c id r found in
    let (d, found'', q) = run-Kept (step s c) cs id b found' in (d, found'', Later-trans r b d p q)
