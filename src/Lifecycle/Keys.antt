-- ===== src/Lifecycle/Keys.antt =====
-- Event keys: an event is applied at most once, and each applied event leaves one audit entry.
use mynyra.Prelude.{
  ℕ, ◌+◌, ◌≡◌, refl, ap, ◌≢◌, true, false, String, some, none, List, [], ◌∷◌, arith, is_empty,
  length, length-append,
}
use mynyra.Prelude.Maps.{lookup, insert, contains, contains-head, contains-tail, AllDistinct}
use mynyra.Contracts.{OrderRequest}
use mynyra.Lifecycle.Record.{OrderLifecycleRecord, applied, append_audit}
use mynyra.Lifecycle.Store.{
  OrderLifecycleStore, empty_store, commit, record_event_key, initial_record,
}
use mynyra.Lifecycle.Advance.{Outcome, Advance}
use mynyra.Lifecycle.Events.{Event, apply, apply-Outcome, key_of}
use mynyra.Lifecycle.Run.{Call, creates, delivers, Creation, create-Creation, step, run}

commit_keys :
    (s : OrderLifecycleStore) (id : ℕ) (key : String) (r : OrderLifecycleRecord)
    → is_empty key ≡ false
    → contains key s.applied_event_keys ≡ false
    → (commit s id key r).applied_event_keys ≡ key ∷ s.applied_event_keys
unfolding commit record_event_key
commit_keys s id key r full fresh = rw (full, fresh)

-- An event whose result is not Applied leaves the whole store as it was, for every method and
-- every refusal.
pub apply_refused :
    (s : OrderLifecycleStore) (v : Event) → (apply s v).1 ≢ applied → (apply s v).0 ≡ s
apply_refused s v h = elim (apply-Outcome s v) [
  | Outcome.refused e _ ↦ e
  | Outcome.recorded _ _ _ _ _ _ _ e ↦ absurd (h e)
]

-- The keys that a call adds stand in front of the old ones.
step-contains :
    (s : OrderLifecycleStore) (c : Call) (key : String)
    → contains key s.applied_event_keys ≡ true
    → contains key (step s c).applied_event_keys ≡ true
unfolding step
step-contains s (creates q) key h = elim (create-Creation s q) [
  | Creation.declined e _ ↦ rw e h
  | Creation.added _ _ _ _ e _ ↦ rw e (contains-tail key _ _ h)
]
step-contains s (delivers v) key h = elim (apply-Outcome s v) [
  | Outcome.refused e _ ↦ rw e h
  | Outcome.recorded a b _ full fresh _ e _ ↦
      rw e (rw (commit_keys s _ _ b full fresh) (contains-tail key _ _ h))
]

run-contains :
    (s : OrderLifecycleStore) (cs : List Call) (key : String)
    → contains key s.applied_event_keys ≡ true
    → contains key (run s cs).applied_event_keys ≡ true
unfolding run
run-contains s [] key h = h
run-contains s (c ∷ cs) key h = run-contains (step s c) cs key (step-contains s c key h)

apply-contains :
    (s : OrderLifecycleStore) (v : Event)
    → (apply s v).1 ≡ applied
    → contains (key_of v) (apply s v).0.applied_event_keys ≡ true
apply-contains s v h = elim (apply-Outcome s v) [
  | Outcome.refused _ k ↦ absurd (k h)
  | Outcome.recorded a b _ full fresh _ e _ ↦
      rw e (rw (commit_keys s _ _ b full fresh) (contains-head (key_of v) _))
]

contains-refused :
    (s : OrderLifecycleStore) (v : Event)
    → contains (key_of v) s.applied_event_keys ≡ true
    → (apply s v).1 ≢ applied
contains-refused s v h k = elim (apply-Outcome s v) [
  | Outcome.refused _ n ↦ n k
  | Outcome.recorded _ _ _ _ fresh _ _ _ ↦ cc
]

-- Once an event is applied, no event with its key is ever applied again, to any order, by any
-- method and after any calls in between, and the refusing store is unchanged.
pub apply_once :
    (s : OrderLifecycleStore) (v w : Event) (cs : List Call)
    → (apply s v).1 ≡ applied
    → key_of w ≡ key_of v
    → let t = run (apply s v).0 cs in ((apply t w).1 ≢ applied) × ((apply t w).0 ≡ t)
apply_once s v w cs h e = (refused, apply_refused t w refused)
  where
    t : OrderLifecycleStore
    t = run (apply s v).0 cs

    refused : (apply t w).1 ≢ applied
    refused =
        contains-refused t w
          (rw e (run-contains (apply s v).0 cs (key_of v) (apply-contains s v h)))

-- The audit entries of all orders.
pub audit_total : List (ℕ × OrderLifecycleRecord) → ℕ
audit_total [] = 0
audit_total ((_, r) ∷ m) = length r.audit_history + audit_total m

audit_total-insert_new :
    (id : ℕ) (r : OrderLifecycleRecord) (m : List (ℕ × OrderLifecycleRecord))
    → lookup id m ≡ none
    → audit_total (insert id r m) ≡ audit_total m + length r.audit_history
unfolding audit_total insert lookup
audit_total-insert_new id r [] h = omega arith
audit_total-insert_new id r ((j, a) ∷ m) h = ground (arith, audit_total-insert_new id r m)

audit_total-insert_old :
    (id : ℕ) (a r : OrderLifecycleRecord) (m : List (ℕ × OrderLifecycleRecord))
    → lookup id m ≡ some a
    → audit_total (insert id r m) + length a.audit_history ≡ audit_total m + length r.audit_history
unfolding audit_total insert lookup
audit_total-insert_old id a r [] h = cc
audit_total-insert_old id a r ((j, b) ∷ m) h = ground (arith, audit_total-insert_old id a r m)

-- What the keys of a store are.
pub record IsKeyed (s : OrderLifecycleStore) : Type 0 where
  pub distinct : AllDistinct s.applied_event_keys
  pub counted : audit_total s.records ≡ length s.applied_event_keys

commit-IsKeyed :
    (s : OrderLifecycleStore) (id : ℕ) (key : String) (a b : OrderLifecycleRecord)
    → lookup id s.records ≡ some a
    → is_empty key ≡ false
    → contains key s.applied_event_keys ≡ false
    → Advance key a b
    → IsKeyed s
    → IsKeyed (commit s id key b)
unfolding commit record_event_key
commit-IsKeyed s id key a b found full fresh adv v =
    rw (full, fresh)
      (record {
        distinct = (fresh, v.distinct);
        counted = omega (
          arith,
          v.counted,
          audit_total-insert_old id a b s.records found,
          ap length adv.audited,
          length-append a.audit_history (adv.entry ∷ []),
        );
      })

initial_record_audited : (q : OrderRequest) → length (initial_record q).audit_history ≡ 1
unfolding initial_record append_audit
initial_record_audited q = refl

step-IsKeyed : (s : OrderLifecycleStore) (c : Call) → IsKeyed s → IsKeyed (step s c)
unfolding step
step-IsKeyed s (creates q) v = elim (create-Creation s q) [
  | Creation.declined e _ ↦ rw e v
  | Creation.added absent _ fresh _ e _ ↦ rw e (record {
    distinct = (fresh, v.distinct);
    counted = omega (
      arith,
      v.counted,
      audit_total-insert_new q.local_order_id (initial_record q) s.records absent,
      initial_record_audited q,
    );
  })
]
step-IsKeyed s (delivers w) v = elim (apply-Outcome s w) [
  | Outcome.refused e _ ↦ rw e v
  | Outcome.recorded a b found full fresh adv e _ ↦
      rw e (commit-IsKeyed s _ _ a b found full fresh adv v)
]

run-IsKeyed : (s : OrderLifecycleStore) (cs : List Call) → IsKeyed s → IsKeyed (run s cs)
unfolding run
run-IsKeyed s [] v = v
run-IsKeyed s (c ∷ cs) v = run-IsKeyed (step s c) cs (step-IsKeyed s c v)

empty-IsKeyed : IsKeyed empty_store
unfolding audit_total
empty-IsKeyed = record { distinct = tt; counted = refl }

-- After any history of a new store no event key is recorded twice and the number of recorded keys
-- is the number of audit entries of all orders together.
pub run_empty-IsKeyed : (cs : List Call) → IsKeyed (run empty_store cs)
run_empty-IsKeyed cs = run-IsKeyed empty_store cs empty-IsKeyed
