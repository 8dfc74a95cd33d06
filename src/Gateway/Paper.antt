-- ===== src/Gateway/Paper.antt =====
-- The deterministic adapter of engine/src/DeterministicBrokerAdapter.cpp behind the gateway, and the steps of
-- an order through the lifecycle store.
use mynyra.Prelude.{
  ℕ, ◌<◌, ◌≡◌, refl, ap, ◌∙◌, true, false, String, str_eq, Option, none, some, List, [], ◌∷◌, All,
  arith, is_empty, subst,
}
use mynyra.Prelude.Int.{pos}
use mynyra.Prelude.Maps.{lookup, contains, lookup-insert_self}
use mynyra.Contracts.{AccountSnapshot, OrderRequest, OrderLifecycleState as State}
use mynyra.Lifecycle.Record.{
  LifecycleApplyResult, OrderLifecycleRecord, applied, event_is_older, append_audit, can_transition,
}
use mynyra.Lifecycle.Store.{
  OrderLifecycleStore, record_event_key, commit, create, initial_record, request_is_invalid,
  transition, transition_on,
}
use mynyra.Doubles.{Doubles}
use mynyra.Adapter.State.{DeterministicBrokerAdapter, connect, disconnect, cancel}
use mynyra.Adapter.Submission.{submit}
use mynyra.Adapter.Controls.{reconcile, instrument_spec, set_instrument_spec}
use mynyra.Gateway.State.{IBrokerAdapter}

-- The account is what `reconcile` reports while none is set.
abbrev pub paper : (F : Doubles) → AccountSnapshot → IBrokerAdapter
paper F empty_account = record {
  State = DeterministicBrokerAdapter F;
  is_deterministic = true;
  is_connected = λ a. a.connected;
  connect = connect F;
  disconnect = disconnect F;
  submit = submit F;
  cancel = cancel F;
  reconcile = reconcile F empty_account;
  instrument_spec = instrument_spec F;
  set_instrument_spec = set_instrument_spec F;
}

-- Event keys that are not empty, that the store has not seen, and that differ.
abbrev pub AreFresh : List String → List String → Type 0
AreFresh [] seen = Unit {0}
AreFresh (key ∷ keys) seen =
    (is_empty key ≡ false)
    × (contains key seen ≡ false)
    × All (λ other. str_eq key other ≡ false) keys
    × AreFresh keys seen

still_unseen :
    (key other : String) (seen : List String)
    → str_eq key other ≡ false
    → contains other seen ≡ false
    → contains other (record_event_key key seen) ≡ false
unfolding record_event_key contains
still_unseen key other seen apart unseen = ground arith

still_fresh :
    (key : String) (keys seen : List String)
    → All (λ other. str_eq key other ≡ false) keys
    → AreFresh keys seen
    → AreFresh keys (record_event_key key seen)
still_fresh key [] seen apart fresh = tt
still_fresh key (other ∷ keys) seen (differs, apart) (full, unseen, distinct, fresh) = (
  full,
  still_unseen key other seen differs unseen,
  distinct,
  still_fresh key keys seen apart fresh,
)

still_new :
    (key : String) (keys seen : List String)
    → AreFresh (key ∷ keys) seen
    → AreFresh keys (key ∷ seen)
unfolding record_event_key
still_new key keys seen (full, unseen, apart, fresh) =
    subst (AreFresh keys) (recorded key seen full unseen) (still_fresh key keys seen apart fresh)
  where
    recorded :
        (key : String) (seen : List String)
        → is_empty key ≡ false
        → contains key seen ≡ false
        → record_event_key key seen ≡ key ∷ seen
    recorded key seen a b = ground (arith, a, b)

-- The order has a record, in a state and after an event, while the keys are to come.
pub record IsAt (request : OrderRequest) (state : State) (sequence : ℕ) (keys : List String)
    (s : OrderLifecycleStore) : Type 0 where
  pub order : OrderLifecycleRecord
  pub found : lookup request.local_order_id s.records ≡ some order
  pub in_state : order.state ≡ state
  pub same : order.request ≡ request
  pub last_time : order.last_timestamp_ns ≡ request.timestamp_ns
  pub last_event : order.last_sequence ≡ sequence
  pub unfilled : order.filled_quantity.units ≡ pos 0
  pub fresh : AreFresh keys s.applied_event_keys

pub not_older :
    (r : OrderLifecycleRecord) (t n m : ℕ)
    → r.last_timestamp_ns ≡ t
    → r.last_sequence ≡ n
    → n < m
    → event_is_older r t m ≡ false
unfolding event_is_older
not_older r t n m et en h = ground arith

pub commit-IsAt :
    (request : OrderRequest) (state : State) (sequence : ℕ) (key : String) (keys : List String)
    (s : OrderLifecycleStore) (r : OrderLifecycleRecord)
    → r.state ≡ state
    → r.request ≡ request
    → r.last_timestamp_ns ≡ request.timestamp_ns
    → r.last_sequence ≡ sequence
    → r.filled_quantity.units ≡ pos 0
    → AreFresh (key ∷ keys) s.applied_event_keys
    → IsAt request state sequence keys (commit s request.local_order_id key r)
unfolding commit
commit-IsAt request state sequence key keys s r e1 e2 e3 e4 e5 (full, unseen, distinct, fresh) =
    record {
      order = r;
      found = lookup-insert_self request.local_order_id r s.records;
      in_state = e1;
      same = e2;
      last_time = e3;
      last_event = e4;
      unfilled = e5;
      fresh = still_fresh key keys s.applied_event_keys distinct fresh;
    }

pub create-IsAt :
    (request : OrderRequest) (keys : List String) (s : OrderLifecycleStore)
    → request_is_invalid request ≡ false
    → lookup request.local_order_id s.records ≡ none
    → AreFresh (request.idempotency_key ∷ keys) s.applied_event_keys
    → ((create s request).1 ≡ true)
      × IsAt request State.created request.sequence keys (create s request).0
unfolding create initial_record append_audit
create-IsAt request keys s valid absent (full, unseen, distinct, fresh) =
    rw (valid, absent, unseen)
      (
        refl,
        record {
          order = _;
          found = lookup-insert_self request.local_order_id _ s.records;
          in_state = refl;
          same = refl;
          last_time = refl;
          last_event = refl;
          unfilled = refl;
          fresh =
              still_new request.idempotency_key keys s.applied_event_keys
                (full, unseen, distinct, fresh);
        },
      )

transition_found :
    (s : OrderLifecycleStore) (id : ℕ) (next : State) (key : String) (t n : ℕ)
    {r : OrderLifecycleRecord}
    → lookup id s.records ≡ some r
    → transition s id next key t n ≡ transition_on s id next key t n r
unfolding transition
transition_found s id next key t n found =
    ap
      (λ (o : Option OrderLifecycleRecord).
        elim o as (λ _. OrderLifecycleStore × LifecycleApplyResult) [
          | none ↦ (s, LifecycleApplyResult.unknown_order)
          | some r ↦ transition_on s id next key t n r
        ])
      found

-- A transition that the table allows is applied.
pub transition-IsAt :
    (request : OrderRequest) (state next : State) (n m : ℕ) (key : String) (keys : List String)
    (s : OrderLifecycleStore)
    → IsAt request state n (key ∷ keys) s
    → can_transition state next ≡ true
    → n < m
    → ((transition s request.local_order_id next key request.timestamp_ns m).1 ≡ applied)
      × IsAt request next m keys
          (transition s request.local_order_id next key request.timestamp_ns m).0
unfolding transition_on append_audit
transition-IsAt request state next n m key keys s h able later =
    let newer = not_older h.order request.timestamp_ns n m h.last_time h.last_event later in
    let allowed : can_transition h.order.state next ≡ true =
      ap (λ (t : State). can_transition t next) h.in_state ∙ able in
    rw
      (
        transition_found s request.local_order_id next key request.timestamp_ns m h.found,
        h.fresh.0,
        h.fresh.1,
        newer,
        allowed,
      )
      (refl, commit-IsAt request next m key keys s _ refl h.same refl refl h.unfilled h.fresh)
