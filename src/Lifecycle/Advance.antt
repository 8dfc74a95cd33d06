-- ===== src/Lifecycle/Advance.antt =====
-- What an accepted event does to the record of its order, over all methods of
-- engine/src/OrderLifecycleStore.cpp that change one.
use mynyra.Prelude.{
  ℕ, ◌≡◌, refl, ◌≢◌, ◌⊎◌, Bool, true, false, ◌||◌, not, if◌then◌else◌, String, some, [], ◌∷◌, ◌++◌,
  arith, is_empty,
}
use mynyra.Prelude.Int.{pos, ◌+ℤ◌, ◌≤ℤ◌, ◌<ℤ◌}
use mynyra.Prelude.Maps.{lookup, contains}
use mynyra.Contracts.{Decimal64, OrderLifecycleState as State}
use mynyra.Lifecycle.Record.{
  LifecycleApplyResult, LifecycleAuditEntry, OrderLifecycleRecord, applied, duplicate,
  invalid_event, invalid_transition, event_is_older, is_terminal, can_transition, valid_quantities,
}
use mynyra.Lifecycle.Fills.{is_cancel_requested}
use mynyra.Lifecycle.Store.{OrderLifecycleStore, commit}

-- The quantities of a record add up to its order.
pub record IsBalanced (r : OrderLifecycleRecord) : Type 0 where
  pub ordered : pos 0 <ℤ r.request.quantity.units
  pub filled_nonneg : pos 0 ≤ℤ r.filled_quantity.units
  pub remaining_nonneg : pos 0 ≤ℤ r.remaining_quantity.units
  pub adds_up : r.filled_quantity.units +ℤ r.remaining_quantity.units ≡ r.request.quantity.units
  pub filled_scale : r.filled_quantity.scale ≡ r.request.quantity.scale
  pub remaining_scale : r.remaining_quantity.scale ≡ r.request.quantity.scale
  pub complete : r.state ≡ State.filled → r.remaining_quantity.units ≡ pos 0
  pub cancelable :
      r.state ≡ State.cancel_requested
      → (r.pre_cancel_state ≡ State.accepted) ⊎ (r.pre_cancel_state ≡ State.partially_filled)

-- The moves of an order: those that `canTransition` allows, and the way back from a cancel
-- request that the broker refuses.
abbrev pub Moves : OrderLifecycleRecord → OrderLifecycleRecord → Type 0
Moves r r' =
    (can_transition r.state r'.state ≡ true)
    ⊎ ((r.state ≡ State.cancel_requested) × (r'.state ≡ r.pre_cancel_state))

pub record Advance (key : String) (r r' : OrderLifecycleRecord) : Type 0 where
  pub entry : LifecycleAuditEntry
  pub audited : r'.audit_history ≡ r.audit_history ++ entry ∷ []
  pub entry_state : entry.state ≡ r'.state
  pub entry_key : entry.event_key ≡ key
  pub same_request : r'.request ≡ r.request
  pub live : is_terminal r.state ≡ false
  pub moves : Moves r r'
  pub newer : event_is_older r r'.last_timestamp_ns r'.last_sequence ≡ false
  pub fills : (r.filled_quantity.units ≤ℤ r'.filled_quantity.units) ⊎ (r'.state ≡ State.reconciled)
  pub balance : IsBalanced r → IsBalanced r'

-- A call on an order that the store has leaves the store as it was, or replaces the order's record
-- and adds the key, which is new.
pub data Outcome (s : OrderLifecycleStore) (id : ℕ) (key : String)
    (t : OrderLifecycleStore × LifecycleApplyResult) : Type 0 where
  refused : t.0 ≡ s → t.1 ≢ applied → Outcome s id key t
  recorded :
      (r r' : OrderLifecycleRecord)
      → lookup id s.records ≡ some r
      → is_empty key ≡ false
      → contains key s.applied_event_keys ≡ false
      → Advance key r r'
      → t.0 ≡ commit s id key r'
      → t.1 ≡ applied
      → Outcome s id key t

-- An early return with a refusal.
pub guarded :
    {s : OrderLifecycleStore} {id : ℕ} {key : String} {e : LifecycleApplyResult}
    {t : OrderLifecycleStore × LifecycleApplyResult} (b : Bool)
    → e ≢ applied
    → (b ≡ false → Outcome s id key t)
    → Outcome s id key (if b then (s, e) else t)
guarded true h k = Outcome.refused refl h
guarded false h k = k refl

pub valid_quantities_lem :
    (r : OrderLifecycleRecord) (c m : Decimal64)
    → valid_quantities r c m ≡ true
    → (pos 0 ≤ℤ c.units)
      × (pos 0 ≤ℤ m.units)
      × (c.units +ℤ m.units ≡ r.request.quantity.units)
      × (c.scale ≡ r.request.quantity.scale)
      × (m.scale ≡ r.request.quantity.scale)
unfolding valid_quantities
valid_quantities_lem r c m h = ground arith

pub live_of_can_transition : (a b : State) → can_transition a b ≡ true → is_terminal a ≡ false
unfolding can_transition
live_of_can_transition a b h = ground arith

pub invalid_event-ne : invalid_event ≢ applied
invalid_event-ne e = cc

pub invalid_transition-ne : invalid_transition ≢ applied
invalid_transition-ne e = cc

-- The two refusals that every method begins with.
pub keyed :
    {s : OrderLifecycleStore} {id : ℕ} {key : String}
    {t : OrderLifecycleStore × LifecycleApplyResult}
    → (is_empty key ≡ false → contains key s.applied_event_keys ≡ false → Outcome s id key t)
    → Outcome s id key (
        if is_empty key
        then (s, invalid_event)
        else if contains key s.applied_event_keys
        then (s, duplicate)
        else t)
keyed k = guarded _ (λ e. cc) λ h. guarded _ (λ e. cc) λ h'. k h h'

pub or_false : (a b : Bool) → (a || b) ≡ false → (a ≡ false) × (b ≡ false)
or_false a b h = ground arith

pub is_cancel_requested→eq : (a : State) → is_cancel_requested a ≡ true → a ≡ State.cancel_requested
is_cancel_requested→eq a h = ground arith

pub true_of_not : (b : Bool) → not b ≡ false → b ≡ true
true_of_not b h = ground arith
