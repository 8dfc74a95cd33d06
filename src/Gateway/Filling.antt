-- ===== src/Gateway/Filling.antt =====
-- The events of the deterministic adapter, handled by the gateway of engine/src/BrokerGateway.cpp.
use mathlib.Core.Path.{ap₂}
use mynyra.Prelude.{
  ℕ, ◌<◌, ◌≡◌, refl, sym, ap, ◌∙◌, Bool, true, false, ◌&&◌, String, Option, none, some, List, ◌∷◌,
  arith, if◌then◌else◌, is_empty, ◌==◌,
}
use mynyra.Prelude.Int.{ℤ, pos, ◌+ℤ◌, ◌-ℤ◌, ◌≤ℤ◌, ltb_ℤ, eq_ℤ, IsInt64, int64_max}
use mynyra.Prelude.Maps.{lookup, lookup-insert_self}
use mynyra.Contracts.{
  Decimal64, PositionSide, PositionEffect, OrderRequest, OrderAcknowledgement, ExecutionEvent,
  is_positive, is_negative, is_zero, same_side, same_effect, OrderLifecycleState as State,
}
use mynyra.Lifecycle.Record.{
  LifecycleApplyResult, OrderLifecycleRecord, can_transition, valid_quantities, append_audit,
  event_is_older,
}
use mynyra.Lifecycle.Store.{
  OrderLifecycleStore, acknowledgement_on, apply_acknowledgement, acknowledged_state, commit,
}
use mynyra.Lifecycle.Fills.{apply_execution, execution_on, execution_is_invalid, execution_state}
use mynyra.Doubles.{Doubles}
use mynyra.Gateway.State.{IBrokerAdapter, BrokerFill, Published, BrokerGateway}
use mynyra.Gateway.Handlers.{
  keep_fill, acknowledge, handle_acknowledgement, execute, handle_execution,
}
use mynyra.Gateway.Paper.{IsAt, not_older, commit-IsAt}

-- The state after an acknowledgement is a move from a submitted order.
acknowledged_able : (b : Bool) → can_transition State.submitted (acknowledged_state b) ≡ true
unfolding can_transition
acknowledged_able true = refl
acknowledged_able false = refl

filled_able : (b : Bool) → can_transition State.accepted (execution_state b) ≡ true
unfolding can_transition
filled_able true = refl
filled_able false = refl

apply_acknowledgement_found :
    (s : OrderLifecycleStore) (k : OrderAcknowledgement) {r : OrderLifecycleRecord}
    → lookup k.local_order_id s.records ≡ some r
    → apply_acknowledgement s k ≡ acknowledgement_on s k r
unfolding apply_acknowledgement
apply_acknowledgement_found s k found =
    ap
      (λ (o : Option OrderLifecycleRecord).
        elim o as (λ _. OrderLifecycleStore × LifecycleApplyResult) [
          | none ↦ (s, LifecycleApplyResult.unknown_order)
          | some r ↦ acknowledgement_on s k r
        ])
      found

apply_execution_found :
    (s : OrderLifecycleStore) (e : ExecutionEvent) {r : OrderLifecycleRecord}
    → lookup e.local_order_id s.records ≡ some r
    → apply_execution s e ≡ execution_on s e r
unfolding apply_execution
apply_execution_found s e found =
    ap
      (λ (o : Option OrderLifecycleRecord).
        elim o as (λ _. OrderLifecycleStore × LifecycleApplyResult) [
          | none ↦ (s, LifecycleApplyResult.unknown_order)
          | some r ↦ execution_on s e r
        ])
      found

-- An acknowledgement of a submitted order is applied.
pub acknowledgement-IsAt :
    (request : OrderRequest) (n : ℕ) (keys : List String) (k : OrderAcknowledgement)
    (s : OrderLifecycleStore)
    → IsAt request State.submitted n (k.event_key ∷ keys) s
    → k.local_order_id ≡ request.local_order_id
    → k.timestamp_ns ≡ request.timestamp_ns
    → n < k.sequence
    → (k.is_accepted && is_empty k.external_order_id) ≡ false
    → IsAt request (acknowledged_state k.is_accepted) k.sequence keys (apply_acknowledgement s k).0
unfolding acknowledgement_on append_audit
acknowledgement-IsAt request n keys k s h same_id same_time later named =
    let newer : event_is_older h.order k.timestamp_ns k.sequence ≡ false =
      not_older h.order k.timestamp_ns n k.sequence (h.last_time ∙ sym same_time) h.last_event
        later in
    let allowed : can_transition h.order.state (acknowledged_state k.is_accepted) ≡ true =
      ap (λ (t : State). can_transition t (acknowledged_state k.is_accepted)) h.in_state
      ∙ acknowledged_able k.is_accepted in
    let found : lookup k.local_order_id s.records ≡ some h.order =
      ap (λ (t : ℕ). lookup t s.records) same_id ∙ h.found in
    rw (apply_acknowledgement_found s k found, h.fresh.0, h.fresh.1, newer, named, allowed, same_id)
      (commit-IsAt request _ k.sequence k.event_key keys s _ refl h.same same_time refl h.unfilled
        h.fresh)

-- A fill of an accepted order that is a part or all of it.
pub record IsFill (request : OrderRequest) (e : ExecutionEvent) : Type 0 where
  pub same_id : e.local_order_id ≡ request.local_order_id
  pub same_time : e.timestamp_ns ≡ request.timestamp_ns
  pub total :
      e.cumulative_filled_quantity.units +ℤ e.remaining_quantity.units ≡ request.quantity.units
  pub rest : pos 0 ≤ℤ e.remaining_quantity.units
  pub part : is_positive e.cumulative_filled_quantity ≡ true
  pub scale : e.cumulative_filled_quantity.scale ≡ request.quantity.scale
  pub rest_scale : e.remaining_quantity.scale ≡ request.quantity.scale
  pub price : is_positive e.fill_price ≡ true
  pub charge : is_negative e.fee ≡ false
  pub side : e.position_side ≡ request.position_side
  pub effect : e.position_effect ≡ request.position_effect

total_fits :
    (a b c : ℤ)
    → a +ℤ b ≡ c
    → pos 0 ≤ℤ b
    → IsInt64 c
    → (ltb_ℤ (int64_max -ℤ b) a ≡ false) × (eq_ℤ (a +ℤ b) c ≡ true)
unfolding ◌+ℤ◌ ◌-ℤ◌
total_fits a b c e rest h = (ground (arith, e), ground (arith, e))

same_side_self : (a : PositionSide) → same_side a a ≡ true
same_side_self a = ground arith

same_effect_self : (a : PositionEffect) → same_effect a a ≡ true
same_effect_self a = ground arith

not_negative : (u : ℤ) → ltb_ℤ (pos 0) u ≡ true → ltb_ℤ u (pos 0) ≡ false
not_negative u h = ground arith

not_below : (u : ℤ) → pos 0 ≤ℤ u → ltb_ℤ u (pos 0) ≡ false
not_below u h = ground arith

equal_self : (n : ℕ) → (n == n) ≡ true
equal_self n = ground arith

fill_quantities :
    (request : OrderRequest) (e : ExecutionEvent) (r : OrderLifecycleRecord)
    → IsFill request e
    → r.request ≡ request
    → IsInt64 request.quantity.units
    → valid_quantities r e.cumulative_filled_quantity e.remaining_quantity ≡ true
unfolding valid_quantities
fill_quantities request e r f same narrow =
    let (fits, adds) =
      total_fits e.cumulative_filled_quantity.units e.remaining_quantity.units
        request.quantity.units f.total f.rest narrow in
    rw (
      same,
      f.scale,
      f.rest_scale,
      equal_self request.quantity.scale,
      not_negative e.cumulative_filled_quantity.units f.part,
      not_below e.remaining_quantity.units f.rest,
      fits,
      adds,
    )

fill_is_valid :
    (request : OrderRequest) (n : ℕ) (keys : List String) (s : OrderLifecycleStore)
    (e : ExecutionEvent) (h : IsAt request State.accepted n keys s)
    → IsFill request e
    → IsInt64 request.quantity.units
    → n < e.sequence
    → execution_is_invalid e h.order ≡ false
unfolding execution_is_invalid
fill_is_valid request n keys s e h f narrow later =
    let newer =
      not_older h.order e.timestamp_ns n e.sequence (h.last_time ∙ sym f.same_time) h.last_event
        later in
    let adds = fill_quantities request e h.order f h.same narrow in
    let first : ltb_ℤ e.cumulative_filled_quantity.units h.order.filled_quantity.units ≡ false =
      ap (ltb_ℤ e.cumulative_filled_quantity.units) h.unfilled
      ∙ not_negative e.cumulative_filled_quantity.units f.part in
    let side : same_side e.position_side h.order.request.position_side ≡ true =
      ap₂ same_side f.side (ap (λ (q : OrderRequest). q.position_side) h.same)
      ∙ same_side_self request.position_side in
    let effect : same_effect e.position_effect h.order.request.position_effect ≡ true =
      ap₂ same_effect f.effect (ap (λ (q : OrderRequest). q.position_effect) h.same)
      ∙ same_effect_self request.position_effect in
    rw (newer, adds, f.price, f.charge, side, effect, first)

-- The record of an order after its fill.
pub record IsFilled (request : OrderRequest) (e : ExecutionEvent) (s : OrderLifecycleStore)
    : Type 0 where
  pub order : OrderLifecycleRecord
  pub found : lookup request.local_order_id s.records ≡ some order
  pub same : order.request ≡ request
  pub in_state : order.state ≡ execution_state (is_zero e.remaining_quantity)
  pub filled : order.filled_quantity ≡ e.cumulative_filled_quantity
  pub remaining : order.remaining_quantity ≡ e.remaining_quantity

-- A fill of an accepted order is applied.
pub execution-IsFilled :
    (request : OrderRequest) (n : ℕ) (keys : List String) (s : OrderLifecycleStore)
    (e : ExecutionEvent)
    → IsAt request State.accepted n (e.event_key ∷ keys) s
    → IsFill request e
    → IsInt64 request.quantity.units
    → n < e.sequence
    → IsFilled request e (apply_execution s e).0
unfolding execution_on append_audit commit
execution-IsFilled request n keys s e h f narrow later =
    let valid = fill_is_valid request n (e.event_key ∷ keys) s e h f narrow later in
    let allowed : can_transition h.order.state (execution_state (is_zero e.remaining_quantity))
        ≡ true =
      ap (λ (t : State). can_transition t (execution_state (is_zero e.remaining_quantity)))
        h.in_state
      ∙ filled_able (is_zero e.remaining_quantity) in
    let found : lookup e.local_order_id s.records ≡ some h.order =
      ap (λ (t : ℕ). lookup t s.records) f.same_id ∙ h.found in
    rw (apply_execution_found s e found, h.fresh.0, h.fresh.1, valid, allowed, f.same_id)
      (record {
        order = _;
        found = lookup-insert_self request.local_order_id _ s.records;
        same = h.same;
        in_state = refl;
        filled = refl;
        remaining = refl;
      })

module _ (F : Doubles) (A : IBrokerAdapter) where
  keep_fill-lifecycle :
      (e : Published F) (o : Option (BrokerFill F)) (g : BrokerGateway F A)
      → (keep_fill F A e o g).1.lifecycle ≡ g.lifecycle
  keep_fill-lifecycle e none g = refl
  keep_fill-lifecycle e (some fill) g = refl

  either :
      {s : OrderLifecycleStore} (b : Bool) (x y : List (Published F) × BrokerGateway F A)
      → x.1.lifecycle ≡ s
      → y.1.lifecycle ≡ s
      → (if b then x else y).1.lifecycle ≡ s
  either true x y h k = h
  either false x y h k = k

  acknowledge-lifecycle :
      (k : OrderAcknowledgement) (t : OrderLifecycleStore × LifecycleApplyResult)
      (g : BrokerGateway F A)
      → (acknowledge F A k t g).1.lifecycle ≡ t.0
  acknowledge-lifecycle k (s, LifecycleApplyResult.applied) g =
      either k.is_accepted _ _ refl (keep_fill-lifecycle (Published.acknowledged k) _ _)
  acknowledge-lifecycle k (s, LifecycleApplyResult.duplicate) g = refl
  acknowledge-lifecycle k (s, LifecycleApplyResult.unknown_order) g = refl
  acknowledge-lifecycle k (s, LifecycleApplyResult.invalid_event) g = refl
  acknowledge-lifecycle k (s, LifecycleApplyResult.invalid_transition) g = refl

  execute-lifecycle :
      (e : ExecutionEvent) (d : Decimal64) (t : OrderLifecycleStore × LifecycleApplyResult)
      (g : BrokerGateway F A)
      → (execute F A e d t g).1.lifecycle ≡ t.0
  execute-lifecycle e d (s, LifecycleApplyResult.applied) g =
      keep_fill-lifecycle (Published.executed e) _ _
  execute-lifecycle e d (s, LifecycleApplyResult.duplicate) g = refl
  execute-lifecycle e d (s, LifecycleApplyResult.unknown_order) g = refl
  execute-lifecycle e d (s, LifecycleApplyResult.invalid_event) g = refl
  execute-lifecycle e d (s, LifecycleApplyResult.invalid_transition) g = refl

  pub handle_acknowledgement-lifecycle :
      (k : OrderAcknowledgement) (g : BrokerGateway F A)
      → (handle_acknowledgement F A k g).1.lifecycle ≡ (apply_acknowledgement g.lifecycle k).0
  unfolding handle_acknowledgement
  handle_acknowledgement-lifecycle k g =
      acknowledge-lifecycle k (apply_acknowledgement g.lifecycle k) g

  -- An accepted order's fill is passed on as it is.
  pub handle_execution-lifecycle :
      (e : ExecutionEvent) (g : BrokerGateway F A) (r : OrderLifecycleRecord)
      → lookup e.local_order_id g.lifecycle.records ≡ some r
      → r.state ≡ State.accepted
      → (handle_execution F A e g).1.lifecycle ≡ (apply_execution g.lifecycle e).0
  unfolding handle_execution
  handle_execution-lifecycle e g r found accepted =
      rw (found, accepted) (execute-lifecycle e r.filled_quantity (apply_execution g.lifecycle e) g)
