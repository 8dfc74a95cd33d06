-- ===== src/Gateway/Safety.antt =====
-- When `dispatchOrder` of engine/src/BrokerGateway.cpp hands an order to the adapter.
use mynyra.Prelude.{
  ◌≡◌, refl, sym, ap, ◌∙◌, inl, inr, Bool, true, false, not, ◌&&◌, ◌||◌, Option, none, some, String,
  List, arith, Bool-cases, if◌then◌else◌,
}
use mynyra.Contracts.{NormalizedOrder, RiskDecision}
use mynyra.Financial.Budget.{not_inv}
use mynyra.Lifecycle.Record.{LifecycleApplyResult, applied}
use mynyra.Lifecycle.Store.{OrderLifecycleStore, create, mark_risk_checked, mark_submitted}
use mynyra.Doubles.{Doubles}
use mynyra.Gateway.State.{
  IBrokerAdapter, Published, BrokerGateway, is_paper_mode, can_enter_live_runtime,
  can_enter_ctrader_demo_runtime, adapter_authorized, adapter_connected, is_connected,
}
use mynyra.Gateway.Dispatch.{
  lifecycle_request, order_key, sequence_after, was_applied, submit_if_checked, check_if_created,
  record_dispatch, settle_submit, submit_to, submit_recorded, dispatch_on, dispatch_order,
}

external_only :
    (p u a d : Bool)
    → p ≡ false
    → (p || u && a && not d) ≡ true
    → (u ≡ true) × (a ≡ true) × (d ≡ false)
external_only p u a d e h = ground (arith, e, h)

both_true : (a b : Bool) → (a && b) ≡ true → (a ≡ true) × (b ≡ true)
both_true a b h = ground arith

-- The lifecycle store takes the order as created, then as risk-checked, then as submitted.
pub record IsRecorded (order : NormalizedOrder) (s : OrderLifecycleStore) : Type 0 where
  pub first : OrderLifecycleStore
  pub created : create s (lifecycle_request order) ≡ (first, true)
  pub second : OrderLifecycleStore
  pub checked :
      mark_risk_checked first order.request.local_order_id
        (order_key "gateway-risk-" order)
        order.request.timestamp_ns
        (sequence_after order 1)
      ≡ (second, applied)
  pub submitted :
      (mark_submitted second order.request.local_order_id
        (order_key "gateway-submit-" order)
        order.request.timestamp_ns
        (sequence_after order 2)).1
      ≡ applied

was_applied_inv : (r : LifecycleApplyResult) → was_applied r ≡ true → r ≡ applied
was_applied_inv LifecycleApplyResult.applied h = refl
was_applied_inv LifecycleApplyResult.duplicate h = cc
was_applied_inv LifecycleApplyResult.unknown_order h = cc
was_applied_inv LifecycleApplyResult.invalid_event h = cc
was_applied_inv LifecycleApplyResult.invalid_transition h = cc

no_reason : (b : Bool) (reason : String) → (if b then none else some reason) ≡ none → b ≡ true
no_reason true reason h = refl
no_reason false reason h = cc

record_dispatch_inv :
    (order : NormalizedOrder) (s : OrderLifecycleStore)
    → (record_dispatch order s).1 ≡ none
    → IsRecorded order s
unfolding record_dispatch
record_dispatch_inv order s h = from_created (create s (lifecycle_request order)) refl h
  where
    from_checked :
        (first : OrderLifecycleStore)
        → create s (lifecycle_request order) ≡ (first, true)
        → (t : OrderLifecycleStore × LifecycleApplyResult)
        → mark_risk_checked first order.request.local_order_id
            (order_key "gateway-risk-" order)
            order.request.timestamp_ns
            (sequence_after order 1)
          ≡ t
        → (submit_if_checked order t).1 ≡ none
        → IsRecorded order s
    from_checked first created (second, LifecycleApplyResult.applied) checked h = record {
      first = first;
      created = created;
      second = second;
      checked = checked;
      submitted = was_applied_inv _ (no_reason _ _ h);
    }
    from_checked first created (second, LifecycleApplyResult.duplicate) checked h = cc
    from_checked first created (second, LifecycleApplyResult.unknown_order) checked h = cc
    from_checked first created (second, LifecycleApplyResult.invalid_event) checked h = cc
    from_checked first created (second, LifecycleApplyResult.invalid_transition) checked h = cc

    from_created :
        (t : OrderLifecycleStore × Bool)
        → create s (lifecycle_request order) ≡ t
        → (check_if_created order t).1 ≡ none
        → IsRecorded order s
    from_created (first, false) created h = cc
    from_created (first, true) created h = from_checked first created _ refl h

module _ (F : Doubles) (A : IBrokerAdapter) where
  -- Paper trading, or an approved external adapter in a mode that the build and the configuration unlock.
  pub record IsAuthorized (g : BrokerGateway F A) : Type 0 where
    pub approved : is_paper_mode g.config ≡ false → g.live_adapter_approved ≡ true
    pub external : is_paper_mode g.config ≡ false → A.is_deterministic ≡ false
    pub unlocked :
        is_paper_mode g.config ≡ false
        → (can_enter_live_runtime g.config || can_enter_ctrader_demo_runtime g.config) ≡ true

  adapter_authorized_inv :
      (g : BrokerGateway F A) → adapter_authorized F A g ≡ true → IsAuthorized g
  unfolding adapter_authorized
  adapter_authorized_inv g h = record {
    approved = λ other.
        (external_only (is_paper_mode g.config)
          (can_enter_live_runtime g.config || can_enter_ctrader_demo_runtime g.config)
          g.live_adapter_approved A.is_deterministic other h).1;
    external = λ other.
        (external_only (is_paper_mode g.config)
          (can_enter_live_runtime g.config || can_enter_ctrader_demo_runtime g.config)
          g.live_adapter_approved A.is_deterministic other h).2;
    unlocked = λ other.
        (external_only (is_paper_mode g.config)
          (can_enter_live_runtime g.config || can_enter_ctrader_demo_runtime g.config)
          g.live_adapter_approved A.is_deterministic other h).0;
  }

  -- A dispatch that is allowed, on an authorized and connected adapter that takes the order once the
  -- lifecycle store has it as submitted.
  pub record IsDispatch (order : NormalizedOrder) (decision : RiskDecision) (g : BrokerGateway F A)
      : Type 0 where
    pub allowed : decision.allowed ≡ true
    pub adapter : A.State
    pub there : g.adapter ≡ some adapter
    pub authorized : IsAuthorized g
    pub up : A.is_connected adapter ≡ true
    pub recorded : (record_dispatch order g.lifecycle).1 ≡ none
    pub steps : IsRecorded order g.lifecycle
    pub taken : (A.submit order adapter).0 ≡ true

  settle_submit_inv :
      (order : NormalizedOrder) (taken : Bool) (t : List (Published F) × BrokerGateway F A)
      → (settle_submit F A order taken t).0.dispatched ≡ true
      → taken ≡ true
  settle_submit_inv order true t h = refl
  settle_submit_inv order false t h = cc

  submit_recorded_inv :
      (order : NormalizedOrder) (a : A.State) (r : OrderLifecycleStore × Option String)
      (g : BrokerGateway F A)
      → (submit_recorded F A order a r g).0.dispatched ≡ true
      → (r.1 ≡ none) × ((A.submit order a).0 ≡ true)
  unfolding submit_to
  submit_recorded_inv order a (s, some reason) g h = cc
  submit_recorded_inv order a (s, none) g h =
      (refl, settle_submit_inv order (A.submit order a).0 _ h)

  dispatch_on_inv :
      (order : NormalizedOrder) (decision : RiskDecision) (o : Option A.State)
      (g : BrokerGateway F A)
      → decision.allowed ≡ true
      → g.adapter ≡ o
      → (dispatch_on F A order o g).0.dispatched ≡ true
      → IsDispatch order decision g
  unfolding is_connected
  dispatch_on_inv order decision none g allowed there h = cc
  dispatch_on_inv order decision (some a) g allowed there h =
      elim (Bool-cases (adapter_authorized F A g && adapter_connected A g.adapter)) [
        | inl up ↦
            let (authorized, connected) = both_true _ _ up in
            let (recorded, taken) =
              submit_recorded_inv order a (record_dispatch order g.lifecycle) g (rw up at h) in
            record {
              allowed = allowed;
              adapter = a;
              there = there;
              authorized = adapter_authorized_inv g authorized;
              up = ap (adapter_connected A) (sym there) ∙ connected;
              recorded = recorded;
              steps = record_dispatch_inv order g.lifecycle recorded;
              taken = taken;
            }
        | inr down ↦ cc (rw down at h)
      ]

  -- An order is reported as dispatched only when risk allowed it, an adapter is connected, the
  -- mode is paper or an external adapter is approved and live or demo trading is unlocked, the
  -- lifecycle store took the order as created, risk-checked and submitted, and the adapter took
  -- it.
  pub dispatch_order_lem :
      (order : NormalizedOrder) (decision : RiskDecision) (g : BrokerGateway F A)
      → (dispatch_order F A order decision g).0.dispatched ≡ true
      → IsDispatch order decision g
  unfolding dispatch_order
  dispatch_order_lem order decision g h = elim (Bool-cases (not decision.allowed)) [
    | inl refused ↦ cc (rw refused at h)
    | inr allowed ↦
        dispatch_on_inv order decision g.adapter g (not_inv _ allowed) refl (rw allowed at h)
  ]
