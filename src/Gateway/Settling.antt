-- ===== src/Gateway/Settling.antt =====
-- An order that the gateway of engine/src/BrokerGateway.cpp dispatches to the deterministic adapter is settled
-- when the dispatch returns.
use mathlib.Core.Path.{ap₂}
use Prim.Native.String.{len}
use text.Mathlib.TextEquality.{eq_iff as str_eq_iff}
use text.Mathlib.TextPositions.{len-append}
use mynyra.Prelude.{
  ℕ, ◌+◌, ◌%◌, ◌^◌, ◌≤◌, ◌<◌, ◌≡◌, refl, sym, ap, ◌∙◌, ◌⊎◌, inl, inr, Bool, true, false, ◌&&◌,
  Option, none, some, String, str_append, List, [], ◌∷◌, arith, if◌then◌else◌, subst, Bool-cases,
  is_empty,
}
use mynyra.Prelude.Int.{pos, ◌+ℤ◌, IsInt64}
use mynyra.Prelude.Maps.{lookup}
use mynyra.Contracts.{
  Decimal64, ExecutionEvent, OrderRequest, NormalizedOrder, FailureCategory, is_positive, is_zero,
  OrderLifecycleState as State,
}
use mynyra.Lifecycle.Record.{LifecycleApplyResult, OrderLifecycleRecord, applied, can_transition}
use mynyra.Lifecycle.Store.{
  OrderLifecycleStore, create, mark_risk_checked, mark_submitted, request_is_invalid,
}
use mynyra.Lifecycle.Fills.{execution_state}
use mynyra.Doubles.{Doubles}
use mynyra.Adapter.State.{Notice, to_string}
use mynyra.Adapter.Submission.{acknowledgement_of, execution_of, paper_id}
use mynyra.Gateway.State.{IBrokerAdapter, BrokerGateway}
use mynyra.Gateway.Handlers.{handle, handle_all, handle_acknowledgement}
use mynyra.Gateway.Dispatch.{
  lifecycle_request, order_key, submit_if_checked, check_if_created, record_dispatch, was_applied,
}
use mynyra.Gateway.Paper.{AreFresh, IsAt, create-IsAt, transition-IsAt}
use mynyra.Gateway.Filling.{
  IsFill, IsFilled, acknowledgement-IsAt, execution-IsFilled, handle_acknowledgement-lifecycle,
  handle_execution-lifecycle,
}
use mynyra.Gateway.Answers.{IsReply, refuses, fills}

-- The keys of the adapter's events, and those of a dispatch after the order's own.
abbrev pub reply_keys : NormalizedOrder → List String
reply_keys order =
    str_append "ack-" (to_string order.request.local_order_id)
    ∷ str_append (str_append "fill-" (to_string order.request.local_order_id)) "-1"
    ∷ []

abbrev pub dispatch_keys : NormalizedOrder → List String
dispatch_keys order =
    order_key "gateway-risk-" order ∷ order_key "gateway-submit-" order ∷ reply_keys order

no_wrap : (n k : ℕ) → n + 4 < 2 ^ 64 → k ≤ 4 → (n + k) % 2 ^ 64 ≡ n + k
no_wrap n k h small = omega arith

module _ (order : NormalizedOrder) (room : order.request.sequence + 4 < 2 ^ 64) where
  -- The lifecycle store once the order is submitted.
  abbrev pub IsSubmitted : OrderLifecycleStore × Option String → Type 0
  IsSubmitted t =
      (t.1 ≡ none)
      × IsAt (lifecycle_request order) State.submitted (order.request.sequence + 2)
          (reply_keys order) t.0

  submit_if_checked-IsSubmitted :
      (t : OrderLifecycleStore × LifecycleApplyResult)
      → t.1 ≡ applied
      → IsAt
          (lifecycle_request order)
          State.risk_checked
          (order.request.sequence + 1)
          (order_key "gateway-submit-" order ∷ reply_keys order)
          t.0
      → IsSubmitted (submit_if_checked order t)
  unfolding mark_submitted can_transition
  submit_if_checked-IsSubmitted (s, LifecycleApplyResult.applied) e h =
      let (ok, at) =
        transition-IsAt (lifecycle_request order) State.risk_checked State.submitted
          (order.request.sequence + 1) (order.request.sequence + 2)
          (order_key "gateway-submit-" order) (reply_keys order) s h refl (omega arith) in
      let number = no_wrap order.request.sequence 2 room (omega arith) in
      rw number (
        ap
            (λ (r : LifecycleApplyResult).
              if was_applied r then none else some "lifecycle dispatch transition failed")
            ok,
        at,
      )
  submit_if_checked-IsSubmitted (s, LifecycleApplyResult.duplicate) e h = cc
  submit_if_checked-IsSubmitted (s, LifecycleApplyResult.unknown_order) e h = cc
  submit_if_checked-IsSubmitted (s, LifecycleApplyResult.invalid_event) e h = cc
  submit_if_checked-IsSubmitted (s, LifecycleApplyResult.invalid_transition) e h = cc

  check_if_created-IsSubmitted :
      (t : OrderLifecycleStore × Bool)
      → t.1 ≡ true
      → IsAt
          (lifecycle_request order)
          State.created
          order.request.sequence
          (dispatch_keys order)
          t.0
      → IsSubmitted (check_if_created order t)
  unfolding mark_risk_checked can_transition
  check_if_created-IsSubmitted (s, true) e h =
      let (ok, at) =
        transition-IsAt (lifecycle_request order) State.created State.risk_checked
          order.request.sequence (order.request.sequence + 1) (order_key "gateway-risk-" order)
          (order_key "gateway-submit-" order ∷ reply_keys order) s h refl (omega arith) in
      let number = no_wrap order.request.sequence 1 room (omega arith) in
      rw number (submit_if_checked-IsSubmitted _ ok at)
  check_if_created-IsSubmitted (s, false) e h = cc

  pub record_dispatch-IsSubmitted :
      (s : OrderLifecycleStore)
      → request_is_invalid (lifecycle_request order) ≡ false
      → lookup order.request.local_order_id s.records ≡ none
      → AreFresh (order.request.idempotency_key ∷ dispatch_keys order) s.applied_event_keys
      → IsSubmitted (record_dispatch order s)
  unfolding record_dispatch
  record_dispatch-IsSubmitted s valid absent fresh =
      let (made, at) =
        create-IsAt (lifecycle_request order) (dispatch_keys order) s valid absent fresh in
      check_if_created-IsSubmitted (create s (lifecycle_request order)) made at

-- A refused order is unfilled, and another one is filled by all or by a part, with nothing lost.
pub record IsSettled (request : OrderRequest) (s : OrderLifecycleStore) : Type 0 where
  pub order : OrderLifecycleRecord
  pub found : lookup request.local_order_id s.records ≡ some order
  pub same : order.request ≡ request
  pub ends :
      ((order.state ≡ State.rejected) × (order.filled_quantity.units ≡ pos 0))
      ⊎ ((order.state ≡ execution_state (is_zero order.remaining_quantity))
          × (order.filled_quantity.units +ℤ order.remaining_quantity.units ≡ request.quantity.units)
          × (is_positive order.filled_quantity ≡ true))

refused-IsSettled :
    {request : OrderRequest} {n : ℕ} {keys : List String} {s : OrderLifecycleStore}
    → IsAt request State.rejected n keys s
    → IsSettled request s
refused-IsSettled h = record {
  order = h.order;
  found = h.found;
  same = h.same;
  ends = inl (h.in_state, h.unfilled);
}

filled-IsSettled :
    {request : OrderRequest} {e : ExecutionEvent} {s : OrderLifecycleStore}
    → IsFill request e
    → IsFilled request e s
    → IsSettled request s
filled-IsSettled {request} {e} f h = record {
  order = h.order;
  found = h.found;
  same = h.same;
  ends = inr (
    h.in_state ∙ ap (λ (d : Decimal64). execution_state (is_zero d)) (sym h.remaining),
    ap₂ (λ (a b : Decimal64). a.units +ℤ b.units) h.filled h.remaining ∙ f.total,
    ap is_positive h.filled ∙ f.part,
  );
}

absurd : {b : Bool} → (n : ℕ) → 6 + n ≡ 0 → b ≡ false
absurd n e = ground (arith, e)

named : (order : NormalizedOrder) → (true && is_empty (paper_id order)) ≡ false
named order =
    let id = to_string order.request.local_order_id in
    elim (Bool-cases (is_empty (paper_id order))) [
      | inl same ↦
          let parts =
            sym (len-append "paper-" id) ∙ ap len ((str_eq_iff (paper_id order) "").0 same) in
          absurd (len id) parts
      | inr apart ↦ apart
    ]

module _ (F : Doubles) (A : IBrokerAdapter) (order : NormalizedOrder)
    (room : order.request.sequence + 4 < 2 ^ 64)
    (narrow : IsInt64 order.normalized_quantity.units) where
  -- The events of a reply, handled in turn.
  pub reply-IsSettled :
      (notices : List Notice) (g : BrokerGateway F A)
      → IsReply F order notices
      → IsAt
          (lifecycle_request order)
          State.submitted
          (order.request.sequence + 2)
          (reply_keys order)
          g.lifecycle
      → IsSettled (lifecycle_request order) (handle_all F A notices g).1.lifecycle
  unfolding handle_all handle
  reply-IsSettled notices g (refuses failure reason e) h =
      let k = acknowledgement_of order false "" failure reason in
      let later : order.request.sequence + 2 < k.sequence =
        omega (arith, no_wrap order.request.sequence 3 room (omega arith)) in
      let at =
        acknowledgement-IsAt (lifecycle_request order) (order.request.sequence + 2) _ k g.lifecycle
          h refl refl later refl in
      rw e (
        subst (IsSettled (lifecycle_request order)) (sym (handle_acknowledgement-lifecycle F A k g))
          (refused-IsSettled at))
  reply-IsSettled notices g (fills split priced e f) h =
      let k = acknowledgement_of order true (paper_id order) FailureCategory.none "" in
      let x = execution_of order split priced in
      let third = no_wrap order.request.sequence 3 room (omega arith) in
      let fourth = no_wrap order.request.sequence 4 room (omega arith) in
      let at =
        acknowledgement-IsAt (lifecycle_request order) (order.request.sequence + 2)
          (x.event_key ∷ []) k g.lifecycle h refl refl (omega (arith, third)) (named order) in
      let g1 = (handle_acknowledgement F A k g).1 in
      let accepted : IsAt (lifecycle_request order) State.accepted k.sequence (x.event_key ∷ [])
          g1.lifecycle =
        subst (IsAt (lifecycle_request order) State.accepted k.sequence (x.event_key ∷ []))
          (sym (handle_acknowledgement-lifecycle F A k g)) at in
      let done =
        execution-IsFilled (lifecycle_request order) k.sequence [] g1.lifecycle x accepted f narrow
          (omega (arith, third, fourth)) in
      rw e (
        subst (IsSettled (lifecycle_request order))
          (sym
            (handle_execution-lifecycle F A x g1 accepted.order accepted.found accepted.in_state))
          (filled-IsSettled f done))
