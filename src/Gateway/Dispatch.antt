-- ===== src/Gateway/Dispatch.antt =====
-- `dispatchOrder` and `requestCancel` of engine/src/BrokerGateway.cpp.
use mynyra.Prelude.{
  ℕ, ◌+◌, ◌%◌, ◌^◌, Bool, true, false, not, ◌||◌, String, str_append, Option, none, some, List, [],
  if◌then◌else◌, is_empty,
}
use mynyra.Contracts.{OrderRequest, NormalizedOrder, RiskDecision, CancelRequest, FailureCategory}
use mynyra.Lifecycle.Record.{LifecycleApplyResult, applied}
use mynyra.Lifecycle.Store.{
  OrderLifecycleStore, create, mark_risk_checked, mark_submitted, mark_unknown,
}
use mynyra.Lifecycle.Fills.{request_cancel}
use mynyra.Doubles.{Doubles}
use mynyra.Adapter.State.{bump, to_string}
use mynyra.Gateway.State.{
  IBrokerAdapter, GatewayConfig, GatewayDispatchResult, Published, BrokerGateway, is_live_mode,
  is_demo_mode, is_connected,
}
use mynyra.Gateway.Handlers.{count_error, handle_all}

abbrev pub was_applied : LifecycleApplyResult → Bool
was_applied applied = true
was_applied _ = false

abbrev pub failure_or : FailureCategory → FailureCategory
failure_or FailureCategory.none = FailureCategory.validation
failure_or other = other

abbrev pub refusal : NormalizedOrder → FailureCategory → String → GatewayDispatchResult
refusal order failure reason = record {
  dispatched = false;
  local_order_id = order.request.local_order_id;
  failure = failure;
  reason = reason;
}

abbrev pub dispatch_accepted : NormalizedOrder → GatewayDispatchResult
dispatch_accepted order = record {
  dispatched = true;
  local_order_id = order.request.local_order_id;
  failure = FailureCategory.none;
  reason = "";
}

abbrev pub lifecycle_request : NormalizedOrder → OrderRequest
lifecycle_request order = record order.request {
  quantity = order.normalized_quantity;
  limit_price = order.normalized_limit_price;
  stop_price = order.normalized_stop_price;
  reference_price = order.normalized_reference_price;
}

-- A sequence number after the order's: `baseSequence + n` on a `uint64_t`.
abbrev pub sequence_after : NormalizedOrder → ℕ → ℕ
sequence_after order n = (order.request.sequence + n) % 2 ^ 64

abbrev pub order_key : String → NormalizedOrder → String
order_key prefix order = str_append prefix (to_string order.request.local_order_id)

-- The order in the lifecycle store: created, risk-checked and submitted, or the reason why it is not.
abbrev pub submit_if_checked :
    NormalizedOrder
    → OrderLifecycleStore × LifecycleApplyResult
    → OrderLifecycleStore × Option String
submit_if_checked order (s, applied) =
    let (submitted, result) =
      mark_submitted s order.request.local_order_id (order_key "gateway-submit-" order)
        order.request.timestamp_ns (sequence_after order 2) in
    (submitted, if was_applied result then none else some "lifecycle dispatch transition failed")
submit_if_checked order (s, other) = (s, some "lifecycle dispatch transition failed")

abbrev pub check_if_created :
    NormalizedOrder → OrderLifecycleStore × Bool → OrderLifecycleStore × Option String
check_if_created order (s, false) = (s, some "duplicate or invalid order identity")
check_if_created order (s, true) = submit_if_checked order (
    mark_risk_checked s order.request.local_order_id (order_key "gateway-risk-" order)
      order.request.timestamp_ns (sequence_after order 1))

unfoldable pub record_dispatch :
    NormalizedOrder → OrderLifecycleStore → OrderLifecycleStore × Option String
record_dispatch order s = check_if_created order (create s (lifecycle_request order))

module _ (F : Doubles) (A : IBrokerAdapter) where
  -- After the adapter has answered and its events are handled.
  abbrev pub settle_submit :
      NormalizedOrder
      → Bool
      → List (Published F) × BrokerGateway F A
      → GatewayDispatchResult × List (Published F) × BrokerGateway F A
  settle_submit order true (published, g) = (dispatch_accepted order, published, g)
  settle_submit order false (published, g) = (
    refusal order FailureCategory.transport "adapter refused dispatch",
    published,
    count_error F A (record g {
      lifecycle =
          (mark_unknown g.lifecycle order.request.local_order_id
            (order_key "gateway-dispatch-failed-" order) FailureCategory.transport
            "adapter refused dispatch" order.request.timestamp_ns (sequence_after order 3)).0;
    }),
  )

  unfoldable pub submit_to :
      NormalizedOrder
      → A.State
      → BrokerGateway F A
      → GatewayDispatchResult × List (Published F) × BrokerGateway F A
  submit_to order a g =
      let (taken, notices, next) = A.submit order a in
      settle_submit order taken (
        handle_all F A notices (record g {
          adapter = some next;
          total_orders_submitted = bump g.total_orders_submitted;
        }))

  abbrev pub submit_recorded :
      NormalizedOrder
      → A.State
      → OrderLifecycleStore × Option String
      → BrokerGateway F A
      → GatewayDispatchResult × List (Published F) × BrokerGateway F A
  submit_recorded order a (s, some reason) g = (
    refusal order FailureCategory.validation reason,
    [],
    count_error F A (record g { lifecycle = s }),
  )
  submit_recorded order a (s, none) g = submit_to order a (record g { lifecycle = s })

  abbrev pub offline_reason : GatewayConfig → String
  offline_reason c =
      if is_live_mode c || is_demo_mode c
      then "external dispatch blocked: adapter not approved or connected"
      else "adapter not connected"

  abbrev pub dispatch_on :
      NormalizedOrder
      → Option A.State
      → BrokerGateway F A
      → GatewayDispatchResult × List (Published F) × BrokerGateway F A
  dispatch_on order none g =
      (refusal order FailureCategory.transport (offline_reason g.config), [], count_error F A g)
  dispatch_on order (some a) g =
      if is_connected F A g
      then submit_recorded order a (record_dispatch order g.lifecycle) g
      else (
        refusal order FailureCategory.transport (offline_reason g.config),
        [],
        count_error F A g,
      )

  -- A gateway without an adapter is not connected.
  unfoldable pub dispatch_order :
      NormalizedOrder
      → RiskDecision
      → BrokerGateway F A
      → GatewayDispatchResult × List (Published F) × BrokerGateway F A
  dispatch_order order decision g =
      if not decision.allowed
      then (
        refusal order (failure_or decision.failure) (
            if is_empty decision.reason
            then "final quantity-aware risk decision rejected dispatch"
            else decision.reason),
        [],
        g,
      )
      else dispatch_on order g.adapter g

  abbrev pub settle_cancel_request :
      CancelRequest
      → Bool
      → List (Published F) × BrokerGateway F A
      → Bool × List (Published F) × BrokerGateway F A
  settle_cancel_request request true (published, g) = (true, published, g)
  settle_cancel_request request false (published, g) = (
    false,
    published,
    record g {
      lifecycle =
          (mark_unknown g.lifecycle request.local_order_id
            (str_append "gateway-cancel-dispatch-failed-" (to_string request.local_order_id))
            FailureCategory.transport "adapter refused cancel dispatch" request.timestamp_ns
            (bump request.sequence)).0;
    },
  )

  unfoldable pub cancel_at :
      CancelRequest → A.State → BrokerGateway F A → Bool × List (Published F) × BrokerGateway F A
  cancel_at request a g =
      let (taken, notices, next) = A.cancel request a in
      settle_cancel_request request taken
        (handle_all F A notices (record g { adapter = some next }))

  abbrev pub cancel_if_applied :
      CancelRequest
      → A.State
      → OrderLifecycleStore × LifecycleApplyResult
      → BrokerGateway F A
      → Bool × List (Published F) × BrokerGateway F A
  cancel_if_applied request a (s, applied) g = cancel_at request a (record g { lifecycle = s })
  cancel_if_applied request a (s, other) g = (false, [], record g { lifecycle = s })

  abbrev pub cancel_on :
      CancelRequest
      → Option A.State
      → BrokerGateway F A
      → Bool × List (Published F) × BrokerGateway F A
  cancel_on request none g = (false, [], g)
  cancel_on request (some a) g =
      if is_connected F A g
      then cancel_if_applied request a (request_cancel g.lifecycle request) g
      else (false, [], g)

  unfoldable pub request_order_cancel :
      CancelRequest → BrokerGateway F A → Bool × List (Published F) × BrokerGateway F A
  request_order_cancel request g = cancel_on request g.adapter g
