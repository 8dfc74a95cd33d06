-- ===== src/Gateway/Settled.antt =====
-- `dispatchOrder` of engine/src/BrokerGateway.cpp in paper mode, on the deterministic adapter.
use mathlib.Core.Option.{some-injective}
use mynyra.Prelude.{
  ◌+◌, ◌^◌, ◌<◌, ◌≡◌, refl, sym, ap, ◌∙◌, inl, inr, Bool, true, false, not, Option, none, some,
  String, List, [], ◌∷◌, ◌++◌, arith, if◌then◌else◌, subst, Bool-cases,
}
use mynyra.Prelude.Int.{IsInt64}
use mynyra.Prelude.Maps.{lookup}
use mynyra.Contracts.{
  AccountSnapshot, AdapterHealthEvent, NormalizedOrder, RiskDecision, is_positive,
  OrderLifecycleState as State,
}
use mynyra.Financial.Units.{Fraction, negative}
use mynyra.Lifecycle.Store.{OrderLifecycleStore, request_is_invalid}
use mynyra.Doubles.{Doubles}
use mynyra.Adapter.State.{DeterministicBrokerAdapter, Notice, health_changed, bump}
use mynyra.Adapter.Submission.{submit, answer, fault_disconnect, fault_latency, strikes}
use mynyra.Gateway.State.{
  IBrokerAdapter, Published, BrokerGateway, GatewayDispatchResult, is_paper_mode, is_connected,
  adapter_authorized, adapter_connected,
}
use mynyra.Gateway.Handlers.{handle, handle_all, handle_health}
use mynyra.Gateway.Dispatch.{
  lifecycle_request, record_dispatch, settle_submit, submit_to, submit_recorded, dispatch_on,
  dispatch_order,
}
use mynyra.Gateway.Paper.{paper, AreFresh, IsAt}
use mynyra.Gateway.Answers.{IsReply, answer-IsReply}
use mynyra.Gateway.Settling.{
  IsSettled, IsSubmitted, dispatch_keys, reply_keys, reply-IsSettled, record_dispatch-IsSubmitted,
}

-- The dispatch is reported as made, and its order is settled.
abbrev pub IsSettledBy :
    (F : Doubles) (A : IBrokerAdapter)
    → NormalizedOrder
    → GatewayDispatchResult × List (Published F) × BrokerGateway F A
    → Type 0
IsSettledBy F A order (result, published, g) =
    (result.dispatched ≡ true) × IsSettled (lifecycle_request order) g.lifecycle

module _ (F : Doubles) (empty_account : AccountSnapshot) (order : NormalizedOrder)
    (room : order.request.sequence + 4 < 2 ^ 64)
    (narrow : IsInt64 order.normalized_quantity.units) where
  after_health :
      (e : AdapterHealthEvent) (notices : List Notice) (g : BrokerGateway F (paper F empty_account))
      → IsReply F order notices
      → IsAt
          (lifecycle_request order)
          State.submitted
          (order.request.sequence + 2)
          (reply_keys order)
          g.lifecycle
      → IsSettled
          (lifecycle_request order)
          (handle_all F (paper F empty_account) (health_changed e ∷ notices) g).1.lifecycle
  unfolding handle_all handle handle_health
  after_health e notices g h at =
      reply-IsSettled F (paper F empty_account) order room narrow notices (record g { health = e })
        h at

  -- A disconnection is handled before the reply.
  health_first-IsSettled :
      (a : DeterministicBrokerAdapter F) (notices : List Notice)
      (g : BrokerGateway F (paper F empty_account))
      → IsReply F order notices
      → IsAt
          (lifecycle_request order)
          State.submitted
          (order.request.sequence + 2)
          (reply_keys order)
          g.lifecycle
      → IsSettled
          (lifecycle_request order)
          (handle_all F
            (paper F empty_account)
            ((fault_disconnect F order a).0 ++ notices)
            g).1.lifecycle
  unfolding fault_disconnect
  health_first-IsSettled a notices g h at =
      elim (Bool-cases (strikes a.fault_config a.fault_config.disconnect_every_n a.submit_count)) [
        | inl struck ↦ rw struck (after_health _ notices g h at)
        | inr quiet ↦
            rw quiet (reply-IsSettled F (paper F empty_account) order room narrow notices g h at)
      ]

  fault_rate :
      (a : DeterministicBrokerAdapter F)
      → (fault_latency F (fault_disconnect F order a).1).fee_rate ≡ a.fee_rate
  unfolding fault_latency fault_disconnect
  fault_rate a = ground arith

  settle_submit-IsSettledBy :
      (t : List (Published F) × BrokerGateway F (paper F empty_account))
      → IsSettled (lifecycle_request order) t.1.lifecycle
      → IsSettledBy F
          (paper F empty_account)
          order
          (settle_submit F (paper F empty_account) order true t)
  settle_submit-IsSettledBy (published, g) h = (refl, h)

  -- The count of submissions is raised before the answer.
  abbrev counted : DeterministicBrokerAdapter F → DeterministicBrokerAdapter F
  counted a = record a { submit_count = bump a.submit_count }

  abbrev answered : DeterministicBrokerAdapter F → List Notice × DeterministicBrokerAdapter F
  answered a = answer F order (fault_latency F (fault_disconnect F order (counted a)).1)

  submit_connected :
      (a : DeterministicBrokerAdapter F)
      → a.connected ≡ true
      → submit F order a
        ≡ (true, (fault_disconnect F order (counted a)).0 ++ (answered a).0, (answered a).1)
  unfolding submit
  submit_connected a up =
      ap
        (λ (b : Bool).
          if not b
          then (false, [], a)
          else (true, (fault_disconnect F order (counted a)).0 ++ (answered a).0, (answered a).1))
        up

  submit_to-IsSettledBy :
      (a : DeterministicBrokerAdapter F) (g : BrokerGateway F (paper F empty_account))
      → a.connected ≡ true
      → is_positive order.normalized_quantity ≡ true
      → negative a.fee_rate.units ≡ false
      → IsAt
          (lifecycle_request order)
          State.submitted
          (order.request.sequence + 2)
          (reply_keys order)
          g.lifecycle
      → IsSettledBy F (paper F empty_account) order (submit_to F (paper F empty_account) order a g)
  unfolding submit_to
  submit_to-IsSettledBy a g up some_units rate at =
      let same_rate = ap (λ (x : Fraction). negative x.units) (fault_rate (counted a)) ∙ rate in
      let reply =
        answer-IsReply F order (fault_latency F (fault_disconnect F order (counted a)).1) some_units
          same_rate in
      let sent : BrokerGateway F (paper F empty_account) = record g {
        adapter = some (answered a).1;
        total_orders_submitted = bump g.total_orders_submitted;
      } in
      subst
        (λ (t : Bool × List Notice × DeterministicBrokerAdapter F).
          IsSettledBy F (paper F empty_account) order (
            settle_submit F (paper F empty_account) order t.0 (
              handle_all F (paper F empty_account) t.1 (record g {
                adapter = some t.2;
                total_orders_submitted = bump g.total_orders_submitted;
              }))))
        (sym (submit_connected a up))
        (settle_submit-IsSettledBy (handle_all F (paper F empty_account) _ sent)
          (health_first-IsSettled (counted a) (answered a).0 sent reply at))

  submit_recorded-IsSettledBy :
      (a : DeterministicBrokerAdapter F) (g : BrokerGateway F (paper F empty_account))
      (t : OrderLifecycleStore × Option String)
      → a.connected ≡ true
      → is_positive order.normalized_quantity ≡ true
      → negative a.fee_rate.units ≡ false
      → IsSubmitted order room t
      → IsSettledBy F
          (paper F empty_account)
          order
          (submit_recorded F (paper F empty_account) order a t g)
  submit_recorded-IsSettledBy a g (s, some reason) up some_units rate (e, at) = cc
  submit_recorded-IsSettledBy a g (s, none) up some_units rate (e, at) =
      submit_to-IsSettledBy a (record g { lifecycle = s }) up some_units rate at

  dispatch_on-IsSettledBy :
      (a : DeterministicBrokerAdapter F) (g : BrokerGateway F (paper F empty_account))
      (o : Option (DeterministicBrokerAdapter F))
      → o ≡ some a
      → is_connected F (paper F empty_account) g ≡ true
      → a.connected ≡ true
      → is_positive order.normalized_quantity ≡ true
      → negative a.fee_rate.units ≡ false
      → IsSubmitted order room (record_dispatch order g.lifecycle)
      → IsSettledBy F
          (paper F empty_account)
          order
          (dispatch_on F (paper F empty_account) order o g)
  dispatch_on-IsSettledBy a g none there up on some_units rate h = cc
  dispatch_on-IsSettledBy a g (some b) there up on some_units rate h =
      let same = some-injective b a there in
      rw up (
        submit_recorded-IsSettledBy b g (record_dispatch order g.lifecycle)
          (ap (λ (x : DeterministicBrokerAdapter F). x.connected) same ∙ on) some_units
          (ap (λ (x : DeterministicBrokerAdapter F). negative x.fee_rate.units) same ∙ rate) h)

  -- A new order, with event keys that the lifecycle store has not seen.
  pub record IsNew (s : OrderLifecycleStore) : Type 0 where
    pub valid : request_is_invalid (lifecycle_request order) ≡ false
    pub absent : lookup order.request.local_order_id s.records ≡ none
    pub unseen : AreFresh (order.request.idempotency_key ∷ dispatch_keys order) s.applied_event_keys

  -- In paper mode, on the connected deterministic adapter with a fee rate that is not negative and
  -- whatever faults are set, a dispatch that risk allows of an order that is well-formed, has a
  -- positive quantity that fits 64 bits and at least four sequence numbers left, and whose local
  -- id and event keys the lifecycle store has not seen, is reported as dispatched and leaves the
  -- order settled: rejected with nothing filled, or partially filled or filled by a positive
  -- quantity that adds up to the order with the rest.
  pub dispatch_order-IsSettled :
      (decision : RiskDecision) (a : DeterministicBrokerAdapter F)
      (g : BrokerGateway F (paper F empty_account))
      → decision.allowed ≡ true
      → is_paper_mode g.config ≡ true
      → g.adapter ≡ some a
      → a.connected ≡ true
      → negative a.fee_rate.units ≡ false
      → is_positive order.normalized_quantity ≡ true
      → IsNew g.lifecycle
      → IsSettledBy F
          (paper F empty_account)
          order
          (dispatch_order F (paper F empty_account) order decision g)
  unfolding dispatch_order is_connected adapter_authorized
  dispatch_order-IsSettled decision a g allowed mode there on rate some_units new =
      let up : is_connected F (paper F empty_account) g ≡ true =
        connected g mode (ap (adapter_connected (paper F empty_account)) there ∙ on) in
      rw allowed (
        dispatch_on-IsSettledBy a g g.adapter there up on some_units rate
          (record_dispatch-IsSubmitted order room g.lifecycle new.valid new.absent new.unseen))
    where
      connected :
          (g : BrokerGateway F (paper F empty_account))
          → is_paper_mode g.config ≡ true
          → adapter_connected (paper F empty_account) g.adapter ≡ true
          → is_connected F (paper F empty_account) g ≡ true
      connected g mode on = rw (mode, on) refl
