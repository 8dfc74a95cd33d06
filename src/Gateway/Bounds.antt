-- ===== src/Gateway/Bounds.antt =====
-- A quantity that the normalization of engine/src/BrokerGateway.cpp passes on.
use mathlib.Core.Option.{some-injective}
use native.Mathlib.Nat.{mul-le-mul_right}
use mynyra.Prelude.{
  ℕ, ◌+◌, ◌*◌, ◌^◌, ◌≤◌, ◌<◌, ◌≡◌, refl, sym, ◌∙◌, inl, inr, Bool, true, false, not, ◌||◌, Option,
  none, some, String, arith, if◌then◌else◌, subst, Option-cases, Bool-cases,
}
use mynyra.Prelude.Int.{ℤ, pos, ◌≤ℤ◌, ltb_ℤ}
use mynyra.Contracts.{
  Decimal64, is_positive, BrokerOrderType, OrderRequest, NormalizedOrder, InstrumentSpec,
}
use mynyra.Financial.Budget.{not_inv, neither}
use mynyra.Gateway.Aligning.{IsAligned, IsAtMost-le, normalize_to_step_inv}
use mynyra.Gateway.Rescaling.{rescale_inv, natural, rescale_toward_zero_positive}
use mynyra.Gateway.Normalizing.{
  rescale_toward_zero, is_opening, is_there, normalized_quantity, violates_bounds, violates,
  with_quantity, normalize_price, normalize_to_step, lost, normalize_for, Normalization, normalized,
  rejected, order_for, price_is_lost, request_is_malformed, lacks_price,
}

bump_le : (v n : ℕ) → v ≤ n → v + 1 ≤ n + 1
bump_le v n h = omega (arith, h)

-- A quantity of `n` units at a scale is more than one unit of its scale below no minimum that is positive:
-- u / 10 ^ scale of the minimum is less than (n + 1) / 10 ^ scale of the quantity.
pub data IsAbove (minimum : Decimal64) (n scale : ℕ) : Type 0 where
  no_minimum : is_positive minimum ≡ false → IsAbove minimum n scale
  above :
      (u : ℕ)
      → minimum.units ≡ pos u
      → u * 10 ^ scale < (n + 1) * 10 ^ minimum.scale
      → IsAbove minimum n scale

-- What a quantity keeps to: it is at most the maximum, and when it opens, it is less than a unit of its
-- scale below the minimum at worst.
pub record IsWithin (opening : Bool) (spec : InstrumentSpec) (quantity : Decimal64) : Type 0 where
  pub amount : ℕ
  pub is_amount : quantity.units ≡ pos amount
  pub maximum : ℕ
  pub is_maximum : spec.maximum_quantity.units ≡ pos maximum
  pub at_most : amount * 10 ^ spec.maximum_quantity.scale ≤ maximum * 10 ^ quantity.scale
  pub at_least : opening ≡ true → IsAbove spec.minimum_quantity amount quantity.scale

rescale_toward_zero-IsAbove :
    (minimum : Decimal64) (n scale : ℕ) {m : Decimal64}
    → rescale_toward_zero minimum scale ≡ some m
    → m.units ≤ℤ pos n
    → IsAbove minimum n scale
rescale_toward_zero-IsAbove minimum n scale {m} e h = elim (Bool-cases (is_positive minimum)) [
  | inr low ↦ no_minimum low
  | inl up ↦
      let (u, is_u) = natural minimum.units up in
      let (same, (v, is_v, most, least)) = rescale_inv minimum u scale is_u e in
      above u is_u
        (reaches u v n (10 ^ scale) (10 ^ minimum.scale) least (small m.units v n is_v h))
]
  where
    small : (a : ℤ) (v n : ℕ) → a ≡ pos v → a ≤ℤ pos n → v ≤ n
    small a v n e h = ground (arith, e, h)

    reaches : (u v n s t : ℕ) → u * s < (v + 1) * t → v ≤ n → u * s < (n + 1) * t
    reaches u v n s t h k = omega (arith, h, mul-le-mul_right t (bump_le v n k))

violates-IsWithin :
    (opening : Bool) (spec : InstrumentSpec) (quantity : Decimal64) (mn mx : Option Decimal64)
    → is_positive quantity ≡ true
    → rescale_toward_zero spec.minimum_quantity quantity.scale ≡ mn
    → rescale_toward_zero spec.maximum_quantity quantity.scale ≡ mx
    → violates opening quantity mn mx ≡ false
    → IsWithin opening spec quantity
violates-IsWithin opening spec quantity (some minimum) (some maximum) up a b e =
    let (n, is_n) = natural quantity.units up in
    let no_more : quantity.units ≤ℤ maximum.units = ground (arith, e) in
    let (u, is_u) = natural spec.maximum_quantity.units (
      rescale_toward_zero_positive spec.maximum_quantity quantity.scale b
        (over quantity.units maximum.units up no_more)) in
    let (same, (v, is_v, most, least)) =
      rescale_inv spec.maximum_quantity u quantity.scale is_u b in
    record {
      amount = n;
      is_amount = is_n;
      maximum = u;
      is_maximum = is_u;
      at_most =
          IsAtMost-le u spec.maximum_quantity.scale v n quantity.scale
            (fewer quantity.units maximum.units n v is_n is_v no_more) most;
      at_least = λ h.
          rescale_toward_zero-IsAbove spec.minimum_quantity n quantity.scale a
            (lower minimum.units quantity.units n is_n (ground (arith, e, h)));
    }
  where
    over : (a b : ℤ) → ltb_ℤ (pos 0) a ≡ true → a ≤ℤ b → ltb_ℤ (pos 0) b ≡ true
    over a b h k = ground (arith, h, k)

    fewer : (a b : ℤ) (n v : ℕ) → a ≡ pos n → b ≡ pos v → a ≤ℤ b → n ≤ v
    fewer a b n v e f h = ground (arith, e, f, h)

    lower : (a b : ℤ) (n : ℕ) → b ≡ pos n → a ≤ℤ b → a ≤ℤ pos n
    lower a b n e h = ground (arith, e, h)
violates-IsWithin opening spec quantity none mx up a b e = cc
violates-IsWithin opening spec quantity (some minimum) none up a b e = cc

-- The normalization of a price that may be asked for: the largest multiple of the tick worth at most it, so
-- 0 when the price is below a tick.
pub data IsPriced (tick : Decimal64) : Option Decimal64 → Option Decimal64 → Type 0 where
  unset : IsPriced tick none none
  aligned :
      {price result : Decimal64}
      → IsAligned price tick result
      → IsPriced tick (some price) (some result)

normalize_price-IsPriced :
    (spec : InstrumentSpec) (price : Option Decimal64)
    → lost price (normalize_price spec price) ≡ false
    → IsPriced spec.tick_size price (normalize_price spec price)
normalize_price-IsPriced spec none h = unset
normalize_price-IsPriced spec (some price) h = at (normalize_to_step price spec.tick_size) refl h
  where
    at :
        (o : Option Decimal64)
        → normalize_to_step price spec.tick_size ≡ o
        → lost (some price) o ≡ false
        → IsPriced spec.tick_size (some price) o
    at none e h = cc
    at (some result) e h = aligned (normalize_to_step_inv price spec.tick_size e)

-- The price that an order of its type is about is there.
pub data HasPrice (request : OrderRequest) : Type 0 where
  at_market :
      (price : Decimal64)
      → request.order_type ≡ BrokerOrderType.market
      → request.reference_price ≡ some price
      → HasPrice request
  at_limit :
      (price : Decimal64)
      → request.order_type ≡ BrokerOrderType.limit
      → request.limit_price ≡ some price
      → HasPrice request
  at_stop :
      (price : Decimal64)
      → request.order_type ≡ BrokerOrderType.stop
      → request.stop_price ≡ some price
      → HasPrice request

there : (o : Option Decimal64) → not (is_there o) ≡ false → (price : Decimal64) × (o ≡ some price)
there none h = cc
there (some price) h = (price, refl)

lacks_price_inv : (request : OrderRequest) → lacks_price request ≡ false → HasPrice request
unfolding lacks_price
lacks_price_inv request h = of_type request.order_type refl h
  where
    of_type :
        (t : BrokerOrderType)
        → request.order_type ≡ t
        → (elim t as (λ _. Bool) [
          | BrokerOrderType.unknown ↦ true
          | BrokerOrderType.market ↦ not (is_there request.reference_price)
          | BrokerOrderType.limit ↦ not (is_there request.limit_price)
          | BrokerOrderType.stop ↦ not (is_there request.stop_price)
        ])
          ≡ false
        → HasPrice request
    of_type BrokerOrderType.unknown e h = cc
    of_type BrokerOrderType.market e h =
        let (price, set) = there request.reference_price h in at_market price e set
    of_type BrokerOrderType.limit e h =
        let (price, set) = there request.limit_price h in at_limit price e set
    of_type BrokerOrderType.stop e h =
        let (price, set) = there request.stop_price h in at_stop price e set

-- An order that is passed on.
pub record IsPassed (request : OrderRequest) (spec : InstrumentSpec) (order : NormalizedOrder)
    : Type 0 where
  pub same : order.request ≡ request
  pub version : order.instrument_version ≡ spec.version
  pub positive : is_positive order.normalized_quantity ≡ true
  pub within : IsWithin (is_opening request) spec order.normalized_quantity
  pub stepped :
      is_opening request ≡ true
      → IsAligned request.quantity spec.quantity_step order.normalized_quantity
  pub exact : is_opening request ≡ false → order.normalized_quantity ≡ request.quantity
  pub priced : HasPrice request
  pub limit_price : IsPriced spec.tick_size request.limit_price order.normalized_limit_price
  pub stop_price : IsPriced spec.tick_size request.stop_price order.normalized_stop_price
  pub reference_price :
      IsPriced spec.tick_size request.reference_price order.normalized_reference_price

past_rejection :
    (b : Bool) (reason : String) {n : Normalization} {order : NormalizedOrder}
    → (if b then rejected reason else n) ≡ normalized order
    → (b ≡ false) × (n ≡ normalized order)
past_rejection true reason e = cc
past_rejection false reason e = (refl, e)

with_quantity_inv :
    (request : OrderRequest) (spec : InstrumentSpec) (alias : String) (quantity : Decimal64)
    {order : NormalizedOrder}
    → lacks_price request ≡ false
    → normalized_quantity request spec ≡ some quantity
    → with_quantity request spec alias quantity ≡ normalized order
    → IsPassed request spec order
unfolding with_quantity violates_bounds order_for normalized_quantity price_is_lost
with_quantity_inv request spec alias quantity {order} priced chosen e =
    let (up, k1) = past_rejection (not (is_positive quantity)) _ e in
    let (fits, k2) = past_rejection (violates_bounds request spec quantity) _ k1 in
    let (kept, k3) =
      past_rejection (price_is_lost request (order_for request spec alias quantity)) _ k2 in
    let (first, reference) = neither _ _ kept in
    let (limit, stop) = neither _ _ first in
    let same : order_for request spec alias quantity ≡ order = cc in
    subst (IsPassed request spec) same (record {
      same = refl;
      version = refl;
      positive = not_inv _ up;
      within =
          violates-IsWithin (is_opening request) spec quantity _ _ (not_inv _ up) refl refl fits;
      stepped = λ opens.
          normalize_to_step_inv request.quantity spec.quantity_step (sym (rw opens) ∙ chosen);
      exact = λ other. some-injective _ _ (sym chosen ∙ rw other);
      priced = lacks_price_inv request priced;
      limit_price = normalize_price-IsPriced spec request.limit_price limit;
      stop_price = normalize_price-IsPriced spec request.stop_price stop;
      reference_price = normalize_price-IsPriced spec request.reference_price reference;
    })

-- An order that normalize_for accepts is built from its request and has a positive quantity of at
-- most the maximum of the instrument. When it opens, the quantity is the largest multiple of the
-- step that is at most what was asked for, and less than one unit of its scale below the minimum
-- at worst, when that is positive; otherwise it is exactly what was asked for. The price that its
-- type needs is there, and each of the three prices is set just when it was asked for, to the
-- largest multiple of the tick worth at most what was asked for, which is zero when that is below
-- a tick.
pub normalize_for_lem :
    (request : OrderRequest) (spec : InstrumentSpec) (alias : String) (order : NormalizedOrder)
    → normalize_for request spec alias ≡ normalized order
    → IsPassed request spec order
unfolding normalize_for
normalize_for_lem request spec alias order e =
    let (fine, k1) = past_rejection (request_is_malformed request) _ e in
    let (priced, k2) = past_rejection (lacks_price request) _ k1 in
    let (complete, k3) =
      past_rejection (not spec.complete || not (is_positive spec.quantity_step)) _ k2 in
    elim (Option-cases (normalized_quantity request spec)) [
      | inl no_quantity ↦ cc (rw no_quantity at k3)
      | inr (quantity, chosen) ↦
          with_quantity_inv request spec alias quantity priced chosen (rw chosen at k3)
    ]
