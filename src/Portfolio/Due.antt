-- ===== src/Portfolio/Due.antt =====
-- When an order of engine/src/PortfolioManager.cpp is due against a candle, and at what price.
use mathlib.Core.Option.{some-injective}
use mynyra.Prelude.{
  ◌≡◌, ap, refl, ◌∙◌, ◌⊎◌, inl, inr, Bool, true, false, not, ◌&&◌, ◌||◌, Option, none, some, arith,
  if◌then◌else◌, Bool-cases, subst,
}
use mynyra.Financial.Units.{Price, positive}
use mynyra.Doubles.{Doubles}
use mynyra.Doubles.Conversions.{price_of}
use mynyra.Portfolio.State.{OrderType, OrderRecord, OrderFillResult, value_double}
use mynyra.Portfolio.Valuing.{nearest}
use mynyra.Portfolio.Pending.{Candle, triggered, trigger_price, fill_at, fill_of, fill_result}

module _ (F : Doubles) (candle : Candle F) where
  -- What triggers an order, at a price: a market order always, at the close; a limit order to buy when
  -- the low is down to the limit and one to sell when the high is up to it, at the limit; a stop when
  -- the low is down to it, at the lower one of the two.
  pub data Triggers (order : OrderRecord F) : F.Double → Type 0 where
    at_market : order.order_type ≡ OrderType.market → Triggers order candle.close
    buys :
        order.order_type ≡ OrderType.limit
        → order.is_buy ≡ true
        → F.le candle.low order.limit_price ≡ true
        → Triggers order order.limit_price
    sells :
        order.order_type ≡ OrderType.limit
        → order.is_buy ≡ false
        → F.le order.limit_price candle.high ≡ true
        → Triggers order order.limit_price
    stops :
        order.order_type ≡ OrderType.stop_loss
        → F.le candle.low order.limit_price ≡ true
        → Triggers order
            (if F.lt candle.low order.limit_price then candle.low else order.limit_price)
    trails :
        order.order_type ≡ OrderType.trailing_stop
        → F.le candle.low order.limit_price ≡ true
        → Triggers order
            (if F.lt candle.low order.limit_price then candle.low else order.limit_price)

  -- A fill is of its order, at the price that triggers it, which is a positive price that the accounting can
  -- represent.
  pub record IsFillOf (order : OrderRecord F) (fill : OrderFillResult F) : Type 0 where
    pub trigger : F.Double
    pub triggers : Triggers order trigger
    pub price : Price
    pub at_trigger : price_of F trigger nearest ≡ some price
    pub usable : positive price.units ≡ true
    pub number : fill.order_id ≡ order.order_id
    pub is_filled : fill.filled ≡ true
    pub symbol : fill.symbol ≡ order.symbol
    pub order_type : fill.order_type ≡ order.order_type
    pub is_buy : fill.is_buy ≡ order.is_buy
    pub fill_price : fill.fill_price ≡ value_double F price
    pub quantity : fill.quantity ≡ order.quantity
    pub capital : fill.capital_to_commit ≡ order.capital_to_commit
    pub time : fill.fill_timestamp ≡ candle.timestamp

  limit_cases :
      (b low high : Bool)
      → (b && low || not b && high) ≡ true
      → (b ≡ true × (low ≡ true)) ⊎ (b ≡ false × (high ≡ true))
  limit_cases true low high h = inl (refl, ground (arith, h))
  limit_cases false low high h = inr (refl, ground (arith, h))

  triggered_inv :
      (order : OrderRecord F)
      → triggered F candle order ≡ true
      → Triggers order (trigger_price F candle order)
  unfolding triggered trigger_price
  triggered_inv order h = of_type order.order_type refl h
    where
      of_type :
          (t : OrderType)
          → order.order_type ≡ t
          → (elim t as (λ _. Bool) [
            | OrderType.market ↦ true
            | OrderType.limit ↦
                order.is_buy && F.le candle.low order.limit_price
                || not order.is_buy && F.le order.limit_price candle.high
            | _ ↦ F.le candle.low order.limit_price
          ])
            ≡ true
          → Triggers order (elim t as (λ _. F.Double) [
            | OrderType.market ↦ candle.close
            | OrderType.limit ↦ order.limit_price
            | _ ↦ if F.lt candle.low order.limit_price then candle.low else order.limit_price
          ])
      of_type OrderType.market e h = at_market e
      of_type OrderType.limit e h =
          elim (limit_cases order.is_buy (F.le candle.low order.limit_price)
            (F.le order.limit_price candle.high) h) [
              | inl (b, low) ↦ buys e b low
              | inr (b, high) ↦ sells e b high
            ]
      of_type OrderType.stop_loss e h = stops e h
      of_type OrderType.trailing_stop e h = trails e h

  fill_at_inv :
      (order : OrderRecord F) (o : Option Price) {fill : OrderFillResult F}
      → triggered F candle order ≡ true
      → price_of F (trigger_price F candle order) nearest ≡ o
      → fill_at F candle order o ≡ some fill
      → IsFillOf order fill
  unfolding fill_result
  fill_at_inv order none fires priced e = cc
  fill_at_inv order (some price) {fill} fires priced e = elim (Bool-cases (positive price.units)) [
    | inl up ↦
        let made : fill_result F candle price order ≡ fill = some-injective _ _ (rw up at e) in
        subst (IsFillOf order) made (record {
          trigger = trigger_price F candle order;
          triggers = triggered_inv order fires;
          price = price;
          at_trigger = priced;
          usable = up;
          number = refl;
          is_filled = refl;
          symbol = refl;
          order_type = refl;
          is_buy = refl;
          fill_price = refl;
          quantity = refl;
          capital = refl;
          time = refl;
        })
    | inr down ↦ cc (rw down at e)
  ]

  pub fill_of_inv :
      (order : OrderRecord F) {fill : OrderFillResult F}
      → fill_of F candle order ≡ some fill
      → IsFillOf order fill
  unfolding fill_of
  fill_of_inv order e = elim (Bool-cases (triggered F candle order)) [
    | inl fires ↦ fill_at_inv order _ fires refl (rw fires at e)
    | inr rests ↦ cc (rw rests at e)
  ]

  fires_at :
      (order : OrderRecord F) {price : F.Double}
      → Triggers order price
      → (triggered F candle order ≡ true) × (trigger_price F candle order ≡ price)
  unfolding triggered trigger_price
  fires_at order (at_market e) = rw e (refl, refl)
  fires_at order (buys e b low) = rw (e, b, low) (refl, refl)
  fires_at order (sells e b high) = rw (e, b, high) (refl, refl)
  fires_at order (stops e low) = rw (e, low) (refl, refl)
  fires_at order (trails e low) = rw (e, low) (refl, refl)

  -- An order that is not filled has no fill.
  pub fill_of_none :
      (order : OrderRecord F)
      → fill_of F candle order ≡ none
      → (fill : OrderFillResult F) → ¬ IsFillOf order fill
  unfolding fill_of
  fill_of_none order e fill d =
      let (fires, at) = fires_at order d.triggers in
      let priced : price_of F (trigger_price F candle order) nearest ≡ some d.price =
        ap (λ (t : F.Double). price_of F t nearest) at ∙ d.at_trigger in
      cc (rw (fires, priced, d.usable) at e)
