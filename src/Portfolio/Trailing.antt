-- ===== src/Portfolio/Trailing.antt =====
-- How a candle moves the stop of an order of engine/src/PortfolioManager.cpp.
use mynyra.Prelude.{
  ◌≡◌, ◌≢◌, refl, sym, ◌∙◌, inl, inr, true, false, ◌&&◌, Option, none, some, arith, Bool-cases,
}
use mynyra.Financial.Units.{Price, positive}
use mynyra.Doubles.{Doubles}
use mynyra.Doubles.Conversions.{price_of}
use mynyra.Portfolio.State.{OrderType, OrderRecord, value_double}
use mynyra.Portfolio.Valuing.{nearest}
use mynyra.Portfolio.Pending.{Candle, trail_to, stop_below, trailed, followed}

module _ (F : Doubles) (candle : Candle F) where
  -- How a candle moves an order: the stop of a trailing order follows a close above the best one so far,
  -- at the offset below it, when both are positive prices that the accounting can represent.
  pub data IsMoved (order : OrderRecord F) : OrderRecord F → Type 0 where
    fixed_stop : order.order_type ≢ OrderType.trailing_stop → IsMoved order order
    no_higher : F.lt order.trail_best candle.close ≡ false → IsMoved order order
    no_best : price_of F candle.close nearest ≡ none → IsMoved order order
    no_stop :
        (best : Price)
        → price_of F candle.close nearest ≡ some best
        → price_of F (F.sub (value_double F best) order.trail_offset) nearest ≡ none
        → IsMoved order order
    not_positive :
        (best stop : Price)
        → price_of F candle.close nearest ≡ some best
        → price_of F (F.sub (value_double F best) order.trail_offset) nearest ≡ some stop
        → (positive best.units && positive stop.units) ≡ false
        → IsMoved order order
    rises :
        (best stop : Price)
        → order.order_type ≡ OrderType.trailing_stop
        → F.lt order.trail_best candle.close ≡ true
        → price_of F candle.close nearest ≡ some best
        → price_of F (F.sub (value_double F best) order.trail_offset) nearest ≡ some stop
        → positive best.units ≡ true
        → positive stop.units ≡ true
        → IsMoved order
            (record order { trail_best = value_double F best; limit_price = value_double F stop })

  trail_to-IsMoved :
      (order : OrderRecord F) (best : Option Price)
      → order.order_type ≡ OrderType.trailing_stop
      → F.lt order.trail_best candle.close ≡ true
      → price_of F candle.close nearest ≡ best
      → IsMoved order (trail_to F best (stop_below F best order.trail_offset) order)
  trail_to-IsMoved order none kind higher priced = no_best priced
  trail_to-IsMoved order (some best) kind higher priced =
      to_stop (price_of F (F.sub (value_double F best) order.trail_offset) nearest) refl
    where
      to_stop :
          (stop : Option Price)
          → price_of F (F.sub (value_double F best) order.trail_offset) nearest ≡ stop
          → IsMoved order (trail_to F (some best) stop order)
      to_stop none below = no_stop best priced below
      to_stop (some stop) below = elim (Bool-cases (positive best.units && positive stop.units)) [
        | inl up ↦
            rw up
              (rises best stop kind higher priced below (ground (arith, up)) (ground (arith, up)))
        | inr down ↦ rw down (not_positive best stop priced below down)
      ]

  trailed-IsMoved :
      (order : OrderRecord F)
      → order.order_type ≡ OrderType.trailing_stop
      → IsMoved order (trailed F candle.close order)
  unfolding trailed
  trailed-IsMoved order kind = elim (Bool-cases (F.lt order.trail_best candle.close)) [
    | inl higher ↦
        rw higher (trail_to-IsMoved order (price_of F candle.close nearest) kind higher refl)
    | inr lower ↦ rw lower (no_higher lower)
  ]

  market_apart : OrderType.market ≢ OrderType.trailing_stop
  market_apart e = cc e

  limit_apart : OrderType.limit ≢ OrderType.trailing_stop
  limit_apart e = cc e

  stop_apart : OrderType.stop_loss ≢ OrderType.trailing_stop
  stop_apart e = cc e

  pub followed-IsMoved : (order : OrderRecord F) → IsMoved order (followed F candle order)
  unfolding followed
  followed-IsMoved order = of_type order.order_type refl
    where
      of_type :
          (t : OrderType)
          → order.order_type ≡ t
          → IsMoved order (elim t as (λ _. OrderRecord F) [
            | OrderType.trailing_stop ↦ trailed F candle.close order
            | _ ↦ order
          ])
      of_type OrderType.market e = fixed_stop (λ f. market_apart (sym e ∙ f))
      of_type OrderType.limit e = fixed_stop (λ f. limit_apart (sym e ∙ f))
      of_type OrderType.stop_loss e = fixed_stop (λ f. stop_apart (sym e ∙ f))
      of_type OrderType.trailing_stop e = trailed-IsMoved order e
