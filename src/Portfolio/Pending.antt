-- ===== src/Portfolio/Pending.antt =====
-- The queue of pending orders of engine/src/PortfolioManager.cpp. The list of the orders has its front
-- first.
use mynyra.Prelude.{
  ℕ, ◌+◌, ◌-◌, ◌^◌, Bool, true, false, not, ◌&&◌, ◌||◌, Option, none, some, String, str_eq,
  is_empty, List, [], ◌∷◌, ◌++◌, ◌==◌, if◌then◌else◌,
}
use mynyra.Financial.Units.{Rounding, Price, Quantity, Money, positive, bind}
use mynyra.Doubles.{Doubles}
use mynyra.Doubles.Conversions.{price_of, quantity_of, money_of}
use mynyra.Portfolio.State.{OrderType, OrderRecord, OrderFillResult, PortfolioManager, value_double}
use mynyra.Portfolio.Valuing.{nearest}
use mynyra.Portfolio.Opening.{below_zero}

abbrev pub max_order_id : ℕ
max_order_id = 2 ^ 64 - 1

unfoldable pub is_refused : (F : Doubles) → OrderRecord F → Bool
is_refused F order =
    is_empty order.symbol
    || below_zero F order.quantity
    || below_zero F order.capital_to_commit
    || below_zero F order.limit_price
    || below_zero F order.trail_offset

abbrev pub normalized_as :
    (F : Doubles)
    → ℕ
    → OrderRecord F
    → Option Quantity
    → Option Money
    → Option Price
    → Option Price
    → Option Price
    → Option (OrderRecord F)
normalized_as F order_id order (some quantity) (some capital) (some limit) (some offset)
      (some best) =
    some (record order {
      quantity = value_double F quantity;
      capital_to_commit = value_double F capital;
      limit_price = value_double F limit;
      trail_offset = value_double F offset;
      order_id = order_id;
      trail_best = elim order.order_type [
        | OrderType.trailing_stop ↦ value_double F limit
        | _ ↦ value_double F best
      ];
    })
normalized_as F order_id order _ _ _ _ _ = none

-- The order with the amounts that the accounting can represent, under its number.
unfoldable pub normalized_order : (F : Doubles) → ℕ → OrderRecord F → Option (OrderRecord F)
normalized_order F order_id order =
    normalized_as F order_id order (quantity_of F order.quantity Rounding.toward_zero)
      (money_of F order.capital_to_commit nearest) (price_of F order.limit_price nearest)
      (price_of F order.trail_offset nearest) (price_of F order.trail_best nearest)

abbrev pub append_pending :
    (F : Doubles) → Option (OrderRecord F) → PortfolioManager F → ℕ × PortfolioManager F
append_pending F none p = (0, p)
append_pending F (some order) p = (
  order.order_id,
  record p { pending_orders = p.pending_orders ++ order ∷ []; next_order_id = p.next_order_id + 1 },
)

unfoldable pub place_pending_order :
    (F : Doubles) → OrderRecord F → PortfolioManager F → ℕ × PortfolioManager F
place_pending_order F order p =
    if is_refused F order || p.next_order_id == max_order_id
    then (0, p)
    else append_pending F (normalized_order F p.next_order_id order) p

-- The orders without the first of that number, if there is one.
unfoldable pub erase_order :
    (F : Doubles) → ℕ → List (OrderRecord F) → Option (List (OrderRecord F))
erase_order F order_id [] = none
erase_order F order_id (order ∷ rest) =
    if order.order_id == order_id
    then some rest
    else bind (erase_order F order_id rest) λ others. some (order ∷ others)

abbrev pub set_pending :
    (F : Doubles) → Option (List (OrderRecord F)) → PortfolioManager F → Bool × PortfolioManager F
set_pending F none p = (false, p)
set_pending F (some orders) p = (true, record p { pending_orders = orders })

unfoldable pub cancel_pending_order :
    (F : Doubles) → ℕ → PortfolioManager F → Bool × PortfolioManager F
cancel_pending_order F order_id p = set_pending F (erase_order F order_id p.pending_orders) p

pub record Candle (F : Doubles) : Type 0 where
  pub high : F.Double
  pub low : F.Double
  pub close : F.Double
  pub timestamp : ℕ

-- `std::min`.
abbrev pub lower_of : (F : Doubles) → F.Double → F.Double → F.Double
lower_of F a b = if F.lt b a then b else a

abbrev pub trail_to : (F : Doubles) → Option Price → Option Price → OrderRecord F → OrderRecord F
trail_to F (some best) (some stop) order =
    if positive best.units && positive stop.units
    then record order { trail_best = value_double F best; limit_price = value_double F stop }
    else order
trail_to F _ _ order = order

abbrev pub stop_below : (F : Doubles) → Option Price → F.Double → Option Price
stop_below F best offset = bind best λ b. price_of F (F.sub (value_double F b) offset) nearest

unfoldable pub trailed : (F : Doubles) → F.Double → OrderRecord F → OrderRecord F
trailed F close order =
    let best = price_of F close nearest in
    if F.lt order.trail_best close
    then trail_to F best (stop_below F best order.trail_offset) order
    else order

-- The order after the candle has moved its stop.
unfoldable pub followed : (F : Doubles) → Candle F → OrderRecord F → OrderRecord F
followed F candle order = elim order.order_type [
  | OrderType.trailing_stop ↦ trailed F candle.close order
  | _ ↦ order
]

abbrev pub stopped : (F : Doubles) → Candle F → OrderRecord F → Bool
stopped F candle order = F.le candle.low order.limit_price

-- Whether a moved order triggers, and at what price.
unfoldable pub triggered : (F : Doubles) → Candle F → OrderRecord F → Bool
triggered F candle order = elim order.order_type [
  | OrderType.market ↦ true
  | OrderType.limit ↦
      order.is_buy && F.le candle.low order.limit_price
      || not order.is_buy && F.le order.limit_price candle.high
  | _ ↦ stopped F candle order
]

unfoldable pub trigger_price : (F : Doubles) → Candle F → OrderRecord F → F.Double
trigger_price F candle order = elim order.order_type [
  | OrderType.market ↦ candle.close
  | OrderType.limit ↦ order.limit_price
  | _ ↦ lower_of F order.limit_price candle.low
]

unfoldable pub fill_result : (F : Doubles) → Candle F → Price → OrderRecord F → OrderFillResult F
fill_result F candle price order = record {
  order_id = order.order_id;
  filled = true;
  symbol = order.symbol;
  order_type = order.order_type;
  is_buy = order.is_buy;
  fill_price = value_double F price;
  quantity = order.quantity;
  capital_to_commit = order.capital_to_commit;
  fill_timestamp = candle.timestamp;
}

abbrev pub fill_at :
    (F : Doubles) → Candle F → OrderRecord F → Option Price → Option (OrderFillResult F)
fill_at F candle order none = none
fill_at F candle order (some price) =
    if positive price.units then some (fill_result F candle price order) else none

-- The fill of a moved order, if it triggers at a price that the accounting can use.
unfoldable pub fill_of : (F : Doubles) → Candle F → OrderRecord F → Option (OrderFillResult F)
fill_of F candle order =
    if triggered F candle order
    then fill_at F candle order (price_of F (trigger_price F candle order) nearest)
    else none

abbrev pub sort_order :
    (F : Doubles)
    → OrderRecord F
    → Option (OrderFillResult F)
    → List (OrderFillResult F) × List (OrderRecord F)
    → List (OrderFillResult F) × List (OrderRecord F)
sort_order F order none (fills, kept) = (fills, order ∷ kept)
sort_order F order (some fill) (fills, kept) = (fill ∷ fills, kept)

-- The fills that a candle of a symbol gives, and the orders that stay.
unfoldable pub evaluate_orders :
    (F : Doubles)
    → String
    → Candle F
    → List (OrderRecord F)
    → List (OrderFillResult F) × List (OrderRecord F)
evaluate_orders F symbol candle [] = ([], [])
evaluate_orders F symbol candle (order ∷ rest) =
    let later = evaluate_orders F symbol candle rest in
    let moved = followed F candle order in
    if str_eq order.symbol symbol
    then sort_order F moved (fill_of F candle moved) later
    else sort_order F order none later

unfoldable pub evaluate_pending_orders :
    (F : Doubles)
    → String
    → Candle F
    → PortfolioManager F
    → List (OrderFillResult F) × PortfolioManager F
evaluate_pending_orders F symbol candle p =
    let (fills, kept) = evaluate_orders F symbol candle p.pending_orders in
    (fills, record p { pending_orders = kept })
