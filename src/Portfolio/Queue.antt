-- ===== src/Portfolio/Queue.antt =====
-- The numbers of the pending orders of engine/src/PortfolioManager.cpp: each is given once and filled once
-- at most.
use mathlib.Core.Option.{some-injective}
use mynyra.Prelude.{
  ℕ, ◌+◌, ◌≤◌, ◌≡◌, refl, sym, ap, ◌∙◌, inl, inr, Option, none, some, String, str_eq, List, [], ◌∷◌,
  ◌++◌, arith, ◌==◌, if◌then◌else◌, Bool-cases,
}
use mynyra.Financial.Units.{Price, Quantity, Money}
use mynyra.Financial.Budget.{bind_inv}
use mynyra.Doubles.{Doubles}
use mynyra.Doubles.Conversions.{price_of}
use mynyra.Portfolio.State.{OrderType, OrderRecord, OrderFillResult}
use mynyra.Portfolio.Valuing.{nearest}
use mynyra.Portfolio.Due.{fill_of_inv}
use mynyra.Portfolio.Pending.{
  Candle, trail_to, trailed, followed, fill_of, sort_order, evaluate_orders, erase_order,
  normalized_as, normalized_order,
}

module _ (F : Doubles) where
  abbrev pub orders_of : ℕ → List (OrderRecord F) → ℕ
  orders_of k [] = 0
  orders_of k (order ∷ rest) = (if order.order_id == k then 1 else 0) + orders_of k rest

  abbrev pub fills_of : ℕ → List (OrderFillResult F) → ℕ
  fills_of k [] = 0
  fills_of k (fill ∷ rest) = (if fill.order_id == k then 1 else 0) + fills_of k rest

  trail_to-id :
      (best stop : Option Price) (order : OrderRecord F)
      → (trail_to F best stop order).order_id ≡ order.order_id
  trail_to-id none stop order = refl
  trail_to-id (some best) none order = refl
  trail_to-id (some best) (some stop) order = ground arith

  trailed-id :
      (close : F.Double) (order : OrderRecord F) → (trailed F close order).order_id ≡ order.order_id
  unfolding trailed
  trailed-id close order = elim (Bool-cases (F.lt order.trail_best close)) [
    | inl higher ↦ rw higher (trail_to-id (price_of F close nearest) _ order)
    | inr lower ↦ rw lower
  ]

  followed-id :
      (candle : Candle F) (order : OrderRecord F)
      → (followed F candle order).order_id ≡ order.order_id
  unfolding followed
  followed-id candle order = of_type order.order_type
    where
      of_type :
          (t : OrderType)
          → (elim t as (λ _. OrderRecord F) [
            | OrderType.trailing_stop ↦ trailed F candle.close order
            | _ ↦ order
          ]).order_id
            ≡ order.order_id
      of_type OrderType.market = refl
      of_type OrderType.limit = refl
      of_type OrderType.stop_loss = refl
      of_type OrderType.trailing_stop = trailed-id candle.close order

  sorted_orders :
      (k : ℕ) (candle : Candle F) (order moved : OrderRecord F) (o : Option (OrderFillResult F))
      (later : List (OrderFillResult F) × List (OrderRecord F))
      → moved.order_id ≡ order.order_id
      → ((fill : OrderFillResult F) → o ≡ some fill → fill.order_id ≡ order.order_id)
      → fills_of k (sort_order F moved o later).0 + orders_of k (sort_order F moved o later).1
        ≡ (if order.order_id == k then 1 else 0) + (fills_of k later.0 + orders_of k later.1)
  sorted_orders k candle order moved none (fills, kept) same number = rw same (omega arith)
  sorted_orders k candle order moved (some fill) (fills, kept) same number =
      rw (number fill refl) (omega arith)

  -- Each order is filled or kept, and no other is.
  pub evaluate_orders_counts :
      (k : ℕ) (symbol : String) (candle : Candle F) (orders : List (OrderRecord F))
      → fills_of k (evaluate_orders F symbol candle orders).0
          + orders_of k (evaluate_orders F symbol candle orders).1
        ≡ orders_of k orders
  unfolding evaluate_orders
  evaluate_orders_counts k symbol candle [] = refl
  evaluate_orders_counts k symbol candle (order ∷ rest) =
      let later = evaluate_orders F symbol candle rest in
      let moved = followed F candle order in
      let ih = evaluate_orders_counts k symbol candle rest in
      elim (Bool-cases (str_eq order.symbol symbol)) [
        | inl same ↦ rw same (
            sorted_orders k candle order moved (fill_of F candle moved) later
              (followed-id candle order)
              (λ (fill : OrderFillResult F) (e : fill_of F candle moved ≡ some fill).
                (fill_of_inv F candle moved e).number ∙ followed-id candle order)
            ∙ ap (λ (t : ℕ). (if order.order_id == k then 1 else 0) + t) ih)
        | inr other ↦ rw other (
            sorted_orders k candle order order none later refl
              (λ (fill : OrderFillResult F) (e : none ≡ some fill). cc)
            ∙ ap (λ (t : ℕ). (if order.order_id == k then 1 else 0) + t) ih)
      ]

  pub erase_order_counts :
      (k order_id : ℕ) (orders : List (OrderRecord F)) {others : List (OrderRecord F)}
      → erase_order F order_id orders ≡ some others
      → orders_of k others ≤ orders_of k orders
  unfolding erase_order
  erase_order_counts k order_id [] e = cc
  erase_order_counts k order_id (order ∷ rest) {others} e =
      elim (Bool-cases (order.order_id == order_id)) [
        | inl hit ↦
            let same : rest ≡ others = some-injective _ _ (rw hit at e) in
            rw (sym same) (omega arith)
        | inr miss ↦
            let (left, found, same) =
              bind_inv (erase_order F order_id rest) _ others (rw miss at e) in
            let ih = erase_order_counts k order_id rest found in
            let all : order ∷ left ≡ others = some-injective _ _ same in
            rw (sym all) (omega (arith, ih))
      ]

  pub orders_of-append :
      (k : ℕ) (orders : List (OrderRecord F)) (order : OrderRecord F)
      → orders_of k (orders ++ order ∷ [])
        ≡ orders_of k orders + (if order.order_id == k then 1 else 0)
  orders_of-append k [] order = omega arith
  orders_of-append k (first ∷ rest) order = omega (arith, orders_of-append k rest order)

  pub fills_of-append :
      (k : ℕ) (xs ys : List (OrderFillResult F))
      → fills_of k (xs ++ ys) ≡ fills_of k xs + fills_of k ys
  fills_of-append k [] ys = omega arith
  fills_of-append k (first ∷ rest) ys = omega (arith, fills_of-append k rest ys)

  normalized_as-id :
      (order_id : ℕ) (order : OrderRecord F) (quantity : Option Quantity) (capital : Option Money)
      (limit offset best : Option Price) {placed : OrderRecord F}
      → normalized_as F order_id order quantity capital limit offset best ≡ some placed
      → placed.order_id ≡ order_id
  normalized_as-id order_id order (some quantity) (some capital) (some limit) (some offset)
        (some best) e =
      ap (λ (t : OrderRecord F). t.order_id) (sym (some-injective _ _ e))
  normalized_as-id order_id order none _ _ _ _ e = cc
  normalized_as-id order_id order (some quantity) none _ _ _ e = cc
  normalized_as-id order_id order (some quantity) (some capital) none _ _ e = cc
  normalized_as-id order_id order (some quantity) (some capital) (some limit) none _ e = cc
  normalized_as-id order_id order (some quantity) (some capital) (some limit) (some offset) none e =
      cc

  -- An order that is placed has the number that it is given.
  pub normalized_order-id :
      (order_id : ℕ) (order : OrderRecord F) {placed : OrderRecord F}
      → normalized_order F order_id order ≡ some placed
      → placed.order_id ≡ order_id
  unfolding normalized_order
  normalized_order-id order_id order e = normalized_as-id order_id order _ _ _ _ _ e
