-- ===== src/Portfolio/Filling.antt =====
-- Orders of engine/src/PortfolioManager.cpp over any sequence of calls: what is filled, and how often.
use mynyra.Prelude.{
  ℕ, ◌+◌, ◌≤◌, ◌≡◌, refl, inl, inr, true, false, ltb, Option, none, some, String, str_eq, List, [],
  ◌∷◌, ◌++◌, All, All-map, if◌then◌else◌, Bool-cases,
}
use mynyra.Doubles.{Doubles}
use mynyra.Portfolio.State.{OrderRecord, OrderFillResult, PortfolioManager}
use mynyra.Portfolio.Pending.{
  Candle, followed, fill_of, sort_order, evaluate_orders, evaluate_pending_orders,
}
use mynyra.Portfolio.Calls.{Call, evaluates, attempt, settle}
use mynyra.Portfolio.Trailing.{IsMoved, followed-IsMoved}
use mynyra.Portfolio.Due.{IsFillOf, fill_of_inv, fill_of_none}
use mynyra.Portfolio.Queue.{orders_of, fills_of, evaluate_orders_counts}

module _ (F : Doubles) where
  pub data Among (order : OrderRecord F) : List (OrderRecord F) → Type 0 where
    first : {rest : List (OrderRecord F)} → Among order (order ∷ rest)
    later :
        {other : OrderRecord F} {rest : List (OrderRecord F)}
        → Among order rest
        → Among order (other ∷ rest)

  -- A fill of a pending order for the symbol, as the candle has moved it.
  pub record IsDue (symbol : String) (candle : Candle F) (orders : List (OrderRecord F))
      (fill : OrderFillResult F) : Type 0 where
    pub order : OrderRecord F
    pub there : Among order orders
    pub same : str_eq order.symbol symbol ≡ true
    pub moved : OrderRecord F
    pub is_moved : IsMoved F candle order moved
    pub due : IsFillOf F candle moved fill

  weaken :
      {symbol : String} {candle : Candle F} {orders : List (OrderRecord F)} (order : OrderRecord F)
      (fill : OrderFillResult F)
      → IsDue symbol candle orders fill
      → IsDue symbol candle (order ∷ orders) fill
  weaken order fill d = record {
    order = d.order;
    there = later d.there;
    same = d.same;
    moved = d.moved;
    is_moved = d.is_moved;
    due = d.due;
  }

  sort_order-IsDue :
      (symbol : String) (candle : Candle F) (order moved : OrderRecord F)
      (rest : List (OrderRecord F)) (o : Option (OrderFillResult F))
      (l : List (OrderFillResult F) × List (OrderRecord F))
      → ((fill : OrderFillResult F) → o ≡ some fill → IsDue symbol candle (order ∷ rest) fill)
      → All (IsDue symbol candle rest) l.0
      → All (IsDue symbol candle (order ∷ rest)) (sort_order F moved o l).0
  sort_order-IsDue symbol candle order moved rest none (fills, kept) h d =
      All-map (IsDue symbol candle rest) (IsDue symbol candle (order ∷ rest)) (weaken order) fills d
  sort_order-IsDue symbol candle order moved rest (some fill) (fills, kept) h d = (
    h fill refl,
    All-map (IsDue symbol candle rest) (IsDue symbol candle (order ∷ rest)) (weaken order) fills d,
  )

  evaluate_orders-IsDue :
      (symbol : String) (candle : Candle F) (orders : List (OrderRecord F))
      → All (IsDue symbol candle orders) (evaluate_orders F symbol candle orders).0
  unfolding evaluate_orders
  evaluate_orders-IsDue symbol candle [] = tt
  evaluate_orders-IsDue symbol candle (order ∷ rest) =
      let l = evaluate_orders F symbol candle rest in
      let moved = followed F candle order in
      let ih = evaluate_orders-IsDue symbol candle rest in
      elim (Bool-cases (str_eq order.symbol symbol)) [
        | inl same ↦ rw same (
            sort_order-IsDue symbol candle order moved rest (fill_of F candle moved) l
              (λ (fill : OrderFillResult F) (e : fill_of F candle moved ≡ some fill). record {
                order = order;
                there = first;
                same = same;
                moved = moved;
                is_moved = followed-IsMoved F candle order;
                due = fill_of_inv F candle moved e;
              })
              ih)
        | inr other ↦ rw other (
            sort_order-IsDue symbol candle order order rest none l
              (λ (fill : OrderFillResult F) (e : none ≡ some fill). cc) ih)
      ]

  -- An order that stays: it is of another symbol and as it was, or the candle has moved it and there is no
  -- fill of it.
  pub data IsKept (symbol : String) (candle : Candle F) (orders : List (OrderRecord F))
      (kept : OrderRecord F) : Type 0 where
    passes :
        Among kept orders → str_eq kept.symbol symbol ≡ false → IsKept symbol candle orders kept
    waits :
        (order : OrderRecord F)
        → Among order orders
        → str_eq order.symbol symbol ≡ true
        → IsMoved F candle order kept
        → ((fill : OrderFillResult F) → ¬ IsFillOf F candle kept fill)
        → IsKept symbol candle orders kept

  weaken-IsKept :
      {symbol : String} {candle : Candle F} {orders : List (OrderRecord F)} (order : OrderRecord F)
      (kept : OrderRecord F)
      → IsKept symbol candle orders kept
      → IsKept symbol candle (order ∷ orders) kept
  weaken-IsKept order kept (passes there other) = passes (later there) other
  weaken-IsKept order kept (waits first_order there same moved unfilled) =
      waits first_order (later there) same moved unfilled

  sort_order-IsKept :
      (symbol : String) (candle : Candle F) (order moved : OrderRecord F)
      (rest : List (OrderRecord F)) (o : Option (OrderFillResult F))
      (l : List (OrderFillResult F) × List (OrderRecord F))
      → (o ≡ none → IsKept symbol candle (order ∷ rest) moved)
      → All (IsKept symbol candle rest) l.1
      → All (IsKept symbol candle (order ∷ rest)) (sort_order F moved o l).1
  sort_order-IsKept symbol candle order moved rest none (fills, kept) h d = (
    h refl,
    All-map (IsKept symbol candle rest) (IsKept symbol candle (order ∷ rest)) (weaken-IsKept order)
        kept d,
  )
  sort_order-IsKept symbol candle order moved rest (some fill) (fills, kept) h d =
      All-map (IsKept symbol candle rest) (IsKept symbol candle (order ∷ rest))
        (weaken-IsKept order) kept d

  evaluate_orders-IsKept :
      (symbol : String) (candle : Candle F) (orders : List (OrderRecord F))
      → All (IsKept symbol candle orders) (evaluate_orders F symbol candle orders).1
  unfolding evaluate_orders
  evaluate_orders-IsKept symbol candle [] = tt
  evaluate_orders-IsKept symbol candle (order ∷ rest) =
      let l = evaluate_orders F symbol candle rest in
      let moved = followed F candle order in
      let ih = evaluate_orders-IsKept symbol candle rest in
      elim (Bool-cases (str_eq order.symbol symbol)) [
        | inl same ↦ rw same (
            sort_order-IsKept symbol candle order moved rest (fill_of F candle moved) l
              (λ (e : fill_of F candle moved ≡ none).
                waits order first same (followed-IsMoved F candle order)
                  (fill_of_none F candle moved e))
              ih)
        | inr other ↦ rw other (
            sort_order-IsKept symbol candle order order rest none l
              (λ (e : none ≡ none). passes first other) ih)
      ]

  -- Each fill that evaluate_pending_orders reports has the number, type, side, quantity and
  -- capital of a pending order for the symbol, and the time of the candle, which has first moved
  -- the stop of an order that trails it, when the close is above the best one so far and both
  -- prices are positive and can be represented. Its price is positive and is what price_of rounds
  -- to the nearest of the price that the order triggers at: the close for a market order; the
  -- limit for a limit order, when the low is down to it for a buy and the high up to it for a
  -- sell; the lower of the stop and the low for a stop, when the low is down to it. Each order
  -- that stays is a pending one of another symbol, as it was, or one of the symbol, so moved, that
  -- has no such fill. For every number the fills and the orders that stay together are as many as
  -- the orders before.
  pub evaluate_pending_orders_lem :
      (symbol : String) (candle : Candle F) (p : PortfolioManager F)
      → All (IsDue symbol candle p.pending_orders) (evaluate_pending_orders F symbol candle p).0
        × All
            (IsKept symbol candle p.pending_orders)
            (evaluate_pending_orders F symbol candle p).1.pending_orders
        × ((k : ℕ)
            → fills_of F k (evaluate_pending_orders F symbol candle p).0
                + orders_of F k (evaluate_pending_orders F symbol candle p).1.pending_orders
              ≡ orders_of F k p.pending_orders)
  unfolding evaluate_pending_orders
  evaluate_pending_orders_lem symbol candle p = (
    evaluate_orders-IsDue symbol candle p.pending_orders,
    evaluate_orders-IsKept symbol candle p.pending_orders,
    λ k. evaluate_orders_counts F k symbol candle p.pending_orders,
  )

  -- The fills that a call reports, and those that a sequence of calls reports.
  unfoldable pub reported : Call F → PortfolioManager F → List (OrderFillResult F)
  reported (evaluates symbol candle) p = (evaluate_pending_orders F symbol candle p).0
  reported _ p = []

  unfoldable pub run_fills : List (Call F) → PortfolioManager F → List (OrderFillResult F)
  run_fills [] p = []
  run_fills (call ∷ calls) p = reported call p ++ run_fills calls (settle F p (attempt F call p))

  -- What remains to be filled: an order that is pending may be filled once, and one that is yet to be
  -- placed has a number that none has had.
  abbrev pub may_fill : ℕ → PortfolioManager F → ℕ
  may_fill k p = if ltb k p.next_order_id then orders_of F k p.pending_orders else 1

  pub record IsQueue (p : PortfolioManager F) : Type 0 where
    pub once : (k : ℕ) → orders_of F k p.pending_orders ≤ 1
    pub numbered : (k : ℕ) → p.next_order_id ≤ k → orders_of F k p.pending_orders ≡ 0
