-- ===== src/Portfolio/Once.antt =====
-- Over any sequence of calls of engine/src/PortfolioManager.cpp an order is filled once at most.
use mynyra.Prelude.{
  ℕ, ◌+◌, ◌≤◌, ◌≡◌, refl, sym, ap, inl, inr, false, ◌||◌, Option, none, some, List, [], ◌∷◌, All,
  arith, ◌==◌, Bool-cases, Option-cases,
}
use mynyra.Prelude.Dictionary.{find}
use mynyra.Doubles.{Doubles}
use mynyra.Portfolio.Outcomes.{Outcome, done, thrown, done_inv}
use mynyra.Portfolio.State.{OrderRecord, OrderFillResult, PortfolioManager, new_portfolio}
use mynyra.Portfolio.Valuing.{update_pnl}
use mynyra.Portfolio.Opening.{add_to_long, budget_or_cost}
use mynyra.Portfolio.Closing.{close_position}
use mynyra.Prelude.{String}
use mynyra.Portfolio.Pending.{
  Candle, evaluate_pending_orders, erase_order, cancel_pending_order, append_pending,
  normalized_order, place_pending_order, is_refused, max_order_id,
}
use mynyra.Portfolio.Entries.{open_long_lem}
use mynyra.Portfolio.Additions.{add_to_position_lem}
use mynyra.Portfolio.Closings.{close_held_lem}
use mynyra.Portfolio.Solvency.{update_position_lem}
use mynyra.Portfolio.Calls.{
  Call, opens, adds, closes, marks, places, cancels, evaluates, restores, is_restore, attempt,
  settle,
}
use mynyra.Portfolio.Queue.{
  orders_of, fills_of, evaluate_orders_counts, erase_order_counts, orders_of-append,
  fills_of-append, normalized_order-id,
}
use mynyra.Portfolio.Filling.{reported, run_fills, may_fill, IsQueue}

module _ (F : Doubles) where
  -- A call that leaves a queue, and takes from what may be filled at least what it fills.
  record Spends (fills : List (OrderFillResult F)) (p q : PortfolioManager F) : Type 0 where
    queue : IsQueue F q
    fewer : (k : ℕ) → fills_of F k fills + may_fill F k q ≤ may_fill F k p

  unchanged :
      (p q : PortfolioManager F)
      → q.pending_orders ≡ p.pending_orders
      → q.next_order_id ≡ p.next_order_id
      → IsQueue F p
      → Spends [] p q
  unchanged p q pending next h = record {
    queue = record {
      once = λ k. rw pending (h.once k);
      numbered = λ k. rw (pending, next) (h.numbered k);
    };
    fewer = λ k. rw (pending, next) (omega arith);
  }

  fewer_orders :
      (p : PortfolioManager F) (fills : List (OrderFillResult F)) (orders : List (OrderRecord F))
      → ((k : ℕ) → fills_of F k fills + orders_of F k orders ≤ orders_of F k p.pending_orders)
      → IsQueue F p
      → Spends fills p (record p { pending_orders = orders })
  fewer_orders p fills orders less h = record {
    queue = record {
      once = λ k. omega (arith, less k, h.once k);
      numbered = λ k from. omega (arith, less k, h.numbered k from);
    };
    fewer = λ k. ground (arith, less k, h.numbered k);
  }

  append_pending-Spends :
      (o : Option (OrderRecord F)) (p : PortfolioManager F)
      → ((order : OrderRecord F) → o ≡ some order → order.order_id ≡ p.next_order_id)
      → IsQueue F p
      → Spends [] p (append_pending F o p).1
  append_pending-Spends none p number h = unchanged p p refl refl h
  append_pending-Spends (some order) p number h =
      let is_next = number order refl in
      record {
        queue = record {
          once = λ k.
              ground (
                arith,
                orders_of-append F k p.pending_orders order,
                h.once k,
                h.numbered k,
                is_next,
              );
          numbered = λ k from.
              ground (arith, orders_of-append F k p.pending_orders order, h.numbered k, is_next);
        };
        fewer = λ k.
            ground
              (arith, orders_of-append F k p.pending_orders order, h.numbered k, h.once k, is_next);
      }

  place_pending_order-Spends :
      (order : OrderRecord F) (p : PortfolioManager F)
      → IsQueue F p
      → Spends [] p (place_pending_order F order p).1
  unfolding place_pending_order
  place_pending_order-Spends order p h =
      elim (Bool-cases (is_refused F order || p.next_order_id == max_order_id)) [
        | inl no_room ↦ rw no_room (unchanged p p refl refl h)
        | inr room ↦ rw room (
            append_pending-Spends (normalized_order F p.next_order_id order) p
              (λ (o : OrderRecord F) (e : normalized_order F p.next_order_id order ≡ some o).
                normalized_order-id F p.next_order_id order e)
              h)
      ]

  cancel_pending_order-Spends :
      (order_id : ℕ) (p : PortfolioManager F)
      → IsQueue F p
      → Spends [] p (cancel_pending_order F order_id p).1
  unfolding cancel_pending_order
  cancel_pending_order-Spends order_id p h =
      elim (Option-cases (erase_order F order_id p.pending_orders)) [
        | inl none_there ↦ rw none_there (unchanged p p refl refl h)
        | inr (orders, erased) ↦ rw erased (
            fewer_orders p [] orders
              (λ (k : ℕ). omega (arith, erase_order_counts F k order_id p.pending_orders erased)) h)
      ]

  evaluate_pending_orders-Spends :
      (symbol : String) (candle : Candle F) (p : PortfolioManager F)
      → IsQueue F p
      → Spends
          (evaluate_pending_orders F symbol candle p).0
          p
          (evaluate_pending_orders F symbol candle p).1
  unfolding evaluate_pending_orders
  evaluate_pending_orders-Spends symbol candle p h =
      fewer_orders p _ _
        (λ (k : ℕ). omega (arith, evaluate_orders_counts F k symbol candle p.pending_orders)) h

  settle-Spends :
      (p : PortfolioManager F) (o : Outcome (PortfolioManager F))
      → IsQueue F p
      → ((q : PortfolioManager F)
          → o ≡ done q
          → (q.pending_orders ≡ p.pending_orders) × (q.next_order_id ≡ p.next_order_id))
      → Spends [] p (settle F p o)
  unfolding settle
  settle-Spends p (done q) h same = unchanged p q (same q refl).0 (same q refl).1 h
  settle-Spends p (thrown e) h same = unchanged p p refl refl h

  -- What the calls that are not about the queue leave of it.
  SameQueue : PortfolioManager F → PortfolioManager F → Type 0
  SameQueue p q = (q.pending_orders ≡ p.pending_orders) × (q.next_order_id ≡ p.next_order_id)

  add_to_long-same :
      (symbol : String) (net_price quantity fee capital : F.Double) (strategy_id : String)
      (p q : PortfolioManager F)
      → add_to_long F symbol net_price quantity fee capital strategy_id p ≡ done q
      → SameQueue p q
  unfolding add_to_long SameQueue
  add_to_long-same symbol net_price quantity fee capital strategy_id p q e =
      elim (Option-cases (find symbol p.positions)) [
        | inl absent ↦
            let o =
              open_long_lem F symbol net_price 0 fee
                (budget_or_cost F capital quantity net_price fee) quantity strategy_id p
                (rw absent at e) in
            (o.bought.pending, o.bought.next_id)
        | inr (state, there) ↦
            let a =
              add_to_position_lem F symbol net_price quantity fee capital strategy_id state p
                (rw there at e) in
            (a.bought.pending, a.bought.next_id)
      ]

  close_position-same :
      (symbol : String) (net_price : F.Double) (timestamp : ℕ) (fee : F.Double)
      (strategy_id : String) (quantity : F.Double) (p q : PortfolioManager F)
      → close_position F symbol net_price timestamp fee strategy_id quantity p ≡ done q
      → SameQueue p q
  unfolding close_position SameQueue
  close_position-same symbol net_price timestamp fee strategy_id quantity p q e =
      elim (Option-cases (find symbol p.positions)) [
        | inl absent ↦
            let same : p ≡ q = done_inv (rw absent at e) in
            (
              ap (λ (t : PortfolioManager F). t.pending_orders) (sym same),
              ap (λ (t : PortfolioManager F). t.next_order_id) (sym same),
            )
        | inr (prior, there) ↦
            let c =
              close_held_lem F symbol net_price timestamp fee strategy_id quantity prior p
                (rw there at e) in
            (c.pending, c.next_id)
      ]

  update_pnl-same :
      (symbol : String) (price : F.Double) (p q : PortfolioManager F)
      → update_pnl F symbol price p ≡ done q
      → SameQueue p q
  unfolding update_pnl SameQueue
  update_pnl-same symbol price p q e = elim (Option-cases (find symbol p.positions)) [
    | inl absent ↦
        let same : p ≡ q = done_inv (rw absent at e) in
        (
          ap (λ (t : PortfolioManager F). t.pending_orders) (sym same),
          ap (λ (t : PortfolioManager F). t.next_order_id) (sym same),
        )
    | inr (state, there) ↦
        let m = update_position_lem F symbol price state p (rw there at e) in (m.pending, m.next_id)
  ]

  step-Spends :
      (call : Call F) (p : PortfolioManager F)
      → is_restore F call ≡ false
      → IsQueue F p
      → Spends (reported F call p) p (settle F p (attempt F call p))
  unfolding reported attempt SameQueue
  step-Spends (opens symbol price timestamp fee capital units strategy_id) p n h =
      settle-Spends p _ h (λ (q : PortfolioManager F) (e : _ ≡ done q).
        let o = open_long_lem F symbol price timestamp fee capital units strategy_id p e in
        (o.bought.pending, o.bought.next_id))
  step-Spends (adds symbol price quantity fee capital strategy_id) p n h =
      settle-Spends p _ h (add_to_long-same symbol price quantity fee capital strategy_id p)
  step-Spends (closes symbol price timestamp fee strategy_id quantity) p n h =
      settle-Spends p _ h (close_position-same symbol price timestamp fee strategy_id quantity p)
  step-Spends (marks symbol price) p n h = settle-Spends p _ h (update_pnl-same symbol price p)
  step-Spends (places order) p n h = unfold settle in place_pending_order-Spends order p h
  step-Spends (cancels order_id) p n h = unfold settle in cancel_pending_order-Spends order_id p h
  step-Spends (evaluates symbol candle) p n h =
      unfold settle in evaluate_pending_orders-Spends symbol candle p h
  step-Spends (restores snapshot) p n h = cc

  run_fills-le :
      (calls : List (Call F)) (p : PortfolioManager F)
      → All (λ call. is_restore F call ≡ false) calls
      → IsQueue F p
      → (k : ℕ) → fills_of F k (run_fills F calls p) ≤ may_fill F k p
  unfolding run_fills
  run_fills-le [] p n h k = omega arith
  run_fills-le (call ∷ calls) p (n, ns) h k =
      let s = step-Spends call p n h in
      let next = settle F p (attempt F call p) in
      omega (
        arith,
        fills_of-append F k (reported F call p) (run_fills F calls next),
        run_fills-le calls next ns s.queue k,
        s.fewer k,
      )

  -- Over any sequence of calls of a new portfolio other than restore_state no order number is
  -- reported filled more than once by evaluate_pending_orders.
  pub run_fills_once :
      (calls : List (Call F)) (k : ℕ)
      → All (λ call. is_restore F call ≡ false) calls
      → fills_of F k (run_fills F calls (new_portfolio F)) ≤ 1
  run_fills_once calls k n =
      let h =
        run_fills-le calls (new_portfolio F) n
          (record { once = λ k. omega arith; numbered = λ k from. refl }) k in
      ground (arith, h)
