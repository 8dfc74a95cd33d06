-- ===== src/Portfolio/Solvency.antt =====
-- The account of engine/src/PortfolioManager.cpp stays solvent over any sequence of calls.
use mynyra.Prelude.{
  ℕ, ◌≡◌, refl, sym, inl, inr, true, ◌||◌, Option, none, some, String, List, [], ◌∷◌, All, arith,
  subst, Bool-cases, Option-cases, ◌==◌,
}
use mynyra.Prelude.Int.{pos, ◌+ℤ◌, ◌<ℤ◌, ◌≤ℤ◌}
use mynyra.Prelude.Dictionary.{
  find, assign, IsDictionary, assign-IsDictionary, All-assign, All-find,
}
use mynyra.Financial.Units.{Price, Money, positive}
use mynyra.Financial.Budget.{not_inv}
use mynyra.Doubles.{Doubles}
use mynyra.Portfolio.Outcomes.{Outcome, done, thrown, refuse_done, value_done, done_inv}
use mynyra.Portfolio.State.{PositionState, OrderRecord, PortfolioManager, new_portfolio}
use mynyra.Portfolio.Valuing.{update_pnl, update_position, marked_at}
use mynyra.Portfolio.Valued.{IsWorth, IsValuation, value_state_inv}
use mynyra.Portfolio.Opening.{open_long, add_to_long, budget_or_cost}
use mynyra.Portfolio.Closing.{close_position}
use mynyra.Portfolio.Pending.{
  place_pending_order, append_pending, cancel_pending_order, set_pending, evaluate_pending_orders,
  normalized_order, erase_order, is_refused, max_order_id,
}
use mynyra.Portfolio.Purchases.{IsHeld, IsSolvent, Purchased-IsSolvent, own_valuation}
use mynyra.Portfolio.Entries.{open_long_lem, positive_lt}
use mynyra.Portfolio.Additions.{add_to_position_lem, Added-IsHeld}
use mynyra.Portfolio.Closings.{close_held_lem, Closed-IsSolvent}
use mynyra.Portfolio.Restoring.{restore_state-IsRestored}
use mynyra.Portfolio.Calls.{
  Call, opens, adds, closes, marks, places, cancels, evaluates, restores, attempt, settle, run,
}

module _ (F : Doubles) where
  -- A new mark changes the marked position and the valuation only.
  pub record Marked (symbol : String) (state : PositionState) (p q : PortfolioManager F)
      : Type 0 where
    pub mark : Price
    pub up : pos 0 <ℤ mark.units
    pub cash : q.cash ≡ p.cash
    pub fees : q.total_fees_paid ≡ p.total_fees_paid
    pub pending : q.pending_orders ≡ p.pending_orders
    pub next_id : q.next_order_id ≡ p.next_order_id
    pub positions : q.positions ≡ assign symbol (marked_at mark state) p.positions
    pub valuation : IsValuation F p q.cash q.positions (own_valuation F q)

  pub update_position_lem :
      (symbol : String) (price : F.Double) (state : PositionState) (p : PortfolioManager F)
      {q : PortfolioManager F}
      → update_position F symbol price state p ≡ done q
      → Marked symbol state p q
  unfolding update_position
  update_position_lem symbol price state p e =
      let (mark, e1, k1) = value_done _ _ _ e in
      let (up, k2) = refuse_done _ _ _ k1 in
      let (v, e3, k3) = value_done _ _ _ k2 in
      let above : positive mark.units ≡ true = not_inv (positive mark.units) up in
      subst (Marked symbol state p) (done_inv k3) (record {
        mark = mark;
        up = positive_lt mark.units above;
        cash = refl;
        fees = refl;
        pending = refl;
        next_id = refl;
        positions = refl;
        valuation =
            value_state_inv F p p.cash (assign symbol (marked_at mark state) p.positions) e3;
      })

  Marked-IsSolvent :
      {symbol : String} {state : PositionState} {p q : PortfolioManager F}
      → Marked symbol state p q
      → IsHeld state
      → IsSolvent F p
      → IsSolvent F q
  Marked-IsSolvent {symbol} {state} {p} {q} m h s = record {
    cash = subst (λ (t : Money). pos 0 ≤ℤ t.units) (sym m.cash) s.cash;
    fees = subst (λ (t : Money). pos 0 ≤ℤ t.units) (sym m.fees) s.fees;
    keys =
        subst IsDictionary (sym m.positions)
          (assign-IsDictionary symbol (marked_at m.mark state) p.positions s.keys);
    held = subst (All (λ e. IsHeld e.1)) (sym m.positions) (
        All-assign IsHeld symbol (marked_at m.mark state) p.positions s.held
          (record { quantity = h.quantity; cost = h.cost; mark = m.up }));
    market = m.valuation.market;
    worth = m.valuation.worth;
    equity = m.valuation.equity;
    peak = m.valuation.peak;
  }

  -- The queue of the pending orders is no part of the account.
  pub with_pending :
      (p : PortfolioManager F) (orders : List (OrderRecord F)) (n : ℕ)
      → IsSolvent F p
      → IsSolvent F (record p { pending_orders = orders; next_order_id = n })
  with_pending p orders n s = record {
    cash = s.cash;
    fees = s.fees;
    keys = s.keys;
    held = s.held;
    market = s.market;
    worth = s.worth;
    equity = s.equity;
    peak = s.peak;
  }

  append_pending-IsSolvent :
      (o : Option (OrderRecord F)) (p : PortfolioManager F)
      → IsSolvent F p
      → IsSolvent F (append_pending F o p).1
  append_pending-IsSolvent none p s = s
  append_pending-IsSolvent (some order) p s = with_pending p _ _ s

  set_pending-IsSolvent :
      (o : Option (List (OrderRecord F))) (p : PortfolioManager F)
      → IsSolvent F p
      → IsSolvent F (set_pending F o p).1
  set_pending-IsSolvent none p s = s
  set_pending-IsSolvent (some orders) p s = with_pending p orders p.next_order_id s

  place_pending_order-IsSolvent :
      (order : OrderRecord F) (p : PortfolioManager F)
      → IsSolvent F p
      → IsSolvent F (place_pending_order F order p).1
  unfolding place_pending_order
  place_pending_order-IsSolvent order p s =
      elim (Bool-cases (is_refused F order || p.next_order_id == max_order_id)) [
        | inl no_room ↦ rw no_room s
        | inr room ↦
            rw room (append_pending-IsSolvent (normalized_order F p.next_order_id order) p s)
      ]

  open_long-IsSolvent :
      (symbol : String) (net_price : F.Double) (timestamp : ℕ) (fee capital units : F.Double)
      (strategy_id : String) (p : PortfolioManager F) {q : PortfolioManager F}
      → IsSolvent F p
      → open_long F symbol net_price timestamp fee capital units strategy_id p ≡ done q
      → IsSolvent F q
  open_long-IsSolvent symbol net_price timestamp fee capital units strategy_id p s e =
      let o = open_long_lem F symbol net_price timestamp fee capital units strategy_id p e in
      Purchased-IsSolvent o.bought o.paid o.charged o.held s

  add_to_long-IsSolvent :
      (symbol : String) (net_price quantity fee capital : F.Double) (strategy_id : String)
      (p : PortfolioManager F) {q : PortfolioManager F}
      → IsSolvent F p
      → add_to_long F symbol net_price quantity fee capital strategy_id p ≡ done q
      → IsSolvent F q
  unfolding add_to_long
  add_to_long-IsSolvent symbol net_price quantity fee capital strategy_id p s e =
      elim (Option-cases (find symbol p.positions)) [
        | inl absent ↦
            open_long-IsSolvent symbol net_price 0 fee
              (budget_or_cost F capital quantity net_price fee) quantity strategy_id p s
              (rw absent at e)
        | inr (state, there) ↦
            let a =
              add_to_position_lem F symbol net_price quantity fee capital strategy_id state p
                (rw there at e) in
            Purchased-IsSolvent a.bought a.paid a.charged
              (Added-IsHeld a (All-find IsHeld symbol p.positions s.held there)) s
      ]

  close_position-IsSolvent :
      (symbol : String) (net_price : F.Double) (timestamp : ℕ) (fee : F.Double)
      (strategy_id : String) (quantity : F.Double) (p : PortfolioManager F) {q : PortfolioManager F}
      → IsSolvent F p
      → close_position F symbol net_price timestamp fee strategy_id quantity p ≡ done q
      → IsSolvent F q
  unfolding close_position
  close_position-IsSolvent symbol net_price timestamp fee strategy_id quantity p s e =
      elim (Option-cases (find symbol p.positions)) [
        | inl absent ↦ subst (IsSolvent F) (done_inv (rw absent at e)) s
        | inr (prior, there) ↦
            Closed-IsSolvent
              (close_held_lem F symbol net_price timestamp fee strategy_id quantity prior p
                (rw there at e))
              s
      ]

  update_pnl-IsSolvent :
      (symbol : String) (price : F.Double) (p : PortfolioManager F) {q : PortfolioManager F}
      → IsSolvent F p
      → update_pnl F symbol price p ≡ done q
      → IsSolvent F q
  unfolding update_pnl
  update_pnl-IsSolvent symbol price p s e = elim (Option-cases (find symbol p.positions)) [
    | inl absent ↦ subst (IsSolvent F) (done_inv (rw absent at e)) s
    | inr (state, there) ↦
        Marked-IsSolvent (update_position_lem symbol price state p (rw there at e))
          (All-find IsHeld symbol p.positions s.held there) s
  ]

  attempt-IsSolvent :
      (call : Call F) (p : PortfolioManager F) {q : PortfolioManager F}
      → IsSolvent F p
      → attempt F call p ≡ done q
      → IsSolvent F q
  unfolding attempt cancel_pending_order evaluate_pending_orders
  attempt-IsSolvent (opens symbol price timestamp fee capital units strategy_id) p s e =
      open_long-IsSolvent symbol price timestamp fee capital units strategy_id p s e
  attempt-IsSolvent (adds symbol price quantity fee capital strategy_id) p s e =
      add_to_long-IsSolvent symbol price quantity fee capital strategy_id p s e
  attempt-IsSolvent (closes symbol price timestamp fee strategy_id quantity) p s e =
      close_position-IsSolvent symbol price timestamp fee strategy_id quantity p s e
  attempt-IsSolvent (marks symbol price) p s e = update_pnl-IsSolvent symbol price p s e
  attempt-IsSolvent (places order) p s e =
      subst (IsSolvent F) (done_inv e) (place_pending_order-IsSolvent order p s)
  attempt-IsSolvent (cancels order_id) p s e =
      subst (IsSolvent F) (done_inv e)
        (set_pending-IsSolvent (erase_order F order_id p.pending_orders) p s)
  attempt-IsSolvent (evaluates symbol candle) p s e =
      subst (IsSolvent F) (done_inv e) (with_pending p _ p.next_order_id s)
  attempt-IsSolvent (restores snapshot) p s e = (restore_state-IsRestored F snapshot p _ e).solvent

  settle-IsSolvent :
      (p : PortfolioManager F) (o : Outcome (PortfolioManager F))
      → IsSolvent F p
      → ((q : PortfolioManager F) → o ≡ done q → IsSolvent F q)
      → IsSolvent F (settle F p o)
  unfolding settle
  settle-IsSolvent p (done q) s h = h q refl
  settle-IsSolvent p (thrown e) s h = s

  run-IsSolvent :
      (calls : List (Call F)) (p : PortfolioManager F) → IsSolvent F p → IsSolvent F (run F calls p)
  unfolding run
  run-IsSolvent [] p s = s
  run-IsSolvent (call ∷ calls) p s = run-IsSolvent calls (settle F p (attempt F call p)) (
      settle-IsSolvent p (attempt F call p) s
        (λ (q : PortfolioManager F) (e : attempt F call p ≡ done q). attempt-IsSolvent call p s e))

  -- After any sequence of calls of a new portfolio, calls that throw and snapshots that are
  -- restored included, the cash and the fees paid are not negative, each symbol has one position,
  -- every position has a positive quantity and mark and a cost that is not negative, the equity is
  -- the cash plus the notional of each position at its last mark, the unrealized result is that
  -- worth less the cost bases, and the peak equity is at least the equity.
  pub run_new-IsSolvent : (calls : List (Call F)) → IsSolvent F (run F calls (new_portfolio F))
  unfolding ◌+ℤ◌
  run_new-IsSolvent calls = run-IsSolvent calls (new_portfolio F) (record {
    cash = omega arith;
    fees = omega arith;
    keys = tt;
    held = tt;
    market = pos 0;
    worth = IsWorth.nothing;
    equity = ground arith;
    peak = omega arith;
  })
