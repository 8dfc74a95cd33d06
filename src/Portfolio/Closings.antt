-- ===== src/Portfolio/Closings.antt =====
-- The account after `closePosition` of engine/src/PortfolioManager.cpp.
use mynyra.Prelude.{
  ℕ, ◌≡◌, refl, sym, inl, inr, Bool, true, false, String, List, [], ◌∷◌, ◌++◌, All, arith,
  if◌then◌else◌, subst, Bool-cases,
}
use mynyra.Prelude.Int.{ℤ, pos, ◌+ℤ◌, ◌≤ℤ◌, ◌<ℤ◌, ltb_ℤ}
use mynyra.Prelude.Dictionary.{
  IsDictionary, assign-IsDictionary, remove-IsDictionary, All-assign, All-remove,
}
use mynyra.Financial.Units.{Price, Quantity, Money, positive}
use mynyra.Financial.Budget.{not_inv}
use mynyra.Doubles.{Doubles}
use mynyra.Portfolio.Outcomes.{done, bind_done, refuse_done, value_done, done_inv}
use mynyra.Portfolio.State.{PositionState, TradeRecord, PortfolioManager, value_double}
use mynyra.Portfolio.Valued.{IsValuation, value_state_inv, add_inv}
use mynyra.Portfolio.Opening.{above_zero}
use mynyra.Portfolio.Closing.{
  Sale, trade_record, commit_sale, close_held, close_quantity, given_quantity,
}
use mynyra.Portfolio.Purchases.{IsHeld, IsSolvent, own_valuation, price_and_fee_inv}
use mynyra.Portfolio.Entries.{positive_lt, negative_le}
use mynyra.Portfolio.Sales.{IsSale, sale_of_inv, Left, sold_out, kept, positions_after_inv}

given_quantity_inv :
    (F : Doubles) (x : F.Double) (held : Quantity) {q : Quantity}
    → given_quantity F x held ≡ done q
    → (pos 0 <ℤ q.units) × (q.units ≤ℤ held.units)
unfolding given_quantity
given_quantity_inv F x held e =
    let (q, e1, k1) = value_done _ _ _ e in
    let (up, k2) = refuse_done _ _ _ k1 in
    let (within, k3) = refuse_done _ _ _ k2 in
    let above : positive q.units ≡ true = not_inv (positive q.units) up in
    subst (λ (t : Quantity). (pos 0 <ℤ t.units) × (t.units ≤ℤ held.units)) (done_inv k3)
      (positive_lt q.units above, at_most q.units held.units within)
  where
    at_most : (a b : ℤ) → ltb_ℤ b a ≡ false → a ≤ℤ b
    at_most a b h = ground arith

close_quantity_inv :
    (F : Doubles) (x : F.Double) (held : Quantity) {q : Quantity}
    → pos 0 <ℤ held.units
    → close_quantity F x held ≡ done q
    → (pos 0 <ℤ q.units) × (q.units ≤ℤ held.units)
unfolding close_quantity
close_quantity_inv F x held some_held e = elim (Bool-cases (above_zero F x)) [
  | inl given ↦ given_quantity_inv F x held (rw given at e)
  | inr whole ↦
      let same : held ≡ _ = done_inv (rw whole at e) in
      subst (λ (t : Quantity). (pos 0 <ℤ t.units) × (t.units ≤ℤ held.units)) same
        (some_held, omega arith)
]

-- What is sold of a position: at most what is held, at a positive price, with a trade in the log.
pub record Closed (F : Doubles) (symbol : String) (prior : PositionState) (p q : PortfolioManager F)
    : Type 0 where
  pub price : Price
  pub exit_fee : Money
  pub quantity : Quantity
  pub sale : Sale
  pub trade : TradeRecord F
  pub closed : Bool
  pub mark : pos 0 <ℤ price.units
  pub charged : pos 0 ≤ℤ exit_fee.units
  pub sold : IsSale prior price exit_fee quantity sale
  pub left : Left symbol price quantity sale prior p.positions (closed, q.positions)
  pub cash : q.cash.units ≡ p.cash.units +ℤ sale.net_proceeds.units
  pub fees : q.total_fees_paid.units ≡ p.total_fees_paid.units +ℤ exit_fee.units
  pub realized : trade.realized_pnl ≡ value_double F sale.realized_pnl
  pub logged : q.trade_log ≡ p.trade_log ++ trade ∷ []
  pub trades : q.trade_count ≡ p.trade_count +ℤ pos 1
  pub round_trips :
      q.round_trip_count ≡ (if closed then p.round_trip_count +ℤ pos 1 else p.round_trip_count)
  pub pending : q.pending_orders ≡ p.pending_orders
  pub next_id : q.next_order_id ≡ p.next_order_id
  pub within :
      pos 0 <ℤ prior.quantity.units
      → (pos 0 <ℤ quantity.units) × (quantity.units ≤ℤ prior.quantity.units)
  pub valuation : IsValuation F p q.cash q.positions (own_valuation F q)

-- The end of a sale, with the facts about what is before it.
Ended :
    (F : Doubles)
    → Sale
    → Money
    → TradeRecord F
    → Bool × List (String × PositionState)
    → PortfolioManager F
    → PortfolioManager F
    → Type 0
Ended F sale exit_fee trade after p q =
    (q.cash.units ≡ p.cash.units +ℤ sale.net_proceeds.units)
    × (q.total_fees_paid.units ≡ p.total_fees_paid.units +ℤ exit_fee.units)
    × (q.positions ≡ after.1)
    × (q.trade_log ≡ p.trade_log ++ trade ∷ [])
    × (q.trade_count ≡ p.trade_count +ℤ pos 1)
    × (q.round_trip_count ≡ (if after.0 then p.round_trip_count +ℤ pos 1 else p.round_trip_count))
    × (q.pending_orders ≡ p.pending_orders)
    × (q.next_order_id ≡ p.next_order_id)
    × IsValuation F p q.cash q.positions (own_valuation F q)

commit_sale_inv :
    (F : Doubles) (sale : Sale) (exit_fee : Money) (trade : TradeRecord F)
    (after : Bool × List (String × PositionState)) (p : PortfolioManager F) {q : PortfolioManager F}
    → commit_sale F sale exit_fee trade after p ≡ done q
    → Ended F sale exit_fee trade after p q
unfolding commit_sale Ended
commit_sale_inv F sale exit_fee trade (closed, positions) p e =
    let (cash, e1, k1) = value_done _ _ _ e in
    let (fees, e2, k2) = value_done _ _ _ k1 in
    let (v, e3, k3) = value_done _ _ _ k2 in
    let (e4, k4) = refuse_done _ _ _ k3 in
    let (e5, k5) = refuse_done _ _ _ k4 in
    subst (Ended F sale exit_fee trade (closed, positions) p) (done_inv k5) (
      add_inv p.cash sale.net_proceeds e1,
      add_inv p.total_fees_paid exit_fee e2,
      refl,
      refl,
      refl,
      refl,
      refl,
      refl,
      value_state_inv F p cash positions e3,
    )

pub close_held_lem :
    (F : Doubles) (symbol : String) (net_price : F.Double) (timestamp : ℕ) (fee : F.Double)
    (strategy_id : String) (explicit_quantity : F.Double) (prior : PositionState)
    (p : PortfolioManager F) {q : PortfolioManager F}
    → close_held F symbol net_price timestamp fee strategy_id explicit_quantity prior p ≡ done q
    → Closed F symbol prior p q
unfolding close_held Ended trade_record
close_held_lem F symbol net_price timestamp fee strategy_id explicit_quantity prior p {q} e =
    let (signs, k1) = refuse_done _ _ _ e in
    let (paid, e2, k2) = bind_done _ _ k1 in
    let (quantity, e3, k3) = bind_done _ _ k2 in
    let (sale, e4, k4) = bind_done _ _ k3 in
    let (after, e5, k5) = bind_done _ _ k4 in
    let trade = trade_record F symbol timestamp strategy_id prior paid.0 quantity sale in
    let (cash, fees, positions, logged, trades, trips, pending, next_id, valuation) =
      commit_sale_inv F sale paid.1 trade after p k5 in
    let (up, low) = price_and_fee_inv F net_price fee e2 in
    record {
      price = paid.0;
      exit_fee = paid.1;
      quantity = quantity;
      sale = sale;
      trade = trade;
      closed = after.0;
      mark = positive_lt paid.0.units up;
      charged = negative_le paid.1.units low;
      sold = sale_of_inv prior paid.0 paid.1 quantity e4;
      left =
          subst
            (λ (t : List (String × PositionState)).
              Left symbol paid.0 quantity sale prior p.positions (after.0, t))
            (sym positions) (positions_after_inv symbol paid.0 quantity sale prior p.positions e5);
      cash = cash;
      fees = fees;
      realized = refl;
      logged = logged;
      trades = trades;
      round_trips = trips;
      pending = pending;
      next_id = next_id;
      within = λ some_held. close_quantity_inv F explicit_quantity prior.quantity some_held e3;
      valuation = valuation;
    }

Left-keys :
    {symbol : String} {price : Price} {quantity : Quantity} {sale : Sale} {prior : PositionState}
    {before : List (String × PositionState)} {after : Bool × List (String × PositionState)}
    → Left symbol price quantity sale prior before after
    → IsDictionary before
    → IsDictionary after.1
Left-keys {symbol} {before = before} (sold_out all e) h =
    subst (λ (t : Bool × List (String × PositionState)). IsDictionary t.1) (sym e)
      (remove-IsDictionary symbol before h)
Left-keys {symbol} {before = before} (kept next remaining rest less e) h =
    subst (λ (t : Bool × List (String × PositionState)). IsDictionary t.1) (sym e)
      (assign-IsDictionary symbol next before h)

Left-held :
    {symbol : String} {price : Price} {quantity : Quantity} {sale : Sale} {prior : PositionState}
    {before : List (String × PositionState)} {after : Bool × List (String × PositionState)}
    → Left symbol price quantity sale prior before after
    → pos 0 <ℤ price.units
    → All (λ e. IsHeld e.1) before
    → All (λ e. IsHeld e.1) after.1
Left-held {symbol} {before = before} (sold_out all e) up h =
    subst (λ (t : Bool × List (String × PositionState)). All (λ e. IsHeld e.1) t.1) (sym e)
      (All-remove IsHeld symbol before h)
Left-held {symbol} {before = before} (kept next remaining rest less e) up h =
    subst (λ (t : Bool × List (String × PositionState)). All (λ e. IsHeld e.1) t.1) (sym e)
      (All-assign IsHeld symbol next before h (record {
        quantity = less.some_left;
        cost = less.no_debt;
        mark = subst (λ (t : Price). pos 0 <ℤ t.units) (sym less.mark) up;
      }))

both : (a b c : ℤ) → pos 0 ≤ℤ a → pos 0 ≤ℤ b → c ≡ a +ℤ b → pos 0 ≤ℤ c
unfolding ◌+ℤ◌
both a b c h k e = ground arith

pub Closed-IsSolvent :
    {F : Doubles} {symbol : String} {prior : PositionState} {p q : PortfolioManager F}
    → Closed F symbol prior p q
    → IsSolvent F p
    → IsSolvent F q
Closed-IsSolvent {F} {symbol} {prior} {p} {q} c s = record {
  cash = both p.cash.units c.sale.net_proceeds.units q.cash.units s.cash c.sold.no_debt c.cash;
  fees =
      both p.total_fees_paid.units c.exit_fee.units q.total_fees_paid.units s.fees c.charged c.fees;
  keys = Left-keys c.left s.keys;
  held = Left-held c.left c.mark s.held;
  market = c.valuation.market;
  worth = c.valuation.worth;
  equity = c.valuation.equity;
  peak = c.valuation.peak;
}
