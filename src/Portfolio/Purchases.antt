-- ===== src/Portfolio/Purchases.antt =====
-- What `openLong` and `addToLong` of engine/src/PortfolioManager.cpp do to the account.
use mynyra.Prelude.{◌≡◌, refl, sym, true, false, some, String, All, arith, subst}
use mynyra.Prelude.Int.{ℤ, pos, ◌+ℤ◌, ◌-ℤ◌, ◌≤ℤ◌, ◌<ℤ◌, ltb_ℤ}
use mynyra.Prelude.Dictionary.{assign, IsDictionary, assign-IsDictionary, All-assign}
use mynyra.Financial.Units.{Price, Quantity, Money, positive, negative}
use mynyra.Financial.Values.{notional}
use mynyra.Financial.Budget.{not_inv}
use mynyra.Doubles.{Doubles}
use mynyra.Portfolio.Outcomes.{done, refuse_done, value_done, done_inv}
use mynyra.Portfolio.State.{PositionState, Valuation, PortfolioManager}
use mynyra.Portfolio.Valuing.{nearest}
use mynyra.Portfolio.Valued.{IsWorth, IsValuation, value_state_inv, add_inv, subtract_inv}
use mynyra.Portfolio.Opening.{commit_purchase, price_and_fee, entry_debit}

-- The valuation that a portfolio carries.
abbrev pub own_valuation : (F : Doubles) → PortfolioManager F → Valuation F
own_valuation F p = record {
  unrealized_pnl = p.unrealized_pnl;
  total_equity = p.total_equity;
  max_equity = p.max_equity;
  current_drawdown = p.current_drawdown;
  max_drawdown = p.max_drawdown;
}

-- A position of a long-only account.
pub record IsHeld (s : PositionState) : Type 0 where
  pub quantity : pos 0 <ℤ s.quantity.units
  pub cost : pos 0 ≤ℤ s.cost_basis.units
  pub mark : pos 0 <ℤ s.last_mark_price.units

-- No debt, each symbol once and long, an equity that is the cash and what the positions are worth,
-- and a peak that is no lower.
pub record IsSolvent (F : Doubles) (p : PortfolioManager F) : Type 0 where
  pub cash : pos 0 ≤ℤ p.cash.units
  pub fees : pos 0 ≤ℤ p.total_fees_paid.units
  pub keys : IsDictionary p.positions
  pub held : All (λ e. IsHeld e.1) p.positions
  pub market : ℤ
  pub worth : IsWorth p.positions market p.unrealized_pnl.units
  pub equity : p.total_equity.units ≡ p.cash.units +ℤ market
  pub peak : p.total_equity.units ≤ℤ p.max_equity.units

pub record Purchased (F : Doubles) (symbol : String) (state : PositionState) (debit fee : Money)
    (p q : PortfolioManager F) : Type 0 where
  pub cash : q.cash.units ≡ p.cash.units -ℤ debit.units
  pub fees : q.total_fees_paid.units ≡ p.total_fees_paid.units +ℤ fee.units
  pub positions : q.positions ≡ assign symbol state p.positions
  pub trades : q.trade_count ≡ p.trade_count +ℤ pos 1
  pub closed : q.trade_log ≡ p.trade_log
  pub round_trips : q.round_trip_count ≡ p.round_trip_count
  pub pending : q.pending_orders ≡ p.pending_orders
  pub next_id : q.next_order_id ≡ p.next_order_id
  pub valuation : IsValuation F p q.cash q.positions (own_valuation F q)

pub commit_purchase_inv :
    (F : Doubles) (symbol : String) (state : PositionState) (debit fee : Money)
    (p : PortfolioManager F) {q : PortfolioManager F}
    → commit_purchase F symbol state debit fee p ≡ done q
    → Purchased F symbol state debit fee p q
unfolding commit_purchase
commit_purchase_inv F symbol state debit fee p {q} e =
    let (cash, e1, k1) = value_done _ _ _ e in
    let (fees, e2, k2) = value_done _ _ _ k1 in
    let (v, e3, k3) = value_done _ _ _ k2 in
    let (e4, k4) = refuse_done _ _ _ k3 in
    subst (Purchased F symbol state debit fee p) (done_inv k4) (record {
      cash = subtract_inv p.cash debit e1;
      fees = add_inv p.total_fees_paid fee e2;
      positions = refl;
      trades = refl;
      closed = refl;
      round_trips = refl;
      pending = refl;
      next_id = refl;
      valuation = value_state_inv F p cash (assign symbol state p.positions) e3;
    })

covered : (a b c : ℤ) → ltb_ℤ a b ≡ false → c ≡ a -ℤ b → pos 0 ≤ℤ c
unfolding ◌-ℤ◌
covered a b c h e = ground arith

both : (a b c : ℤ) → pos 0 ≤ℤ a → pos 0 ≤ℤ b → c ≡ a +ℤ b → pos 0 ≤ℤ c
unfolding ◌+ℤ◌
both a b c h k e = ground arith

pub Purchased-IsSolvent :
    {F : Doubles} {symbol : String} {state : PositionState} {debit fee : Money}
    {p q : PortfolioManager F}
    → Purchased F symbol state debit fee p q
    → ltb_ℤ p.cash.units debit.units ≡ false
    → pos 0 ≤ℤ fee.units
    → IsHeld state
    → IsSolvent F p
    → IsSolvent F q
Purchased-IsSolvent {F} {symbol} {state} {debit} {fee} {p} {q} made paid charged new s = record {
  cash = covered p.cash.units debit.units q.cash.units paid made.cash;
  fees = both p.total_fees_paid.units fee.units q.total_fees_paid.units s.fees charged made.fees;
  keys =
      subst IsDictionary (sym made.positions) (assign-IsDictionary symbol state p.positions s.keys);
  held =
      subst (All (λ e. IsHeld e.1)) (sym made.positions)
        (All-assign IsHeld symbol state p.positions s.held new);
  market = made.valuation.market;
  worth = made.valuation.worth;
  equity = made.valuation.equity;
  peak = made.valuation.peak;
}

-- A price and a fee that pass are positive and not negative.
pub price_and_fee_inv :
    (F : Doubles) (net_price fee : F.Double) {paid : Price × Money}
    → price_and_fee F net_price fee ≡ done paid
    → (positive paid.0.units ≡ true) × (negative paid.1.units ≡ false)
unfolding price_and_fee
price_and_fee_inv F net_price fee {paid} e =
    let (price, e1, k1) = value_done _ _ _ e in
    let (up, k2) = refuse_done _ _ _ k1 in
    let (money, e3, k3) = value_done _ _ _ k2 in
    let (low, k4) = refuse_done _ _ _ k3 in
    let above : positive price.units ≡ true = not_inv (positive price.units) up in
    subst (λ (t : Price × Money). (positive t.0.units ≡ true) × (negative t.1.units ≡ false))
      (done_inv k4) (above, low)

pub record Debit (price : Price) (quantity : Quantity) (fee : Money) (amounts : Money × Money)
    : Type 0 where
  pub cost : notional price quantity nearest ≡ some amounts.0
  pub total : amounts.1.units ≡ amounts.0.units +ℤ fee.units

pub entry_debit_inv :
    (price : Price) (quantity : Quantity) (fee : Money) {amounts : Money × Money}
    → entry_debit price quantity fee ≡ done amounts
    → Debit price quantity fee amounts
unfolding entry_debit
entry_debit_inv price quantity fee {amounts} e =
    let (cost, e1, k1) = value_done _ _ _ e in
    let (debit, e2, k2) = value_done _ _ _ k1 in
    subst (Debit price quantity fee) (done_inv k2)
      (record { cost = e1; total = add_inv cost fee e2 })
