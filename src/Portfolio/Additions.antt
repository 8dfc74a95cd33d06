-- ===== src/Portfolio/Additions.antt =====
-- What `addToLong` of engine/src/PortfolioManager.cpp adds to an open position.
use mynyra.Prelude.{◌≡◌, refl, sym, false, some, String, arith, subst}
use mynyra.Prelude.Int.{ℤ, pos, ◌+ℤ◌, ◌≤ℤ◌, ◌<ℤ◌, ltb_ℤ}
use mynyra.Financial.Units.{Price, Quantity, Money}
use mynyra.Financial.Values.{notional}
use mynyra.Financial.Budget.{not_inv}
use mynyra.Doubles.{Doubles}
use mynyra.Portfolio.Outcomes.{done, bind_done, refuse_done, value_done, done_inv}
use mynyra.Portfolio.State.{PositionState, PortfolioManager}
use mynyra.Portfolio.Valuing.{nearest}
use mynyra.Portfolio.Valued.{add_inv}
use mynyra.Portfolio.Opening.{add_to_position, increased}
use mynyra.Portfolio.Purchases.{
  IsHeld, Purchased, commit_purchase_inv, price_and_fee_inv, entry_debit_inv,
}
use mynyra.Portfolio.Entries.{positive_lt, negative_le}

-- The position `next` is `state` with a positive quantity, its cost and its fee added.
pub record Increased (state next : PositionState) (added : Quantity) (cost fee : Money)
    : Type 0 where
  pub quantity : next.quantity.units ≡ state.quantity.units +ℤ added.units
  pub cost_basis : next.cost_basis.units ≡ state.cost_basis.units +ℤ cost.units
  pub entry_fee : next.entry_fee.units ≡ state.entry_fee.units +ℤ fee.units
  pub opened_at : next.entry_timestamp ≡ state.entry_timestamp

increased_inv :
    (price : Price) (added : Quantity) (cost fee : Money) (strategy_id : String)
    (state : PositionState) {next : PositionState}
    → increased price added cost fee strategy_id state ≡ done next
    → Increased state next added cost fee × (next.last_mark_price ≡ price)
unfolding increased
increased_inv price added cost fee strategy_id state e =
    let (quantity, e1, k1) = value_done _ _ _ e in
    let (basis, e2, k2) = value_done _ _ _ k1 in
    let (fees, e3, k3) = value_done _ _ _ k2 in
    let (average, e4, k4) = value_done _ _ _ k3 in
    subst (λ (t : PositionState). Increased state t added cost fee × (t.last_mark_price ≡ price))
      (done_inv k4)
      (
        record {
          quantity = add_inv state.quantity added e1;
          cost_basis = add_inv state.cost_basis cost e2;
          entry_fee = add_inv state.entry_fee fee e3;
          opened_at = refl;
        },
        refl,
      )

more : (a b c : ℤ) → pos 0 <ℤ a → pos 0 <ℤ b → c ≡ a +ℤ b → pos 0 <ℤ c
unfolding ◌+ℤ◌
more a b c h k e = ground arith

no_less : (a b c : ℤ) → pos 0 ≤ℤ a → pos 0 ≤ℤ b → c ≡ a +ℤ b → pos 0 ≤ℤ c
unfolding ◌+ℤ◌
no_less a b c h k e = ground arith

-- The purchase of more of an open position.
pub record Added (F : Doubles) (symbol : String) (state : PositionState) (p q : PortfolioManager F)
    : Type 0 where
  pub next : PositionState
  pub added : Quantity
  pub cost : Money
  pub fee : Money
  pub debit : Money
  pub bought : Purchased F symbol next debit fee p q
  pub increased : Increased state next added cost fee
  pub more : pos 0 <ℤ added.units
  pub worth : notional next.last_mark_price added nearest ≡ some cost
  pub positive_cost : pos 0 <ℤ cost.units
  pub total : debit.units ≡ cost.units +ℤ fee.units
  pub paid : ltb_ℤ p.cash.units debit.units ≡ false
  pub charged : pos 0 ≤ℤ fee.units
  pub mark : pos 0 <ℤ next.last_mark_price.units

pub add_to_position_lem :
    (F : Doubles) (symbol : String) (net_price quantity fee capital_to_commit : F.Double)
    (strategy_id : String) (state : PositionState) (p : PortfolioManager F) {q : PortfolioManager F}
    → add_to_position F symbol net_price quantity fee capital_to_commit strategy_id state p ≡ done q
    → Added F symbol state p q
unfolding add_to_position
add_to_position_lem F symbol net_price quantity fee capital_to_commit strategy_id state p e =
    let (signs, k1) = refuse_done _ _ _ e in
    let (paid, e2, k2) = bind_done _ _ k1 in
    let (added, e3, k3) = value_done _ _ _ k2 in
    let (up, k4) = refuse_done _ _ _ k3 in
    let (amounts, e5, k5) = bind_done _ _ k4 in
    let (worth, k6) = refuse_done _ _ _ k5 in
    let (covered, k7) = refuse_done _ _ _ k6 in
    let (within, k8) = refuse_done _ _ _ k7 in
    let (next, e9, k9) = bind_done _ _ k8 in
    let (up_price, low_fee) = price_and_fee_inv F net_price fee e2 in
    let debit = entry_debit_inv paid.0 added paid.1 e5 in
    let (larger, at_price) = increased_inv paid.0 added amounts.0 paid.1 strategy_id state e9 in
    record {
      next = next;
      added = added;
      cost = amounts.0;
      fee = paid.1;
      debit = amounts.1;
      bought = commit_purchase_inv F symbol next amounts.1 paid.1 p k9;
      increased = larger;
      more = positive_lt added.units (not_inv _ up);
      worth =
          subst (λ (t : Price). notional t added nearest ≡ some amounts.0) (sym at_price)
            debit.cost;
      positive_cost = positive_lt amounts.0.units (not_inv _ worth);
      total = debit.total;
      paid = covered;
      charged = negative_le paid.1.units low_fee;
      mark =
          subst (λ (t : Price). pos 0 <ℤ t.units) (sym at_price)
            (positive_lt paid.0.units up_price);
    }

pub Added-IsHeld :
    {F : Doubles} {symbol : String} {state : PositionState} {p q : PortfolioManager F}
    → (a : Added F symbol state p q) → IsHeld state
    → IsHeld a.next
Added-IsHeld {F} {symbol} {state} a h = record {
  quantity =
      more state.quantity.units a.added.units a.next.quantity.units h.quantity a.more
        a.increased.quantity;
  cost =
      no_less state.cost_basis.units a.cost.units a.next.cost_basis.units h.cost
        (ground (arith, a.positive_cost)) a.increased.cost_basis;
  mark = a.mark;
}
