-- ===== src/Portfolio/Opening.antt =====
-- `openLong` and `addToLong` of engine/src/PortfolioManager.cpp.
use mynyra.Prelude.{
  ℕ, Bool, true, false, not, ◌&&◌, ◌||◌, Option, none, some, String, is_empty, if◌then◌else◌,
}
use mynyra.Prelude.Int.{pos, ◌+ℤ◌, ltb_ℤ}
use mynyra.Prelude.Dictionary.{find, assign}
use mynyra.Financial.Units.{Rounding, Price, Quantity, Money, positive, negative}
use mynyra.Financial.Values.{add, subtract, notional, average_price, quantity_for_notional}
use mynyra.Doubles.{Doubles, zero_double}
use mynyra.Doubles.Conversions.{price_of, quantity_of, money_of}
use mynyra.Portfolio.Outcomes.{
  Exception, Outcome, done, ◌>>=◌, ◌>>◌, refuse, value_or_throw, require_value,
}
use mynyra.Portfolio.State.{PositionState, PortfolioManager, is_full}
use mynyra.Portfolio.Valuing.{nearest, value_state, commit_valuation, if_found}

-- `0.0 < x` and `x < 0.0`.
abbrev pub above_zero : (F : Doubles) → F.Double → Bool
above_zero F x = F.lt (zero_double F) x

abbrev pub below_zero : (F : Doubles) → F.Double → Bool
below_zero F x = F.lt x (zero_double F)

-- A price and a fee that the accounting can use.
unfoldable pub price_and_fee : (F : Doubles) → F.Double → F.Double → Outcome (Price × Money)
price_and_fee F net_price fee = do
  price ← value_or_throw (price_of F net_price nearest) Exception.invalid_argument
  refuse (not (positive price.units)) Exception.invalid_argument
  fee_paid ← value_or_throw (money_of F fee nearest) Exception.invalid_argument
  refuse (negative fee_paid.units) Exception.invalid_argument
  done (price, fee_paid)

unfoldable pub capital_budget : (F : Doubles) → Money → F.Double → Outcome Money
capital_budget F cash capital_to_commit = do
  budget ← value_or_throw (money_of F capital_to_commit nearest) Exception.invalid_argument
  refuse (not (positive budget.units) || ltb_ℤ cash.units budget.units) Exception.invalid_argument
  done budget

unfoldable pub budget_for : (F : Doubles) → Money → F.Double → Outcome Money
budget_for F cash capital_to_commit =
    if above_zero F capital_to_commit then capital_budget F cash capital_to_commit else done cash

-- The notional of a quantity, and the notional with the fee.
unfoldable pub entry_debit : Price → Quantity → Money → Outcome (Money × Money)
entry_debit price quantity entry_fee = do
  cost_basis ← require_value (notional price quantity nearest)
  debit ← require_value (add cost_basis entry_fee)
  done (cost_basis, debit)

unfoldable pub explicit_entry :
    (F : Doubles) → F.Double → Price → Money → Money → Outcome (Quantity × Money × Money)
explicit_entry F explicit_units price entry_fee budget = do
  quantity ←
      value_or_throw (quantity_of F explicit_units Rounding.toward_zero) Exception.invalid_argument
  refuse (not (positive quantity.units)) Exception.invalid_argument
  amounts ← entry_debit price quantity entry_fee
  refuse (ltb_ℤ budget.units amounts.1.units) Exception.logic_error
  done (quantity, amounts.0, amounts.1)

unfoldable pub affordable_entry : Price → Money → Money → Outcome (Quantity × Money × Money)
affordable_entry price entry_fee budget = do
  notional_budget ← value_or_throw (subtract budget entry_fee) Exception.logic_error
  refuse (not (positive notional_budget.units)) Exception.logic_error
  quantity ←
      value_or_throw (quantity_for_notional notional_budget price Rounding.toward_zero)
        Exception.logic_error
  refuse (not (positive quantity.units)) Exception.logic_error
  amounts ← entry_debit price quantity entry_fee
  done (quantity, amounts.0, amounts.1)

unfoldable pub entry_for :
    (F : Doubles) → F.Double → Price → Money → Money → Outcome (Quantity × Money × Money)
entry_for F explicit_units price entry_fee budget =
    if above_zero F explicit_units
    then explicit_entry F explicit_units price entry_fee budget
    else affordable_entry price entry_fee budget

-- The purchase of a position that stands in the map as `state`, for a debit with its fee: what
-- `openLong` and `addToLong` both end with.
unfoldable pub commit_purchase :
    (F : Doubles)
    → String
    → PositionState
    → Money
    → Money
    → PortfolioManager F
    → Outcome (PortfolioManager F)
commit_purchase F symbol state debit fee_paid p = do
  next_cash ← require_value (subtract p.cash debit)
  next_fees ← require_value (add p.total_fees_paid fee_paid)
  let next_positions = assign symbol state p.positions
  valuation ← require_value (value_state F p next_cash next_positions)
  refuse (is_full p.trade_count) Exception.overflow_error
  done (
      commit_valuation F valuation (record p {
        cash = next_cash;
        positions = next_positions;
        total_fees_paid = next_fees;
        trade_count = p.trade_count +ℤ pos 1;
      }))

unfoldable pub open_entry :
    (F : Doubles)
    → String
    → ℕ
    → String
    → Price
    → Money
    → Quantity × Money × Money
    → PortfolioManager F
    → Outcome (PortfolioManager F)
open_entry F symbol timestamp strategy_id price entry_fee (quantity, cost_basis, debit) p = do
  refuse (ltb_ℤ p.cash.units debit.units) Exception.logic_error
  refuse (not (positive cost_basis.units)) Exception.logic_error
  average_entry ← require_value (average_price cost_basis quantity nearest)
  let state : PositionState = record {
    quantity = quantity;
    average_entry_price = average_entry;
    cost_basis = cost_basis;
    last_mark_price = price;
    entry_timestamp = timestamp;
    entry_fee = entry_fee;
    strategy_id = strategy_id;
  }
  commit_purchase F symbol state debit entry_fee p

abbrev pub is_there {ℓ} : {A : Type ℓ} → Option A → Bool
is_there none = false
is_there (some a) = true

unfoldable pub open_long :
    (F : Doubles)
    → String
    → F.Double
    → ℕ
    → F.Double
    → F.Double
    → F.Double
    → String
    → PortfolioManager F
    → Outcome (PortfolioManager F)
open_long F symbol net_price timestamp fee capital_to_commit explicit_units strategy_id p = do
  refuse (is_empty symbol) Exception.invalid_argument
  refuse (is_there (find symbol p.positions)) Exception.logic_error
  refuse (below_zero F explicit_units || below_zero F capital_to_commit || below_zero F fee)
      Exception.invalid_argument
  paid ← price_and_fee F net_price fee
  budget ← budget_for F p.cash capital_to_commit
  entry ← entry_for F explicit_units paid.0 paid.1 budget
  open_entry F symbol timestamp strategy_id paid.0 paid.1 entry p

-- The position with what is added to it.
unfoldable pub increased :
    Price → Quantity → Money → Money → String → PositionState → Outcome PositionState
increased price added_quantity added_cost added_fee strategy_id state = do
  quantity ← require_value (add state.quantity added_quantity)
  cost_basis ← require_value (add state.cost_basis added_cost)
  entry_fee ← require_value (add state.entry_fee added_fee)
  average ← require_value (average_price cost_basis quantity nearest)
  done (record state {
    quantity = quantity;
    cost_basis = cost_basis;
    entry_fee = entry_fee;
    average_entry_price = average;
    last_mark_price = price;
    strategy_id = if is_empty strategy_id then state.strategy_id else strategy_id;
  })

abbrev pub exceeds : Money → Option Money → Bool
exceeds debit none = true
exceeds debit (some budget) = negative budget.units || ltb_ℤ budget.units debit.units

unfoldable pub exceeds_budget : (F : Doubles) → F.Double → Money → Bool
exceeds_budget F capital_to_commit debit =
    above_zero F capital_to_commit && exceeds debit (money_of F capital_to_commit nearest)

unfoldable pub add_to_position :
    (F : Doubles)
    → String
    → F.Double
    → F.Double
    → F.Double
    → F.Double
    → String
    → PositionState
    → PortfolioManager F
    → Outcome (PortfolioManager F)
add_to_position F symbol net_price quantity fee capital_to_commit strategy_id state p = do
  refuse (F.le quantity (zero_double F) || below_zero F fee || below_zero F capital_to_commit)
      Exception.invalid_argument
  paid ← price_and_fee F net_price fee
  added ← value_or_throw (quantity_of F quantity Rounding.toward_zero) Exception.invalid_argument
  refuse (not (positive added.units)) Exception.invalid_argument
  amounts ← entry_debit paid.0 added paid.1
  refuse (not (positive amounts.0.units)) Exception.logic_error
  refuse (ltb_ℤ p.cash.units amounts.1.units) Exception.logic_error
  refuse (exceeds_budget F capital_to_commit amounts.1) Exception.logic_error
  next ← increased paid.0 added amounts.0 paid.1 strategy_id state
  commit_purchase F symbol next amounts.1 paid.1 p

-- What `addToLong` gives `openLong` as a budget where no position is open.
abbrev pub budget_or_cost : (F : Doubles) → F.Double → F.Double → F.Double → F.Double → F.Double
budget_or_cost F capital_to_commit quantity net_price fee =
    if above_zero F capital_to_commit
    then capital_to_commit
    else F.add (F.mul quantity net_price) fee

unfoldable pub add_to_long :
    (F : Doubles)
    → String
    → F.Double
    → F.Double
    → F.Double
    → F.Double
    → String
    → PortfolioManager F
    → Outcome (PortfolioManager F)
add_to_long F symbol net_price quantity fee capital_to_commit strategy_id p =
    if_found (find symbol p.positions)
      (open_long F symbol net_price 0 fee
        (budget_or_cost F capital_to_commit quantity net_price fee) quantity strategy_id p)
      λ state. add_to_position F symbol net_price quantity fee capital_to_commit strategy_id state p
