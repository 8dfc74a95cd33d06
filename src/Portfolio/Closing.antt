-- ===== src/Portfolio/Closing.antt =====
-- `closePosition` of engine/src/PortfolioManager.cpp.
use mynyra.Prelude.{
  ℕ, Bool, true, false, not, ◌&&◌, ◌||◌, String, List, [], ◌∷◌, ◌++◌, is_empty, if◌then◌else◌,
}
use mynyra.Prelude.Int.{pos, ◌+ℤ◌, ltb_ℤ}
use mynyra.Prelude.Dictionary.{find, assign, remove}
use mynyra.Financial.Units.{Rounding, Price, Quantity, Money, positive, negative, zero_units}
use mynyra.Financial.Values.{add, subtract, notional, average_price, proportional}
use mynyra.Doubles.{Doubles}
use mynyra.Doubles.Conversions.{quantity_of}
use mynyra.Portfolio.Outcomes.{
  Exception, Outcome, done, ◌>>=◌, ◌>>◌, refuse, value_or_throw, require_value,
}
use mynyra.Portfolio.State.{PositionState, TradeRecord, PortfolioManager, is_full, value_double}
use mynyra.Portfolio.Valuing.{nearest, value_state, commit_valuation, if_found}
use mynyra.Portfolio.Opening.{above_zero, below_zero, price_and_fee}

unfoldable pub given_quantity : (F : Doubles) → F.Double → Quantity → Outcome Quantity
given_quantity F explicit_quantity held = do
  quantity ←
      value_or_throw (quantity_of F explicit_quantity Rounding.reject_unaligned)
        Exception.invalid_argument
  refuse (not (positive quantity.units)) Exception.invalid_argument
  refuse (ltb_ℤ held.units quantity.units) Exception.logic_error
  done quantity

-- The quantity to close: what is held, unless a quantity is given.
unfoldable pub close_quantity : (F : Doubles) → F.Double → Quantity → Outcome Quantity
close_quantity F explicit_quantity held =
    if above_zero F explicit_quantity then given_quantity F explicit_quantity held else done held

-- The amounts of a sale.
pub record Sale : Type 0 where
  pub net_proceeds : Money
  pub allocated_cost : Money
  pub allocated_entry_fee : Money
  pub gross_pnl : Money
  pub realized_pnl : Money
  pub trade_fees : Money

unfoldable pub sale_of : PositionState → Price → Money → Quantity → Outcome Sale
sale_of prior price exit_fee quantity = do
  gross_proceeds ← require_value (notional price quantity nearest)
  net_proceeds ← value_or_throw (subtract gross_proceeds exit_fee) Exception.logic_error
  refuse (negative net_proceeds.units) Exception.logic_error
  allocated_cost ← require_value (proportional prior.cost_basis quantity prior.quantity nearest)
  allocated_entry_fee ← require_value (proportional prior.entry_fee quantity prior.quantity nearest)
  gross_pnl ← require_value (subtract gross_proceeds allocated_cost)
  after_exit_fee ← require_value (subtract gross_pnl exit_fee)
  realized_pnl ← require_value (subtract after_exit_fee allocated_entry_fee)
  trade_fees ← require_value (add exit_fee allocated_entry_fee)
  done (record {
    net_proceeds = net_proceeds;
    allocated_cost = allocated_cost;
    allocated_entry_fee = allocated_entry_fee;
    gross_pnl = gross_pnl;
    realized_pnl = realized_pnl;
    trade_fees = trade_fees;
  })

unfoldable pub trade_record :
    (F : Doubles) → String → ℕ → String → PositionState → Price → Quantity → Sale → TradeRecord F
trade_record F symbol timestamp strategy_id prior price quantity sale = record {
  symbol = symbol;
  open_timestamp = prior.entry_timestamp;
  close_timestamp = timestamp;
  entry_price = value_double F prior.average_entry_price;
  exit_price = value_double F price;
  quantity = value_double F quantity;
  total_fees = value_double F sale.trade_fees;
  realized_pnl = value_double F sale.realized_pnl;
  gross_pnl = value_double F sale.gross_pnl;
  strategy_id = if is_empty strategy_id then prior.strategy_id else strategy_id;
}

-- The position that a sale leaves open.
unfoldable pub reduced : Price → Quantity → Sale → PositionState → Outcome PositionState
reduced price remaining sale prior = do
  cost_basis ← require_value (subtract prior.cost_basis sale.allocated_cost)
  entry_fee ← require_value (subtract prior.entry_fee sale.allocated_entry_fee)
  average ← require_value (average_price cost_basis remaining nearest)
  done (record prior {
    quantity = remaining;
    cost_basis = cost_basis;
    entry_fee = entry_fee;
    average_entry_price = average;
    last_mark_price = price;
  })

-- The positions after a sale, and whether it closes the position.
unfoldable pub positions_after :
    String
    → Price
    → Quantity
    → Sale
    → PositionState
    → List (String × PositionState)
    → Outcome (Bool × List (String × PositionState))
positions_after symbol price quantity sale prior positions = do
  remaining ← require_value (subtract prior.quantity quantity)
  if zero_units remaining.units
      then done (true, remove symbol positions)
      else do next ← reduced price remaining sale prior; done (false, assign symbol next positions)

unfoldable pub commit_sale :
    (F : Doubles)
    → Sale
    → Money
    → TradeRecord F
    → Bool × List (String × PositionState)
    → PortfolioManager F
    → Outcome (PortfolioManager F)
commit_sale F sale exit_fee trade (closed, next_positions) p = do
  next_cash ← require_value (add p.cash sale.net_proceeds)
  next_fees ← require_value (add p.total_fees_paid exit_fee)
  valuation ← require_value (value_state F p next_cash next_positions)
  refuse (is_full p.trade_count) Exception.overflow_error
  refuse (closed && is_full p.round_trip_count) Exception.overflow_error
  done (
      commit_valuation F valuation (record p {
        cash = next_cash;
        positions = next_positions;
        total_fees_paid = next_fees;
        trade_log = p.trade_log ++ trade ∷ [];
        trade_count = p.trade_count +ℤ pos 1;
        round_trip_count = if closed then p.round_trip_count +ℤ pos 1 else p.round_trip_count;
      }))

unfoldable pub close_held :
    (F : Doubles)
    → String
    → F.Double
    → ℕ
    → F.Double
    → String
    → F.Double
    → PositionState
    → PortfolioManager F
    → Outcome (PortfolioManager F)
close_held F symbol net_price timestamp fee strategy_id explicit_quantity prior p = do
  refuse (below_zero F explicit_quantity || below_zero F fee) Exception.invalid_argument
  paid ← price_and_fee F net_price fee
  quantity ← close_quantity F explicit_quantity prior.quantity
  sale ← sale_of prior paid.0 paid.1 quantity
  after ← positions_after symbol paid.0 quantity sale prior p.positions
  commit_sale F sale paid.1 (trade_record F symbol timestamp strategy_id prior paid.0 quantity sale)
      after p

unfoldable pub close_position :
    (F : Doubles)
    → String
    → F.Double
    → ℕ
    → F.Double
    → String
    → F.Double
    → PortfolioManager F
    → Outcome (PortfolioManager F)
close_position F symbol net_price timestamp fee strategy_id explicit_quantity p =
    if_found (find symbol p.positions) (done p)
      λ prior. close_held F symbol net_price timestamp fee strategy_id explicit_quantity prior p
