-- ===== src/Portfolio/State.antt =====
-- The data of engine/include/PortfolioManager.hpp.
use mynyra.Prelude.{ℕ, ◌^◌, ◌-◌, Bool, String, List, []}
use mynyra.Prelude.Int.{ℤ, pos, eq_ℤ}
use mynyra.Financial.Units.{Tag, Value, Price, Quantity, Money, scale_factor}
use mynyra.Doubles.{Doubles, zero_double}

pub data OrderType : Type 0 where
  market limit stop_loss trailing_stop : OrderType

pub record OrderRecord (F : Doubles) : Type 0 where
  pub symbol : String
  pub order_type : OrderType
  pub is_buy : Bool
  pub limit_price : F.Double
  pub trail_offset : F.Double
  pub trail_best : F.Double
  pub quantity : F.Double
  pub capital_to_commit : F.Double
  pub placed_timestamp : ℕ
  pub order_id : ℕ

pub record OrderFillResult (F : Doubles) : Type 0 where
  pub order_id : ℕ
  pub filled : Bool
  pub symbol : String
  pub order_type : OrderType
  pub is_buy : Bool
  pub fill_price : F.Double
  pub quantity : F.Double
  pub capital_to_commit : F.Double
  pub fill_timestamp : ℕ

pub record TradeRecord (F : Doubles) : Type 0 where
  pub symbol : String
  pub open_timestamp : ℕ
  pub close_timestamp : ℕ
  pub entry_price : F.Double
  pub exit_price : F.Double
  pub quantity : F.Double
  pub total_fees : F.Double
  pub realized_pnl : F.Double
  pub gross_pnl : F.Double
  pub strategy_id : String

pub record PositionState : Type 0 where
  pub quantity : Quantity
  pub average_entry_price : Price
  pub cost_basis : Money
  pub last_mark_price : Price
  pub entry_timestamp : ℕ
  pub entry_fee : Money
  pub strategy_id : String

pub record Valuation (F : Doubles) : Type 0 where
  pub unrealized_pnl : Money
  pub total_equity : Money
  pub max_equity : Money
  pub current_drawdown : F.Double
  pub max_drawdown : F.Double

-- The counters are of the type `int`, and the numbers of orders of `uint64_t`.
pub record PortfolioManager (F : Doubles) : Type 0 where
  pub cash : Money
  pub positions : List (String × PositionState)
  pub unrealized_pnl : Money
  pub total_equity : Money
  pub max_equity : Money
  pub current_drawdown : F.Double
  pub max_drawdown : F.Double
  pub trade_count : ℤ
  pub total_fees_paid : Money
  pub trade_log : List (TradeRecord F)
  pub round_trip_count : ℤ
  pub pending_orders : List (OrderRecord F)
  pub next_order_id : ℕ

abbrev pub starting_cash : Money
starting_cash = record { units = pos 10_000_000_000_000 }

abbrev pub no_money : Money
no_money = record { units = pos 0 }

abbrev pub new_portfolio : (F : Doubles) → PortfolioManager F
new_portfolio F = record {
  cash = starting_cash;
  positions = [];
  unrealized_pnl = no_money;
  total_equity = starting_cash;
  max_equity = starting_cash;
  current_drawdown = zero_double F;
  max_drawdown = zero_double F;
  trade_count = pos 0;
  total_fees_paid = no_money;
  trade_log = [];
  round_trip_count = pos 0;
  pending_orders = [];
  next_order_id = 1;
}

-- `Value::toDouble`.
unfoldable pub value_double : (F : Doubles) → {tag : Tag} → Value tag → F.Double
value_double F v = F.div (F.of_int v.units) (F.of_int (pos scale_factor))

abbrev pub is_full : ℤ → Bool
is_full counter = eq_ℤ counter (pos (2 ^ 31 - 1))
