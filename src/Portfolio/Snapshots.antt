-- ===== src/Portfolio/Snapshots.antt =====
-- `snapshotState` and `restoreState` of engine/src/PortfolioManager.cpp.
use Prim.Native.String.{compare}
use Prim.Native.Nat.{Ordering}
use mynyra.Prelude.{
  ℕ, Bool, true, false, not, ◌||◌, Option, String, is_empty, List, [], ◌∷◌, map, if◌then◌else◌,
}
use mynyra.Prelude.Int.{ℤ, pos, eq_ℤ}
use mynyra.Prelude.Dictionary.{find, assign}
use mynyra.Financial.Units.{Rounding, Tag, Value, Money, positive, negative}
use mynyra.Financial.Values.{average_price}
use mynyra.Doubles.{Doubles, zero_double}
use mynyra.Doubles.Conversions.{price_of, quantity_of, money_of}
use mynyra.Portfolio.Outcomes.{
  Exception, Outcome, done, ◌>>=◌, ◌>>◌, refuse, value_or_throw, require_value,
}
use mynyra.Portfolio.State.{
  OrderRecord, TradeRecord, PositionState, Valuation, PortfolioManager, value_double, new_portfolio,
}
use mynyra.Portfolio.Valuing.{nearest, value_state}
use mynyra.Portfolio.Opening.{is_there}

pub record Position (F : Doubles) : Type 0 where
  pub symbol : String
  pub quantity : F.Double
  pub entry_price : F.Double
  pub is_long : Bool

pub record PositionSnapshot (F : Doubles) : Type 0 where
  pub position : Position F
  pub entry_timestamp : ℕ
  pub entry_fee : F.Double
  pub cost_basis : F.Double
  pub last_mark_price : F.Double
  pub strategy_id : String

pub record Snapshot (F : Doubles) : Type 0 where
  pub cash : F.Double
  pub positions : List (PositionSnapshot F)
  pub unrealized_pnl : F.Double
  pub total_equity : F.Double
  pub max_equity : F.Double
  pub current_drawdown : F.Double
  pub max_drawdown : F.Double
  pub trade_count : ℤ
  pub total_fees_paid : F.Double
  pub trade_log : List (TradeRecord F)
  pub round_trip_count : ℤ
  pub pending_orders : List (OrderRecord F)
  pub next_order_id : ℕ

abbrev pub position_snapshot : (F : Doubles) → String × PositionState → PositionSnapshot F
position_snapshot F (symbol, state) = record {
  position = record {
    symbol = symbol;
    quantity = value_double F state.quantity;
    entry_price = value_double F state.average_entry_price;
    is_long = true;
  };
  entry_timestamp = state.entry_timestamp;
  entry_fee = value_double F state.entry_fee;
  cost_basis = value_double F state.cost_basis;
  last_mark_price = value_double F state.last_mark_price;
  strategy_id = state.strategy_id;
}

abbrev pub comes_before : String → String → Bool
comes_before a b = elim (compare a b) [ Ordering.lt ↦ true | _ ↦ false ]

-- The symbols of a map are distinct, so each sort gives the same list.
unfoldable pub insert_sorted :
    (F : Doubles) → PositionSnapshot F → List (PositionSnapshot F) → List (PositionSnapshot F)
insert_sorted F s [] = s ∷ []
insert_sorted F s (t ∷ rest) =
    if comes_before t.position.symbol s.position.symbol
    then t ∷ insert_sorted F s rest
    else s ∷ t ∷ rest

unfoldable pub sort_positions :
    (F : Doubles) → List (PositionSnapshot F) → List (PositionSnapshot F)
sort_positions F [] = []
sort_positions F (s ∷ rest) = insert_sorted F s (sort_positions F rest)

unfoldable pub snapshot_state : (F : Doubles) → PortfolioManager F → Snapshot F
snapshot_state F p = record {
  cash = value_double F p.cash;
  positions = sort_positions F (map (position_snapshot F) p.positions);
  unrealized_pnl = value_double F p.unrealized_pnl;
  total_equity = value_double F p.total_equity;
  max_equity = value_double F p.max_equity;
  current_drawdown = p.current_drawdown;
  max_drawdown = p.max_drawdown;
  trade_count = p.trade_count;
  total_fees_paid = value_double F p.total_fees_paid;
  trade_log = p.trade_log;
  round_trip_count = p.round_trip_count;
  pending_orders = p.pending_orders;
  next_order_id = p.next_order_id;
}

-- An amount that a snapshot holds, with a test that refuses it.
unfoldable pub persisted : {tag : Tag} → Option (Value tag) → (ℤ → Bool) → Outcome (Value tag)
persisted amount refused = do
  value ← value_or_throw amount Exception.invalid_argument
  refuse (refused value.units) Exception.invalid_argument
  done value

abbrev pub not_positive : ℤ → Bool
not_positive u = not (positive u)

unfoldable pub restore_position : (F : Doubles) → PositionSnapshot F → Outcome PositionState
restore_position F s = do
  refuse (is_empty s.position.symbol || not s.position.is_long) Exception.invalid_argument
  quantity ← persisted (quantity_of F s.position.quantity Rounding.reject_unaligned) not_positive
  average ← persisted (price_of F s.position.entry_price Rounding.reject_unaligned) not_positive
  entry_fee ← persisted (money_of F s.entry_fee Rounding.reject_unaligned) negative
  cost_basis ← persisted (money_of F s.cost_basis Rounding.reject_unaligned) not_positive
  last_mark ← persisted (price_of F s.last_mark_price Rounding.reject_unaligned) not_positive
  derived ← value_or_throw (average_price cost_basis quantity nearest) Exception.invalid_argument
  refuse (not (eq_ℤ derived.units average.units)) Exception.invalid_argument
  done (record {
    quantity = quantity;
    average_entry_price = average;
    cost_basis = cost_basis;
    last_mark_price = last_mark;
    entry_timestamp = s.entry_timestamp;
    entry_fee = entry_fee;
    strategy_id = s.strategy_id;
  })

unfoldable pub restore_positions :
    (F : Doubles)
    → List (PositionSnapshot F)
    → List (String × PositionState)
    → Outcome (List (String × PositionState))
restore_positions F [] positions = done positions
restore_positions F (s ∷ rest) positions = do
  state ← restore_position F s
  refuse (is_there (find s.position.symbol positions)) Exception.invalid_argument
  restore_positions F rest (assign s.position.symbol state positions)

-- `std::fabs(a - b) > 1e-12`.
abbrev pub magnitude_of : (F : Doubles) → F.Double → F.Double
magnitude_of F x = if F.lt x (zero_double F) then F.sub (zero_double F) x else x

abbrev pub differs : (F : Doubles) → F.Double → F.Double → Bool
differs F a b = F.lt (F.literal (pos 1) 12) (magnitude_of F (F.sub a b))

unfoldable pub is_inconsistent :
    (F : Doubles) → Valuation F → Money → Money → Money → Snapshot F → Bool
is_inconsistent F v unrealized equity max_equity s =
    not (eq_ℤ v.unrealized_pnl.units unrealized.units)
    || not (eq_ℤ v.total_equity.units equity.units)
    || not (eq_ℤ v.max_equity.units max_equity.units)
    || differs F v.current_drawdown s.current_drawdown
    || differs F v.max_drawdown s.max_drawdown

any_sign : ℤ → Bool
any_sign u = false

unfoldable pub restore_state :
    (F : Doubles) → Snapshot F → PortfolioManager F → Outcome (PortfolioManager F)
unfolding any_sign
restore_state F s p = do
  cash ← persisted (money_of F s.cash Rounding.reject_unaligned) negative
  unrealized ← persisted (money_of F s.unrealized_pnl Rounding.reject_unaligned) any_sign
  equity ← persisted (money_of F s.total_equity Rounding.reject_unaligned) negative
  max_equity ← persisted (money_of F s.max_equity Rounding.reject_unaligned) negative
  fees ← persisted (money_of F s.total_fees_paid Rounding.reject_unaligned) negative
  positions ← restore_positions F s.positions []
  let candidate : PortfolioManager F = record (new_portfolio F) {
    max_equity = max_equity;
    max_drawdown = s.max_drawdown;
  }
  valuation ← require_value (value_state F candidate cash positions)
  refuse (is_inconsistent F valuation unrealized equity max_equity s) Exception.invalid_argument
  done (record {
    cash = cash;
    positions = positions;
    unrealized_pnl = unrealized;
    total_equity = equity;
    max_equity = max_equity;
    current_drawdown = s.current_drawdown;
    max_drawdown = s.max_drawdown;
    trade_count = s.trade_count;
    total_fees_paid = fees;
    trade_log = s.trade_log;
    round_trip_count = s.round_trip_count;
    pending_orders = s.pending_orders;
    next_order_id = s.next_order_id;
  })
