-- ===== src/Portfolio/Tests.antt =====
-- The theorems of the portfolio at concrete accounts.
use mynyra.Prelude.{ℕ, length, ◌+◌, ◌≤◌, ◌≡◌, refl, false, some, List, [], ◌∷◌, All, arith}
use mynyra.Prelude.Int.{pos, ◌+ℤ◌, ◌-ℤ◌}
use mynyra.Prelude.Dictionary.{find, assign, remove}
use mynyra.Financial.Wide.{
  multiply_wide, divide_wide, divide_rounds, bit_at, set_bit, shift_in, fits,
}
use mynyra.Financial.Units.{
  round_quotient, to_signed, signed_quotient, checked_add, checked_subtract, scaled_product,
  scaled_ratio, proportional_units,
}
use mynyra.Financial.Values.{
  add, subtract, notional, average_price, proportional, quantity_for_notional,
}
use mynyra.Doubles.Fixed.{fixed}
use mynyra.Doubles.Conversions.{round_extended, normalize, normalized}
use mynyra.Portfolio.Outcomes.{done, ◌>>=◌, ◌>>◌, refuse, value_or_throw}
use mynyra.Portfolio.State.{
  OrderType, OrderRecord, PositionState, PortfolioManager, new_portfolio, value_double,
}
use mynyra.Portfolio.Valuing.{value_positions, value_state, drawdown_of}
use mynyra.Portfolio.Opening.{
  open_long, price_and_fee, budget_for, capital_budget, entry_for, explicit_entry, affordable_entry,
  entry_debit, open_entry, commit_purchase,
}
use mynyra.Portfolio.Closing.{
  close_position, close_held, close_quantity, given_quantity, sale_of, positions_after, reduced,
  commit_sale, trade_record,
}
use mynyra.Portfolio.Pending.{
  Candle, evaluate_pending_orders, evaluate_orders, place_pending_order, is_refused,
  normalized_order, followed, trailed, triggered, trigger_price, fill_of, fill_result,
}
use mynyra.Portfolio.Snapshots.{
  restore_state, snapshot_state, restore_positions, restore_position, persisted, is_inconsistent,
  sort_positions, insert_sorted,
}
use mynyra.Portfolio.Restoring.{IsRestored, restore_state-IsRestored}
use mynyra.Portfolio.Books.{book_value}
use mynyra.Portfolio.Conservation.{attempt-keeps_book, Realized, close_position-realizes}
use mynyra.Portfolio.Holdings.{Sold, close_position_lem}
use mynyra.Portfolio.Queue.{fills_of, orders_of}
use mynyra.Portfolio.Filling.{run_fills, reported, IsDue, IsKept, evaluate_pending_orders_lem}
use mynyra.Portfolio.Once.{run_fills_once}
use mynyra.Portfolio.Calls.{
  Call, opens, adds, closes, marks, places, cancels, evaluates, is_restore, attempt, settle, run,
}
use mynyra.Portfolio.Purchases.{IsSolvent}
use mynyra.Portfolio.Solvency.{run_new-IsSolvent}

abbrev buy : Call fixed
buy = opens "XAUUSD" (pos 20_000_000) 100 (pos 10_000) (pos 0) (pos 10_000) "SMA_01"

abbrev order : OrderRecord fixed
order = record {
  symbol = "XAUUSD";
  order_type = OrderType.trailing_stop;
  is_buy = false;
  limit_price = pos 19_000_000;
  trail_offset = pos 500_000;
  trail_best = pos 0;
  quantity = pos 10_000;
  capital_to_commit = pos 0;
  placed_timestamp = 100;
  order_id = 0;
}

abbrev candle : Candle fixed
candle = record {
  high = pos 22_000_000;
  low = pos 20_000_000;
  close = pos 21_000_000;
  timestamp = 200;
}

abbrev calls : List (Call fixed)
calls =
    buy
    ∷ adds "XAUUSD" (pos 21_000_000) (pos 10_000) (pos 10_000) (pos 0) ""
    ∷ places order
    ∷ marks "XAUUSD" (pos 22_000_000)
    ∷ evaluates "XAUUSD" candle
    ∷ closes "XAUUSD" (pos 20_500_000) 300 (pos 10_000) "" (pos 10_000)
    ∷ cancels 7
    ∷ []

run_new-IsSolvent_example : IsSolvent fixed (run fixed calls (new_portfolio fixed))
run_new-IsSolvent_example = run_new-IsSolvent fixed calls

bought : PortfolioManager fixed
bought = settle fixed (new_portfolio fixed) (attempt fixed buy (new_portfolio fixed))

buy_bought : attempt fixed buy (new_portfolio fixed) ≡ done bought
unfolding bought attempt settle open_long price_and_fee budget_for capital_budget entry_for
    explicit_entry affordable_entry entry_debit open_entry commit_purchase value_state
    value_positions drawdown_of ◌>>=◌ ◌>>◌ refuse value_or_throw find assign normalized normalize
    round_extended add subtract notional average_price quantity_for_notional checked_add
    checked_subtract scaled_product scaled_ratio signed_quotient to_signed round_quotient
    multiply_wide divide_wide divide_rounds bit_at set_bit shift_in fits ◌+ℤ◌ ◌-ℤ◌ value_double
buy_bought = refl

attempt-keeps_book_example : book_value fixed bought ≡ book_value fixed (new_portfolio fixed)
attempt-keeps_book_example =
    attempt-keeps_book fixed buy (new_portfolio fixed) bought refl refl buy_bought

abbrev held : PositionState
held = record {
  quantity = record { units = pos 100_000_000 };
  average_entry_price = record { units = pos 200_000_000_000 };
  cost_basis = record { units = pos 200_000_000_000 };
  last_mark_price = record { units = pos 200_000_000_000 };
  entry_timestamp = 100;
  entry_fee = record { units = pos 100_000_000 };
  strategy_id = "SMA_01";
}

held_bought : find "XAUUSD" bought.positions ≡ some held
unfolding bought attempt settle open_long price_and_fee budget_for capital_budget entry_for
    explicit_entry affordable_entry entry_debit open_entry commit_purchase value_state
    value_positions drawdown_of ◌>>=◌ ◌>>◌ refuse value_or_throw find assign normalized normalize
    round_extended add subtract notional average_price quantity_for_notional checked_add
    checked_subtract scaled_product scaled_ratio signed_quotient to_signed round_quotient
    multiply_wide divide_wide divide_rounds bit_at set_bit shift_in fits ◌+ℤ◌ ◌-ℤ◌ value_double
held_bought = refl

sold : PortfolioManager fixed
sold =
    settle fixed bought
      (close_position fixed "XAUUSD" (pos 21_000_000) 300 (pos 10_000) "" (pos 5_000) bought)

sold_part :
    close_position fixed "XAUUSD" (pos 21_000_000) 300 (pos 10_000) "" (pos 5_000) bought
    ≡ done sold
unfolding sold close_position close_held close_quantity given_quantity sale_of positions_after
    reduced commit_sale trade_record proportional proportional_units remove bought attempt settle
    open_long price_and_fee budget_for capital_budget entry_for explicit_entry affordable_entry
    entry_debit open_entry commit_purchase value_state value_positions drawdown_of ◌>>=◌ ◌>>◌ refuse
    value_or_throw find assign normalized normalize round_extended add subtract notional
    average_price quantity_for_notional checked_add checked_subtract scaled_product scaled_ratio
    signed_quotient to_signed round_quotient multiply_wide divide_wide divide_rounds bit_at set_bit
    shift_in fits ◌+ℤ◌ ◌-ℤ◌ value_double
sold_part = refl

close_position-realizes_example : Realized fixed bought sold
close_position-realizes_example =
    close_position-realizes fixed "XAUUSD" (pos 21_000_000) 300 (pos 10_000) "" (pos 5_000) held
      bought sold held_bought
      (record { quantity = omega arith; cost = omega arith; fee = omega arith }) (omega arith)
      sold_part

bought-IsSolvent : IsSolvent fixed bought
unfolding bought run
bought-IsSolvent = run_new-IsSolvent fixed (buy ∷ [])

close_position_lem_example : Sold fixed "XAUUSD" held bought sold
close_position_lem_example =
    close_position_lem fixed "XAUUSD" (pos 21_000_000) 300 (pos 10_000) "" (pos 5_000) held bought
      sold bought-IsSolvent held_bought sold_part

restores_none : All (λ call. is_restore fixed call ≡ false) calls
restores_none = (refl, (refl, (refl, (refl, (refl, (refl, (refl, tt)))))))

run_fills_once_example : fills_of fixed 1 (run_fills fixed calls (new_portfolio fixed)) ≤ 1
run_fills_once_example = run_fills_once fixed calls 1 restores_none

queued : PortfolioManager fixed
queued = settle fixed bought (attempt fixed (places order) bought)

evaluate_pending_orders_lem_example :
    All
      (IsDue fixed "XAUUSD" candle queued.pending_orders)
      (evaluate_pending_orders fixed "XAUUSD" candle queued).0
    × All
        (IsKept fixed "XAUUSD" candle queued.pending_orders)
        (evaluate_pending_orders fixed "XAUUSD" candle queued).1.pending_orders
    × ((k : ℕ)
        → fills_of fixed k (evaluate_pending_orders fixed "XAUUSD" candle queued).0
            + orders_of fixed k
                (evaluate_pending_orders fixed "XAUUSD" candle queued).1.pending_orders
          ≡ orders_of fixed k queued.pending_orders)
evaluate_pending_orders_lem_example = evaluate_pending_orders_lem fixed "XAUUSD" candle queued

-- The stop trails the close to 2050 and is hit at the low.
stop_is_hit :
    length
      (run_fills fixed (buy ∷ places order ∷ evaluates "XAUUSD" candle ∷ []) (new_portfolio fixed))
    ≡ 1
unfolding run_fills reported place_pending_order is_refused normalized_order evaluate_pending_orders
    evaluate_orders followed trailed triggered trigger_price fill_of fill_result bought attempt
    settle open_long price_and_fee budget_for capital_budget entry_for explicit_entry
    affordable_entry entry_debit open_entry commit_purchase value_state value_positions drawdown_of
    ◌>>=◌ ◌>>◌ refuse value_or_throw find assign normalized normalize round_extended add subtract
    notional average_price quantity_for_notional checked_add checked_subtract scaled_product
    scaled_ratio signed_quotient to_signed round_quotient multiply_wide divide_wide divide_rounds
    bit_at set_bit shift_in fits ◌+ℤ◌ ◌-ℤ◌ value_double
stop_is_hit = refl

restored : PortfolioManager fixed
restored =
    settle fixed (new_portfolio fixed)
      (restore_state fixed (snapshot_state fixed sold) (new_portfolio fixed))

sold_restored :
    restore_state fixed (snapshot_state fixed sold) (new_portfolio fixed) ≡ done restored
unfolding restored restore_state snapshot_state restore_positions restore_position persisted
    is_inconsistent sort_positions insert_sorted sold close_position close_held close_quantity
    given_quantity sale_of positions_after reduced commit_sale trade_record proportional
    proportional_units remove bought attempt settle open_long price_and_fee budget_for
    capital_budget entry_for explicit_entry affordable_entry entry_debit open_entry commit_purchase
    value_state value_positions drawdown_of ◌>>=◌ ◌>>◌ refuse value_or_throw find assign normalized
    normalize round_extended add subtract notional average_price quantity_for_notional checked_add
    checked_subtract scaled_product scaled_ratio signed_quotient to_signed round_quotient
    multiply_wide divide_wide divide_rounds bit_at set_bit shift_in fits ◌+ℤ◌ ◌-ℤ◌ value_double
sold_restored = refl

restore_state-IsRestored_example : IsRestored fixed (snapshot_state fixed sold) restored
restore_state-IsRestored_example =
    restore_state-IsRestored fixed (snapshot_state fixed sold) (new_portfolio fixed) restored
      sold_restored
