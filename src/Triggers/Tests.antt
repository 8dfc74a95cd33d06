-- ===== src/Triggers/Tests.antt =====
-- The theorems of the trigger orders at concrete pools.
use mynyra.Prelude.{◌+◌, ◌^◌, ◌<◌, ◌≡◌, refl, true, false, List, [], ◌∷◌, arith, length, All}
use mynyra.Prelude.Int.{pos}
use mynyra.Doubles.Fixed.{fixed}
use mynyra.Triggers.Manager.{
  TriggerOrderType, BestQuote, TriggerOrderManager, Placement, new_manager, place_order, cancel,
  has_order, any_holds,
}
use mynyra.Triggers.Evaluation.{evaluate}
use mynyra.Triggers.Pool.{IsPool}
use mynyra.Triggers.Orders.{Placed, Cancelled, place_order_lem, cancel_order}
use mynyra.Triggers.Runs.{Call, places, cancels, run, run_new-IsPool}
use mynyra.Triggers.Fills.{IsSound, IsAnswered, evaluate-IsSound}
use mynyra.Triggers.Initial.{new_manager-IsPool}

abbrev guard : Placement fixed
guard = record {
  symbol = "XAUUSD";
  order_type = TriggerOrderType.oco;
  is_buy = false;
  stop_price = pos 19_000_000;
  take_profit_price = pos 21_000_000;
  quantity = pos 10_000;
  strategy_id = "SMA_01";
}

abbrev fresh : TriggerOrderManager fixed
fresh = new_manager fixed 2

abbrev calls : List (Call fixed)
calls = places guard ∷ places guard ∷ places guard ∷ cancels 1 ∷ places guard ∷ cancels 9 ∷ []

abbrev quote : BestQuote fixed
quote = record {
  valid = true;
  bid_price = pos 18_900_000;
  bid_size = pos 10_000;
  ask_price = pos 18_910_000;
  ask_size = pos 10_000;
}

run_new-IsPool_example :
    IsPool fixed (run fixed calls (new_manager fixed 2))
    × (length (run fixed calls (new_manager fixed 2)).slots ≡ 2)
run_new-IsPool_example = run_new-IsPool fixed 2 calls (omega arith)

first_id : (new_manager fixed 2).next_order_id + 1 < 2 ^ 64
unfolding new_manager
first_id = omega arith

first_room : (new_manager fixed 2).active_count < length (new_manager fixed 2).slots
unfolding new_manager
first_room = omega arith

place_order_lem_example : Placed fixed guard fresh (place_order fixed guard fresh)
place_order_lem_example =
    place_order_lem fixed guard fresh (new_manager-IsPool fixed 2) first_id refl first_room

one_there : has_order fixed 1 (place_order fixed guard fresh).1 ≡ true
unfolding place_order new_manager any_holds
one_there = refl

one_placed : IsPool fixed (place_order fixed guard fresh).1
one_placed = place_order_lem_example.5

cancel_order_example :
    Cancelled fixed 1
      (place_order fixed guard fresh).1
      (cancel fixed 1 (place_order fixed guard fresh).1)
cancel_order_example = cancel_order fixed 1 (place_order fixed guard fresh).1 one_placed one_there

evaluate-IsSound_example :
    ((evaluate fixed "XAUUSD" quote 7 (place_order fixed guard fresh).1).0
      ≡ length (evaluate fixed "XAUUSD" quote 7 (place_order fixed guard fresh).1).1)
    × All
        (IsSound fixed "XAUUSD" quote 7 (place_order fixed guard fresh).1.slots)
        (evaluate fixed "XAUUSD" quote 7 (place_order fixed guard fresh).1).1
    × All
        (IsAnswered fixed "XAUUSD" quote
          (evaluate fixed "XAUUSD" quote 7 (place_order fixed guard fresh).1).1)
        (place_order fixed guard fresh).1.slots
evaluate-IsSound_example = evaluate-IsSound fixed "XAUUSD" quote 7 (place_order fixed guard fresh).1
