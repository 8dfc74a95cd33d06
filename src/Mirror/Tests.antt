-- ===== src/Mirror/Tests.antt =====
-- The theorems of the mirror at an opening, a fill and a close.
use mathlib.Core.Option.{some-injective}
use mynyra.Prelude.Dictionary.{find}
use mynyra.Prelude.Maps.{contains, lookup, insert}
use mynyra.Prelude.{◌≡◌, refl, sym, ap, ◌∙◌, false, some, List, [], ◌∷◌}
use mynyra.Prelude.Int.{◌-ℤ◌, ◌+ℤ◌, pos}
use mynyra.Contracts.{
  Decimal64, AccountSnapshot, PositionSide, PositionEffect, OrderIntent, ExecutionEvent,
}
use mynyra.Mirror.State.{
  register_intent, intent_is_invalid, applied, BrokerPortfolioMirror, new_mirror, IntentState,
  intent_state,
}
use mynyra.Mirror.Executions.{
  event_is_invalid, quantities_valid, moved_positions, open_position, apply_execution,
}
use mynyra.Mirror.Reconciling.{call, Call, run_calls}
use mynyra.Mirror.Bounds.{IsMirror, run_calls_new-IsMirror}
use mynyra.Mirror.Matching.{names_nothing}
use mynyra.Mirror.Moves.{IsMove, apply_execution-IsMove}

abbrev nothing : Decimal64
nothing = record { units = pos 0; scale = 2 }

abbrev account : AccountSnapshot
account = record {
  schema_version = 1;
  snapshot_version = 0;
  balance = nothing;
  equity = nothing;
  realized_pnl = nothing;
  unrealized_pnl = nothing;
  margin_used = nothing;
  free_margin = nothing;
  currency = "";
  source_timestamp_ns = 0;
  ingestion_timestamp_ns = 0;
  complete = false;
  missing_fields = [];
}

abbrev lots : Decimal64
lots = record { units = pos 400; scale = 2 }

abbrev opening : OrderIntent
opening = record {
  schema_version = 1;
  side = PositionSide.long;
  effect = PositionEffect.opens;
  exact_quantity = lots;
  reference_price = lots;
  canonical_symbol = "XAUUSD";
  strategy_attribution = "SMA_01";
  logical_position_id = some "gold";
  decision_timestamp_ns = 5;
}

abbrev fill : ExecutionEvent
fill = record {
  schema_version = 1;
  local_order_id = 7;
  external_order_id = "x-7";
  cumulative_filled_quantity = record { units = pos 150; scale = 2 };
  remaining_quantity = record { units = pos 250; scale = 2 };
  fill_price = lots;
  fee = nothing;
  timestamp_ns = 10;
  sequence = 3;
  event_key = "fill-7-1";
  position_side = PositionSide.long;
  position_effect = PositionEffect.opens;
  acceptance_implied_by_fill = false;
}

abbrev calls : List Call
calls = Call.registers 7 opening ∷ []

run_calls_new-IsMirror_example : IsMirror (
    run_calls
      (Call.registers 7 opening ∷ Call.executes fill ∷ Call.executes fill ∷ [])
      (new_mirror account))
run_calls_new-IsMirror_example =
    run_calls_new-IsMirror account
      (Call.registers 7 opening ∷ Call.executes fill ∷ Call.executes fill ∷ [])

abbrev mirror : BrokerPortfolioMirror
mirror = run_calls calls (new_mirror account)

taken : (apply_execution fill mirror).0 ≡ applied
unfolding apply_execution contains run_calls call register_intent intent_is_invalid lookup insert
    event_is_invalid quantities_valid ◌-ℤ◌ ◌+ℤ◌ moved_positions open_position find
taken = refl

registered : lookup 7 mirror.intents ≡ some (intent_state opening)
unfolding run_calls call register_intent intent_is_invalid lookup insert
registered = refl

names :
    (s : IntentState)
    → lookup 7 mirror.intents ≡ some s
    → names_nothing s.intent.logical_position_id ≡ false
names s found =
    ap (λ (t : IntentState). names_nothing t.intent.logical_position_id)
      (sym (some-injective _ _ (sym registered ∙ found)))

apply_execution-IsMove_example : IsMove fill mirror (apply_execution fill mirror).1
apply_execution-IsMove_example =
    apply_execution-IsMove fill mirror (run_calls_new-IsMirror account calls) names taken
