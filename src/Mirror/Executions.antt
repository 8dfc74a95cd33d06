-- ===== src/Mirror/Executions.antt =====
-- `applyExecution` of engine/src/IPortfolioView.cpp.
use mynyra.Prelude.{
  ℕ, Bool, not, ◌&&◌, ◌||◌, String, str_append, str_eq, Option, none, some, List, ◌∷◌,
  if◌then◌else◌, ◌==◌, is_empty, ltb, leb,
}
use mynyra.Prelude.Int.{ℤ, pos, ◌+ℤ◌, ◌-ℤ◌, ltb_ℤ, leb_ℤ, eq_ℤ, int64_max}
use mynyra.Prelude.Dictionary.{find, assign, remove}
use mynyra.Prelude.Maps.{lookup, insert, contains}
use mynyra.Contracts.{
  Decimal64, PositionSnapshot, PositionSide, PositionEffect, OrderIntent, ExecutionEvent,
  is_positive, is_zero, same_effect, same_side,
}
use mynyra.Adapter.State.{to_string}
use mynyra.Mirror.State.{MirrorApplyResult, applied, IntentState, BrokerPortfolioMirror}

unfoldable pub quantities_valid : OrderIntent → Decimal64 → ExecutionEvent → Bool
quantities_valid intent previous_filled e =
    let filled = e.cumulative_filled_quantity in
    let rest = e.remaining_quantity in
    let whole = intent.exact_quantity in
    filled.scale == whole.scale
    && rest.scale == whole.scale
    && leb_ℤ (pos 0) filled.units
    && leb_ℤ (pos 0) rest.units
    && leb_ℤ filled.units whole.units
    && leb_ℤ rest.units whole.units
    && leb_ℤ filled.units (int64_max -ℤ rest.units)
    && eq_ℤ (filled.units +ℤ rest.units) whole.units
    && ltb_ℤ previous_filled.units filled.units

unfoldable pub event_is_invalid : ExecutionEvent → IntentState → Bool
event_is_invalid e state =
    not (same_side e.position_side state.intent.side)
    || not (same_effect e.position_effect state.intent.effect)
    || not (is_positive e.fill_price)
    || ltb 0 state.last_sequence && ltb 0 e.sequence && leb e.sequence state.last_sequence
    || ltb 0 state.last_timestamp_ns
      && ltb 0 e.timestamp_ns
      && ltb e.timestamp_ns state.last_timestamp_ns
    || not (quantities_valid state.intent state.cumulative_filled e)

abbrev pub delta_units : ExecutionEvent → IntentState → ℤ
delta_units e state = e.cumulative_filled_quantity.units -ℤ state.cumulative_filled.units

abbrev pub provisional_position_id : ℕ → String
provisional_position_id id = str_append "local-order-" (to_string id)

abbrev pub key_or : String → Option String → String
key_or provisional none = provisional
key_or provisional (some key) = key

abbrev pub position_key : ExecutionEvent → IntentState → String
position_key e state =
    key_or (provisional_position_id e.local_order_id) state.intent.logical_position_id

-- What `operator[]` finds or makes.
abbrev pub position_or_new : Option PositionSnapshot → PositionSnapshot
position_or_new (some position) = position
position_or_new none = record {
  canonical_symbol = "";
  quantity = record { units = pos 0; scale = 0 };
  average_price = record { units = pos 0; scale = 0 };
  logical_position_id = "";
  side = PositionSide.long;
}

-- Whether a position is of another symbol, side or scale than the order.
unfoldable pub is_other : PositionSnapshot → IntentState → Bool
is_other position state =
    not (str_eq position.canonical_symbol state.intent.canonical_symbol)
    || not (same_side position.side state.intent.side)
    || not (position.quantity.scale == state.intent.exact_quantity.scale)

abbrev pub opened_position :
    ExecutionEvent → IntentState → String → PositionSnapshot → ℤ → PositionSnapshot
opened_position e state key position units = record {
  canonical_symbol = state.intent.canonical_symbol;
  quantity = record { units = units; scale = state.intent.exact_quantity.scale };
  average_price = e.fill_price;
  logical_position_id = key;
  side = state.intent.side;
}

-- A refused quantity leaves the price and the names in the position.
unfoldable pub open_position :
    ExecutionEvent
    → IntentState
    → String
    → PositionSnapshot
    → List (String × PositionSnapshot)
    → MirrorApplyResult × List (String × PositionSnapshot)
open_position e state key position positions =
    let units = position.quantity.units in
    let delta = delta_units e state in
    if not (is_empty position.logical_position_id) && is_other position state
    then (MirrorApplyResult.invalid_transition, assign key position positions)
    else if ltb_ℤ (int64_max -ℤ delta) units
    then (
      MirrorApplyResult.invalid_event,
      assign key (opened_position e state key position units) positions,
    )
    else (
      MirrorApplyResult.applied,
      assign key (opened_position e state key position (units +ℤ delta)) positions,
    )

abbrev pub lowered : PositionSnapshot → ℤ → PositionSnapshot
lowered position delta = record position {
  quantity = record position.quantity { units = position.quantity.units -ℤ delta };
}

unfoldable pub close_position_of :
    IntentState
    → ℤ
    → String
    → Option PositionSnapshot
    → List (String × PositionSnapshot)
    → MirrorApplyResult × List (String × PositionSnapshot)
close_position_of state delta key none positions = (MirrorApplyResult.invalid_transition, positions)
close_position_of state delta key (some position) positions =
    let rest = lowered position delta in
    if is_other position state || ltb_ℤ position.quantity.units delta
    then (MirrorApplyResult.invalid_transition, positions)
    else if is_zero rest.quantity
    then (MirrorApplyResult.applied, remove key positions)
    else (MirrorApplyResult.applied, assign key rest positions)

unfoldable pub moved_positions :
    ExecutionEvent
    → IntentState
    → List (String × PositionSnapshot)
    → MirrorApplyResult × List (String × PositionSnapshot)
moved_positions e state positions =
    let key = position_key e state in
    if same_effect state.intent.effect PositionEffect.opens
    then open_position e state key (position_or_new (find key positions)) positions
    else close_position_of state (delta_units e state) key (find key positions) positions

abbrev pub filled_state : ExecutionEvent → IntentState → IntentState
filled_state e state = record state {
  cumulative_filled = e.cumulative_filled_quantity;
  last_timestamp_ns = e.timestamp_ns;
  last_sequence = e.sequence;
}

abbrev pub settle_execution :
    ExecutionEvent
    → IntentState
    → MirrorApplyResult × List (String × PositionSnapshot)
    → BrokerPortfolioMirror
    → MirrorApplyResult × BrokerPortfolioMirror
settle_execution e state (applied, positions) m = (
  applied,
  record m {
    positions = positions;
    intents = insert e.local_order_id (filled_state e state) m.intents;
    event_keys = e.event_key ∷ m.event_keys;
  },
)
settle_execution e state (other, positions) m = (other, record m { positions = positions })

abbrev pub execute_intent :
    ExecutionEvent
    → Option IntentState
    → BrokerPortfolioMirror
    → MirrorApplyResult × BrokerPortfolioMirror
execute_intent e none m = (MirrorApplyResult.unknown_order, m)
execute_intent e (some state) m =
    if event_is_invalid e state
    then (MirrorApplyResult.invalid_event, m)
    else settle_execution e state (moved_positions e state m.positions) m

unfoldable pub apply_execution :
    ExecutionEvent → BrokerPortfolioMirror → MirrorApplyResult × BrokerPortfolioMirror
apply_execution e m =
    if is_empty e.event_key
    then (MirrorApplyResult.invalid_event, m)
    else if contains e.event_key m.event_keys
    then (MirrorApplyResult.duplicate, m)
    else execute_intent e (lookup e.local_order_id m.intents) m
