-- ===== src/Mirror/State.antt =====
-- The state of `BrokerPortfolioMirror` in engine/include/IPortfolioView.hpp, and `registerIntent`.
use mynyra.Prelude.{
  ℕ, Bool, true, false, not, ◌&&◌, ◌||◌, String, Option, none, some, List, [], if◌then◌else◌, ◌==◌,
  is_empty,
}
use mynyra.Prelude.Int.{pos}
use mynyra.Prelude.Maps.{lookup, insert}
use mynyra.Contracts.{
  Decimal64, AccountSnapshot, PositionSnapshot, PositionEffect, OrderIntent, is_positive,
  same_effect,
}

pub data MirrorApplyResult : Type 0 where
  applied duplicate unknown_order invalid_event invalid_transition : MirrorApplyResult

pub record IntentState : Type 0 where
  pub intent : OrderIntent
  pub cumulative_filled : Decimal64
  pub last_timestamp_ns : ℕ
  pub last_sequence : ℕ

pub record BrokerPortfolioMirror : Type 0 where
  pub account : AccountSnapshot
  pub positions : List (String × PositionSnapshot)
  pub intents : List (ℕ × IntentState)
  pub event_keys : List String
  pub pending_orders : ℕ
  pub generation : ℕ

-- The account is `AccountSnapshot{}`.
abbrev pub new_mirror : AccountSnapshot → BrokerPortfolioMirror
new_mirror account = record {
  account = account;
  positions = [];
  intents = [];
  event_keys = [];
  pending_orders = 0;
  generation = 0;
}

abbrev pub lacks_id : Option String → Bool
lacks_id none = true
lacks_id (some id) = is_empty id

unfoldable pub intent_is_invalid : ℕ → OrderIntent → Bool
intent_is_invalid id intent =
    id == 0
    || is_empty intent.canonical_symbol
    || not (is_positive intent.exact_quantity)
    || not (is_positive intent.reference_price)
    || same_effect intent.effect PositionEffect.closes && lacks_id intent.logical_position_id

abbrev pub intent_state : OrderIntent → IntentState
intent_state intent = record {
  intent = intent;
  cumulative_filled = record { units = pos 0; scale = intent.exact_quantity.scale };
  last_timestamp_ns = 0;
  last_sequence = 0;
}

-- An id that is there keeps its intent.
abbrev pub emplace_intent :
    ℕ → OrderIntent → Option IntentState → BrokerPortfolioMirror → Bool × BrokerPortfolioMirror
emplace_intent id intent (some known) m = (false, m)
emplace_intent id intent none m =
    (true, record m { intents = insert id (intent_state intent) m.intents })

unfoldable pub register_intent :
    ℕ → OrderIntent → BrokerPortfolioMirror → Bool × BrokerPortfolioMirror
register_intent id intent m =
    if intent_is_invalid id intent
    then (false, m)
    else emplace_intent id intent (lookup id m.intents) m
