-- ===== src/Triggers/Evaluation.antt =====
-- The evaluation of the orders against a quote in engine/src/TriggerOrderManager.cpp.
use mynyra.Prelude.{
  ℕ, Bool, true, false, not, ◌||◌, String, str_eq, List, [], ◌∷◌, ◌++◌, length, if◌then◌else◌,
}
use mynyra.Doubles.{Doubles, zero_double}
use mynyra.Triggers.Manager.{
  TriggerOrderType, TriggerReason, BestQuote, TriggerFillEvent, OrderSlot, TriggerOrderManager,
}

-- A trigger whose test holds, or else what the next test gives.
abbrev pub triggers_if :
    (F : Doubles)
    → Bool
    → TriggerReason
    → F.Double
    → TriggerReason × F.Double
    → TriggerReason × F.Double
triggers_if F test reason price otherwise = if test then (reason, price) else otherwise

-- The reason and the price, for an order type, `isBuy`, and the prices of stop and take-profit.
unfoldable pub trigger_for :
    (F : Doubles)
    → BestQuote F
    → TriggerOrderType
    → Bool
    → F.Double
    → F.Double
    → TriggerReason × F.Double
trigger_for F bbo TriggerOrderType.stop_loss false stop profit =
    triggers_if F (F.le bbo.bid_price stop) TriggerReason.stop_trigger stop
      (TriggerReason.no_trigger, zero_double F)
trigger_for F bbo TriggerOrderType.stop_loss true stop profit =
    triggers_if F (F.le stop bbo.ask_price) TriggerReason.stop_trigger stop
      (TriggerReason.no_trigger, zero_double F)
trigger_for F bbo TriggerOrderType.oco false stop profit =
    triggers_if F (F.le bbo.bid_price stop) TriggerReason.stop_trigger stop (
      triggers_if F (F.le profit bbo.ask_price) TriggerReason.take_profit profit
        (TriggerReason.no_trigger, zero_double F))
trigger_for F bbo TriggerOrderType.oco true stop profit =
    triggers_if F (F.le stop bbo.ask_price) TriggerReason.stop_trigger stop (
      triggers_if F (F.le bbo.bid_price profit) TriggerReason.take_profit profit
        (TriggerReason.no_trigger, zero_double F))

abbrev pub trigger_of : (F : Doubles) → BestQuote F → OrderSlot F → TriggerReason × F.Double
trigger_of F bbo slot =
    trigger_for F bbo slot.order_type slot.is_buy slot.stop_price slot.take_profit_price

abbrev pub fill_event :
    (F : Doubles)
    → BestQuote F
    → ℕ
    → OrderSlot F
    → TriggerReason × F.Double
    → List (TriggerFillEvent F)
fill_event F bbo timestamp slot (TriggerReason.no_trigger, price) = []
fill_event F bbo timestamp slot (reason, price) =
    record {
      order_id = slot.order_id;
      symbol = slot.symbol;
      order_type = slot.order_type;
      trigger_reason = reason;
      is_buy = slot.is_buy;
      trigger_price = price;
      execution_price = if slot.is_buy then bbo.ask_price else bbo.bid_price;
      quantity = slot.quantity;
      timestamp = timestamp;
      strategy_id = slot.strategy_id;
    }
    ∷ []

unfoldable pub evaluate_slots :
    (F : Doubles) → String → BestQuote F → ℕ → List (OrderSlot F) → List (TriggerFillEvent F)
evaluate_slots F symbol bbo timestamp [] = []
evaluate_slots F symbol bbo timestamp (slot ∷ slots) =
    let later = evaluate_slots F symbol bbo timestamp slots in
    if not slot.in_use || not (str_eq slot.symbol symbol)
    then later
    else fill_event F bbo timestamp slot (trigger_of F bbo slot) ++ later

-- The number of events with the events that are appended to `outFills`; the manager does not change.
unfoldable pub evaluate :
    (F : Doubles) → String → BestQuote F → ℕ → TriggerOrderManager F → ℕ × List (TriggerFillEvent F)
evaluate F symbol bbo timestamp m =
    let events = evaluate_slots F symbol bbo timestamp m.slots in
    if not bbo.valid then (0, []) else (length events, events)
