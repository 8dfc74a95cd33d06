-- ===== src/Triggers/Fills.antt =====
-- The fills that engine/src/TriggerOrderManager.cpp reports.
use mynyra.Prelude.{
  ℕ, ◌≡◌, refl, Bool, true, false, not, ◌||◌, String, str_eq, List, [], ◌∷◌, ◌++◌, arith, length,
  if◌then◌else◌, Bool-cases, inl, inr, All, All-map, All-append,
}
use mynyra.Doubles.{Doubles}
use mynyra.Triggers.Manager.{
  TriggerReason, BestQuote, TriggerFillEvent, OrderSlot, TriggerOrderManager,
}
use mynyra.Triggers.Evaluation.{trigger_of, fill_event, evaluate_slots, evaluate}
use mynyra.Triggers.Reaching.{
  Reached, Among, first, later, MayReach, trigger_for-MayReach, trigger_for_none,
}

-- A fill of a slot in use that has triggered.
pub record IsSound (F : Doubles) (symbol : String) (bbo : BestQuote F) (timestamp : ℕ)
    (slots : List (OrderSlot F)) (e : TriggerFillEvent F) : Type 0 where
  pub slot : OrderSlot F
  pub there : Among slot slots
  pub in_use : slot.in_use ≡ true
  pub asked : str_eq slot.symbol symbol ≡ true
  pub order_id : e.order_id ≡ slot.order_id
  pub of_symbol : e.symbol ≡ slot.symbol
  pub order_type : e.order_type ≡ slot.order_type
  pub is_buy : e.is_buy ≡ slot.is_buy
  pub quantity : e.quantity ≡ slot.quantity
  pub strategy_id : e.strategy_id ≡ slot.strategy_id
  pub at : e.timestamp ≡ timestamp
  pub executed : e.execution_price ≡ (if slot.is_buy then bbo.ask_price else bbo.bid_price)
  pub reached : Reached F bbo slot e.trigger_reason e.trigger_price

module _ (F : Doubles) where
  fill_IsSound :
      (symbol : String) (bbo : BestQuote F) (timestamp : ℕ) (slot : OrderSlot F)
      (slots : List (OrderSlot F)) (reason : TriggerReason) (price : F.Double)
      → slot.in_use ≡ true
      → str_eq slot.symbol symbol ≡ true
      → Reached F bbo slot reason price
      → IsSound F symbol bbo timestamp (slot ∷ slots) (record {
        order_id = slot.order_id;
        symbol = slot.symbol;
        order_type = slot.order_type;
        trigger_reason = reason;
        is_buy = slot.is_buy;
        trigger_price = price;
        execution_price = if slot.is_buy then bbo.ask_price else bbo.bid_price;
        quantity = slot.quantity;
        timestamp = timestamp;
        strategy_id = slot.strategy_id;
      })
  fill_IsSound symbol bbo timestamp slot slots reason price u s r = record {
    slot = slot;
    there = first;
    in_use = u;
    asked = s;
    order_id = refl;
    of_symbol = refl;
    order_type = refl;
    is_buy = refl;
    quantity = refl;
    strategy_id = refl;
    at = refl;
    executed = refl;
    reached = r;
  }

  fill_event-IsSound :
      (symbol : String) (bbo : BestQuote F) (timestamp : ℕ) (slot : OrderSlot F)
      (slots : List (OrderSlot F)) (t : TriggerReason × F.Double)
      → slot.in_use ≡ true
      → str_eq slot.symbol symbol ≡ true
      → MayReach F bbo slot t
      → All (IsSound F symbol bbo timestamp (slot ∷ slots)) (fill_event F bbo timestamp slot t)
  fill_event-IsSound symbol bbo timestamp slot slots (TriggerReason.no_trigger, price) u s r = tt
  fill_event-IsSound symbol bbo timestamp slot slots (TriggerReason.stop_trigger, price) u s r =
      (fill_IsSound symbol bbo timestamp slot slots TriggerReason.stop_trigger price u s r, tt)
  fill_event-IsSound symbol bbo timestamp slot slots (TriggerReason.take_profit, price) u s r =
      (fill_IsSound symbol bbo timestamp slot slots TriggerReason.take_profit price u s r, tt)

  later-IsSound :
      (symbol : String) (bbo : BestQuote F) (timestamp : ℕ) (slot : OrderSlot F)
      (slots : List (OrderSlot F)) (e : TriggerFillEvent F)
      → IsSound F symbol bbo timestamp slots e
      → IsSound F symbol bbo timestamp (slot ∷ slots) e
  later-IsSound symbol bbo timestamp slot slots e h = record {
    slot = h.slot;
    there = later h.there;
    in_use = h.in_use;
    asked = h.asked;
    order_id = h.order_id;
    of_symbol = h.of_symbol;
    order_type = h.order_type;
    is_buy = h.is_buy;
    quantity = h.quantity;
    strategy_id = h.strategy_id;
    at = h.at;
    executed = h.executed;
    reached = h.reached;
  }

  evaluate_slots-IsSound :
      (symbol : String) (bbo : BestQuote F) (timestamp : ℕ) (slots : List (OrderSlot F))
      → All (IsSound F symbol bbo timestamp slots) (evaluate_slots F symbol bbo timestamp slots)
  unfolding evaluate_slots
  evaluate_slots-IsSound symbol bbo timestamp [] = tt
  evaluate_slots-IsSound symbol bbo timestamp (slot ∷ slots) =
      let others =
        All-map (IsSound F symbol bbo timestamp slots)
          (IsSound F symbol bbo timestamp (slot ∷ slots))
          (later-IsSound symbol bbo timestamp slot slots) _
          (evaluate_slots-IsSound symbol bbo timestamp slots) in
      elim (Bool-cases (not slot.in_use || not (str_eq slot.symbol symbol))) [
        | inl skipped ↦ rw skipped others
        | inr fires ↦ rw fires (
            All-append (IsSound F symbol bbo timestamp (slot ∷ slots)) _ _
              (fill_event-IsSound symbol bbo timestamp slot slots (trigger_of F bbo slot)
                (ground arith) (ground arith)
                (trigger_for-MayReach F bbo slot slot.order_type slot.is_buy refl refl))
              others)
      ]

  -- What comes of a slot: it is free, of another symbol or not reached by the quote, or it has a fill.
  pub data IsAnswered (symbol : String) (bbo : BestQuote F) (fills : List (TriggerFillEvent F))
      (slot : OrderSlot F) : Type 0 where
    no_quote : bbo.valid ≡ false → IsAnswered symbol bbo fills slot
    free : slot.in_use ≡ false → IsAnswered symbol bbo fills slot
    other_symbol : str_eq slot.symbol symbol ≡ false → IsAnswered symbol bbo fills slot
    rests :
        ((reason : TriggerReason) (price : F.Double) → ¬ Reached F bbo slot reason price)
        → IsAnswered symbol bbo fills slot
    fires :
        (e : TriggerFillEvent F)
        → Among e fills
        → e.order_id ≡ slot.order_id
        → Reached F bbo slot e.trigger_reason e.trigger_price
        → IsAnswered symbol bbo fills slot

  unquoted :
      (symbol : String) (bbo : BestQuote F)
      → bbo.valid ≡ false
      → (slots : List (OrderSlot F)) → All (IsAnswered symbol bbo []) slots
  unquoted symbol bbo h [] = tt
  unquoted symbol bbo h (slot ∷ slots) = (no_quote h, unquoted symbol bbo h slots)

  Among-later :
      {e : TriggerFillEvent F} (fills more : List (TriggerFillEvent F))
      → Among e more
      → Among e (fills ++ more)
  Among-later [] more h = h
  Among-later (f ∷ fills) more h = later (Among-later fills more h)

  more-IsAnswered :
      (symbol : String) (bbo : BestQuote F) (fills more : List (TriggerFillEvent F))
      (slot : OrderSlot F)
      → IsAnswered symbol bbo more slot
      → IsAnswered symbol bbo (fills ++ more) slot
  more-IsAnswered symbol bbo fills more slot (no_quote h) = no_quote h
  more-IsAnswered symbol bbo fills more slot (free h) = free h
  more-IsAnswered symbol bbo fills more slot (other_symbol h) = other_symbol h
  more-IsAnswered symbol bbo fills more slot (rests h) = rests h
  more-IsAnswered symbol bbo fills more slot (fires e there same r) =
      fires e (Among-later fills more there) same r

  fill_event-IsAnswered :
      (symbol : String) (bbo : BestQuote F) (timestamp : ℕ) (slot : OrderSlot F)
      (more : List (TriggerFillEvent F)) (t : TriggerReason × F.Double)
      → MayReach F bbo slot t
      → (t.0 ≡ TriggerReason.no_trigger
          → (reason : TriggerReason) (price : F.Double) → ¬ Reached F bbo slot reason price)
      → IsAnswered symbol bbo (fill_event F bbo timestamp slot t ++ more) slot
  fill_event-IsAnswered symbol bbo timestamp slot more (TriggerReason.no_trigger, price) r n =
      rests (n refl)
  fill_event-IsAnswered symbol bbo timestamp slot more (TriggerReason.stop_trigger, price) r n =
      fires _ first refl r
  fill_event-IsAnswered symbol bbo timestamp slot more (TriggerReason.take_profit, price) r n =
      fires _ first refl r

  skipped-IsAnswered :
      (symbol : String) (bbo : BestQuote F) (fills : List (TriggerFillEvent F)) (slot : OrderSlot F)
      → (not slot.in_use || not (str_eq slot.symbol symbol)) ≡ true
      → IsAnswered symbol bbo fills slot
  skipped-IsAnswered symbol bbo fills slot h = elim (Bool-cases slot.in_use) [
    | inl used ↦ other_symbol (ground (arith, h, used))
    | inr unused ↦ free unused
  ]

  evaluate_slot-IsAnswered :
      (symbol : String) (bbo : BestQuote F) (timestamp : ℕ) (slot : OrderSlot F)
      (slots : List (OrderSlot F)) (more : List (TriggerFillEvent F)) (skips : Bool)
      → All (IsAnswered symbol bbo more) slots
      → (not slot.in_use || not (str_eq slot.symbol symbol)) ≡ skips
      → All
          (IsAnswered symbol bbo (
            if skips
            then more
            else fill_event F bbo timestamp slot (trigger_of F bbo slot) ++ more))
          (slot ∷ slots)
  evaluate_slot-IsAnswered symbol bbo timestamp slot slots more true ih e =
      (skipped-IsAnswered symbol bbo more slot e, ih)
  evaluate_slot-IsAnswered symbol bbo timestamp slot slots more false ih e =
      let event = fill_event F bbo timestamp slot (trigger_of F bbo slot) in
      (
        fill_event-IsAnswered symbol bbo timestamp slot more (trigger_of F bbo slot)
            (trigger_for-MayReach F bbo slot slot.order_type slot.is_buy refl refl)
            (trigger_for_none F bbo slot slot.order_type slot.is_buy refl refl),
        All-map (IsAnswered symbol bbo more) (IsAnswered symbol bbo (event ++ more))
            (more-IsAnswered symbol bbo event more) slots ih,
      )

  evaluate_slots-IsAnswered :
      (symbol : String) (bbo : BestQuote F) (timestamp : ℕ) (slots : List (OrderSlot F))
      → All (IsAnswered symbol bbo (evaluate_slots F symbol bbo timestamp slots)) slots
  unfolding evaluate_slots
  evaluate_slots-IsAnswered symbol bbo timestamp [] = tt
  evaluate_slots-IsAnswered symbol bbo timestamp (slot ∷ slots) =
      evaluate_slot-IsAnswered symbol bbo timestamp slot slots
        (evaluate_slots F symbol bbo timestamp slots) _
        (evaluate_slots-IsAnswered symbol bbo timestamp slots) refl

  -- evaluate returns the number of the fills that it reports, and each of them has the fields of a
  -- slot in use for the symbol asked and the time given, and is executed at the ask for a buy and
  -- the bid for a sell; its trigger is the stop of the slot, which the bid is down to for a sell
  -- and the ask up to for a buy, or the take-profit of an OCO slot, which the ask is up to for a
  -- sell and the bid down to for a buy; and on a valid quote every slot in use for the symbol with
  -- such a trigger has a fill.
  pub evaluate-IsSound :
      (symbol : String) (bbo : BestQuote F) (timestamp : ℕ) (m : TriggerOrderManager F)
      → ((evaluate F symbol bbo timestamp m).0 ≡ length (evaluate F symbol bbo timestamp m).1)
        × All (IsSound F symbol bbo timestamp m.slots) (evaluate F symbol bbo timestamp m).1
        × All (IsAnswered symbol bbo (evaluate F symbol bbo timestamp m).1) m.slots
  unfolding evaluate
  evaluate-IsSound symbol bbo timestamp m = elim (Bool-cases (not bbo.valid)) [
    | inl invalid ↦ rw invalid (refl, tt, unquoted symbol bbo (ground (arith, invalid)) m.slots)
    | inr valid ↦ rw valid (
      refl,
      evaluate_slots-IsSound symbol bbo timestamp m.slots,
      evaluate_slots-IsAnswered symbol bbo timestamp m.slots,
    )
  ]
