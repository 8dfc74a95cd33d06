-- ===== src/Triggers/Reaching.antt =====
-- When a quote reaches the prices of a slot of engine/src/TriggerOrderManager.cpp.
use mynyra.Prelude.{◌≡◌, refl, Bool, true, false, List, ◌∷◌}
use mynyra.Doubles.{Doubles}
use mynyra.Triggers.Manager.{TriggerOrderType, TriggerReason, BestQuote, OrderSlot}
use mynyra.Triggers.Evaluation.{triggers_if, trigger_for}

-- A trigger price of a slot that the quote has reached: the stop, which the bid falls to for a sell and the
-- ask rises to for a buy, or the take-profit of an OCO order, which is tested on the other side of the
-- quote.
pub data Reached (F : Doubles) (bbo : BestQuote F) (slot : OrderSlot F)
    : TriggerReason → F.Double → Type 0 where
  sell_stop :
      slot.is_buy ≡ false
      → F.le bbo.bid_price slot.stop_price ≡ true
      → Reached F bbo slot TriggerReason.stop_trigger slot.stop_price
  buy_stop :
      slot.is_buy ≡ true
      → F.le slot.stop_price bbo.ask_price ≡ true
      → Reached F bbo slot TriggerReason.stop_trigger slot.stop_price
  sell_profit :
      slot.is_buy ≡ false
      → slot.order_type ≡ TriggerOrderType.oco
      → F.le slot.take_profit_price bbo.ask_price ≡ true
      → Reached F bbo slot TriggerReason.take_profit slot.take_profit_price
  buy_profit :
      slot.is_buy ≡ true
      → slot.order_type ≡ TriggerOrderType.oco
      → F.le bbo.bid_price slot.take_profit_price ≡ true
      → Reached F bbo slot TriggerReason.take_profit slot.take_profit_price

pub data Among {ℓ} {A : Type ℓ} (a : A) : List A → Type ℓ where
  first : {rest : List A} → Among a (a ∷ rest)
  later : {b : A} {rest : List A} → Among a rest → Among a (b ∷ rest)

module _ (F : Doubles) where
  -- What `trigger_of` gives: no trigger, or one that the quote has reached.
  abbrev pub MayReach : BestQuote F → OrderSlot F → TriggerReason × F.Double → Type 0
  MayReach bbo slot (TriggerReason.no_trigger, price) = Unit
  MayReach bbo slot (reason, price) = Reached F bbo slot reason price

  triggers_if-MayReach :
      (bbo : BestQuote F) (slot : OrderSlot F) (test : Bool) (reason : TriggerReason)
      (price : F.Double) (otherwise : TriggerReason × F.Double)
      → (test ≡ true → MayReach bbo slot (reason, price))
      → MayReach bbo slot otherwise
      → MayReach bbo slot (triggers_if F test reason price otherwise)
  triggers_if-MayReach bbo slot true reason price otherwise f g = f refl
  triggers_if-MayReach bbo slot false reason price otherwise f g = g

  pub trigger_for-MayReach :
      (bbo : BestQuote F) (slot : OrderSlot F) (type : TriggerOrderType) (is_buy : Bool)
      → slot.order_type ≡ type
      → slot.is_buy ≡ is_buy
      → MayReach bbo slot (trigger_for F bbo type is_buy slot.stop_price slot.take_profit_price)
  unfolding trigger_for
  trigger_for-MayReach bbo slot TriggerOrderType.stop_loss false t b =
      triggers_if-MayReach bbo slot _ TriggerReason.stop_trigger slot.stop_price _
        (λ e. sell_stop b e) tt
  trigger_for-MayReach bbo slot TriggerOrderType.stop_loss true t b =
      triggers_if-MayReach bbo slot _ TriggerReason.stop_trigger slot.stop_price _
        (λ e. buy_stop b e) tt
  trigger_for-MayReach bbo slot TriggerOrderType.oco false t b =
      triggers_if-MayReach bbo slot _ TriggerReason.stop_trigger slot.stop_price _
        (λ e. sell_stop b e)
        (triggers_if-MayReach bbo slot _ TriggerReason.take_profit slot.take_profit_price _
          (λ e. sell_profit b t e) tt)
  trigger_for-MayReach bbo slot TriggerOrderType.oco true t b =
      triggers_if-MayReach bbo slot _ TriggerReason.stop_trigger slot.stop_price _
        (λ e. buy_stop b e)
        (triggers_if-MayReach bbo slot _ TriggerReason.take_profit slot.take_profit_price _
          (λ e. buy_profit b t e) tt)

  differ : {b : Bool} → b ≡ false → b ≡ true → ⊥
  differ e f = cc

  unreached :
      (bbo : BestQuote F) (slot : OrderSlot F)
      → (slot.is_buy ≡ false → F.le bbo.bid_price slot.stop_price ≡ false)
      → (slot.is_buy ≡ true → F.le slot.stop_price bbo.ask_price ≡ false)
      → (slot.is_buy ≡ false
          → slot.order_type ≡ TriggerOrderType.oco
          → F.le slot.take_profit_price bbo.ask_price ≡ false)
      → (slot.is_buy ≡ true
          → slot.order_type ≡ TriggerOrderType.oco
          → F.le bbo.bid_price slot.take_profit_price ≡ false)
      → (reason : TriggerReason) (price : F.Double) → ¬ Reached F bbo slot reason price
  unreached bbo slot ss bs sp bp _ _ (sell_stop b e) = differ (ss b) e
  unreached bbo slot ss bs sp bp _ _ (buy_stop b e) = differ (bs b) e
  unreached bbo slot ss bs sp bp _ _ (sell_profit b t e) = differ (sp b t) e
  unreached bbo slot ss bs sp bp _ _ (buy_profit b t e) = differ (bp b t) e

  second :
      (test : Bool) (reason : TriggerReason) (price : F.Double)
      (otherwise : TriggerReason × F.Double)
      → ¬ (reason ≡ TriggerReason.no_trigger)
      → (triggers_if F test reason price otherwise).0 ≡ TriggerReason.no_trigger
      → (test ≡ false) × (otherwise.0 ≡ TriggerReason.no_trigger)
  second true reason price otherwise n e = absurd (n e)
  second false reason price otherwise n e = (refl, e)

  stop_fires : ¬ (TriggerReason.stop_trigger ≡ TriggerReason.no_trigger)
  stop_fires e = cc e

  profit_fires : ¬ (TriggerReason.take_profit ≡ TriggerReason.no_trigger)
  profit_fires e = cc e

  pub trigger_for_none :
      (bbo : BestQuote F) (slot : OrderSlot F) (type : TriggerOrderType) (is_buy : Bool)
      → slot.order_type ≡ type
      → slot.is_buy ≡ is_buy
      → (trigger_for F bbo type is_buy slot.stop_price slot.take_profit_price).0
        ≡ TriggerReason.no_trigger
      → (reason : TriggerReason) (price : F.Double) → ¬ Reached F bbo slot reason price
  unfolding trigger_for
  trigger_for_none bbo slot TriggerOrderType.stop_loss false t b e =
      let (stop, _) = second _ _ _ _ stop_fires e in
      unreached bbo slot (λ _. stop) (λ c. cc) (λ _ o. cc) (λ c _. cc)
  trigger_for_none bbo slot TriggerOrderType.stop_loss true t b e =
      let (stop, _) = second _ _ _ _ stop_fires e in
      unreached bbo slot (λ c. cc) (λ _. stop) (λ c _. cc) (λ _ o. cc)
  trigger_for_none bbo slot TriggerOrderType.oco false t b e =
      let (stop, rest) = second _ _ _ _ stop_fires e in
      let (profit, _) = second _ _ _ _ profit_fires rest in
      unreached bbo slot (λ _. stop) (λ c. cc) (λ _ _. profit) (λ c _. cc)
  trigger_for_none bbo slot TriggerOrderType.oco true t b e =
      let (stop, rest) = second _ _ _ _ stop_fires e in
      let (profit, _) = second _ _ _ _ profit_fires rest in
      unreached bbo slot (λ c. cc) (λ _. stop) (λ c _. cc) (λ _ _. profit)
