-- ===== src/Triggers/Manager.antt =====
-- The slots of engine/src/TriggerOrderManager.cpp. The vector of free indices is a list with its back
-- first, as the code uses it.
use mynyra.Prelude.{
  ℕ, zero, suc, ◌+◌, ◌-◌, ◌%◌, ◌^◌, Bool, true, false, not, ◌&&◌, ◌||◌, String, is_empty, Option,
  none, some, List, [], ◌∷◌, get_elem?, ◌==◌, if◌then◌else◌,
}
use mynyra.Doubles.{Doubles, zero_double}

pub data TriggerOrderType : Type 0 where
  stop_loss oco : TriggerOrderType

pub data TriggerReason : Type 0 where
  no_trigger stop_trigger take_profit : TriggerReason

pub record BestQuote (F : Doubles) : Type 0 where
  pub valid : Bool
  pub bid_price : F.Double
  pub bid_size : F.Double
  pub ask_price : F.Double
  pub ask_size : F.Double

pub record TriggerFillEvent (F : Doubles) : Type 0 where
  pub order_id : ℕ
  pub symbol : String
  pub order_type : TriggerOrderType
  pub trigger_reason : TriggerReason
  pub is_buy : Bool
  pub trigger_price : F.Double
  pub execution_price : F.Double
  pub quantity : F.Double
  pub timestamp : ℕ
  pub strategy_id : String

pub record OrderSlot (F : Doubles) : Type 0 where
  pub in_use : Bool
  pub order_id : ℕ
  pub symbol : String
  pub order_type : TriggerOrderType
  pub is_buy : Bool
  pub stop_price : F.Double
  pub take_profit_price : F.Double
  pub quantity : F.Double
  pub placed_ts : ℕ
  pub strategy_id : String

abbrev pub empty_slot : (F : Doubles) → OrderSlot F
empty_slot F = record {
  in_use = false;
  order_id = 0;
  symbol = "";
  order_type = TriggerOrderType.stop_loss;
  is_buy = false;
  stop_price = zero_double F;
  take_profit_price = zero_double F;
  quantity = zero_double F;
  placed_ts = 0;
  strategy_id = "";
}

pub record TriggerOrderManager (F : Doubles) : Type 0 where
  pub slots : List (OrderSlot F)
  pub free_idx : List ℕ
  pub next_order_id : ℕ
  pub active_count : ℕ

abbrev pub empty_slots : (F : Doubles) → ℕ → List (OrderSlot F)
empty_slots F zero = []
empty_slots F (suc n) = empty_slot F ∷ empty_slots F n

-- The indices `start`, `start + 1`, ..., of which the first one is the back.
abbrev pub indices : ℕ → ℕ → List ℕ
indices start zero = []
indices start (suc n) = start ∷ indices (suc start) n

unfoldable pub new_manager : (F : Doubles) → ℕ → TriggerOrderManager F
new_manager F capacity = record {
  slots = empty_slots F capacity;
  free_idx = indices 0 capacity;
  next_order_id = 1;
  active_count = 0;
}

-- `m_slots[idx] = slot`.
abbrev pub set_slot {ℓ} : {A : Type ℓ} → ℕ → A → List A → List A
set_slot idx slot [] = []
set_slot zero slot (s ∷ ss) = slot ∷ ss
set_slot (suc idx) slot (s ∷ ss) = s ∷ set_slot idx slot ss

-- What `placeOrder` is called with.
pub record Placement (F : Doubles) : Type 0 where
  pub symbol : String
  pub order_type : TriggerOrderType
  pub is_buy : Bool
  pub stop_price : F.Double
  pub take_profit_price : F.Double
  pub quantity : F.Double
  pub strategy_id : String

abbrev pub is_oco : TriggerOrderType → Bool
is_oco TriggerOrderType.stop_loss = false
is_oco TriggerOrderType.oco = true

abbrev pub placement_is_invalid : (F : Doubles) → Placement F → Bool
placement_is_invalid F p =
    is_empty p.symbol
    || F.le p.stop_price (zero_double F)
    || is_oco p.order_type && F.le p.take_profit_price (zero_double F)

-- The slot that takes an order keeps its `placed_ts`, which is that of an empty slot.
abbrev pub filled_slot : (F : Doubles) → Placement F → ℕ → OrderSlot F
filled_slot F p id = record {
  in_use = true;
  order_id = id;
  symbol = p.symbol;
  order_type = p.order_type;
  is_buy = p.is_buy;
  stop_price = p.stop_price;
  take_profit_price = p.take_profit_price;
  quantity = p.quantity;
  placed_ts = 0;
  strategy_id = p.strategy_id;
}

abbrev pub place_on :
    (F : Doubles) → List ℕ → Placement F → TriggerOrderManager F → ℕ × TriggerOrderManager F
place_on F [] p m = (0, m)
place_on F (idx ∷ rest) p m = (
  m.next_order_id,
  record {
    slots = set_slot idx (filled_slot F p m.next_order_id) m.slots;
    free_idx = rest;
    next_order_id = (m.next_order_id + 1) % 2 ^ 64;
    active_count = m.active_count + 1;
  },
)

unfoldable pub place_order :
    (F : Doubles) → Placement F → TriggerOrderManager F → ℕ × TriggerOrderManager F
place_order F p m = if placement_is_invalid F p then (0, m) else place_on F m.free_idx p m

abbrev pub place_stop_loss :
    (F : Doubles)
    → String
    → Bool
    → F.Double
    → F.Double
    → String
    → TriggerOrderManager F
    → ℕ × TriggerOrderManager F
place_stop_loss F symbol is_buy stop_price quantity strategy_id = place_order F (record {
  symbol = symbol;
  order_type = TriggerOrderType.stop_loss;
  is_buy = is_buy;
  stop_price = stop_price;
  take_profit_price = zero_double F;
  quantity = quantity;
  strategy_id = strategy_id;
})

abbrev pub place_oco :
    (F : Doubles)
    → String
    → Bool
    → F.Double
    → F.Double
    → F.Double
    → String
    → TriggerOrderManager F
    → ℕ × TriggerOrderManager F
place_oco F symbol is_buy stop_price take_profit_price quantity strategy_id =
    place_order F (record {
      symbol = symbol;
      order_type = TriggerOrderType.oco;
      is_buy = is_buy;
      stop_price = stop_price;
      take_profit_price = take_profit_price;
      quantity = quantity;
      strategy_id = strategy_id;
    })

abbrev pub holds : (F : Doubles) → ℕ → OrderSlot F → Bool
holds F id slot = slot.in_use && slot.order_id == id

abbrev pub release_at :
    (F : Doubles) → ℕ → Option (OrderSlot F) → TriggerOrderManager F → TriggerOrderManager F
release_at F idx none m = m
release_at F idx (some slot) m = if not slot.in_use then m else record m {
  slots = set_slot idx (empty_slot F) m.slots;
  free_idx = idx ∷ m.free_idx;
  active_count = m.active_count - 1;
}

unfoldable pub release_slot : (F : Doubles) → ℕ → TriggerOrderManager F → TriggerOrderManager F
release_slot F idx m = release_at F idx (get_elem? m.slots idx) m

-- The index where the loop of `cancel` stops, counted from `from`.
unfoldable pub find_order : (F : Doubles) → ℕ → ℕ → List (OrderSlot F) → Option ℕ
find_order F id from [] = none
find_order F id from (slot ∷ slots) =
    if holds F id slot then some from else find_order F id (suc from) slots

abbrev pub cancel_at :
    (F : Doubles) → Option ℕ → TriggerOrderManager F → Bool × TriggerOrderManager F
cancel_at F none m = (false, m)
cancel_at F (some idx) m = (true, release_slot F idx m)

unfoldable pub cancel : (F : Doubles) → ℕ → TriggerOrderManager F → Bool × TriggerOrderManager F
cancel F id m = cancel_at F (find_order F id 0 m.slots) m

unfoldable pub any_holds : (F : Doubles) → ℕ → List (OrderSlot F) → Bool
any_holds F id [] = false
any_holds F id (slot ∷ slots) = if holds F id slot then true else any_holds F id slots

abbrev pub has_order : (F : Doubles) → ℕ → TriggerOrderManager F → Bool
has_order F id m = any_holds F id m.slots
