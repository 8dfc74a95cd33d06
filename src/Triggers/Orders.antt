-- ===== src/Triggers/Orders.antt =====
-- What placing and cancelling do to the orders of engine/src/TriggerOrderManager.cpp.
use mynyra.Prelude.{
  ℕ, suc, ◌+◌, ◌^◌, ◌≤◌, ◌<◌, ◌≡◌, ◌≢◌, refl, sym, ap, ◌∙◌, Bool, true, false, Option, some, List,
  [], ◌∷◌, arith, length, get_elem?, ltb, ◌==◌, if◌then◌else◌, Option-cases, inl, inr, All, subst,
}
use mynyra.Doubles.{Doubles}
use mynyra.Triggers.Manager.{
  OrderSlot, empty_slot, TriggerOrderManager, Placement, placement_is_invalid, filled_slot,
  place_on, place_order, holds, release_at, release_slot, find_order, cancel_at, cancel, has_order,
}
use mynyra.Triggers.Lookup.{slot_of, slot_of-set_slot, slot_of-set_slot_other}
use mynyra.Triggers.Counting.{one_if, count_if, any_holds_count, find_order-some, find_order-none}
use mynyra.Triggers.Pool.{
  FreeAt, IsPool, place_on-IsPool, released, released_count, released-IsPool,
}

module _ (F : Doubles) where
  holds_inv :
      (id : ℕ) (slot : OrderSlot F)
      → holds F id slot ≡ true
      → (slot.in_use ≡ true) × (slot.order_id ≡ id)
  holds_inv id slot h = (ground arith, ground arith)

  has_order_count :
      (id : ℕ) (m : TriggerOrderManager F)
      → has_order F id m ≡ ltb 0 (count_if (holds F id) m.slots)
  has_order_count id m = any_holds_count F id m.slots

  one_if_same : (a b : ℕ) → a ≡ b → one_if (a == b) ≡ 1
  one_if_same a b e = let same : (a == b) ≡ true = ground arith in ap one_if same

  holds_other : (id : ℕ) (slot : OrderSlot F) → slot.order_id ≢ id → holds F id slot ≡ false
  holds_other id slot n = ground (arith, n)

  -- The order is gone, the slot of every other is as it was, and one fewer is active.
  abbrev pub Cancelled : ℕ → TriggerOrderManager F → Bool × TriggerOrderManager F → Type 0
  Cancelled id m (found, after) =
      (found ≡ true)
      × (has_order F id after ≡ false)
      × ((other : ℕ) → id ≢ other → slot_of F other after.slots ≡ slot_of F other m.slots)
      × (m.active_count ≡ suc after.active_count)
      × IsPool F after

  released-Cancelled :
      (id idx : ℕ) (slot : OrderSlot F) (m : TriggerOrderManager F)
      → IsPool F m
      → get_elem? m.slots idx ≡ some slot
      → slot.in_use ≡ true
      → slot.order_id ≡ id
      → Cancelled id m (true, released F idx m)
  released-Cancelled id idx slot m pool at in_use same =
      let (pooled, fewer) = released-IsPool F idx slot m at in_use pool in
      let counted = released_count F idx slot m id at in_use in
      let one = one_if_same slot.order_id id same in
      let once : count_if (holds F id) m.slots ≤ 1 = pool.5 id in
      let gone : count_if (holds F id) (released F idx m).slots ≡ 0 =
        omega (arith, counted, one, once) in
      (
        refl,
        has_order_count id (released F idx m) ∙ ap (λ (n : ℕ). ltb 0 n) gone,
        (λ other apart.
            slot_of-set_slot_other F other idx (empty_slot F) slot m.slots at
              (holds_other other slot (λ e. apart (sym same ∙ e))) refl),
        fewer,
        pooled,
      )

  -- On a consistent pool cancel of an order that is there succeeds, the order is there no more,
  -- the slot of every other order is as it was, one fewer is active, and the pool stays
  -- consistent.
  pub cancel_order :
      (id : ℕ) (m : TriggerOrderManager F)
      → IsPool F m
      → has_order F id m ≡ true
      → Cancelled id m (cancel F id m)
  unfolding cancel release_slot
  cancel_order id m pool h = elim (Option-cases (find_order F id 0 m.slots)) [
    | inl missing ↦
        let absent = find_order-none F id 0 m.slots missing in
        elim (true_ne_false (sym h ∙ absent)) [ ]
    | inr (idx, e) ↦
        let (i, slot, place, at, held) = find_order-some F id 0 idx m.slots e in
        let (in_use, same) = holds_inv id slot held in
        let here : get_elem? m.slots idx ≡ some slot =
          (let at_i : idx ≡ i = omega arith in ap (λ (k : ℕ). get_elem? m.slots k) at_i) ∙ at in
        let done : cancel_at F (find_order F id 0 m.slots) m ≡ (true, released F idx m) =
          ap (λ (o : Option ℕ). cancel_at F o m) e
          ∙ ap (λ (o : Option (OrderSlot F)). (true, release_at F idx o m)) here
          ∙ rw in_use refl in
        subst (Cancelled id m) (sym done) (released-Cancelled id idx slot m pool here in_use same)
  ]
    where
      true_ne_false : true ≢ false
      true_ne_false e = ground arith

  -- A slot that holds an order as it was asked for.
  pub record IsOrder (p : Placement F) (id : ℕ) (slot : OrderSlot F) : Type 0 where
    pub in_use : slot.in_use ≡ true
    pub order_id : slot.order_id ≡ id
    pub symbol : slot.symbol ≡ p.symbol
    pub order_type : slot.order_type ≡ p.order_type
    pub is_buy : slot.is_buy ≡ p.is_buy
    pub stop_price : slot.stop_price ≡ p.stop_price
    pub take_profit_price : slot.take_profit_price ≡ p.take_profit_price
    pub quantity : slot.quantity ≡ p.quantity
    pub strategy_id : slot.strategy_id ≡ p.strategy_id

  -- The new order has a slot, the slot of every other order is as it was, and one more is active.
  abbrev pub Placed : Placement F → TriggerOrderManager F → ℕ × TriggerOrderManager F → Type 0
  Placed p m (id, after) =
      (id ≡ m.next_order_id)
      × (has_order F id m ≡ false)
      × ((slot : OrderSlot F) × (slot_of F id after.slots ≡ some slot) × IsOrder p id slot)
      × ((other : ℕ) → id ≢ other → slot_of F other after.slots ≡ slot_of F other m.slots)
      × (after.active_count ≡ suc m.active_count)
      × IsPool F after

  holds_own : (p : Placement F) (id : ℕ) → holds F id (filled_slot F p id) ≡ true
  holds_own p id = ground arith

  place_on-Placed :
      (idx : ℕ) (rest : List ℕ) (p : Placement F) (m : TriggerOrderManager F)
      → m.free_idx ≡ idx ∷ rest
      → IsPool F m
      → m.next_order_id + 1 < 2 ^ 64
      → Placed p m (place_on F (idx ∷ rest) p m)
  place_on-Placed idx rest p m e pool small =
      let ((slot, at, free), _) : FreeAt F m.slots idx × All (FreeAt F m.slots) rest =
        subst (All (FreeAt F m.slots)) e pool.2 in
      let unheld : (id : ℕ) → holds F id slot ≡ false = λ id. rw free refl in
      let fresh : count_if (holds F m.next_order_id) m.slots ≡ 0 =
        pool.6 m.next_order_id (omega arith) in
      let absent : has_order F m.next_order_id m ≡ false =
        has_order_count m.next_order_id m ∙ ap (λ (n : ℕ). ltb 0 n) fresh in
      let new = filled_slot F p m.next_order_id in
      (
        refl,
        absent,
        (
          new,
          slot_of-set_slot F m.next_order_id idx new slot m.slots at absent
              (holds_own p m.next_order_id),
          record {
            in_use = refl;
            order_id = refl;
            symbol = refl;
            order_type = refl;
            is_buy = refl;
            stop_price = refl;
            take_profit_price = refl;
            quantity = refl;
            strategy_id = refl;
          },
        ),
        (λ other apart.
            slot_of-set_slot_other F other idx new slot m.slots at (unheld other)
              (holds_other other new apart)),
        omega arith,
        place_on-IsPool F idx rest p m e pool small,
      )

  no_room : (a f s : ℕ) → f ≡ 0 → a + f ≡ s → a < s → a ≢ a
  no_room a f s x y z = omega arith

  -- On a consistent pool with room, before the last 64-bit id, a valid order is placed under the
  -- next id, which no order had; a slot in use holds each field that it was placed with, the slot
  -- of every other order is as it was, one more is active, and the pool stays consistent.
  pub place_order_lem :
      (p : Placement F) (m : TriggerOrderManager F)
      → IsPool F m
      → m.next_order_id + 1 < 2 ^ 64
      → placement_is_invalid F p ≡ false
      → m.active_count < length m.slots
      → Placed p m (place_order F p m)
  unfolding place_order
  place_order_lem p m pool small valid room = subst (Placed p m) (sym chosen) (go m.free_idx refl)
    where
      chosen :
          (if placement_is_invalid F p then (0, m) else place_on F m.free_idx p m)
          ≡ place_on F m.free_idx p m
      chosen = ap (λ (b : Bool). if b then (0, m) else place_on F m.free_idx p m) valid

      go : (free : List ℕ) → m.free_idx ≡ free → Placed p m (place_on F free p m)
      go [] e =
          let full : length m.free_idx ≡ 0 = ap length e in
          let sum : m.active_count + length m.free_idx ≡ length m.slots = pool.1 in
          elim (no_room m.active_count (length m.free_idx) (length m.slots) full sum room refl) [ ]
      go (idx ∷ rest) e = place_on-Placed idx rest p m e pool small
