-- ===== src/Triggers/Lookup.antt =====
-- The slot that holds an order of engine/src/TriggerOrderManager.cpp, when another slot is written.
use mathlib.Core.Option.{some-injective}
use mynyra.Prelude.{
  ℕ, zero, suc, ◌≡◌, refl, true, false, Option, none, some, List, [], ◌∷◌, arith, get_elem?,
  if◌then◌else◌,
}
use mynyra.Doubles.{Doubles}
use mynyra.Triggers.Manager.{OrderSlot, set_slot, holds, any_holds}

module _ (F : Doubles) where
  unfoldable pub slot_of : ℕ → List (OrderSlot F) → Option (OrderSlot F)
  slot_of id [] = none
  slot_of id (slot ∷ slots) = if holds F id slot then some slot else slot_of id slots

  -- A slot that holds neither before nor after the write is passed over.
  pub slot_of-set_slot_other :
      (id i : ℕ) (new old : OrderSlot F) (slots : List (OrderSlot F))
      → get_elem? slots i ≡ some old
      → holds F id old ≡ false
      → holds F id new ≡ false
      → slot_of id (set_slot i new slots) ≡ slot_of id slots
  unfolding slot_of
  slot_of-set_slot_other id i new old [] e before after = refl
  slot_of-set_slot_other id zero new old (slot ∷ slots) e before after =
      let same = some-injective slot old e in rw (after, same, before) refl
  slot_of-set_slot_other id (suc i) new old (slot ∷ slots) e before after =
      ground (arith, slot_of-set_slot_other id i new old slots e before after)

  -- A written slot is found where no other slot holds the order.
  pub slot_of-set_slot :
      (id i : ℕ) (new old : OrderSlot F) (slots : List (OrderSlot F))
      → get_elem? slots i ≡ some old
      → any_holds F id slots ≡ false
      → holds F id new ≡ true
      → slot_of id (set_slot i new slots) ≡ some new
  unfolding slot_of any_holds
  slot_of-set_slot id i new old [] e absent there = cc
  slot_of-set_slot id zero new old (slot ∷ slots) e absent there = rw there refl
  slot_of-set_slot id (suc i) new old (slot ∷ slots) e absent there =
      ground (arith, slot_of-set_slot id i new old slots e)

  pub slot_of-none :
      (id : ℕ) (slots : List (OrderSlot F)) → any_holds F id slots ≡ false → slot_of id slots ≡ none
  unfolding slot_of any_holds
  slot_of-none id [] h = refl
  slot_of-none id (slot ∷ slots) h = ground (arith, slot_of-none id slots)
