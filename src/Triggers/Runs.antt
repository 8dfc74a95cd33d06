-- ===== src/Triggers/Runs.antt =====
-- Histories of engine/src/TriggerOrderManager.cpp.
use mynyra.Prelude.{
  ℕ, suc, ◌+◌, ◌-◌, ◌^◌, ◌≤◌, ◌<◌, ◌≡◌, refl, sym, ap, ◌∙◌, Bool, true, false, not, Option, none,
  some, List, [], ◌∷◌, arith, length, get_elem?, if◌then◌else◌, Bool-cases, inl, inr, subst,
}
use mynyra.Doubles.{Doubles}
use mynyra.Triggers.Manager.{
  TriggerOrderManager, new_manager, Placement, placement_is_invalid, place_on, place_order, cancel,
  cancel_at, find_order, has_order, release_at, release_slot, set_slot, filled_slot, empty_slot,
  OrderSlot, any_holds, holds,
}
use mynyra.Triggers.Counting.{length-set_slot}
use mynyra.Triggers.Pool.{IsPool, place_on-IsPool}
use mynyra.Triggers.Initial.{new_manager-IsPool, length-empty_slots}
use mynyra.Triggers.Orders.{cancel_order}

pub data Call (F : Doubles) : Type 0 where
  places : Placement F → Call F
  cancels : ℕ → Call F

unfoldable pub step : (F : Doubles) → Call F → TriggerOrderManager F → TriggerOrderManager F
step F (places p) m = (place_order F p m).1
step F (cancels id) m = (cancel F id m).1

unfoldable pub run : (F : Doubles) → List (Call F) → TriggerOrderManager F → TriggerOrderManager F
run F [] m = m
run F (c ∷ cs) m = run F cs (step F c m)

module _ (F : Doubles) where
  find_order-absent :
      (id from : ℕ) (slots : List (OrderSlot F))
      → any_holds F id slots ≡ false
      → find_order F id from slots ≡ none
  unfolding find_order any_holds
  find_order-absent id from [] h = refl
  find_order-absent id from (slot ∷ slots) h = elim (Bool-cases (holds F id slot)) [
    | inl here ↦ ground arith
    | inr other ↦
        let rest : any_holds F id slots ≡ false = ground arith in
        let later = find_order-absent id (suc from) slots rest in ground (arith, later)
  ]

  -- `cancel` of an order that is not there changes nothing.
  pub cancel_absent :
      (id : ℕ) (m : TriggerOrderManager F) → has_order F id m ≡ false → cancel F id m ≡ (false, m)
  unfolding cancel
  cancel_absent id m h = ap (λ (o : Option ℕ). cancel_at F o m) (find_order-absent id 0 m.slots h)

  -- A consistent pool of the same size whose next id has grown by one at most.
  abbrev pub Keeps : TriggerOrderManager F → TriggerOrderManager F → Type 0
  Keeps m after =
      IsPool F after
      × (after.next_order_id ≤ suc m.next_order_id)
      × (length after.slots ≡ length m.slots)

  place_on-Keeps :
      (free : List ℕ) (p : Placement F) (m : TriggerOrderManager F)
      → m.free_idx ≡ free
      → IsPool F m
      → m.next_order_id + 1 < 2 ^ 64
      → Keeps m (place_on F free p m).1
  place_on-Keeps [] p m e pool small = (pool, omega arith, refl)
  place_on-Keeps (idx ∷ rest) p m e pool small = (
    place_on-IsPool F idx rest p m e pool small,
    omega arith,
    length-set_slot idx (filled_slot F p m.next_order_id) m.slots,
  )

  place_order-Keeps :
      (p : Placement F) (m : TriggerOrderManager F)
      → IsPool F m
      → m.next_order_id + 1 < 2 ^ 64
      → Keeps m (place_order F p m).1
  unfolding place_order
  place_order-Keeps p m pool small = go (placement_is_invalid F p)
    where
      go : (b : Bool) → Keeps m (if b then (0, m) else place_on F m.free_idx p m).1
      go true = (pool, omega arith, refl)
      go false = place_on-Keeps m.free_idx p m refl pool small

  release_at_size :
      (idx : ℕ) (o : Option (OrderSlot F)) (m : TriggerOrderManager F)
      → ((release_at F idx o m).next_order_id ≡ m.next_order_id)
        × (length (release_at F idx o m).slots ≡ length m.slots)
  release_at_size idx none m = (refl, refl)
  release_at_size idx (some slot) m = go slot.in_use
    where
      go :
          (b : Bool)
          → ((if not b then m else record m {
            slots = set_slot idx (empty_slot F) m.slots;
            free_idx = idx ∷ m.free_idx;
            active_count = m.active_count - 1;
          }).next_order_id
              ≡ m.next_order_id)
            × (length
                  (if not b then m else record m {
                    slots = set_slot idx (empty_slot F) m.slots;
                    free_idx = idx ∷ m.free_idx;
                    active_count = m.active_count - 1;
                  }).slots
                ≡ length m.slots)
      go true = (refl, length-set_slot idx (empty_slot F) m.slots)
      go false = (refl, refl)

  cancel_at_size :
      (o : Option ℕ) (m : TriggerOrderManager F)
      → ((cancel_at F o m).1.next_order_id ≡ m.next_order_id)
        × (length (cancel_at F o m).1.slots ≡ length m.slots)
  unfolding release_slot
  cancel_at_size none m = (refl, refl)
  cancel_at_size (some idx) m = release_at_size idx (get_elem? m.slots idx) m

  cancel-Keeps : (id : ℕ) (m : TriggerOrderManager F) → IsPool F m → Keeps m (cancel F id m).1
  unfolding cancel
  cancel-Keeps id m pool =
      let (next, size) = cancel_at_size (find_order F id 0 m.slots) m in
      (
        elim (Bool-cases (has_order F id m)) [
          | inl there ↦ (cancel_order F id m pool there).4
          | inr absent ↦ subst (λ r. IsPool F r.1) (sym (cancel_absent id m absent)) pool
        ],
        omega (arith, next),
        size,
      )

  run-IsPool :
      (cs : List (Call F)) (m : TriggerOrderManager F)
      → IsPool F m
      → m.next_order_id + length cs < 2 ^ 64
      → IsPool F (run F cs m) × (length (run F cs m).slots ≡ length m.slots)
  unfolding run step
  run-IsPool [] m pool small = (pool, refl)
  run-IsPool (places p ∷ cs) m pool small =
      let (pooled, next, size) = place_order-Keeps p m pool (omega arith) in
      let (pooled', size') = run-IsPool cs (place_order F p m).1 pooled (omega arith) in
      (pooled', size' ∙ size)
  run-IsPool (cancels id ∷ cs) m pool small =
      let (pooled, next, size) = cancel-Keeps id m pool in
      let (pooled', size') = run-IsPool cs (cancel F id m).1 pooled (omega arith) in
      (pooled', size' ∙ size)

  -- After any history of fewer than 2 ^ 64 - 1 calls on a new manager, active_count is the number
  -- of slots in use, the active orders and the free indices together number the slots, the free
  -- indices are distinct and name free slots, no id is held by two slots, the next id is held by
  -- none, and the capacity is unchanged.
  pub run_new-IsPool :
      (capacity : ℕ) (cs : List (Call F))
      → 1 + length cs < 2 ^ 64
      → IsPool F (run F cs (new_manager F capacity))
        × (length (run F cs (new_manager F capacity)).slots ≡ capacity)
  unfolding new_manager
  run_new-IsPool capacity cs small =
      let (pooled, size) =
        run-IsPool cs (new_manager F capacity) (new_manager-IsPool F capacity) small in
      (pooled, size ∙ length-empty_slots F capacity)
