-- ===== src/Triggers/Initial.antt =====
-- The new manager of engine/src/TriggerOrderManager.cpp.
use mynyra.Prelude.{
  ℕ, zero, suc, ◌+◌, ◌≤◌, ◌<◌, ◌≡◌, ◌≢◌, refl, ap, Bool, false, some, arith, length, get_elem?, All,
}
use mynyra.Doubles.{Doubles}
use mynyra.Triggers.Manager.{OrderSlot, empty_slot, empty_slots, indices, new_manager, holds}
use mynyra.Triggers.Counting.{one_if, count_if}
use mynyra.Triggers.Pool.{used, FreeAt, Distinct, IsPool}

module _ (F : Doubles) where
  empty_slots_count :
      (p : OrderSlot F → Bool) (n : ℕ) → p (empty_slot F) ≡ false → count_if p (empty_slots F n) ≡ 0
  empty_slots_count p zero h = refl
  empty_slots_count p (suc n) h =
      let none_here = ap one_if h in omega (arith, none_here, empty_slots_count p n h)

  pub length-empty_slots : (n : ℕ) → length (empty_slots F n) ≡ n
  length-empty_slots zero = refl
  length-empty_slots (suc n) = ap suc (length-empty_slots n)

  length-indices : (start n : ℕ) → length (indices start n) ≡ n
  length-indices start zero = refl
  length-indices start (suc n) = ap suc (length-indices (suc start) n)

  empty_slots_at : (i n : ℕ) → i < n → get_elem? (empty_slots F n) i ≡ some (empty_slot F)
  empty_slots_at i zero h = ground arith
  empty_slots_at zero (suc n) h = refl
  empty_slots_at (suc i) (suc n) h = empty_slots_at i n (omega arith)

  indices_free :
      (start n capacity : ℕ)
      → start + n ≤ capacity
      → All (FreeAt F (empty_slots F capacity)) (indices start n)
  indices_free start zero capacity h = tt
  indices_free start (suc n) capacity h = (
    (empty_slot F, empty_slots_at start capacity (omega arith), refl),
    indices_free (suc start) n capacity (omega arith),
  )

  indices_above : (k start n : ℕ) → k < start → All (λ j. k ≢ j) (indices start n)
  indices_above k start zero h = tt
  indices_above k start (suc n) h = (ground arith, indices_above k (suc start) n (omega arith))

  indices-Distinct : (start n : ℕ) → Distinct (indices start n)
  indices-Distinct start zero = tt
  indices-Distinct start (suc n) =
      (indices_above start (suc start) n (omega arith), indices-Distinct (suc start) n)

  pub new_manager-IsPool : (capacity : ℕ) → IsPool F (new_manager F capacity)
  unfolding new_manager
  new_manager-IsPool capacity = (
    empty_slots_count (used F) capacity refl,
    omega (arith, length-indices 0 capacity, length-empty_slots capacity),
    indices_free 0 capacity capacity (omega arith),
    indices-Distinct 0 capacity,
    omega arith,
    (λ id.
        let none_held = empty_slots_count (holds F id) capacity refl in omega (arith, none_held)),
    (λ id h. empty_slots_count (holds F id) capacity refl),
  )
