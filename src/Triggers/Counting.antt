-- ===== src/Triggers/Counting.antt =====
-- Counting the slots of engine/src/TriggerOrderManager.cpp.
use mathlib.Core.Option.{some-injective}
use mynyra.Prelude.{
  ℕ, zero, suc, ◌+◌, ◌≡◌, ◌≢◌, refl, ap, Bool, true, false, none, some, List, [], ◌∷◌, arith,
  length, get_elem?, ltb, Bool-cases, inl, inr,
}
use mynyra.Doubles.{Doubles}
use mynyra.Triggers.Manager.{OrderSlot, set_slot, holds, find_order, any_holds}

abbrev pub one_if : Bool → ℕ
one_if true = 1
one_if false = 0

module _ {ℓ} {A : Type ℓ} where
  abbrev pub count_if : (A → Bool) → List A → ℕ
  count_if p [] = 0
  count_if p (x ∷ xs) = one_if (p x) + count_if p xs

  -- A written slot counts in place of the one that stood there.
  pub count_if-set_slot :
      (p : A → Bool) (i : ℕ) (new old : A) (xs : List A)
      → get_elem? xs i ≡ some old
      → count_if p (set_slot i new xs) + one_if (p old) ≡ count_if p xs + one_if (p new)
  count_if-set_slot p i new old [] e = ground arith
  count_if-set_slot p zero new old (x ∷ xs) e =
      let same = ap (λ (y : A). one_if (p y)) (some-injective x old e) in omega (arith, same)
  count_if-set_slot p (suc i) new old (x ∷ xs) e = omega (arith, count_if-set_slot p i new old xs e)

  pub count_if-fill :
      (p : A → Bool) (i : ℕ) (new old : A) (xs : List A)
      → get_elem? xs i ≡ some old
      → p old ≡ false
      → count_if p (set_slot i new xs) ≡ count_if p xs + one_if (p new)
  count_if-fill p i new old xs e h =
      let none_before = ap one_if h in
      omega (arith, none_before, count_if-set_slot p i new old xs e)

  pub count_if-clear :
      (p : A → Bool) (i : ℕ) (new old : A) (xs : List A)
      → get_elem? xs i ≡ some old
      → p new ≡ false
      → count_if p (set_slot i new xs) + one_if (p old) ≡ count_if p xs
  count_if-clear p i new old xs e h =
      let none_after = ap one_if h in omega (arith, none_after, count_if-set_slot p i new old xs e)

  pub length-set_slot : (i : ℕ) (new : A) (xs : List A) → length (set_slot i new xs) ≡ length xs
  length-set_slot i new [] = refl
  length-set_slot zero new (x ∷ xs) = refl
  length-set_slot (suc i) new (x ∷ xs) = ap suc (length-set_slot i new xs)

  pub get_elem?-set_slot :
      (i j : ℕ) (new : A) (xs : List A) → i ≢ j → get_elem? (set_slot i new xs) j ≡ get_elem? xs j
  get_elem?-set_slot i j new [] n = refl
  get_elem?-set_slot zero zero new (x ∷ xs) n = ground arith
  get_elem?-set_slot zero (suc j) new (x ∷ xs) n = refl
  get_elem?-set_slot (suc i) zero new (x ∷ xs) n = refl
  get_elem?-set_slot (suc i) (suc j) new (x ∷ xs) n =
      get_elem?-set_slot i j new xs (λ e. n (ap suc e))

  pub get_elem?-set_slot_self :
      (i : ℕ) (new old : A) (xs : List A)
      → get_elem? xs i ≡ some old
      → get_elem? (set_slot i new xs) i ≡ some new
  get_elem?-set_slot_self i new old [] e = ground arith
  get_elem?-set_slot_self zero new old (x ∷ xs) e = refl
  get_elem?-set_slot_self (suc i) new old (x ∷ xs) e = get_elem?-set_slot_self i new old xs e

module _ (F : Doubles) where
  pub any_holds_count :
      (id : ℕ) (slots : List (OrderSlot F))
      → any_holds F id slots ≡ ltb 0 (count_if (holds F id) slots)
  unfolding any_holds
  any_holds_count id [] = refl
  any_holds_count id (slot ∷ slots) = ground (arith, any_holds_count id slots)

  -- The loop of `cancel` finds a slot that holds the order, if there is one.
  pub find_order-some :
      (id from idx : ℕ) (slots : List (OrderSlot F))
      → find_order F id from slots ≡ some idx
      → (i : ℕ) × (slot : OrderSlot F) × (idx ≡ from + i)
        × (get_elem? slots i ≡ some slot)
        × (holds F id slot ≡ true)
  unfolding find_order
  find_order-some id from idx [] e = ground arith
  find_order-some id from idx (slot ∷ slots) e = elim (Bool-cases (holds F id slot)) [
    | inl here ↦ (0, slot, ground arith, refl, here)
    | inr other ↦
        let later : find_order F id (suc from) slots ≡ some idx = ground arith in
        let (i, found, place, at, same) = find_order-some id (suc from) idx slots later in
        (suc i, found, omega arith, at, same)
  ]

  pub find_order-none :
      (id from : ℕ) (slots : List (OrderSlot F))
      → find_order F id from slots ≡ none
      → any_holds F id slots ≡ false
  unfolding find_order any_holds
  find_order-none id from [] e = refl
  find_order-none id from (slot ∷ slots) e = ground (arith, find_order-none id (suc from) slots)
