-- ===== src/Triggers/Pool.antt =====
-- The pool of slots of engine/src/TriggerOrderManager.cpp stays consistent.
use mathlib.Core.Option.{some-injective}
use mynyra.Prelude.{
  ℕ, suc, ◌+◌, ◌-◌, ◌%◌, ◌^◌, ◌≤◌, ◌<◌, ◌≡◌, ◌≢◌, refl, sym, ap, ◌∙◌, Bool, true, false, ◌&&◌, some,
  List, [], ◌∷◌, arith, length, get_elem?, ◌==◌, Bool-cases, inl, inr, All, subst,
}
use mynyra.Doubles.{Doubles}
use mynyra.Triggers.Manager.{
  OrderSlot, empty_slot, TriggerOrderManager, set_slot, Placement, filled_slot, place_on, holds,
}
use mynyra.Triggers.Counting.{
  one_if, count_if, count_if-fill, count_if-clear, length-set_slot, get_elem?-set_slot,
  get_elem?-set_slot_self,
}

abbrev pub used : (F : Doubles) → OrderSlot F → Bool
used F slot = slot.in_use

-- The slot at an index is there and free.
abbrev pub FreeAt : (F : Doubles) → List (OrderSlot F) → ℕ → Type 0
FreeAt F slots i = (slot : OrderSlot F) × (get_elem? slots i ≡ some slot) × (slot.in_use ≡ false)

abbrev pub Distinct : List ℕ → Type 0
Distinct [] = Unit
Distinct (i ∷ is) = All (λ j. i ≢ j) is × Distinct is

abbrev pub IsPool : (F : Doubles) → TriggerOrderManager F → Type 0
IsPool F m =
    (count_if (used F) m.slots ≡ m.active_count)
    × (m.active_count + length m.free_idx ≡ length m.slots)
    × All (FreeAt F m.slots) m.free_idx
    × Distinct m.free_idx
    × (0 < m.next_order_id)
    × ((id : ℕ) → count_if (holds F id) m.slots ≤ 1)
    × ((id : ℕ) → m.next_order_id ≤ id → count_if (holds F id) m.slots ≡ 0)

module _ (F : Doubles) where
  -- Free slots elsewhere stay free.
  still_free :
      (slots : List (OrderSlot F)) (i : ℕ) (new : OrderSlot F) (is : List ℕ)
      → All (λ j. i ≢ j) is
      → All (FreeAt F slots) is
      → All (FreeAt F (set_slot i new slots)) is
  still_free slots i new [] _ _ = tt
  still_free slots i new (j ∷ js) (n, ns) ((slot, at, free), fs) =
      ((slot, get_elem?-set_slot i j new slots n ∙ at, free), still_free slots i new js ns fs)

  -- What a slot that takes the next id does to the counts of the ids.
  fresh_once :
      (id next : ℕ) (before after : ℕ)
      → after ≡ before + one_if (next == id)
      → before ≤ 1
      → (next ≤ id → before ≡ 0)
      → after ≤ 1
  fresh_once id next before after e h f = elim (Bool-cases (next == id)) [
    | inl same ↦ let one = ap one_if same in omega (arith, one, f (ground arith))
    | inr other ↦ let zero_more = ap one_if other in omega (arith, zero_more)
  ]

  fresh_later :
      (id next : ℕ) (before after : ℕ)
      → after ≡ before + one_if (next == id)
      → (next ≤ id → before ≡ 0)
      → suc next ≤ id
      → after ≡ 0
  fresh_later id next before after e f h =
      let other = ap one_if (differs next id h) in omega (arith, other, f (omega arith))
    where
      differs : (a b : ℕ) → suc a ≤ b → (a == b) ≡ false
      differs a b h = ground arith

  next_id : (n : ℕ) → n + 1 < 2 ^ 64 → (n + 1) % 2 ^ 64 ≡ suc n
  next_id n h = omega arith

  pub place_on-IsPool :
      (idx : ℕ) (rest : List ℕ) (p : Placement F) (m : TriggerOrderManager F)
      → m.free_idx ≡ idx ∷ rest
      → IsPool F m
      → m.next_order_id + 1 < 2 ^ 64
      → IsPool F (place_on F (idx ∷ rest) p m).1
  place_on-IsPool idx rest p m e (active, sum, frees, distinct, some_id, once, fresh) small =
      let ((slot, at, free), others) : FreeAt F m.slots idx × All (FreeAt F m.slots) rest =
        subst (All (FreeAt F m.slots)) e frees in
      let (apart, distinct_rest) : All (λ j. idx ≢ j) rest × Distinct rest =
        subst Distinct e distinct in
      let new = filled_slot F p m.next_order_id in
      let unheld : (id : ℕ) → holds F id slot ≡ false = λ id. rw free refl in
      let counted : (id : ℕ)
          → count_if (holds F id) (set_slot idx new m.slots)
            ≡ count_if (holds F id) m.slots + one_if (m.next_order_id == id) =
        λ id. count_if-fill (holds F id) idx new slot m.slots at (unheld id) in
      let lengths : length m.free_idx ≡ suc (length rest) = ap length e in
      (
        count_if-fill (used F) idx new slot m.slots at free ∙ ap (λ (n : ℕ). n + 1) active,
        (let kept = length-set_slot idx new m.slots in omega (arith, kept)),
        still_free m.slots idx new rest apart others,
        distinct_rest,
        (let next = next_id m.next_order_id small in omega (arith, next)),
        (λ id. fresh_once id m.next_order_id _ _ (counted id) (once id) (fresh id)),
        (λ id h.
            fresh_later id m.next_order_id _ _ (counted id) (fresh id)
              (subst (λ n. n ≤ id) (next_id m.next_order_id small) h)),
      )

  -- A slot in use is none of the free ones.
  used_apart :
      (slots : List (OrderSlot F)) (i : ℕ) (slot : OrderSlot F) (is : List ℕ)
      → get_elem? slots i ≡ some slot
      → slot.in_use ≡ true
      → All (FreeAt F slots) is
      → All (λ j. i ≢ j) is
  used_apart slots i slot [] at h _ = tt
  used_apart slots i slot (j ∷ js) at h ((other, there, free), fs) = (
    (λ e. true_≢_false (
        sym h
        ∙ ap (λ (s : OrderSlot F). s.in_use)
            (some-injective slot other (sym at ∙ ap (λ (k : ℕ). get_elem? slots k) e ∙ there))
        ∙ free)),
    used_apart slots i slot js at h fs,
  )
    where
      true_≢_false : true ≢ false
      true_≢_false e = ground arith

  -- What `releaseSlot` makes of a manager, where the slot is in use.
  abbrev pub released : ℕ → TriggerOrderManager F → TriggerOrderManager F
  released idx m = record m {
    slots = set_slot idx (empty_slot F) m.slots;
    free_idx = idx ∷ m.free_idx;
    active_count = m.active_count - 1;
  }

  pub released_count :
      (idx : ℕ) (slot : OrderSlot F) (m : TriggerOrderManager F) (id : ℕ)
      → get_elem? m.slots idx ≡ some slot
      → slot.in_use ≡ true
      → count_if (holds F id) (released idx m).slots + one_if (slot.order_id == id)
        ≡ count_if (holds F id) m.slots
  released_count idx slot m id at h =
      ap
        (λ (b : Bool).
          count_if (holds F id) (released idx m).slots + one_if (b && slot.order_id == id))
        (sym h)
      ∙ count_if-clear (holds F id) idx (empty_slot F) slot m.slots at refl

  pub released-IsPool :
      (idx : ℕ) (slot : OrderSlot F) (m : TriggerOrderManager F)
      → get_elem? m.slots idx ≡ some slot
      → slot.in_use ≡ true
      → IsPool F m
      → IsPool F (released idx m) × (m.active_count ≡ suc (m.active_count - 1))
  released-IsPool idx slot m at h (active, sum, frees, distinct, some_id, once, fresh) =
      let new = empty_slot F in
      let one = ap one_if h in
      let cleared = count_if-clear (used F) idx new slot m.slots at refl in
      let counted : (id : ℕ)
          → count_if (holds F id) (released idx m).slots ≤ count_if (holds F id) m.slots =
        λ id. (let c = released_count idx slot m id at h in omega (arith, c)) in
      let apart = used_apart m.slots idx slot m.free_idx at h frees in
      let kept = length-set_slot idx new m.slots in
      (
        (
          omega (arith, one, cleared),
          omega (arith, one, cleared, kept),
          (
            (new, get_elem?-set_slot_self idx new slot m.slots at, refl),
            still_free m.slots idx new m.free_idx apart frees,
          ),
          (apart, distinct),
          some_id,
          (λ id. omega (arith, counted id, once id)),
          (λ id later. omega (arith, counted id, fresh id later)),
        ),
        omega (arith, one, cleared),
      )
