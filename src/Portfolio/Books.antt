-- ===== src/Portfolio/Books.antt =====
-- The book value of the account of engine/src/PortfolioManager.cpp: the cash and what the open positions
-- cost, their entry fees included.
use mathlib.Core.Option.{some-injective}
use mynyra.Prelude.{
  ℕ, ◌+◌, ◌*◌, ◌/◌, ◌<◌, ◌≡◌, refl, ap, ◌∙◌, inl, inr, true, false, not, ◌||◌, none, some, String,
  List, [], ◌∷◌, arith, Bool-cases, str_eq,
}
use mynyra.Prelude.Int.{ℤ, pos, negsuc, ◌+ℤ◌, ◌-ℤ◌, ◌<ℤ◌, ltb_ℤ, IsInt64, int_laws}
use mynyra.Prelude.Dictionary.{find, assign, remove}
use mynyra.Financial.Division.{div_unique}
use mynyra.Financial.Wide.{magnitude}
use mynyra.Financial.Units.{Quantity, Money, negative, positive, proportional_units}
use mynyra.Financial.Values.{proportional}
use mynyra.Financial.Exact.{proportional_units_exact, representable, signed}
use mynyra.Financial.Budget.{negative-pos, representable-pos}
use mynyra.Doubles.{Doubles}
use mynyra.Portfolio.State.{PositionState, PortfolioManager}
use mynyra.Portfolio.Valuing.{nearest}

abbrev pub paid_for : PositionState → ℤ
paid_for s = s.cost_basis.units +ℤ s.entry_fee.units

abbrev pub invested : List (String × PositionState) → ℤ
invested [] = pos 0
invested (entry ∷ rest) = paid_for entry.1 +ℤ invested rest

abbrev pub book_value : (F : Doubles) → PortfolioManager F → ℤ
book_value F p = p.cash.units +ℤ invested p.positions

pub add_comm_ℤ : (a b : ℤ) → a +ℤ b ≡ b +ℤ a
add_comm_ℤ a b = grind int_laws

pub swap : (a b c : ℤ) → a +ℤ (b +ℤ c) ≡ b +ℤ (a +ℤ c)
swap a b c = grind int_laws

pub invested-assign_new :
    (symbol : String) (state : PositionState) (m : List (String × PositionState))
    → find symbol m ≡ none
    → invested (assign symbol state m) ≡ paid_for state +ℤ invested m
unfolding find assign
invested-assign_new symbol state [] h = refl
invested-assign_new symbol state ((key, other) ∷ rest) h = elim (Bool-cases (str_eq symbol key)) [
  | inl hit ↦ ground (arith, hit, h)
  | inr miss ↦ rw miss (
      ap (λ (t : ℤ). paid_for other +ℤ t) (invested-assign_new symbol state rest (rw miss at h))
      ∙ swap (paid_for other) (paid_for state) (invested rest))
]

exchange : (a b c d e : ℤ) → a +ℤ b ≡ c +ℤ d → (e +ℤ a) +ℤ b ≡ (e +ℤ c) +ℤ d
exchange a b c d e h = grind (int_laws, h)

replace : (a b c : ℤ) → (a +ℤ b) +ℤ c ≡ (c +ℤ b) +ℤ a
replace a b c = grind int_laws

pub invested-assign_old :
    (symbol : String) (state old : PositionState) (m : List (String × PositionState))
    → find symbol m ≡ some old
    → invested (assign symbol state m) +ℤ paid_for old ≡ invested m +ℤ paid_for state
unfolding find assign
invested-assign_old symbol state old [] h = ground arith
invested-assign_old symbol state old ((key, other) ∷ rest) h =
    elim (Bool-cases (str_eq symbol key)) [
      | inl hit ↦
          let same : other ≡ old = some-injective _ _ (rw hit at h) in
          rw (hit, same) (replace (paid_for state) (invested rest) (paid_for old))
      | inr miss ↦ rw miss (
          exchange _ _ _ _ (paid_for other)
            (invested-assign_old symbol state old rest (rw miss at h)))
    ]

pub invested-remove :
    (symbol : String) (old : PositionState) (m : List (String × PositionState))
    → find symbol m ≡ some old
    → invested (remove symbol m) +ℤ paid_for old ≡ invested m
unfolding find remove
invested-remove symbol old [] h = ground arith
invested-remove symbol old ((key, other) ∷ rest) h = elim (Bool-cases (str_eq symbol key)) [
  | inl hit ↦
      let same : other ≡ old = some-injective _ _ (rw hit at h) in
      rw (hit, same) (add_comm_ℤ (invested rest) (paid_for old))
  | inr miss ↦ rw miss (grind (int_laws, invested-remove symbol old rest (rw miss at h)))
]

-- The whole of a total is the total.
whole_share : (m q : ℕ) → 0 < q → (2 * (m * q) + q) / (2 * q) ≡ m
whole_share m q h = (div_unique (2 * (m * q) + q) (2 * q) m q (omega arith) (omega arith)).0

negative-true : (n : ℕ) → negative (negsuc n) ≡ true
negative-true n = ground arith

signed-true :
    (n : ℕ)
    → IsInt64 (negsuc n)
    → representable (signed true (magnitude (negsuc n))) ≡ some (negsuc n)
unfolding ◌-ℤ◌
signed-true n h = ground arith

whole_units :
    (t w : ℤ) → IsInt64 t → IsInt64 w → pos 0 <ℤ w → proportional_units t w w nearest ≡ some t
whole_units t (negsuc n) ht hw up = ground arith
whole_units (pos m) (pos n) ht hw up =
    let some_n : 0 < n = omega arith in
    proportional_units_exact (pos m) (pos n) (pos n) nearest ht hw hw (λ e. ground (arith, e))
    ∙ rw (negative-pos m, negative-pos n, whole_share m n some_n)
        (representable-pos m (omega arith))
whole_units (negsuc m) (pos n) ht hw up =
    let some_n : 0 < n = omega arith in
    proportional_units_exact (negsuc m) (pos n) (pos n) nearest ht hw hw (λ e. ground (arith, e))
    ∙ rw (negative-pos n, negative-true m, whole_share (magnitude (negsuc m)) n some_n)
        (signed-true m ht)

pub proportional_whole :
    (total : Money) (whole : Quantity)
    → IsInt64 total.units
    → IsInt64 whole.units
    → pos 0 <ℤ whole.units
    → proportional total whole whole nearest ≡ some total
unfolding proportional
proportional_whole total whole ht hw up =
    let open_guard : (negative whole.units
          || not (positive whole.units)
          || ltb_ℤ whole.units whole.units)
        ≡ false =
      ground arith in
    rw (open_guard, whole_units total.units whole.units ht hw up)
