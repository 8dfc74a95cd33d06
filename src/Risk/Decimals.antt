-- ===== src/Risk/Decimals.antt =====
-- The comparison of decimals with different scales in engine/src/RiskEngine.cpp.
use mynyra.Prelude.{
  ℕ, zero, suc, ◌+◌, ◌-◌, ◌*◌, ◌/◌, ◌%◌, ◌^◌, Bool, true, false, not, ◌&&◌, ◌||◌, Option, none,
  some, ◌==◌, if◌then◌else◌,
}
use mynyra.Prelude.Int.{ℤ, pos, negsuc, ltb_ℤ, eq_ℤ}
use mynyra.Contracts.{Decimal64, is_positive}

abbrev pub times_ten : ℤ → ℤ
times_ten (pos n) = pos (n * 10)
times_ten (negsuc n) = negsuc (n * 10 + 9)

-- `max() / 10` and `min() / 10`, which truncates.
unfoldable pub too_wide : ℤ → Bool
too_wide u = ltb_ℤ (pos ((2 ^ 63 - 1) / 10)) u || ltb_ℤ u (negsuc (2 ^ 63 / 10 - 1))

-- A loop that raises a scale by a number of rounds.
unfoldable pub raise_units : ℕ → ℤ → Option ℤ
raise_units zero units = some units
raise_units (suc rounds) units = elim (too_wide units) [
  | true ↦ none
  | false ↦ raise_units rounds (times_ten units)
]

abbrev pub equal_units : Option ℤ → Option ℤ → Bool
equal_units (some a) (some b) = eq_ℤ a b
equal_units none b = false
equal_units (some a) none = false

-- At most one of the loops has a round.
unfoldable pub decimal_equal : Decimal64 → Decimal64 → Bool
decimal_equal left right =
    equal_units (raise_units (right.scale - left.scale) left.units)
      (raise_units (left.scale - right.scale) right.units)

abbrev pub divides : Option ℤ → Option ℤ → Bool
divides (some (pos step)) (some (pos quantity)) = not (step == 0) && quantity % step == 0
divides step quantity = false

-- Both numbers are positive and stay so in the loops, which leaves one bound to test.
unfoldable pub quantity_aligned : Decimal64 → Decimal64 → Bool
quantity_aligned quantity step =
    if not (is_positive quantity) || not (is_positive step)
    then false
    else divides (raise_units (quantity.scale - step.scale) step.units)
        (raise_units (step.scale - quantity.scale) quantity.units)
