-- ===== src/Financial/Units.antt =====
-- The fixed-point values of engine/include/FinancialMath.hpp and the signed arithmetic on their units
-- in engine/src/FinancialMath.cpp.
use mynyra.Prelude.{
  ℕ, ◌+◌, ◌-◌, ◌/◌, ◌%◌, ◌^◌, Bool, true, false, not, ◌&&◌, ◌||◌, Option, none, some, ltb, leb,
  ◌==◌, if◌then◌else◌,
}
use mynyra.Prelude.Int.{ℤ, pos, ◌+ℤ◌, ◌-ℤ◌, ltb_ℤ, eq_ℤ, int64_max, int64_min}
use mynyra.Financial.Wide.{UInt128, magnitude, multiply_wide, divide_wide}

abbrev pub scale_factor : ℕ
scale_factor = 100_000_000

pub data Rounding : Type 0 where
  toward_zero reject_unaligned nearest_ties_away_from_zero : Rounding

pub data Tag : Type 0 where
  price_tag quantity_tag money_tag fraction_tag : Tag

pub record Value (tag : Tag) : Type 0 where
  pub units : ℤ  -- int64_t

abbrev pub Price : Type 0
Price = Value Tag.price_tag

abbrev pub Quantity : Type 0
Quantity = Value Tag.quantity_tag

abbrev pub Money : Type 0
Money = Value Tag.money_tag

abbrev pub Fraction : Type 0
Fraction = Value Tag.fraction_tag

-- `isPositive`, `isNegative` and `isZero`, on the units.
abbrev pub positive : ℤ → Bool
positive u = ltb_ℤ (pos 0) u

abbrev pub negative : ℤ → Bool
negative u = ltb_ℤ u (pos 0)

abbrev pub zero_units : ℤ → Bool
zero_units u = eq_ℤ u (pos 0)

-- The rounding of a quotient by its remainder, with the two refusals.
unfoldable pub round_quotient : Rounding → ℕ → ℕ → ℕ → Option ℕ
round_quotient Rounding.toward_zero quotient remainder denominator = some quotient
round_quotient Rounding.reject_unaligned quotient remainder denominator =
    if not (remainder == 0) then none else some quotient
round_quotient Rounding.nearest_ties_away_from_zero quotient remainder denominator =
    if leb (denominator / 2 + denominator % 2) remainder
    then if quotient == 2 ^ 64 - 1 then none else some (quotient + 1)
    else some quotient

abbrev pub positive_limit : ℕ
positive_limit = 2 ^ 63 - 1

abbrev pub negative_limit : ℕ
negative_limit = positive_limit + 1

unfoldable pub to_signed : Bool → ℕ → Option ℤ
to_signed is_negative quotient =
    if not is_negative && ltb positive_limit quotient || is_negative && ltb negative_limit quotient
    then none
    else if is_negative && quotient == negative_limit
    then some int64_min
    else some (if is_negative then pos 0 -ℤ pos quotient else pos quotient)

abbrev pub bind {ℓ κ} : {A : Type ℓ} {B : Type κ} → Option A → (A → Option B) → Option B
bind none f = none
bind (some a) f = f a

unfoldable pub signed_quotient : UInt128 → ℕ → Bool → Rounding → Option ℤ
signed_quotient numerator denominator is_negative rounding =
    bind (divide_wide numerator denominator)
      λ t. bind (round_quotient rounding t.0 t.1 denominator) (to_signed is_negative)

-- The bounds that the tests compute do not overflow: each subtracts a value from the end of the
-- range on its own side.
unfoldable pub checked_add : ℤ → ℤ → Option ℤ
checked_add lhs rhs =
    if positive rhs && ltb_ℤ (int64_max -ℤ rhs) lhs || negative rhs && ltb_ℤ lhs (int64_min -ℤ rhs)
    then none
    else some (lhs +ℤ rhs)

unfoldable pub checked_subtract : ℤ → ℤ → Option ℤ
checked_subtract lhs rhs =
    if positive rhs && ltb_ℤ lhs (int64_min +ℤ rhs) || negative rhs && ltb_ℤ (int64_max +ℤ rhs) lhs
    then none
    else some (lhs -ℤ rhs)

-- `!=` of two truth values.
abbrev pub differ : Bool → Bool → Bool
differ true b = not b
differ false b = b

unfoldable pub scaled_product : ℤ → ℤ → Rounding → Option ℤ
scaled_product lhs rhs rounding =
    signed_quotient (multiply_wide (magnitude lhs) (magnitude rhs)) scale_factor
      (differ (negative lhs) (negative rhs)) rounding

unfoldable pub scaled_ratio : ℤ → ℤ → Rounding → Option ℤ
scaled_ratio numerator denominator rounding =
    if zero_units denominator
    then none
    else signed_quotient (multiply_wide (magnitude numerator) scale_factor) (magnitude denominator)
        (differ (negative numerator) (negative denominator)) rounding

unfoldable pub proportional_units : ℤ → ℤ → ℤ → Rounding → Option ℤ
proportional_units total part whole rounding =
    if zero_units whole
    then none
    else signed_quotient (multiply_wide (magnitude total) (magnitude part)) (magnitude whole)
        (differ (differ (negative total) (negative part)) (negative whole)) rounding
