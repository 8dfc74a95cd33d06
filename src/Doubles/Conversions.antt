-- ===== src/Doubles/Conversions.antt =====
-- The fixed-point numbers that engine/include/BrokerAdapterContracts.hpp and engine/src/FinancialMath.cpp
-- make of a `double`.
use mynyra.Prelude.{
  ℕ, zero, suc, ◌*◌, ◌/◌, ◌^◌, ◌-◌, Bool, true, false, not, ◌||◌, Option, none, some, ltb,
  if◌then◌else◌,
}
use mynyra.Prelude.Int.{ℤ, pos, int64_max, int64_min}
use mynyra.Contracts.{Decimal64, max_scale}
use mynyra.Financial.Units.{
  Rounding, Tag, Value, Price, Quantity, Money, Fraction, scale_factor, bind,
}
use mynyra.Doubles.{Doubles}

-- `long double` values rounded as asked: `none` is an unaligned one that is refused.
unfoldable pub round_extended : (F : Doubles) → Rounding → F.Extended → Option F.Extended
round_extended F Rounding.toward_zero scaled = some (F.truncate scaled)
round_extended F Rounding.reject_unaligned scaled =
    let tolerance = F.extended_max (F.extended_literal (pos 1) 7) (
      F.extended_mul (F.extended_mul (F.extended_abs scaled) F.epsilon)
        (F.extended_of_int (pos 2))) in
    if F.extended_lt tolerance (F.extended_abs (F.extended_sub scaled (F.round scaled)))
    then none
    else some (F.round scaled)
round_extended F Rounding.nearest_ties_away_from_zero scaled = some (F.round scaled)

abbrev pub is_outside : (F : Doubles) → F.Extended → Bool
is_outside F x =
    F.extended_lt x (F.extended_of_int int64_min) || F.extended_lt (F.extended_of_int int64_max) x

unfoldable pub normalize : (F : Doubles) → F.Double → Rounding → Option ℤ
normalize F value rounding =
    if not (F.is_finite value)
    then none
    else bind
        (round_extended F rounding
          (F.extended_mul (F.extend value) (F.extended_of_int (pos scale_factor))))
        λ rounded. if is_outside F rounded then none else some (F.to_int64 rounded)

unfoldable pub normalized : (F : Doubles) → (tag : Tag) → F.Double → Rounding → Option (Value tag)
normalized F tag value rounding = bind (normalize F value rounding) λ u. some (record { units = u })

abbrev pub price_of : (F : Doubles) → F.Double → Rounding → Option Price
price_of F = normalized F Tag.price_tag

abbrev pub quantity_of : (F : Doubles) → F.Double → Rounding → Option Quantity
quantity_of F = normalized F Tag.quantity_tag

abbrev pub money_of : (F : Doubles) → F.Double → Rounding → Option Money
money_of F = normalized F Tag.money_tag

abbrev pub fraction_of : (F : Doubles) → F.Double → Rounding → Option Fraction
fraction_of F = normalized F Tag.fraction_tag

-- The loop of `fromDouble` that raises the factor.
unfoldable pub raise_factor : ℕ → ℕ → Option ℕ
raise_factor zero factor = some factor
raise_factor (suc rounds) factor = elim (ltb ((2 ^ 63 - 1) / 10) factor) [
  | true ↦ none
  | false ↦ raise_factor rounds (factor * 10)
]

-- `DecimalRounding` has the constants of `Rounding`.
unfoldable pub from_double : (F : Doubles) → F.Double → ℕ → Rounding → Option Decimal64
from_double F value scale rounding =
    if not (F.is_finite value) || ltb max_scale scale
    then none
    else bind (raise_factor scale 1) λ factor.
      let scaled = F.extended_mul (F.extend value) (F.extended_of_int (pos factor)) in
      if is_outside F scaled
      then none
      else bind (round_extended F rounding scaled) λ rounded.
        if is_outside F rounded
        then none
        else some (record { units = F.to_int64 rounded; scale = scale })
