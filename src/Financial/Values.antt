-- ===== src/Financial/Values.antt =====
-- The operations on fixed-point values that engine/include/FinancialMath.hpp declares, but for those
-- that read a `double`.
use mynyra.Prelude.{Bool, not, ◌||◌, Option, none, some, if◌then◌else◌}
use mynyra.Prelude.Int.{ℤ, pos, ◌+ℤ◌, ◌-ℤ◌, ltb_ℤ, leb_ℤ}
use mynyra.Financial.Units.{
  Rounding, Tag, Value, Price, Quantity, Money, Fraction, scale_factor, positive, negative, bind,
  checked_add, checked_subtract, scaled_product, scaled_ratio, proportional_units,
}

-- `units.has_value() ? std::optional<T>{T{*units}} : std::nullopt`.
abbrev pub of_units : (tag : Tag) → Option ℤ → Option (Value tag)
of_units tag o = bind o λ u. some (record { units = u })

-- `add` and `subtract`, of two amounts of money or of two quantities.
unfoldable pub add : {tag : Tag} → Value tag → Value tag → Option (Value tag)
add {tag} lhs rhs = of_units tag (checked_add lhs.units rhs.units)

unfoldable pub subtract : {tag : Tag} → Value tag → Value tag → Option (Value tag)
subtract {tag} lhs rhs = of_units tag (checked_subtract lhs.units rhs.units)

unfoldable pub notional : Price → Quantity → Rounding → Option Money
notional price quantity rounding =
    of_units Tag.money_tag (scaled_product price.units quantity.units rounding)

unfoldable pub fee : Money → Fraction → Rounding → Option Money
fee notional_value rate rounding =
    of_units Tag.money_tag (scaled_product notional_value.units rate.units rounding)

abbrev pub positive_price : ℤ → Option Price
positive_price u = if positive u then some (record { units = u }) else none

unfoldable pub apply_slippage : Price → Fraction → Bool → Rounding → Option Price
apply_slippage market_price slippage_rate buy_side rounding =
    let factor = pos scale_factor in
    if not (positive market_price.units)
      || negative slippage_rate.units
      || leb_ℤ factor slippage_rate.units
    then none
    else let multiplier =
        if buy_side then factor +ℤ slippage_rate.units else factor -ℤ slippage_rate.units in
      bind (scaled_product market_price.units multiplier rounding) positive_price

unfoldable pub quantity_for_notional : Money → Price → Rounding → Option Quantity
quantity_for_notional notional_budget price rounding =
    if negative notional_budget.units || not (positive price.units)
    then none
    else of_units Tag.quantity_tag (scaled_ratio notional_budget.units price.units rounding)

unfoldable pub notional_before_fee : Money → Fraction → Rounding → Option Money
notional_before_fee total_budget fee_rate rounding =
    if negative total_budget.units || negative fee_rate.units
    then none
    else bind (checked_add (pos scale_factor) fee_rate.units) λ denominator.
      if leb_ℤ denominator (pos 0)
      then none
      else of_units Tag.money_tag (scaled_ratio total_budget.units denominator rounding)

unfoldable pub average_price : Money → Quantity → Rounding → Option Price
average_price cost_basis quantity rounding =
    if negative cost_basis.units || not (positive quantity.units)
    then none
    else of_units Tag.price_tag (scaled_ratio cost_basis.units quantity.units rounding)

unfoldable pub proportional : Money → Quantity → Quantity → Rounding → Option Money
proportional total part whole rounding =
    if negative part.units || not (positive whole.units) || ltb_ℤ whole.units part.units
    then none
    else of_units Tag.money_tag (proportional_units total.units part.units whole.units rounding)
