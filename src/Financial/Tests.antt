-- ===== src/Financial/Tests.antt =====
-- The theorems of the fixed-point arithmetic at concrete amounts.
use mynyra.Prelude.{
  ℕ, ◌-◌, ◌*◌, ◌^◌, ◌/◌, ◌%◌, ◌≡◌, refl, ◌≢◌, true, false, none, some, arith, ◌==◌, if◌then◌else◌,
  ltb,
}
use mynyra.Prelude.Int.{ℤ, pos, negsuc, ◌+ℤ◌, ◌-ℤ◌, ◌≤ℤ◌}
use mynyra.Financial.Wide.{UInt128, multiply_wide, divide_wide, divide_rounds, bit_at, set_bit}
use mynyra.Financial.Product.{to_ℕ, IsWide, to_ℕ-multiply_wide}
use mynyra.Financial.Quotient.{divide_wide_lem}
use mynyra.Financial.Units.{
  Rounding, Price, Quantity, Money, Fraction, scale_factor, checked_add, checked_subtract,
  signed_quotient, round_quotient, to_signed, scaled_product, scaled_ratio, proportional_units,
}
use mynyra.Financial.Exact.{representable, exact_quotient, checked_exact, fixed_point_exact}
use mynyra.Financial.Slippage.{Worse, apply_slippage_direction}
use mynyra.Financial.Values.{
  apply_slippage, notional, fee, quantity_for_notional, notional_before_fee,
}
use mynyra.Financial.Budget.{quantity_for_notional_affordable, notional_before_fee_covers}

-- 100 units of money, a price of 3, a fee of 0.25 %.
abbrev hundred : Money
hundred = record { units = pos 10_000_000_000 }

abbrev three : Price
three = record { units = pos 300_000_000 }

abbrev quarter_percent : Fraction
quarter_percent = record { units = pos 250_000 }

abbrev third : Quantity
third = record { units = pos 3_333_333_333 }

abbrev kept : Money
kept = record { units = pos 9_975_062_344 }

abbrev below_zero : ℤ
below_zero = negsuc 700_000_000

quantity_for_notional-third : quantity_for_notional hundred three Rounding.toward_zero ≡ some third
unfolding quantity_for_notional scaled_ratio signed_quotient multiply_wide divide_wide divide_rounds
    bit_at set_bit round_quotient to_signed
quantity_for_notional-third = refl

notional_before_fee-kept :
    notional_before_fee hundred quarter_percent Rounding.toward_zero ≡ some kept
unfolding notional_before_fee checked_add ◌+ℤ◌ ◌-ℤ◌ scaled_ratio signed_quotient multiply_wide
    divide_wide divide_rounds bit_at set_bit round_quotient to_signed
notional_before_fee-kept = refl

negsuc_ne : (n : ℕ) → negsuc n ≢ pos 0
negsuc_ne n e = ground arith

fixed_point_exact_example :
    (scaled_product below_zero (pos 1) Rounding.nearest_ties_away_from_zero
      ≡ exact_quotient Rounding.nearest_ties_away_from_zero true (700_000_001 * 1) scale_factor)
    × (scaled_ratio below_zero below_zero Rounding.nearest_ties_away_from_zero
        ≡ exact_quotient Rounding.nearest_ties_away_from_zero false
            (700_000_001 * scale_factor)
            700_000_001)
    × (proportional_units below_zero (pos 1) below_zero Rounding.nearest_ties_away_from_zero
        ≡ exact_quotient Rounding.nearest_ties_away_from_zero false (700_000_001 * 1) 700_000_001)
fixed_point_exact_example =
    fixed_point_exact below_zero (pos 1) below_zero Rounding.nearest_ties_away_from_zero
      (omega arith, omega arith) (omega arith, omega arith) (omega arith, omega arith)
      (negsuc_ne 700_000_000)

checked_exact_example :
    (checked_add (pos (2 ^ 63 - 1)) (pos 1) ≡ representable (pos (2 ^ 63 - 1) +ℤ pos 1))
    × (checked_subtract (pos (2 ^ 63 - 1)) (pos 1) ≡ representable (pos (2 ^ 63 - 1) -ℤ pos 1))
checked_exact_example =
    checked_exact (pos (2 ^ 63 - 1)) (pos 1) (omega arith, omega arith) (omega arith, omega arith)

to_ℕ-multiply_wide_example :
    (to_ℕ (multiply_wide (2 ^ 64 - 1) (2 ^ 63)) ≡ (2 ^ 64 - 1) * 2 ^ 63)
    × IsWide (multiply_wide (2 ^ 64 - 1) (2 ^ 63))
to_ℕ-multiply_wide_example = to_ℕ-multiply_wide (2 ^ 64 - 1) (2 ^ 63) (omega arith) (omega arith)

abbrev five_and_top : UInt128
five_and_top = record { high = 5; low = 2 ^ 64 - 1 }

divide_wide_lem_example : divide_wide five_and_top 7 ≡ (
    if 7 == 0
    then none
    else if ltb (to_ℕ five_and_top / 7) (2 ^ 64)
    then some (to_ℕ five_and_top / 7, to_ℕ five_and_top % 7)
    else none)
divide_wide_lem_example = divide_wide_lem five_and_top 7 (omega arith, omega arith) (omega arith)

quantity_for_notional_affordable_example :
    (cost : Money) × (notional three third Rounding.nearest_ties_away_from_zero ≡ some cost)
    × (pos 0 ≤ℤ cost.units)
    × (cost.units ≤ℤ hundred.units)
quantity_for_notional_affordable_example =
    quantity_for_notional_affordable hundred three third (omega arith, omega arith)
      (omega arith, omega arith) quantity_for_notional-third

notional_before_fee_covers_example :
    (charge : Money) × (fee kept quarter_percent Rounding.nearest_ties_away_from_zero ≡ some charge)
    × (pos 0 ≤ℤ kept.units)
    × (pos 0 ≤ℤ charge.units)
    × (kept.units +ℤ charge.units ≤ℤ hundred.units)
notional_before_fee_covers_example =
    notional_before_fee_covers hundred quarter_percent kept (omega arith, omega arith)
      (omega arith, omega arith) notional_before_fee-kept

-- 3 with a slippage of 0.25 %, for a sale.
abbrev sold : Price
sold = record { units = pos 299_250_000 }

apply_slippage-sold :
    apply_slippage three quarter_percent false Rounding.nearest_ties_away_from_zero ≡ some sold
unfolding apply_slippage ◌+ℤ◌ ◌-ℤ◌ scaled_product signed_quotient multiply_wide divide_wide
    divide_rounds bit_at set_bit round_quotient to_signed
apply_slippage-sold = refl

apply_slippage_direction_example : Worse false three.units sold.units
apply_slippage_direction_example =
    apply_slippage_direction three quarter_percent false sold (omega arith, omega arith)
      apply_slippage-sold
