-- ===== src/Doubles.antt =====
-- The floating-point numbers that the program computes with, as an interface: the operations of
-- `double` and `long double` that it uses, of which nothing is assumed. A comparison with a NaN is false.
pub mod Fixed
pub mod Conversions
use mynyra.Prelude.{ℕ, zero, suc, Bool}
use mynyra.Prelude.Int.{ℤ}
use mynyra.Contracts.{Decimal64}

pub record Doubles : Type 1 where
  pub Double : Type 0
  pub literal : ℤ → ℕ → Double  -- the double nearest to units / 10 ^ digits
  pub of_int : ℤ → Double
  pub add : Double → Double → Double
  pub sub : Double → Double → Double
  pub mul : Double → Double → Double
  pub div : Double → Double → Double
  pub sqrt : Double → Double
  pub lt : Double → Double → Bool
  pub le : Double → Double → Bool
  pub eq : Double → Double → Bool
  pub is_finite : Double → Bool
  pub Extended : Type 0  -- long double
  pub extend : Double → Extended
  pub extended_of_int : ℤ → Extended
  pub extended_literal : ℤ → ℕ → Extended
  pub epsilon : Extended  -- that of `double`
  pub extended_mul : Extended → Extended → Extended
  pub extended_sub : Extended → Extended → Extended
  pub extended_max : Extended → Extended → Extended
  pub extended_abs : Extended → Extended
  pub truncate : Extended → Extended
  pub round : Extended → Extended
  pub extended_lt : Extended → Extended → Bool
  pub to_int64 : Extended → ℤ

abbrev pub zero_double : (F : Doubles) → F.Double
zero_double F = F.literal (ℤ.pos 0) 0

-- The loop of `Decimal64::toDouble`, from the factor that it has reached.
unfoldable pub power_of_ten : (F : Doubles) → ℕ → F.Double → F.Double
power_of_ten F zero factor = factor
power_of_ten F (suc rounds) factor = power_of_ten F rounds (F.mul factor (F.literal (ℤ.pos 10) 0))

unfoldable pub to_double : (F : Doubles) → Decimal64 → F.Double
to_double F d = F.div (F.of_int d.units) (power_of_ten F d.scale (F.literal (ℤ.pos 1) 0))
