-- ===== src/Contracts/Decimal.antt =====
-- `Decimal64` of engine/include/BrokerAdapterContracts.hpp: a signed number of units and a scale.
use mynyra.Prelude.{ℕ, Bool}
use mynyra.Prelude.Int.{ℤ, pos, ltb_ℤ, eq_ℤ}

pub record Decimal64 : Type 0 where
  pub units : ℤ  -- int64_t
  pub scale : ℕ  -- uint8_t

abbrev pub max_scale : ℕ
max_scale = 12

abbrev pub is_positive : Decimal64 → Bool
is_positive d = ltb_ℤ (pos 0) d.units

abbrev pub is_negative : Decimal64 → Bool
is_negative d = ltb_ℤ d.units (pos 0)

abbrev pub is_zero : Decimal64 → Bool
is_zero d = eq_ℤ d.units (pos 0)
