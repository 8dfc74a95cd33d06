-- ===== src/Financial/Wide.antt =====
-- The 128-bit arithmetic of engine/src/FinancialMath.cpp. A `uint64_t` is a number below 2 ^ 64, and
-- each operation on one wraps.
use mynyra.Prelude.{
  ℕ, zero, suc, ◌+◌, ◌-◌, ◌*◌, ◌/◌, ◌%◌, ◌^◌, Bool, true, false, ◌||◌, Option, none, some, ltb, leb,
  ◌==◌, if◌then◌else◌,
}
use mynyra.Prelude.Int.{ℤ, pos, negsuc}

pub record UInt128 : Type 0 where
  pub high : ℕ
  pub low : ℕ

abbrev pub wrap64 : ℕ → ℕ
wrap64 n = n % 2 ^ 64

-- `x >> 32` and `x & MASK`.
abbrev pub upper : ℕ → ℕ
upper x = x / 2 ^ 32

abbrev pub lower : ℕ → ℕ
lower x = x % 2 ^ 32

-- `-(value + 1)` of a negative value does not overflow.
abbrev pub magnitude : ℤ → ℕ
magnitude (pos n) = n
magnitude (negsuc n) = wrap64 (n + 1)

-- `(middle << 32) | (lowLow & MASK)` joins bits that do not overlap, so the `|` is a sum.
unfoldable pub multiply_wide : ℕ → ℕ → UInt128
multiply_wide lhs rhs =
    let low_low = wrap64 (lower lhs * lower rhs) in
    let low_high = wrap64 (lower lhs * upper rhs) in
    let high_low = wrap64 (upper lhs * lower rhs) in
    let high_high = wrap64 (upper lhs * upper rhs) in
    let middle = wrap64 (wrap64 (upper low_low + lower low_high) + lower high_low) in
    record {
      high = wrap64 (wrap64 (wrap64 (high_high + upper low_high) + upper high_low) + upper middle);
      low = wrap64 (middle * 2 ^ 32) + lower low_low;
    }

unfoldable pub bit_at : UInt128 → ℕ → Bool
bit_at value index =
    if leb 64 index then value.high / 2 ^ (index - 64) % 2 == 1 else value.low / 2 ^ index % 2 == 1

-- `quotient |= 1ULL << bit`.
unfoldable pub set_bit : ℕ → ℕ → ℕ
set_bit n bit = if n / 2 ^ bit % 2 == 1 then n else n + 2 ^ bit

-- `(remainder << 1) | incoming`: the lowest bit of the shift is 0.
abbrev pub shift_in : ℕ → Bool → ℕ
shift_in remainder incoming = wrap64 (remainder * 2) + (if incoming then 1 else 0)

abbrev pub fits : ℕ → ℕ → ℕ → Bool
fits remainder shifted denominator = ltb 0 (remainder / 2 ^ 63) || leb denominator shifted

-- The rounds `bit - 1`, ..., 0 of the loop of `divideWide`: the quotient and the remainder.
unfoldable pub divide_rounds : ℕ → UInt128 → ℕ → ℕ → ℕ → Option (ℕ × ℕ)
divide_rounds zero numerator denominator quotient remainder = some (quotient, remainder)
divide_rounds (suc bit) numerator denominator quotient remainder =
    let shifted = shift_in remainder (bit_at numerator bit) in
    elim (fits remainder shifted denominator) [
      | true ↦ elim (leb 64 bit) [
        | true ↦ none
        | false ↦
            divide_rounds bit numerator denominator (set_bit quotient bit)
              (wrap64 (shifted + 2 ^ 64 - denominator))
      ]
      | false ↦ divide_rounds bit numerator denominator quotient shifted
    ]

-- The quotient with the out parameter `remainder`, which no caller reads after a failure.
unfoldable pub divide_wide : UInt128 → ℕ → Option (ℕ × ℕ)
divide_wide numerator denominator =
    if denominator == 0 then none else divide_rounds 128 numerator denominator 0 0
