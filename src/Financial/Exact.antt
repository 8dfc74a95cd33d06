-- ===== src/Financial/Exact.antt =====
-- The signed arithmetic of engine/src/FinancialMath.cpp against exact arithmetic on integers.
use native.Mathlib.Nat.{div-add-mod, mod-lt}
use mynyra.Prelude.{
  ℕ, ◌+◌, ◌-◌, ◌*◌, ◌/◌, ◌%◌, ◌^◌, ◌≤◌, ◌<◌, ◌≡◌, sym, ap, ◌∙◌, ◌≢◌, inl, inr, Bool, true, false,
  Option, none, some, arith, ltb, leb, ◌==◌, if◌then◌else◌, Bool-cases,
}
use mynyra.Prelude.Int.{ℤ, pos, ◌+ℤ◌, ◌-ℤ◌, IsInt64, is_int64}
use mynyra.Financial.Division.{div_unique}
use mynyra.Financial.Wide.{UInt128, magnitude, multiply_wide}
use mynyra.Financial.Product.{to_ℕ, IsWide, to_ℕ-multiply_wide}
use mynyra.Financial.Quotient.{divide_wide_lem}
use mynyra.Financial.Units.{
  Rounding, scale_factor, negative, bind, differ, zero_units, round_quotient, to_signed,
  signed_quotient, checked_add, checked_subtract, scaled_product, scaled_ratio, proportional_units,
}

-- An integer as an `int64_t`, if it fits.
abbrev pub representable : ℤ → Option ℤ
representable z = if is_int64 z then some z else none

-- The exact quotient of two naturals, rounded: to the nearest integer by (2n + d) / 2d, upwards on a
-- tie.
abbrev pub rounded : Rounding → ℕ → ℕ → Option ℕ
rounded Rounding.toward_zero n d = some (n / d)
rounded Rounding.reject_unaligned n d = if n % d == 0 then some (n / d) else none
rounded Rounding.nearest_ties_away_from_zero n d = some ((2 * n + d) / (2 * d))

abbrev pub signed : Bool → ℕ → ℤ
signed true q = pos 0 -ℤ pos q
signed false q = pos q

abbrev pub exact_quotient : Rounding → Bool → ℕ → ℕ → Option ℤ
exact_quotient rounding is_negative n d =
    bind (rounded rounding n d) λ q. representable (signed is_negative q)

-- On 64-bit operands checked_add and checked_subtract give the exact sum and difference, and fail
-- exactly where it does not fit 64 bits.
pub checked_exact :
    (a b : ℤ)
    → IsInt64 a
    → IsInt64 b
    → (checked_add a b ≡ representable (a +ℤ b)) × (checked_subtract a b ≡ representable (a -ℤ b))
unfolding checked_add checked_subtract ◌+ℤ◌ ◌-ℤ◌
checked_exact a b h k = (ground arith, ground arith)

to_signed_lem : (b : Bool) (q : ℕ) → to_signed b q ≡ representable (signed b q)
unfolding to_signed ◌-ℤ◌
to_signed_lem b q = ground arith

-- The rounding to the nearest integer by the remainder.
nearest_lem :
    (n d : ℕ)
    → 0 < d
    → (2 * n + d) / (2 * d) ≡ (if leb (d / 2 + d % 2) (n % d) then n / d + 1 else n / d)
nearest_lem n d h =
    let whole : d * (n / d) + n % d ≡ n = div-add-mod n d in
    let small : n % d < d = mod-lt n h in
    elim (Bool-cases (leb (d / 2 + d % 2) (n % d))) [
      | inl up ↦
          rw up
            (div_unique (2 * n + d) (2 * d) (n / d + 1) (2 * (n % d) - d) (ground arith)
              (ground arith)).0
      | inr down ↦
          rw down
            (div_unique (2 * n + d) (2 * d) (n / d) (2 * (n % d) + d) (ground arith)
              (ground arith)).0
    ]

too_large : (b : Bool) (q : ℕ) → 2 ^ 63 < q → representable (signed b q) ≡ none
unfolding ◌-ℤ◌
too_large true q h = ground arith
too_large false q h = ground arith

nearest-ge : (n d : ℕ) → 0 < d → n / d ≤ (2 * n + d) / (2 * d)
nearest-ge n d h = ground (arith, nearest_lem n d h)

rounded_too_large :
    (rounding : Rounding) (b : Bool) (n d : ℕ)
    → 0 < d
    → 2 ^ 64 ≤ n / d
    → exact_quotient rounding b n d ≡ none
rounded_too_large Rounding.toward_zero b n d dpos h = too_large b (n / d) (omega arith)
rounded_too_large Rounding.reject_unaligned b n d dpos h = elim (Bool-cases (n % d == 0)) [
  | inl e ↦ rw e (too_large b (n / d) (omega arith))
  | inr e ↦ rw e
]
rounded_too_large Rounding.nearest_ties_away_from_zero b n d dpos h =
    too_large b ((2 * n + d) / (2 * d)) (omega (arith, nearest-ge n d dpos))

-- The remainder's rounding agrees with the exact one.
round_quotient_lem :
    (rounding : Rounding) (b : Bool) (n d : ℕ)
    → 0 < d
    → n / d < 2 ^ 64
    → bind (round_quotient rounding (n / d) (n % d) d) (to_signed b) ≡ exact_quotient rounding b n d
unfolding round_quotient
round_quotient_lem Rounding.toward_zero b n d dpos h = to_signed_lem b (n / d)
round_quotient_lem Rounding.reject_unaligned b n d dpos h = elim (Bool-cases (n % d == 0)) [
  | inl e ↦ rw e (to_signed_lem b (n / d))
  | inr e ↦ rw e
]
round_quotient_lem Rounding.nearest_ties_away_from_zero b n d dpos h =
    rw (nearest_lem n d dpos) (elim (Bool-cases (leb (d / 2 + d % 2) (n % d))) [
      | inl up ↦ rw up (elim (Bool-cases (n / d == 2 ^ 64 - 1)) [
        | inl top ↦ rw top (sym (too_large b (n / d + 1) (ground arith)))
        | inr below ↦ rw below (to_signed_lem b (n / d + 1))
      ])
      | inr down ↦ rw down (to_signed_lem b (n / d))
    ])

signed_quotient_exact :
    (x : UInt128) (d : ℕ) (b : Bool) (rounding : Rounding)
    → IsWide x
    → 0 < d
    → d < 2 ^ 64
    → signed_quotient x d b rounding ≡ exact_quotient rounding b (to_ℕ x) d
unfolding signed_quotient
signed_quotient_exact x d b rounding wide dpos small =
    let d0 : (d == 0) ≡ false = ground arith in
    rw (divide_wide_lem x d wide small, d0)
      (elim (Bool-cases (ltb (to_ℕ x / d) (2 ^ 64))) [
        | inl fits ↦ rw fits (round_quotient_lem rounding b (to_ℕ x) d dpos (ground arith))
        | inr large ↦ rw large (sym (rounded_too_large rounding b (to_ℕ x) d dpos (ground arith)))
      ])

magnitude-le : (a : ℤ) → IsInt64 a → magnitude a ≤ 2 ^ 63
magnitude-le a h = ground arith

magnitude_pos : (a : ℤ) → IsInt64 a → a ≢ pos 0 → 0 < magnitude a
magnitude_pos a h n = ground arith

-- The quotient of a product of two magnitudes.
product_quotient_exact :
    (m n d : ℕ) (b : Bool) (rounding : Rounding)
    → m ≤ 2 ^ 63
    → n ≤ 2 ^ 63
    → 0 < d
    → d ≤ 2 ^ 63
    → signed_quotient (multiply_wide m n) d b rounding ≡ exact_quotient rounding b (m * n) d
product_quotient_exact m n d b rounding hm hn dpos small =
    let (value, wide) = to_ℕ-multiply_wide m n (omega arith) (omega arith) in
    signed_quotient_exact (multiply_wide m n) d b rounding wide dpos (omega arith)
    ∙ ap (λ (t : ℕ). exact_quotient rounding b t d) value

-- The sign of an exact product or quotient: negative where an odd number of factors is.
pub scaled_product_exact :
    (a b : ℤ) (rounding : Rounding)
    → IsInt64 a
    → IsInt64 b
    → scaled_product a b rounding
      ≡ exact_quotient rounding
          (differ (negative a) (negative b))
          (magnitude a * magnitude b)
          scale_factor
unfolding scaled_product
scaled_product_exact a b rounding h k =
    product_quotient_exact (magnitude a) (magnitude b) scale_factor _ rounding (magnitude-le a h)
      (magnitude-le b k) (omega arith) (omega arith)

pub scaled_ratio_exact :
    (a b : ℤ) (rounding : Rounding)
    → IsInt64 a
    → IsInt64 b
    → b ≢ pos 0
    → scaled_ratio a b rounding
      ≡ exact_quotient rounding
          (differ (negative a) (negative b))
          (magnitude a * scale_factor)
          (magnitude b)
unfolding scaled_ratio
scaled_ratio_exact a b rounding h k n =
    let nonzero : zero_units b ≡ false = ground arith in
    rw nonzero (
      product_quotient_exact (magnitude a) scale_factor (magnitude b) _ rounding (magnitude-le a h)
        (omega arith) (magnitude_pos b k n) (magnitude-le b k))

pub proportional_units_exact :
    (a b c : ℤ) (rounding : Rounding)
    → IsInt64 a
    → IsInt64 b
    → IsInt64 c
    → c ≢ pos 0
    → proportional_units a b c rounding
      ≡ exact_quotient rounding
          (differ (differ (negative a) (negative b)) (negative c))
          (magnitude a * magnitude b)
          (magnitude c)
unfolding proportional_units
proportional_units_exact a b c rounding h k l n =
    let nonzero : zero_units c ≡ false = ground arith in
    rw nonzero (
      product_quotient_exact (magnitude a) (magnitude b) (magnitude c) _ rounding (magnitude-le a h)
        (magnitude-le b k) (magnitude_pos c l n) (magnitude-le c l))

-- On 64-bit operands and with a divisor that is not 0, the product, the ratio and the proportional
-- share give the exact quotient in the rounding that is asked for, and fail exactly where that
-- does not fit 64 bits (or, under reject_unaligned, leaves a remainder).
pub fixed_point_exact :
    (a b c : ℤ) (rounding : Rounding)
    → IsInt64 a
    → IsInt64 b
    → IsInt64 c
    → c ≢ pos 0
    → (scaled_product a b rounding
        ≡ exact_quotient rounding
            (differ (negative a) (negative b))
            (magnitude a * magnitude b)
            scale_factor)
      × (scaled_ratio a c rounding
          ≡ exact_quotient rounding
              (differ (negative a) (negative c))
              (magnitude a * scale_factor)
              (magnitude c))
      × (proportional_units a b c rounding
          ≡ exact_quotient rounding
              (differ (differ (negative a) (negative b)) (negative c))
              (magnitude a * magnitude b)
              (magnitude c))
fixed_point_exact a b c rounding h k l n = (
  scaled_product_exact a b rounding h k,
  scaled_ratio_exact a c rounding h l n,
  proportional_units_exact a b c rounding h k l n,
)
