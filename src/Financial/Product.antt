-- ===== src/Financial/Product.antt =====
-- `multiplyWide` of engine/src/FinancialMath.cpp is exact.
use native.Mathlib.Nat.{mul-le-mul}
use mathlib.Core.Path.{ap₂, ◌∙◌}
use mynyra.Prelude.{ℕ, ◌+◌, ◌-◌, ◌*◌, ◌^◌, ◌≤◌, ◌<◌, ◌≡◌, arith}
use mynyra.Financial.Wide.{UInt128, multiply_wide, upper, lower, wrap64}

-- The number that two words stand for.
abbrev pub to_ℕ : UInt128 → ℕ
to_ℕ x = x.high * 2 ^ 64 + x.low

abbrev pub IsWide : UInt128 → Type 0
IsWide x = (x.high < 2 ^ 64) × (x.low < 2 ^ 64)

-- Four partial products below 2 ^ 64, added up with their carries.
carries :
    (ll lh hl hh : ℕ)
    → ll ≤ (2 ^ 32 - 1) * (2 ^ 32 - 1)
    → lh ≤ (2 ^ 32 - 1) * (2 ^ 32 - 1)
    → hl ≤ (2 ^ 32 - 1) * (2 ^ 32 - 1)
    → hh ≤ (2 ^ 32 - 1) * (2 ^ 32 - 1)
    → let low_low = wrap64 ll in
      let low_high = wrap64 lh in
      let high_low = wrap64 hl in
      let high_high = wrap64 hh in
      let middle = wrap64 (wrap64 (upper low_low + lower low_high) + lower high_low) in
      let high =
        wrap64 (wrap64 (wrap64 (high_high + upper low_high) + upper high_low) + upper middle) in
      let low = wrap64 (middle * 2 ^ 32) + lower low_low in
      (high * 2 ^ 64 + low ≡ hh * 2 ^ 64 + (lh + hl) * 2 ^ 32 + ll)
      × (high < 2 ^ 64)
      × (low < 2 ^ 64)
carries ll lh hl hh a b c d = omega arith

expand :
    (ah al bh bl : ℕ)
    → ah * bh * 2 ^ 64 + (al * bh + ah * bl) * 2 ^ 32 + al * bl
      ≡ (ah * 2 ^ 32 + al) * (bh * 2 ^ 32 + bl)
expand ah al bh bl = omega arith

-- The two words that multiply_wide makes of two 64-bit numbers stand for their exact product, and
-- each is below 2 ^ 64.
pub to_ℕ-multiply_wide :
    (lhs rhs : ℕ)
    → lhs < 2 ^ 64
    → rhs < 2 ^ 64
    → (to_ℕ (multiply_wide lhs rhs) ≡ lhs * rhs) × IsWide (multiply_wide lhs rhs)
unfolding multiply_wide
to_ℕ-multiply_wide lhs rhs a b =
    let small : (x : ℕ) → x < 2 ^ 64 → (upper x ≤ 2 ^ 32 - 1) × (lower x ≤ 2 ^ 32 - 1) =
      λ x h. omega arith in
    let (ah, al) = small lhs a in
    let (bh, bl) = small rhs b in
    let (value, high, low) =
      carries (lower lhs * lower rhs) (lower lhs * upper rhs) (upper lhs * lower rhs)
        (upper lhs * upper rhs) (mul-le-mul al bl) (mul-le-mul al bh) (mul-le-mul ah bl)
        (mul-le-mul ah bh) in
    (value ∙ expand (upper lhs) (lower lhs) (upper rhs) (lower rhs) ∙ regroup, (high, low))
  where
    regroup : (upper lhs * 2 ^ 32 + lower lhs) * (upper rhs * 2 ^ 32 + lower rhs) ≡ lhs * rhs
    regroup = ap₂ (◌*◌) (omega arith) (omega arith)
