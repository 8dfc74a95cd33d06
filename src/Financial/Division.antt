-- ===== src/Financial/Division.antt =====
-- Facts on quotients and powers of two that the 128-bit arithmetic rests on.
use Prim.Native.Nat.add
use native.Mathlib.Nat.{
  zero-add, mul-add-div, pow-le-pow_right, div-add-mod, mod-lt, div-eq_of_lt, mod-eq_of_lt,
  mul-add-mod_self_left, div-div-eq-div-mul, pow-suc,
}
use mynyra.Prelude.{
  ℕ, zero, suc, ◌+◌, ◌-◌, ◌*◌, ◌/◌, ◌%◌, ◌^◌, ◌≤◌, ◌<◌, ◌≡◌, sym, ap, ◌∙◌, arith, leb, Bool-cases,
  inl, inr, if◌then◌else◌,
}

-- A division is determined by its equation.
pub div_unique : (a d q r : ℕ) → r < d → a ≡ d * q + r → (a / d ≡ q) × (a % d ≡ r)
div_unique a d q r h e = rw e (
  mul-add-div {m = d} (omega arith) q r ∙ omega (arith, div-eq_of_lt h),
  mul-add-mod_self_left d q r ∙ mod-eq_of_lt h,
)

pub two_pow-suc : (n : ℕ) → 2 ^ suc n ≡ 2 * 2 ^ n
two_pow-suc n = omega (arith, pow-suc 2 n)

pub two_pow_pos : (n : ℕ) → 0 < 2 ^ n
two_pow_pos zero = omega arith
two_pow_pos (suc n) = omega (arith, two_pow-suc n, two_pow_pos n)

pub two_pow-add : (m n : ℕ) → 2 ^ (m + n) ≡ 2 ^ m * 2 ^ n
two_pow-add zero n = rw zero-add (omega arith)
two_pow-add (suc m) n = rw (add.suc m n) (
    omega (
      arith,
      two_pow-suc (m + n),
      two_pow-suc m,
      ap (λ (t : ℕ). 2 * t) (two_pow-add m n),
      ap (λ (t : ℕ). t * 2 ^ n) (two_pow-suc m),
    ))

pub two_pow_le : (m n : ℕ) → m ≤ n → 2 ^ m ≤ 2 ^ n
two_pow_le m n h = pow-le-pow_right {n = 2} (omega arith) h

-- Halving a prefix: the quotient by the next smaller power has one more binary digit.
pub div-two_pow-suc : (a n : ℕ) → a / 2 ^ suc n ≡ a / 2 ^ n / 2
div-two_pow-suc a n =
    sym (div-div-eq-div-mul a (2 ^ n) 2 ∙ ap (◌/◌ a) (omega (arith, two_pow-suc n)))

-- One step of long division by `d`, from the prefix `p` to the prefix with the digit `b` added.
pub long_division_step :
    (p d b : ℕ)
    → 0 < d
    → let r = p % d * 2 + b in
      b ≤ 1
      → ((p * 2 + b) / d ≡ p / d * 2 + (if leb d r then 1 else 0))
        × ((p * 2 + b) % d ≡ (if leb d r then r - d else r))
long_division_step p d b pos h =
    let r = p % d * 2 + b in
    let whole : d * (p / d) + p % d ≡ p = div-add-mod p d in
    let small : p % d < d = mod-lt p pos in
    elim (Bool-cases (leb d r)) [
      | inl fits ↦
          rw fits (div_unique (p * 2 + b) d (p / d * 2 + 1) (r - d) (ground arith) (ground arith))
      | inr not_yet ↦
          rw not_yet (div_unique (p * 2 + b) d (p / d * 2 + 0) r (ground arith) (ground arith))
    ]
