-- ===== src/Financial/Quotient.antt =====
-- `divideWide` of engine/src/FinancialMath.cpp is division with remainder.
use native.Mathlib.Nat.{
  div-div-eq-div-mul, mul-add-div_right, mod-lt, mul-div_cancel, div-eq_of_lt, mod-eq_of_lt,
  mul_comm, div-one, mul-one,
}
use mathlib.Core.Path.{ap₂}
use mynyra.Prelude.{
  ℕ, zero, suc, ◌+◌, ◌-◌, ◌*◌, ◌/◌, ◌%◌, ◌^◌, ◌≤◌, ◌<◌, ◌≡◌, sym, ap, ◌∙◌, inl, inr, Bool, true,
  false, none, some, arith, ltb, leb, leb→le, ltb→lt, ◌==◌, if◌then◌else◌, Bool-cases,
}
use mynyra.Financial.Division.{
  two_pow-suc, two_pow-add, two_pow_pos, two_pow_le, div-two_pow-suc, long_division_step,
}
use mynyra.Financial.Wide.{
  UInt128, wrap64, bit_at, set_bit, shift_in, fits, divide_rounds, divide_wide,
}
use mynyra.Financial.Product.{to_ℕ, IsWide}

abbrev digit : Bool → ℕ
digit b = if b then 1 else 0

-- A bit of the low word is the bit of the whole number.
low_bit : (h l i : ℕ) → i < 64 → (h * 2 ^ 64 + l) / 2 ^ i % 2 ≡ l / 2 ^ i % 2
low_bit h l i lt =
    let k = 63 - i in
    let split : 2 ^ 64 ≡ 2 ^ suc k * 2 ^ i =
      ap (λ (n : ℕ). 2 ^ n) {x = 64} (omega arith) ∙ two_pow-add (suc k) i in
    let even : h * 2 ^ 64 ≡ h * 2 ^ k * 2 * 2 ^ i =
      omega (arith, ap (λ (t : ℕ). h * t) split, ap (λ (t : ℕ). h * t * 2 ^ i) (two_pow-suc k)) in
    ap (λ (t : ℕ). (t + l) / 2 ^ i % 2) even
    ∙ ap (λ (t : ℕ). t % 2) (mul-add-div_right {m = 2 ^ i} (two_pow_pos i) (h * 2 ^ k * 2) l)
    ∙ omega arith

high_bit : (h l i : ℕ) → l < 2 ^ 64 → 64 ≤ i → (h * 2 ^ 64 + l) / 2 ^ i ≡ h / 2 ^ (i - 64)
high_bit h l i small le =
    let split : 2 ^ i ≡ 2 ^ 64 * 2 ^ (i - 64) =
      ap (λ (n : ℕ). 2 ^ n) (omega arith) ∙ two_pow-add 64 (i - 64) in
    ap (λ (t : ℕ). (h * 2 ^ 64 + l) / t) split
    ∙ sym (div-div-eq-div-mul (h * 2 ^ 64 + l) (2 ^ 64) (2 ^ (i - 64)))
    ∙ ap (λ (t : ℕ). t / 2 ^ (i - 64)) (omega arith)

-- `bitAt` reads the binary digits of the number that the two words stand for.
bit_at-digit : (x : UInt128) (i : ℕ) → IsWide x → digit (bit_at x i) ≡ to_ℕ x / 2 ^ i % 2
unfolding bit_at
bit_at-digit x i w = elim (Bool-cases (leb 64 i)) [
  | inl up ↦ rw up (ground (arith, high_bit x.high x.low i w.1))
  | inr down ↦ rw down (ground (arith, low_bit x.high x.low i))
]

prefix_step :
    (x : UInt128) (i : ℕ) → IsWide x → to_ℕ x / 2 ^ i ≡ to_ℕ x / 2 ^ suc i * 2 + digit (bit_at x i)
prefix_step x i w = omega (arith, div-two_pow-suc (to_ℕ x) i, bit_at-digit x i w)

-- Setting a bit below a multiple of the next power adds it.
set_bit_lem : (n bit : ℕ) → set_bit (n * 2 ^ suc bit) bit ≡ (n * 2 + 1) * 2 ^ bit
unfolding set_bit
set_bit_lem n bit =
    let twice : n * 2 ^ suc bit ≡ n * 2 * 2 ^ bit =
      omega (arith, ap (λ (t : ℕ). n * t) (two_pow-suc bit)) in
    let even : n * 2 ^ suc bit / 2 ^ bit ≡ n * 2 =
      ap (λ (t : ℕ). t / 2 ^ bit) twice ∙ mul-div_cancel (n * 2) {n = 2 ^ bit} (two_pow_pos bit) in
    ground arith

-- The test of the loop is the comparison without overflow.
fits_lem :
    (r d : ℕ) (b : Bool)
    → r < d
    → d < 2 ^ 64
    → (fits r (shift_in r b) d ≡ leb d (r * 2 + digit b))
      × (fits r (shift_in r b) d ≡ true → wrap64 (shift_in r b + 2 ^ 64 - d) ≡ r * 2 + digit b - d)
      × (fits r (shift_in r b) d ≡ false → shift_in r b ≡ r * 2 + digit b)
fits_lem r d true lt small = ground arith
fits_lem r d false lt small = ground arith

-- The three ways of a round.
module _ (bit : ℕ) (x : UInt128) (d q r : ℕ) where
  abbrev round_fits : Bool
  round_fits = fits r (shift_in r (bit_at x bit)) d

  round_hit :
      round_fits ≡ true
      → leb 64 bit ≡ false
      → divide_rounds (suc bit) x d q r
        ≡ divide_rounds bit x d (set_bit q bit) (wrap64 (shift_in r (bit_at x bit) + 2 ^ 64 - d))
  unfolding divide_rounds
  round_hit hit low = rw (hit, low, divide_rounds)

  round_overflow : round_fits ≡ true → leb 64 bit ≡ true → divide_rounds (suc bit) x d q r ≡ none
  unfolding divide_rounds
  round_overflow hit high = rw (hit, high, divide_rounds)

  round_miss :
      round_fits ≡ false
      → divide_rounds (suc bit) x d q r ≡ divide_rounds bit x d q (shift_in r (bit_at x bit))
  unfolding divide_rounds
  round_miss miss = rw (miss, divide_rounds)

module _ (x : UInt128) (d : ℕ) (wide : IsWide x) (pos : 0 < d) (small : d < 2 ^ 64) where
  abbrev prefix : ℕ → ℕ
  prefix n = to_ℕ x / 2 ^ n

  -- What one round makes of the quotient and the remainder of the prefix read so far.
  round_lem :
      (n : ℕ)
      → let r = prefix (suc n) % d in
        let t = leb d (r * 2 + digit (bit_at x n)) in
        (prefix n / d ≡ prefix (suc n) / d * 2 + digit t)
        × (prefix n % d
            ≡ (if t then r * 2 + digit (bit_at x n) - d else r * 2 + digit (bit_at x n)))
  round_lem n =
      rw (prefix_step x n wide)
        (long_division_step (prefix (suc n)) d (digit (bit_at x n)) pos (ground arith))

  prefix-div : (n : ℕ) → prefix n / d ≡ to_ℕ x / d / 2 ^ n
  prefix-div n =
      div-div-eq-div-mul (to_ℕ x) (2 ^ n) d
      ∙ ap (◌/◌ (to_ℕ x)) (mul_comm (2 ^ n) d)
      ∙ sym (div-div-eq-div-mul (to_ℕ x) d (2 ^ n))

  -- The high rounds find no digit where the quotient fits into 64 bits.
  high_digit : (n : ℕ) → 64 ≤ n → to_ℕ x / d < 2 ^ 64 → prefix n / d ≡ 0
  high_digit n h lt = prefix-div n ∙ div-eq_of_lt (omega (arith, two_pow_le 64 n h))

  divide_rounds-some :
      (n : ℕ)
      → to_ℕ x / d < 2 ^ 64
      → divide_rounds n x d (prefix n / d * 2 ^ n) (prefix n % d) ≡ some (to_ℕ x / d, to_ℕ x % d)
  unfolding divide_rounds
  divide_rounds-some zero lt = rw (div-one (to_ℕ x), mul-one (to_ℕ x / d))
  divide_rounds-some (suc n) lt =
      let r = prefix (suc n) % d in
      let b = bit_at x n in
      let (test, taken, left) = fits_lem r d b (mod-lt (prefix (suc n)) pos) small in
      let (quotient, remainder) = round_lem n in
      elim (Bool-cases (leb d (r * 2 + digit b))) [
        | inl yes_fits ↦
            let hit = test ∙ yes_fits in
            let low : leb 64 n ≡ false = ground (arith, high_digit n) in
            round_hit n x d (prefix (suc n) / d * 2 ^ suc n) r hit low
            ∙ ap₂ (divide_rounds n x d)
                (set_bit_lem (prefix (suc n) / d) n
                  ∙ ap (λ (t : ℕ). t * 2 ^ n) (sym (ground (arith, quotient))))
                (taken hit ∙ sym (ground (arith, remainder)))
            ∙ divide_rounds-some n lt
        | inr not_yet ↦
            let miss = test ∙ not_yet in
            round_miss n x d (prefix (suc n) / d * 2 ^ suc n) r miss
            ∙ ap₂ (divide_rounds n x d)
                (omega (
                  arith,
                  ap (λ (t : ℕ). prefix (suc n) / d * t) (two_pow-suc n),
                  ap (λ (t : ℕ). t * 2 ^ n) (quotient_same _ _ _ quotient not_yet),
                ))
                (left miss ∙ sym (ground (arith, remainder)))
            ∙ divide_rounds-some n lt
      ]
    where
      quotient_same : (a b : ℕ) (t : Bool) → a ≡ b * 2 + digit t → t ≡ false → a ≡ b * 2
      quotient_same a b t e h = ground arith

  divide_rounds-none :
      (n : ℕ)
      → 64 ≤ n
      → prefix n / d ≡ 0
      → 2 ^ 64 ≤ to_ℕ x / d
      → divide_rounds n x d 0 (prefix n % d) ≡ none
  divide_rounds-none zero h zero_digit le = absurd (omega arith)
  divide_rounds-none (suc n) h zero_digit le =
      let r = prefix (suc n) % d in
      let b = bit_at x n in
      let (test, taken, left) = fits_lem r d b (mod-lt (prefix (suc n)) pos) small in
      let (quotient, remainder) = round_lem n in
      elim (Bool-cases (leb 64 n)) [
        | inl high ↦ elim (Bool-cases (leb d (r * 2 + digit b))) [
          | inl yes_fits ↦ round_overflow n x d 0 r (test ∙ yes_fits) high
          | inr not_yet ↦
              let miss = test ∙ not_yet in
              round_miss n x d 0 r miss
              ∙ ap (divide_rounds n x d 0) (left miss ∙ sym (ground (arith, remainder)))
              ∙ divide_rounds-none n (leb→le 64 n high) (ground (arith, quotient)) le
        ]
        | inr low ↦ absurd (omega (arith, top low))
      ]
    where
      last : leb 64 n ≡ false → 2 ^ suc n ≡ 2 ^ 64
      last low = ap (λ (t : ℕ). 2 ^ t) {y = 64} (ground arith)

      top : leb 64 n ≡ false → to_ℕ x / d / 2 ^ 64 ≡ 0
      top low =
          ap (λ (t : ℕ). to_ℕ x / d / t) (sym (last low)) ∙ sym (prefix-div (suc n)) ∙ zero_digit

  -- Nothing lies above the highest bit.
  prefix_start : prefix 128 ≡ 0
  prefix_start = div-eq_of_lt (omega arith)

  divide_all :
      divide_rounds 128 x d 0 0
      ≡ (if ltb (to_ℕ x / d) (2 ^ 64) then some (to_ℕ x / d, to_ℕ x % d) else none)
  divide_all =
      let digits : prefix 128 / d ≡ 0 = ap (λ (t : ℕ). t / d) prefix_start ∙ div-eq_of_lt pos in
      let rest : prefix 128 % d ≡ 0 = ap (λ (t : ℕ). t % d) prefix_start ∙ mod-eq_of_lt pos in
      elim (Bool-cases (ltb (to_ℕ x / d) (2 ^ 64))) [
        | inl small_quotient ↦ rw small_quotient (
            ap₂ (divide_rounds 128 x d) (ap (λ (t : ℕ). t * 2 ^ 128) (sym digits)) (sym rest)
            ∙ divide_rounds-some 128 (ltb→lt _ _ small_quotient))
        | inr large ↦ rw large (
            ap (divide_rounds 128 x d 0) (sym rest)
            ∙ divide_rounds-none 128 (omega arith) digits (ground arith))
      ]

-- The bitwise long division of a 128-bit number by a 64-bit one gives the exact quotient and
-- remainder, and fails exactly on a divisor 0 and on a quotient of 2 ^ 64 or more.
pub divide_wide_lem :
    (x : UInt128) (d : ℕ)
    → IsWide x
    → d < 2 ^ 64
    → divide_wide x d ≡ (
        if d == 0
        then none
        else if ltb (to_ℕ x / d) (2 ^ 64)
        then some (to_ℕ x / d, to_ℕ x % d)
        else none)
unfolding divide_wide
divide_wide_lem x d w small = elim (Bool-cases (d == 0)) [
  | inl z ↦ rw z
  | inr p ↦ rw p (divide_all x d w (ground arith) small)
]
