-- ===== src/Financial/Budget.antt =====
-- Amounts that the arithmetic of engine/src/FinancialMath.cpp sizes to a budget stay within it.
use native.Mathlib.Nat.{mul-div-le, mul_comm}
use mynyra.Prelude.{
  ℕ, ◌+◌, ◌-◌, ◌*◌, ◌/◌, ◌^◌, ◌≤◌, ◌<◌, ◌≡◌, refl, sym, ap, ◌∙◌, ◌≢◌, inl, inr, Bool, true, false,
  not, ◌||◌, Option, none, some, arith, if◌then◌else◌, Bool-cases, subst,
}
use mynyra.Prelude.Int.{ℤ, pos, negsuc, ◌+ℤ◌, ◌-ℤ◌, ◌≤ℤ◌, leb_ℤ, IsInt64, is_int64}
use mynyra.Financial.Units.{
  Rounding, Tag, Value, Price, Quantity, Money, Fraction, scale_factor, negative, positive, bind,
  scaled_product, scaled_ratio, checked_add,
}
use mynyra.Financial.Exact.{representable, scaled_product_exact, scaled_ratio_exact}
use mynyra.Financial.Values.{of_units, notional, fee, quantity_for_notional, notional_before_fee}

pub negative-pos : (n : ℕ) → negative (pos n) ≡ false
negative-pos n = ground arith

IsInt64-pos : (n : ℕ) → n < 2 ^ 63 → IsInt64 (pos n)
IsInt64-pos n h = omega arith

pub representable-pos : (n : ℕ) → n < 2 ^ 63 → representable (pos n) ≡ some (pos n)
representable-pos n h = ground arith

-- On operands that are not negative the results are those of the naturals.
ratio_pos :
    (a d : ℕ)
    → a < 2 ^ 63
    → 0 < d
    → d < 2 ^ 63
    → scaled_ratio (pos a) (pos d) Rounding.toward_zero ≡ representable (pos (a * scale_factor / d))
ratio_pos a d h p k =
    scaled_ratio_exact (pos a) (pos d) Rounding.toward_zero (IsInt64-pos a h) (IsInt64-pos d k)
      (λ e. ground (arith, e))
    ∙ rw (negative-pos a, negative-pos d)

pub product_pos :
    (a b : ℕ)
    → a < 2 ^ 63
    → b < 2 ^ 63
    → scaled_product (pos a) (pos b) Rounding.nearest_ties_away_from_zero
      ≡ representable (pos ((2 * (a * b) + scale_factor) / (2 * scale_factor)))
product_pos a b h k =
    scaled_product_exact (pos a) (pos b) Rounding.nearest_ties_away_from_zero (IsInt64-pos a h)
      (IsInt64-pos b k)
    ∙ rw (negative-pos a, negative-pos b)

-- A number below an integer multiple rounds to no more than the integer.
pub nearest-le : (n k : ℕ) → n ≤ k * scale_factor → (2 * n + scale_factor) / (2 * scale_factor) ≤ k
nearest-le n k h = omega arith

pub representable_inv :
    (n : ℕ) (u : ℤ) → representable (pos n) ≡ some u → (n < 2 ^ 63) × (pos n ≡ u)
representable_inv n u e = elim (Bool-cases (is_int64 (pos n))) [
  | inl h ↦ (ground arith, ground arith)
  | inr h ↦ ground arith
]

pub negative-negsuc : (n : ℕ) → negative (negsuc n) ≢ false
negative-negsuc n h = ground arith

pub positive-negsuc : (n : ℕ) → positive (negsuc n) ≢ true
positive-negsuc n h = ground arith

-- What `scaledRatio` gives, rounded down, costs no more than what it was taken from.
affordable_units :
    (b p u : ℤ)
    → IsInt64 b
    → IsInt64 p
    → negative b ≡ false
    → positive p ≡ true
    → scaled_ratio b p Rounding.toward_zero ≡ some u
    → (m : ℤ) × (scaled_product p u Rounding.nearest_ties_away_from_zero ≡ some m)
      × (pos 0 ≤ℤ m)
      × (m ≤ℤ b)
affordable_units (pos b) (pos p) u hb hp nb pp e =
    let some_p : 0 < p = ground arith in
    let small_b : b < 2 ^ 63 = omega arith in
    let small_p : p < 2 ^ 63 = omega arith in
    let q = b * scale_factor / p in
    let quotient = sym (ratio_pos b p small_b some_p small_p) ∙ e in
    let (small_q, is_q) : (q < 2 ^ 63) × (pos q ≡ u) = representable_inv q u quotient in
    let below : p * q ≤ b * scale_factor = mul-div-le (b * scale_factor) p in
    let cost = (2 * (p * q) + scale_factor) / (2 * scale_factor) in
    let within : cost ≤ b = nearest-le (p * q) b below in
    (
      pos cost,
      subst (λ t. scaled_product (pos p) t Rounding.nearest_ties_away_from_zero ≡ some (pos cost))
          is_q (product_pos p q small_p small_q ∙ representable-pos cost (omega arith)),
      omega arith,
      omega arith,
    )
affordable_units (negsuc b) p u hb hp nb pp e = elim (negative-negsuc b nb) [ ]
affordable_units (pos b) (negsuc p) u hb hp nb pp e = elim (positive-negsuc p pp) [ ]

pub add_pos : (a b : ℕ) → pos a +ℤ pos b ≡ pos (a + b)
unfolding ◌+ℤ◌
add_pos a b = ground arith

-- The rate on what remains, rounded to the nearest unit, fits in the rest of the amount.
rate_below :
    (t r n : ℕ) → (scale_factor + r) * n ≤ t * scale_factor → n * r ≤ (t - n) * scale_factor
rate_below t r n h = omega (arith, mul_comm r n)

net-le : (t r n : ℕ) → (scale_factor + r) * n ≤ t * scale_factor → n ≤ t
net-le t r n h = omega arith

added_small :
    (r : ℕ) (z : ℤ) → checked_add (pos scale_factor) (pos r) ≡ some z → r < 2 ^ 63 - scale_factor
unfolding checked_add ◌-ℤ◌
added_small r z h = ground arith

-- `scaledRatio` of an amount by 1 + rate leaves room for the rate on it.
before_fee_units :
    (t r u : ℤ)
    → IsInt64 t
    → IsInt64 r
    → negative t ≡ false
    → negative r ≡ false
    → checked_add (pos scale_factor) r ≡ some (pos scale_factor +ℤ r)
    → scaled_ratio t (pos scale_factor +ℤ r) Rounding.toward_zero ≡ some u
    → (f : ℤ) × (scaled_product u r Rounding.nearest_ties_away_from_zero ≡ some f)
      × (pos 0 ≤ℤ u)
      × (pos 0 ≤ℤ f)
      × (u +ℤ f ≤ℤ t)
before_fee_units (pos t) (pos r) u ht hr nt nr hd e =
    let small_t : t < 2 ^ 63 = omega arith in
    let d = scale_factor + r in
    let small_d : d < 2 ^ 63 = omega (arith, added_small r _ hd) in
    let n = t * scale_factor / d in
    let sum : pos scale_factor +ℤ pos r ≡ pos d = add_pos scale_factor r in
    let exact : scaled_ratio (pos t) (pos d) Rounding.toward_zero ≡ some u =
      subst (λ z. scaled_ratio (pos t) z Rounding.toward_zero ≡ some u) sum e in
    let quotient = sym (ratio_pos t d small_t (omega arith) small_d) ∙ exact in
    let (small_n, is_n) : (n < 2 ^ 63) × (pos n ≡ u) = representable_inv n u quotient in
    let below : n * r ≤ (t - n) * scale_factor =
      rate_below t r n (mul-div-le (t * scale_factor) d) in
    let cost = (2 * (n * r) + scale_factor) / (2 * scale_factor) in
    let within : cost ≤ t - n = nearest-le (n * r) (t - n) below in
    let n-le : n ≤ t = net-le t r n (mul-div-le (t * scale_factor) d) in
    (
      pos cost,
      subst (λ z. scaled_product z (pos r) Rounding.nearest_ties_away_from_zero ≡ some (pos cost))
          is_n (product_pos n r small_n (omega arith) ∙ representable-pos cost (omega arith)),
      subst (λ z. pos 0 ≤ℤ z) is_n (omega arith),
      omega arith,
      subst (λ z. z +ℤ pos cost ≤ℤ pos t) is_n
          (subst (λ z. z ≤ℤ pos t) (sym (add_pos n cost)) (omega arith)),
    )
before_fee_units (negsuc t) r u ht hr nt nr hd e = elim (negative-negsuc t nt) [ ]
before_fee_units (pos t) (negsuc r) u ht hr nt nr hd e = elim (negative-negsuc r nr) [ ]

-- A result past a guard: the guard did not hold, and the rest gave it.
pub past_guard {ℓ} :
    {A : Type ℓ} (b : Bool) {o : Option A} {x : A}
    → (if b then none else o) ≡ some x
    → (b ≡ false) × (o ≡ some x)
past_guard true e = ground arith
past_guard false e = (refl, e)

pub neither : (b c : Bool) → (b || c) ≡ false → (b ≡ false) × (c ≡ false)
neither b c e = ground arith

pub not_inv : (b : Bool) → not b ≡ false → b ≡ true
not_inv b e = ground arith

units_of : {tag : Tag} → Option (Value tag) → Option ℤ
units_of none = none
units_of (some v) = some v.units

pub units_inv :
    (tag : Tag) (o : Option ℤ) (v : Value tag) → of_units tag o ≡ some v → o ≡ some v.units
unfolding units_of
units_inv tag none v e = ground arith
units_inv tag (some u) v e = ap (λ (x : Option (Value tag)). units_of x) e

pub bind_inv {ℓ κ} :
    {A : Type ℓ} {B : Type κ} (o : Option A) (f : A → Option B) (x : B)
    → bind o f ≡ some x
    → (a : A) × (o ≡ some a) × (f a ≡ some x)
bind_inv none f x e = ground arith
bind_inv (some a) f x e = (a, refl, e)

-- A quantity that quantity_for_notional gives for a budget under rounding toward zero has a cost
-- at that price, rounded to the nearest unit, that is computed without failure, is not negative
-- and is at most the budget.
pub quantity_for_notional_affordable :
    (budget : Money) (price : Price) (q : Quantity)
    → IsInt64 budget.units
    → IsInt64 price.units
    → quantity_for_notional budget price Rounding.toward_zero ≡ some q
    → (cost : Money) × (notional price q Rounding.nearest_ties_away_from_zero ≡ some cost)
      × (pos 0 ≤ℤ cost.units)
      × (cost.units ≤ℤ budget.units)
unfolding quantity_for_notional notional
quantity_for_notional_affordable budget price q hb hp e =
    let (guard, made) = past_guard (negative budget.units || not (positive price.units)) e in
    let (nb, np) = neither (negative budget.units) (not (positive price.units)) guard in
    let sized = units_inv Tag.quantity_tag _ q made in
    let (m, product, low, high) =
      affordable_units budget.units price.units q.units hb hp nb (not_inv _ np) sized in
    (record { units = m }, rw product refl, low, high)

added_inv : (a b z : ℤ) → checked_add a b ≡ some z → z ≡ a +ℤ b
unfolding checked_add
added_inv a b z e = ground arith

-- What notional_before_fee keeps of a total under rounding toward zero is not negative, its fee,
-- rounded to the nearest unit, is computed without failure, and the two together are at most the
-- total.
pub notional_before_fee_covers :
    (total : Money) (rate : Fraction) (net : Money)
    → IsInt64 total.units
    → IsInt64 rate.units
    → notional_before_fee total rate Rounding.toward_zero ≡ some net
    → (charge : Money) × (fee net rate Rounding.nearest_ties_away_from_zero ≡ some charge)
      × (pos 0 ≤ℤ net.units)
      × (pos 0 ≤ℤ charge.units)
      × (net.units +ℤ charge.units ≤ℤ total.units)
unfolding notional_before_fee fee
notional_before_fee_covers total rate net ht hr e =
    let (guard, made) = past_guard (negative total.units || negative rate.units) e in
    let (nt, nr) = neither (negative total.units) (negative rate.units) guard in
    let (d, added, rest) = bind_inv (checked_add (pos scale_factor) rate.units) _ net made in
    let ratio = units_inv Tag.money_tag _ net (past_guard (leb_ℤ d (pos 0)) rest).1 in
    let is_d = added_inv (pos scale_factor) rate.units d added in
    let (m, product, low, charge, within) =
      before_fee_units total.units rate.units net.units ht hr nt nr
        (subst (λ z. checked_add (pos scale_factor) rate.units ≡ some z) is_d added)
        (subst (λ z. scaled_ratio total.units z Rounding.toward_zero ≡ some net.units) is_d
          ratio) in
    (record { units = m }, rw product refl, low, charge, within)
