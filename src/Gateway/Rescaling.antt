-- ===== src/Gateway/Rescaling.antt =====
-- The rescaling of an amount in engine/src/BrokerGateway.cpp, and its normalization to a step.
use mathlib.Core.Option.{some-injective}
use native.Mathlib.Nat.{pow-suc, zero-add, mul-le-mul_right, mul_comm, mul_assoc}
use mynyra.Prelude.{
  ℕ, zero, suc, ◌+◌, ◌-◌, ◌*◌, ◌/◌, ◌^◌, ◌≤◌, ◌<◌, ◌≡◌, refl, sym, ap, ◌∙◌, inl, inr, Bool, true,
  false, ◌||◌, Option, none, some, arith, ltb, leb, subst, Bool-cases,
}
use mynyra.Prelude.Int.{ℤ, pos, negsuc, ltb_ℤ, ◌-ℤ◌}
use mynyra.Contracts.{Decimal64, is_positive, max_scale}
use mynyra.Financial.Budget.{bind_inv, past_guard}
use mynyra.Risk.Decimals.{too_wide, raise_units, times_ten}
use mynyra.Gateway.Normalizing.{tenth, lower_units, rescale_toward_zero}

ten_pow-add : (m n : ℕ) → 10 ^ (m + n) ≡ 10 ^ m * 10 ^ n
ten_pow-add zero n = grind (arith, ap (λ (t : ℕ). 10 ^ t) (zero-add n))
ten_pow-add (suc m) n =
    let step : suc m + n ≡ suc (m + n) = omega arith in
    ap (λ (t : ℕ). 10 ^ t) step
    ∙ pow-suc 10 (m + n)
    ∙ ap (λ (t : ℕ). t * 10) (ten_pow-add m n)
    ∙ regroup (10 ^ m) (10 ^ n)
    ∙ ap (λ (t : ℕ). t * 10 ^ n) (sym (pow-suc 10 m))
  where
    regroup : (a b : ℕ) → a * b * 10 ≡ a * 10 * b
    regroup a b = omega arith

raise_step :
    (n : ℕ) (a : ℤ) {b : Bool}
    → too_wide a ≡ b
    → raise_units (suc n) a
      ≡ elim b as (λ _. Option ℤ) [ true ↦ none | false ↦ raise_units n (times_ten a) ]
unfolding raise_units
raise_step n a e =
    ap
      (λ (b : Bool). elim b as (λ _. Option ℤ) [
        | true ↦ none
        | false ↦ raise_units n (times_ten a)
      ])
      e

raise_units_pos : (n u : ℕ) {w : ℤ} → raise_units n (pos u) ≡ some w → w ≡ pos (u * 10 ^ n)
unfolding raise_units
raise_units_pos zero u e = sym (some-injective _ _ e) ∙ ap pos (omega arith)
raise_units_pos (suc n) u {w} e = elim (Bool-cases (too_wide (pos u))) [
  | inl wide ↦ cc (sym (raise_step n (pos u) wide) ∙ e)
  | inr narrow ↦
      raise_units_pos n (u * 10) (sym (raise_step n (pos u) narrow) ∙ e)
      ∙ ap pos (grind (arith, pow-suc 10 n, mul_comm 10 (10 ^ n), mul_assoc u 10 (10 ^ n)))
]

tenth_up : (u b : ℕ) → u / 10 + 1 ≤ b → u + 1 ≤ b * 10
tenth_up u b h = omega arith

lower_units_pos :
    (n u : ℕ)
    → (v : ℕ) × (lower_units n (pos u) ≡ pos v) × (v * 10 ^ n ≤ u) × (u + 1 ≤ (v + 1) * 10 ^ n)
unfolding lower_units
lower_units_pos zero u = (u, refl, omega arith, omega arith)
lower_units_pos (suc n) u =
    let (v, e, h, k) = lower_units_pos n (u / 10) in
    let up = tenth_up u ((v + 1) * 10 ^ n) k in
    (
      v,
      e,
      grind (arith, pow-suc 10 n, mul_assoc v (10 ^ n) 10, h),
      subst (λ (t : ℕ). u + 1 ≤ t)
          (mul_assoc (v + 1) (10 ^ n) 10 ∙ ap (λ (t : ℕ). (v + 1) * t) (sym (pow-suc 10 n))) up,
    )

-- An amount that is not positive stays so.
times_ten_low : (a : ℤ) → ltb_ℤ (pos 0) a ≡ false → ltb_ℤ (pos 0) (times_ten a) ≡ false
times_ten_low (pos n) h = ground (arith, h)
times_ten_low (negsuc n) h = ground arith

tenth_low : (a : ℤ) → ltb_ℤ (pos 0) a ≡ false → ltb_ℤ (pos 0) (tenth a) ≡ false
unfolding ◌-ℤ◌
tenth_low (pos n) h = ground (arith, h)
tenth_low (negsuc n) h = ground arith

raise_units_low :
    (n : ℕ) (a : ℤ) {w : ℤ}
    → ltb_ℤ (pos 0) a ≡ false
    → raise_units n a ≡ some w
    → ltb_ℤ (pos 0) w ≡ false
raise_units_low zero a h e = unfold raise_units in ground (arith, h, some-injective _ _ e)
raise_units_low (suc n) a {w} h e = elim (Bool-cases (too_wide a)) [
  | inl wide ↦ cc (sym (raise_step n a wide) ∙ e)
  | inr narrow ↦
      raise_units_low n (times_ten a) (times_ten_low a h) (sym (raise_step n a narrow) ∙ e)
]

lower_units_low :
    (n : ℕ) (a : ℤ) → ltb_ℤ (pos 0) a ≡ false → ltb_ℤ (pos 0) (lower_units n a) ≡ false
unfolding lower_units
lower_units_low zero a h = h
lower_units_low (suc n) a h = lower_units_low n (tenth a) (tenth_low a h)

ten_pow_pos : (k : ℕ) → 1 ≤ 10 ^ k
ten_pow_pos zero = omega arith
ten_pow_pos (suc k) = omega (arith, pow-suc 10 k, ten_pow_pos k)

scaled_up : (a b k : ℕ) → a + 1 ≤ b → a * 10 ^ k + 1 ≤ b * 10 ^ k
scaled_up a b k h = omega (arith, mul-le-mul_right (10 ^ k) h, ten_pow_pos k, spread a (10 ^ k))
  where
    spread : (a t : ℕ) → (a + 1) * t ≡ a * t + t
    spread a t = omega arith

-- A rescaled amount is worth no more: v / 10 ^ target is at most u / 10 ^ scale.
abbrev pub IsAtMost : (u scale v target : ℕ) → Type 0
IsAtMost u scale v target = v * 10 ^ scale ≤ u * 10 ^ target

-- and by less than a unit of the target: (v + 1) / 10 ^ target is more than u / 10 ^ scale.
abbrev pub IsWithinUnit : (u scale v target : ℕ) → Type 0
IsWithinUnit u scale v target = u * 10 ^ target < (v + 1) * 10 ^ scale

product_up : (u d scale : ℕ) → u * 10 ^ d * 10 ^ scale ≡ u * 10 ^ (d + scale)
product_up u d scale =
    mul_assoc u (10 ^ d) (10 ^ scale) ∙ ap (λ (t : ℕ). u * t) (sym (ten_pow-add d scale))

below_power : (u v d target : ℕ) → v * 10 ^ d ≤ u → v * 10 ^ (d + target) ≤ u * 10 ^ target
below_power u v d target h =
    subst (λ (t : ℕ). t ≤ u * 10 ^ target) (product_up v d target)
      (mul-le-mul_right (10 ^ target) h)

one_power : (v d b : ℕ) → d ≡ 0 → v * 10 ^ d ≤ b → v ≤ b
one_power v d b z h = omega (arith, (rw z at h))

no_power : (a u d : ℕ) → d ≡ 0 → a ≤ u * 10 ^ d → a ≤ u
no_power a u d z h = omega (arith, (rw z at h))

-- What one of the two loops has done.
one_loop :
    (u scale target v : ℕ)
    → v * 10 ^ (scale - target) ≤ u * 10 ^ (target - scale)
    → u * 10 ^ (target - scale) + 1 ≤ (v + 1) * 10 ^ (scale - target)
    → IsAtMost u scale v target × IsWithinUnit u scale v target
one_loop u scale target v below above = elim (Bool-cases (leb scale target)) [
  | inl up ↦
      let flat : scale - target ≡ 0 = ground arith in
      let sum : (target - scale) + scale ≡ target = ground arith in
      let most = one_power v (scale - target) (u * 10 ^ (target - scale)) flat below in
      let least = no_power (u * 10 ^ (target - scale) + 1) (v + 1) (scale - target) flat above in
      let same : u * 10 ^ (target - scale) * 10 ^ scale ≡ u * 10 ^ target =
        product_up u (target - scale) scale ∙ ap (λ (t : ℕ). u * 10 ^ t) sum in
      (
        subst (λ (t : ℕ). v * 10 ^ scale ≤ t) same (mul-le-mul_right (10 ^ scale) most),
        unit_up _ _ _ same (scaled_up _ _ scale least),
      )
  | inr down ↦
      let flat : target - scale ≡ 0 = ground arith in
      let sum : (scale - target) + target ≡ scale = ground arith in
      let most = no_power (v * 10 ^ (scale - target)) u (target - scale) flat below in
      let least = one_power_up u (target - scale) ((v + 1) * 10 ^ (scale - target)) flat above in
      let same : (v + 1) * 10 ^ (scale - target) * 10 ^ target ≡ (v + 1) * 10 ^ scale =
        product_up (v + 1) (scale - target) target ∙ ap (λ (t : ℕ). (v + 1) * 10 ^ t) sum in
      (
        subst (λ (t : ℕ). v * 10 ^ t ≤ u * 10 ^ target) sum
            (below_power u v (scale - target) target most),
        unit_down _ _ _ same (scaled_up _ _ target least),
      )
]
  where
    unit_up : (a b c : ℕ) → a ≡ b → a + 1 ≤ c → b < c
    unit_up a b c e h = omega (arith, e, h)

    unit_down : (b c a : ℕ) → b ≡ c → a + 1 ≤ b → a < c
    unit_down b c a e h = omega (arith, e, h)

    one_power_up : (u d b : ℕ) → d ≡ 0 → u * 10 ^ d + 1 ≤ b → u + 1 ≤ b
    one_power_up u d b z h = omega (arith, (rw z at h))

rescaled :
    (u scale target : ℕ) {w : ℤ}
    → raise_units (target - scale) (pos u) ≡ some w
    → (v : ℕ) × (lower_units (scale - target) w ≡ pos v)
      × IsAtMost u scale v target
      × IsWithinUnit u scale v target
rescaled u scale target {w} e =
    let is_w = raise_units_pos (target - scale) u e in
    let (v, low, below, above) = lower_units_pos (scale - target) (u * 10 ^ (target - scale)) in
    let (most, least) = one_loop u scale target v below above in
    (v, ap (lower_units (scale - target)) is_w ∙ low, most, least)

abbrev pub at_scale : ℤ → ℕ → Decimal64
at_scale units scale = record { units = units; scale = scale }

pub rescale_inv :
    (value : Decimal64) (u target : ℕ) {s : Decimal64}
    → value.units ≡ pos u
    → rescale_toward_zero value target ≡ some s
    → (s.scale ≡ target)
      × ((v : ℕ) × (s.units ≡ pos v)
          × IsAtMost u value.scale v target
          × IsWithinUnit u value.scale v target)
unfolding rescale_toward_zero
rescale_inv value u target {s} is_u e =
    let (w, raised, made) =
      bind_inv (raise_units (target - value.scale) value.units)
        (λ (units : ℤ). some (at_scale (lower_units (value.scale - target) units) target)) s
        (past_guard (ltb max_scale value.scale || ltb max_scale target) e).1 in
    let (v, low, most, least) =
      rescaled u value.scale target (ap (raise_units (target - value.scale)) (sym is_u) ∙ raised) in
    let same : at_scale (lower_units (value.scale - target) w) target ≡ s =
      some-injective _ _ made in
    (
      ap (λ (t : Decimal64). t.scale) (sym same),
      (v, ap (λ (t : Decimal64). t.units) (sym same) ∙ low, most, least),
    )

pub natural : (u : ℤ) → ltb_ℤ (pos 0) u ≡ true → (n : ℕ) × (u ≡ pos n)
natural (pos n) h = (n, refl)
natural (negsuc n) h = ground arith

-- What is positive after a rescaling was positive before.
pub rescale_toward_zero_positive :
    (value : Decimal64) (target : ℕ) {s : Decimal64}
    → rescale_toward_zero value target ≡ some s
    → is_positive s ≡ true
    → is_positive value ≡ true
unfolding rescale_toward_zero
rescale_toward_zero_positive value target {s} e up = elim (Bool-cases (is_positive value)) [
  | inl above_zero ↦ above_zero
  | inr not_above ↦
      let (w, raised, made) =
        bind_inv (raise_units (target - value.scale) value.units)
          (λ (units : ℤ). some (at_scale (lower_units (value.scale - target) units) target)) s
          (past_guard (ltb max_scale value.scale || ltb max_scale target) e).1 in
      let low =
        lower_units_low (value.scale - target) w
          (raise_units_low (target - value.scale) value.units not_above raised) in
      let same = ap is_positive (some-injective _ _ made) in cc
]
