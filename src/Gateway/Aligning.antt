-- ===== src/Gateway/Aligning.antt =====
-- Quantities and prices aligned to a step in engine/src/BrokerGateway.cpp.
use mathlib.Core.Path.{ap₂}
use mathlib.Core.Option.{some-injective}
use native.Mathlib.Nat.{mul-le-mul_right, mul_comm, le_trans, mul-div-le, mod-lt, div-add-mod'}
use mynyra.Prelude.{
  ◌%◌, ℕ, ◌+◌, ◌*◌, ◌/◌, ◌^◌, ◌≤◌, ◌<◌, ◌≡◌, sym, ap, ◌∙◌, true, not, ◌||◌, some, arith, subst,
}
use mynyra.Prelude.Int.{ℤ, pos, ltb_ℤ}
use mynyra.Contracts.{Decimal64, is_positive}
use mynyra.Financial.Budget.{bind_inv, past_guard, neither, not_inv}
use mynyra.Gateway.Normalizing.{rescale_toward_zero, aligned_units, normalize_to_step}
use mynyra.Gateway.Rescaling.{IsAtMost, IsWithinUnit, at_scale, rescale_inv, natural}

-- The normalization of a positive amount to a step is a multiple of the step, worth at most the amount
-- and less than a step below it.
pub record IsAligned (value step result : Decimal64) : Type 0 where
  pub scale : result.scale ≡ step.scale
  pub amount : ℕ
  pub stepped : ℕ
  pub times : ℕ
  pub is_amount : value.units ≡ pos amount
  pub is_step : step.units ≡ pos stepped
  pub multiple : result.units ≡ pos (times * stepped)
  pub at_most : IsAtMost amount value.scale (times * stepped) step.scale
  pub within_step : amount * 10 ^ step.scale < (times * stepped + stepped) * 10 ^ value.scale

aligned-le : (n k : ℕ) → n / k * k ≤ n
aligned-le n k = subst (λ (t : ℕ). t ≤ n) (mul_comm k (n / k)) (mul-div-le n k)

next_multiple : (n k : ℕ) → 1 ≤ k → n + 1 ≤ n / k * k + k
next_multiple n k h =
    let small : n % k < k = mod-lt n (omega (arith, h)) in omega (arith, div-add-mod' n k, small)

IsWithinUnit-le :
    (u scale v w target : ℕ)
    → v + 1 ≤ w
    → IsWithinUnit u scale v target
    → u * 10 ^ target < w * 10 ^ scale
IsWithinUnit-le u scale v w target h least =
    let up = mul-le-mul_right (10 ^ scale) h in omega (arith, least, up)

at_least_one : {u : ℤ} (k : ℕ) → u ≡ pos k → ltb_ℤ (pos 0) u ≡ true → 1 ≤ k
at_least_one k e h = positive_one k (ap (ltb_ℤ (pos 0)) (sym e) ∙ h)
  where
    positive_one : (k : ℕ) → ltb_ℤ (pos 0) (pos k) ≡ true → 1 ≤ k
    positive_one k h = ground (arith, h)

pub IsAtMost-le :
    (u scale v w target : ℕ) → w ≤ v → IsAtMost u scale v target → IsAtMost u scale w target
IsAtMost-le u scale v w target h most = le_trans (mul-le-mul_right (10 ^ scale) h) most

pub normalize_to_step_inv :
    (value step : Decimal64) {result : Decimal64}
    → normalize_to_step value step ≡ some result
    → IsAligned value step result
unfolding normalize_to_step
normalize_to_step_inv value step {result} e =
    let (positive, found) = past_guard (not (is_positive value) || not (is_positive step)) e in
    let (value_up, step_up) = neither _ _ positive in
    let (u, is_u) = natural value.units (not_inv _ value_up) in
    let (k, is_k) = natural step.units (not_inv _ step_up) in
    let (s, scaled, made) =
      bind_inv (rescale_toward_zero value step.scale)
        (λ (t : Decimal64). some (at_scale (aligned_units t.units step.units) step.scale)) result
        found in
    let (same_scale, (v, is_v, most, least)) = rescale_inv value u step.scale is_u scaled in
    let same : at_scale (aligned_units s.units step.units) step.scale ≡ result =
      some-injective _ _ made in
    record {
      scale = ap (λ (t : Decimal64). t.scale) (sym same);
      amount = u;
      stepped = k;
      times = v / k;
      is_amount = is_u;
      is_step = is_k;
      multiple = ap (λ (t : Decimal64). t.units) (sym same) ∙ ap₂ aligned_units is_v is_k;
      at_most = IsAtMost-le u value.scale v (v / k * k) step.scale (aligned-le v k) most;
      within_step =
          IsWithinUnit-le u value.scale v (v / k * k + k) step.scale
            (next_multiple v k (at_least_one k is_k (not_inv _ step_up))) least;
    }
