-- ===== src/Financial/Slippage.antt =====
-- The direction of the slippage in engine/src/FinancialMath.cpp.
use native.Mathlib.Nat.{mul-le-mul_left}
use mathlib.Core.Option.{some-injective}
use mynyra.Prelude.{
  ℕ, ◌+◌, ◌-◌, ◌*◌, ◌/◌, ◌≤◌, ◌<◌, ◌≡◌, sym, ◌∙◌, Bool, true, false, not, ◌||◌, Option, none, some,
  arith, if◌then◌else◌, subst,
}
use mynyra.Prelude.Int.{ℤ, pos, negsuc, ◌+ℤ◌, ◌-ℤ◌, ◌≤ℤ◌, leb_ℤ, IsInt64}
use mynyra.Financial.Units.{
  Rounding, Tag, Price, Fraction, scale_factor, negative, positive, scaled_product,
}
use mynyra.Financial.Values.{positive_price, apply_slippage}
use mynyra.Financial.Budget.{
  product_pos, representable_inv, past_guard, neither, not_inv, bind_inv, negative-negsuc,
  positive-negsuc, add_pos, nearest-le, units_inv,
}

-- A buy pays no less than the market price and a sale gets no more.
abbrev pub Worse : Bool → ℤ → ℤ → Type 0
Worse true market slipped = market ≤ℤ slipped
Worse false market slipped = slipped ≤ℤ market

raised-ge : (m s : ℕ) → m ≤ (2 * (m * (scale_factor + s)) + scale_factor) / (2 * scale_factor)
raised-ge m s = omega arith

lowered-le : (m k : ℕ) → k ≤ scale_factor → (2 * (m * k) + scale_factor) / (2 * scale_factor) ≤ m
lowered-le m k h = nearest-le (m * k) m (mul-le-mul_left m h)

subtract_pos : (a b : ℕ) → b ≤ a → pos a -ℤ pos b ≡ pos (a - b)
unfolding ◌-ℤ◌
subtract_pos a b h = ground arith

slipped_units :
    (buy_side : Bool) (m s u : ℤ)
    → IsInt64 m
    → positive m ≡ true
    → negative s ≡ false
    → leb_ℤ (pos scale_factor) s ≡ false
    → scaled_product m
        (if buy_side then pos scale_factor +ℤ s else pos scale_factor -ℤ s)
        Rounding.nearest_ties_away_from_zero
      ≡ some u
    → Worse buy_side m u
slipped_units true (pos m) (pos s) u hm pm ns small e =
    let under : s < scale_factor = ground arith in
    let q = (2 * (m * (scale_factor + s)) + scale_factor) / (2 * scale_factor) in
    let exact =
      sym (product_pos m (scale_factor + s) (omega arith) (omega arith))
      ∙ subst (λ z. scaled_product (pos m) z Rounding.nearest_ties_away_from_zero ≡ some u)
          (add_pos scale_factor s) e in
    subst (λ z. pos m ≤ℤ z) (representable_inv q u exact).1 (omega (arith, raised-ge m s))
slipped_units false (pos m) (pos s) u hm pm ns small e =
    let under : s < scale_factor = ground arith in
    let q = (2 * (m * (scale_factor - s)) + scale_factor) / (2 * scale_factor) in
    let exact =
      sym (product_pos m (scale_factor - s) (omega arith) (omega arith))
      ∙ subst (λ z. scaled_product (pos m) z Rounding.nearest_ties_away_from_zero ≡ some u)
          (subtract_pos scale_factor s (omega arith)) e in
    subst (λ z. z ≤ℤ pos m) (representable_inv q u exact).1
      (omega (arith, lowered-le m (scale_factor - s) (omega arith)))
slipped_units b (pos m) (negsuc s) u hm pm ns small e = elim (negative-negsuc s ns) [ ]
slipped_units b (negsuc m) s u hm pm ns small e = elim (positive-negsuc m pm) [ ]

-- A result of apply_slippage for a 64-bit price under rounding to the nearest unit is at least the
-- market price for a buy and at most the market price for a sale.
pub apply_slippage_direction :
    (market : Price) (rate : Fraction) (buy_side : Bool) (slipped : Price)
    → IsInt64 market.units
    → apply_slippage market rate buy_side Rounding.nearest_ties_away_from_zero ≡ some slipped
    → Worse buy_side market.units slipped.units
unfolding apply_slippage
apply_slippage_direction market rate buy_side slipped hm e =
    let (guard, made) =
      past_guard
        (not (positive market.units) || negative rate.units || leb_ℤ (pos scale_factor) rate.units)
        e in
    let (first, small) =
      neither (not (positive market.units) || negative rate.units)
        (leb_ℤ (pos scale_factor) rate.units) guard in
    let (pm, ns) = neither (not (positive market.units)) (negative rate.units) first in
    let (u, product, given) = bind_inv _ positive_price slipped made in
    subst (Worse buy_side market.units) (priced u slipped given)
      (slipped_units buy_side market.units rate.units u hm (not_inv _ pm) ns small product)
  where
    past_guard_else :
        (b : Bool) {o : Option Price} {x : Price} → (if b then o else none) ≡ some x → o ≡ some x
    past_guard_else true h = h
    past_guard_else false h = ground arith

    priced : (u : ℤ) (p : Price) → positive_price u ≡ some p → u ≡ p.units
    priced u p h =
        some-injective u p.units
          (units_inv Tag.price_tag (some u) p (past_guard_else (positive u) h))
