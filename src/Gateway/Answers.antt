-- ===== src/Gateway/Answers.antt =====
-- The fills of the deterministic adapter of engine/src/DeterministicBrokerAdapter.cpp fit their orders.
use mathlib.Core.Option.{some-injective}
use mynyra.Prelude.{
  ℕ, ◌≡◌, refl, sym, ap, ◌∙◌, inl, inr, Bool, true, false, not, ◌||◌, Option, none, some, String,
  List, [], ◌∷◌, arith, if◌then◌else◌, subst, Bool-cases,
}
use mynyra.Prelude.Int.{ℤ, pos, ◌+ℤ◌, ◌-ℤ◌, ◌≤ℤ◌, leb_ℤ}
use mynyra.Contracts.{Decimal64, FailureCategory, NormalizedOrder, is_positive}
use mynyra.Financial.Units.{
  Rounding, scale_factor, Tag, Value, Price, Quantity, Money, Fraction, positive, negative, differ,
  scaled_product, signed_quotient, to_signed, round_quotient,
}
use mynyra.Financial.Values.{apply_slippage, notional, fee, of_units, positive_price}
use mynyra.Financial.Wide.{multiply_wide, divide_wide, magnitude}
use mynyra.Financial.Budget.{bind_inv, past_guard}
use mynyra.Doubles.{Doubles, to_double}
use mynyra.Doubles.Conversions.{price_of, quantity_of}
use mynyra.Adapter.Notices.{IsSplit, split_fill-IsSplit, split_fill_scale}
use mynyra.Gateway.Dispatch.{lifecycle_request}
use mynyra.Gateway.Filling.{IsFill}
use mynyra.Adapter.State.{DeterministicBrokerAdapter, Notice, order_acknowledged, order_executed}
use mynyra.Adapter.Submission.{
  split_fill, quoted_price, is_buy, priced_fill, paper_id, acknowledgement_of, execution_of,
  settle_fill, fill_order, answer, strikes,
}

to_signed_false : (q : ℕ) {c : ℤ} → to_signed false q ≡ some c → pos 0 ≤ℤ c
unfolding to_signed
to_signed_false q e = ground arith

-- A product of two amounts that are not negative is not negative.
scaled_product_nonneg :
    (a b : ℤ) (r : Rounding) {c : ℤ}
    → negative a ≡ false
    → negative b ≡ false
    → scaled_product a b r ≡ some c
    → pos 0 ≤ℤ c
unfolding scaled_product signed_quotient
scaled_product_nonneg a b r {c} ha hb e =
    let (t, divided, k1) =
      bind_inv (divide_wide (multiply_wide (magnitude a) (magnitude b)) scale_factor) _ c e in
    let (q, rounded, k2) = bind_inv (round_quotient r t.0 t.1 scale_factor) _ c k1 in
    let no_sign : differ (negative a) (negative b) ≡ false = rw (ha, hb) refl in
    to_signed_false q (ap (λ (s : Bool). to_signed s q) (sym no_sign) ∙ k2)

abbrev pub nearest : Rounding
nearest = Rounding.nearest_ties_away_from_zero

-- A price and a fee that the adapter works out are positive and not negative.
record IsPriced (priced : Price × Money) : Type 0 where
  price : positive priced.0.units ≡ true
  charge : negative priced.1.units ≡ false

not_negative : (u : ℤ) → positive u ≡ true → negative u ≡ false
not_negative u h = ground arith

nonneg : (u : ℤ) → pos 0 ≤ℤ u → negative u ≡ false
nonneg u h = ground arith

units_inv : {tag : Tag} (o : Option ℤ) {v : Value tag} → of_units tag o ≡ some v → o ≡ some v.units
units_inv none e = cc
units_inv (some u) e = ground arith

positive_price_inv : (u : ℤ) {p : Price} → positive_price u ≡ some p → positive p.units ≡ true
positive_price_inv u e = ground arith

apply_slippage_positive :
    (p : Price) (rate : Fraction) (buy : Bool) {q : Price}
    → apply_slippage p rate buy nearest ≡ some q
    → positive q.units ≡ true
unfolding apply_slippage
apply_slippage_positive p rate buy {q} e =
    let (fine, k1) =
      past_guard
        (not (positive p.units) || negative rate.units || leb_ℤ (pos scale_factor) rate.units) e in
    let (u, made, k2) =
      bind_inv
        (scaled_product p.units
          (if buy then pos scale_factor +ℤ rate.units else pos scale_factor -ℤ rate.units) nearest)
        positive_price q k1 in
    positive_price_inv u k2

notional_nonneg :
    (p : Price) (q : Quantity) {m : Money}
    → negative p.units ≡ false
    → negative q.units ≡ false
    → notional p q nearest ≡ some m
    → negative m.units ≡ false
unfolding notional
notional_nonneg p q {m} hp hq e =
    nonneg m.units (scaled_product_nonneg p.units q.units nearest hp hq (units_inv _ e))

fee_nonneg :
    (m : Money) (rate : Fraction) {c : Money}
    → negative m.units ≡ false
    → negative rate.units ≡ false
    → fee m rate nearest ≡ some c
    → negative c.units ≡ false
unfolding fee
fee_nonneg m rate {c} hm hr e =
    nonneg c.units (scaled_product_nonneg m.units rate.units nearest hm hr (units_inv _ e))

module _ (F : Doubles) where
  priced_fill_inv :
      (a : DeterministicBrokerAdapter F) (order : NormalizedOrder) (filled : Decimal64)
      {priced : Price × Money}
      → negative a.fee_rate.units ≡ false
      → priced_fill F a order filled ≡ some priced
      → IsPriced priced
  unfolding priced_fill
  priced_fill_inv a order filled {priced} rate e =
      let (price, e1, k1) =
        bind_inv (price_of F (to_double F (quoted_price order)) Rounding.reject_unaligned) _ priced
          e in
      let (quantity, e2, k2) =
        bind_inv (quantity_of F (to_double F filled) Rounding.reject_unaligned) _ priced k1 in
      let (slipped, e3, k3) =
        bind_inv (apply_slippage price a.slippage_rate (is_buy order.request.side) nearest) _ priced
          k2 in
      let (cost, e4, k4) = bind_inv (notional slipped quantity nearest) _ priced k3 in
      let (charge, e5, k5) = bind_inv (fee cost a.fee_rate nearest) _ priced k4 in
      let (some_units, k6) = kept (positive quantity.units) k5 in
      let up = apply_slippage_positive price a.slippage_rate (is_buy order.request.side) e3 in
      let worth =
        notional_nonneg slipped quantity (not_negative slipped.units up)
          (not_negative quantity.units some_units) e4 in
      subst IsPriced k6 (record { price = up; charge = fee_nonneg cost a.fee_rate worth rate e5 })
    where
      kept :
          {x y : Price × Money} (b : Bool)
          → (if b then some x else none) ≡ some y
          → (b ≡ true) × (x ≡ y)
      kept true e = (refl, some-injective _ _ e)
      kept false e = cc

  -- A submission is answered by a refusal, or by an acceptance and a fill that fits the order.
  pub data IsReply (order : NormalizedOrder) : List Notice → Type 0 where
    refuses :
        {notices : List Notice}
        → (failure : FailureCategory) → (reason : String)
        → notices ≡ order_acknowledged (acknowledgement_of order false "" failure reason) ∷ []
        → IsReply order notices
    fills :
        {notices : List Notice}
        → (split : Decimal64 × Decimal64) → (priced : Price × Money)
        → notices
          ≡ order_acknowledged
              (acknowledgement_of order true (paper_id order) FailureCategory.none "")
            ∷ order_executed (execution_of order split priced)
            ∷ []
        → IsFill (lifecycle_request order) (execution_of order split priced)
        → IsReply order notices

  settle_fill-IsReply :
      (order : NormalizedOrder) (split : Decimal64 × Decimal64) (o : Option (Price × Money))
      (a : DeterministicBrokerAdapter F)
      → IsSplit order.normalized_quantity split
      → split.0.scale ≡ order.normalized_quantity.scale
      → ((priced : Price × Money) → o ≡ some priced → IsPriced priced)
      → IsReply order (settle_fill F order split o a).0
  settle_fill-IsReply order split none a h scale p = IsReply.refuses _ _ refl
  settle_fill-IsReply order (filled, remaining) (some (price, charge)) a
        (sum, low, high, rest_scale) scale p =
      IsReply.fills (filled, remaining) (price, charge) refl
        (record {
          same_id = refl;
          same_time = refl;
          total = sum;
          rest = low;
          part = high;
          scale = scale;
          rest_scale = rest_scale;
          price = (p (price, charge) refl).price;
          charge = (p (price, charge) refl).charge;
          side = refl;
          effect = refl;
        })

  pub answer-IsReply :
      (order : NormalizedOrder) (a : DeterministicBrokerAdapter F)
      → is_positive order.normalized_quantity ≡ true
      → negative a.fee_rate.units ≡ false
      → IsReply order (answer F order a).0
  unfolding answer fill_order
  answer-IsReply order a h rate =
      elim (Bool-cases
        (a.inject_error || strikes a.fault_config a.fault_config.drop_every_n a.submit_count)) [
          | inl refused ↦ rw refused (IsReply.refuses _ _ refl)
          | inr filled ↦
              let split = split_fill F order.normalized_quantity a.partial_fill_ratio in
              rw filled (
                settle_fill-IsReply order split (priced_fill F a order split.0) _
                  (split_fill-IsSplit F order.normalized_quantity a.partial_fill_ratio h)
                  (split_fill_scale F order.normalized_quantity a.partial_fill_ratio)
                  (λ (priced : Price × Money) (e : priced_fill F a order split.0 ≡ some priced).
                    priced_fill_inv a order split.0 rate e))
        ]
