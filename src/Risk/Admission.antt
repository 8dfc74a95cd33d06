-- ===== src/Risk/Admission.antt =====
-- What engine/src/RiskEngine.cpp admits.
use mathlib.Core.Option.{some-injective}
use mynyra.Prelude.{
  ℕ, ◌-◌, ◌≤◌, ◌≡◌, refl, Bool, true, false, not, String, str_eq, Option, none, some, List, [], ◌∷◌,
  arith, length, if◌then◌else◌, inl, inr, ◌⊎◌, sym, ◌∙◌, ap,
}
use mynyra.Prelude.Int.{◌≤ℤ◌, eq_ℤ, is_int64}
use mynyra.Contracts.{Decimal64, same_side, OrderIntent, OrderRiskContext, PositionSnapshot}
use mynyra.Doubles.{Doubles}
use mynyra.Risk.Decimals.{decimal_equal}
use mynyra.Risk.Values.{scaled, decimal_equal_exact}
use mynyra.Risk.Engine.{RiskEngine}
use mynyra.Risk.Orders.{
  is_opening, evidence_is_stale, fresh_at_evaluation, find_position, position_differs,
  evaluate_position, evaluate_identity, evaluate_reduction,
}
use mynyra.Risk.Openings.{
  expected_reference, price_is_unbound, account_is_used, quote_is_stale, gate_is_shut,
  evaluate_opening, evaluate_order,
}

-- A position of a list.
abbrev pub Among : PositionSnapshot → List PositionSnapshot → Type 0
Among p [] = false ≡ true
Among p (q ∷ qs) = (p ≡ q) ⊎ Among p qs

-- Exits: the same decision whatever the engine's state is.
pub evaluate_order-exit :
    (F : Doubles) (e e' : RiskEngine F) (intent : OrderIntent) (c : OrderRiskContext)
    → is_opening intent ≡ false
    → evaluate_order F e intent c ≡ evaluate_order F e' intent c
unfolding evaluate_order
evaluate_order-exit F e e' intent c h = rw h refl

opening_inv :
    (F : Doubles) (e : RiskEngine F) (intent : OrderIntent) (c : OrderRiskContext)
    → (evaluate_opening F e intent c).allowed ≡ true
    → (decimal_equal intent.exact_quantity c.instrument.minimum_quantity ≡ true)
      × (price_is_unbound intent c ≡ false)
      × (account_is_used c ≡ false)
      × (quote_is_stale F c ≡ false)
      × (gate_is_shut F e ≡ false)
unfolding evaluate_opening
opening_inv F e intent c h = (ground arith, ground arith, ground arith, ground arith, ground arith)

stale_inv :
    (F : Doubles) (e : RiskEngine F) (intent : OrderIntent) (c : OrderRiskContext)
    → (evaluate_order F e intent c).allowed ≡ true
    → evidence_is_stale c ≡ false
unfolding evaluate_order
stale_inv F e intent c h = ground arith

opened_inv :
    (F : Doubles) (e : RiskEngine F) (intent : OrderIntent) (c : OrderRiskContext)
    → (evaluate_order F e intent c).allowed ≡ true
    → is_opening intent ≡ true
    → (evaluate_opening F e intent c).allowed ≡ true
unfolding evaluate_order
opened_inv F e intent c h o =
    let closed : not (is_opening intent) ≡ false = rw o refl in ground arith

reduced_inv :
    (F : Doubles) (e : RiskEngine F) (intent : OrderIntent) (c : OrderRiskContext)
    → (evaluate_order F e intent c).allowed ≡ true
    → is_opening intent ≡ false
    → (evaluate_reduction intent c).allowed ≡ true
unfolding evaluate_order
reduced_inv F e intent c h o =
    let reduces : not (is_opening intent) ≡ true = rw o refl in ground arith

-- How old the evidence is at most.
fresh_inv :
    (c : OrderRiskContext) (t : ℕ)
    → not (fresh_at_evaluation c t) ≡ false
    → (t ≤ c.evaluation_timestamp_ns) × (c.evaluation_timestamp_ns - t ≤ 5_000_000_000)
unfolding fresh_at_evaluation
fresh_inv c t h = (ground arith, ground arith)

abbrev pub IsFresh : OrderRiskContext → ℕ → Type 0
IsFresh c t = (t ≤ c.evaluation_timestamp_ns) × (c.evaluation_timestamp_ns - t ≤ 5_000_000_000)

evidence_inv :
    (c : OrderRiskContext)
    → evidence_is_stale c ≡ false
    → IsFresh c c.account.source_timestamp_ns × IsFresh c c.reconciliation.timestamp_ns
unfolding evidence_is_stale
evidence_inv c h = (
  fresh_inv c c.account.source_timestamp_ns (ground arith),
  fresh_inv c c.reconciliation.timestamp_ns (ground arith),
)

quote_inv :
    (F : Doubles) (c : OrderRiskContext)
    → quote_is_stale F c ≡ false
    → IsFresh c c.bbo_source_timestamp_ns
unfolding quote_is_stale
quote_inv F c h = (ground arith, ground arith)

-- Two decimals with the same value.
abbrev pub SameValue : Decimal64 → Decimal64 → Type 0
SameValue a b = eq_ℤ (scaled b.scale a.units) (scaled a.scale b.units) ≡ true

price_inv :
    (intent : OrderIntent) (c : OrderRiskContext)
    → price_is_unbound intent c ≡ false
    → decimal_equal intent.reference_price (expected_reference intent c) ≡ true
unfolding price_is_unbound
price_inv intent c h = ground arith

-- On 64-bit amounts an intent that opens a position is allowed only for exactly the value of the
-- instrument's minimum quantity, at exactly the value of the quoted side, with no position and no
-- pending order in the reconciliation, on account, reconciliation and quote evidence at most 5
-- seconds old, and with neither the halt nor the close-only state active.
pub opening_admitted :
    (F : Doubles) (e : RiskEngine F) (intent : OrderIntent) (c : OrderRiskContext)
    → is_int64 intent.exact_quantity.units ≡ true
    → is_int64 c.instrument.minimum_quantity.units ≡ true
    → is_int64 intent.reference_price.units ≡ true
    → is_int64 (expected_reference intent c).units ≡ true
    → is_opening intent ≡ true
    → (evaluate_order F e intent c).allowed ≡ true
    → SameValue intent.exact_quantity c.instrument.minimum_quantity
      × SameValue intent.reference_price (expected_reference intent c)
      × (length c.reconciliation.positions ≡ 0)
      × (c.reconciliation.pending_order_count ≡ 0)
      × IsFresh c c.account.source_timestamp_ns
      × IsFresh c c.reconciliation.timestamp_ns
      × IsFresh c c.bbo_source_timestamp_ns
      × (e.halted ≡ false)
      × (e.close_only ≡ false)
unfolding account_is_used gate_is_shut
opening_admitted F e intent c hq hm hp hr o h =
    let (minimum, priced, empty, quoted, unshut) =
      opening_inv F e intent c (opened_inv F e intent c h o) in
    let (account, reconciled) = evidence_inv c (stale_inv F e intent c h) in
    (
      sym (decimal_equal_exact intent.exact_quantity c.instrument.minimum_quantity hq hm) ∙ minimum,
      sym (decimal_equal_exact intent.reference_price (expected_reference intent c) hp hr)
          ∙ price_inv intent c priced,
      ground arith,
      ground arith,
      account,
      reconciled,
      quote_inv F c quoted,
      ground arith,
      ground arith,
    )

picked :
    (b : Bool) (q p : PositionSnapshot) (o : Option PositionSnapshot)
    → (if b then some q else o) ≡ some p
    → ((b ≡ true) × (p ≡ q)) ⊎ (o ≡ some p)
picked true q p o e = inl (refl, sym (some-injective q p e))
picked false q p o e = inr e

found :
    (id : String) (ps : List PositionSnapshot) (p : PositionSnapshot)
    → find_position id ps ≡ some p
    → Among p ps × (str_eq p.logical_position_id id ≡ true)
unfolding find_position
found id [] p e = ground arith
found id (q ∷ qs) p e =
    elim (picked (str_eq q.logical_position_id id) q p (find_position id qs) e) [
      | inl (same, is_q) ↦
          (inl is_q, ap (λ (r : PositionSnapshot). str_eq r.logical_position_id id) is_q ∙ same)
      | inr later ↦ let (there, same) = found id qs p later in (inr there, same)
    ]

position_inv :
    (intent : OrderIntent) (o : Option PositionSnapshot)
    → (evaluate_position intent o).allowed ≡ true
    → (p : PositionSnapshot) × (o ≡ some p) × (position_differs intent p ≡ false)
unfolding evaluate_position
position_inv intent none h = ground arith
position_inv intent (some p) h = (p, refl, ground arith)

-- The position that an identity names.
abbrev pub Named : OrderRiskContext → Option String → PositionSnapshot → Type 0
Named c none p = false ≡ true
Named c (some id) p = Among p c.reconciliation.positions × (str_eq p.logical_position_id id ≡ true)

reduction_inv :
    (intent : OrderIntent) (c : OrderRiskContext) (id : Option String)
    → (evaluate_identity intent c id).allowed ≡ true
    → (p : PositionSnapshot) × Named c id p × (position_differs intent p ≡ false)
unfolding evaluate_identity
reduction_inv intent c none h = ground arith
reduction_inv intent c (some id) h =
    let looked_up : (evaluate_position intent (find_position id c.reconciliation.positions)).allowed
        ≡ true =
      ground arith in
    let (p, e, same) =
      position_inv intent (find_position id c.reconciliation.positions) looked_up in
    (p, found id c.reconciliation.positions p e, same)

-- An intent that does not open a position is allowed only if its position identity names a
-- position of the reconciliation with its symbol, side and scale that holds at least its quantity,
-- and the reconciliation is at most 5 seconds old; an allowed one gets the same decision in every
-- state of the engine, halted or not.
pub reduction_admitted :
    (F : Doubles) (e e' : RiskEngine F) (intent : OrderIntent) (c : OrderRiskContext)
    → is_opening intent ≡ false
    → (evaluate_order F e intent c).allowed ≡ true
    → ((p : PositionSnapshot) × Named c intent.logical_position_id p
        × (str_eq p.canonical_symbol intent.canonical_symbol ≡ true)
        × (same_side p.side intent.side ≡ true)
        × (p.quantity.scale ≡ intent.exact_quantity.scale)
        × (intent.exact_quantity.units ≤ℤ p.quantity.units))
      × IsFresh c c.reconciliation.timestamp_ns
      × (evaluate_order F e' intent c ≡ evaluate_order F e intent c)
unfolding evaluate_reduction
reduction_admitted F e e' intent c o h =
    let (p, named, same) =
      reduction_inv intent c intent.logical_position_id (reduced_inv F e intent c h o) in
    (
      (p, named, ground arith, ground arith, ground arith, ground arith),
      (evidence_inv c (stale_inv F e intent c h)).1,
      evaluate_order-exit F e' e intent c o,
    )
