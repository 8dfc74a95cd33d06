-- ===== src/Portfolio/Valued.antt =====
-- What the valuation of engine/src/PortfolioManager.cpp amounts to, as exact sums.
use mathlib.Core.Option.{some-injective}
use mynyra.Prelude.{
  ◌≡◌, refl, sym, ap, ◌∙◌, Option, none, some, String, List, [], ◌∷◌, arith, subst,
}
use mynyra.Prelude.Int.{ℤ, pos, ◌+ℤ◌, ◌-ℤ◌, ◌≤ℤ◌, int_laws}
use mynyra.Financial.Units.{Tag, Value, Money, checked_add, checked_subtract}
use mynyra.Financial.Values.{add, subtract, notional, of_units}
use mynyra.Financial.Budget.{bind_inv}
use mynyra.Doubles.{Doubles}
use mynyra.Portfolio.State.{PositionState, Valuation, PortfolioManager, no_money}
use mynyra.Portfolio.Valuing.{nearest, value_positions, value_state, valuation_of}

pub checked_add_inv : (a b : ℤ) {c : ℤ} → checked_add a b ≡ some c → c ≡ a +ℤ b
unfolding checked_add
checked_add_inv a b e = ground arith

pub checked_subtract_inv : (a b : ℤ) {c : ℤ} → checked_subtract a b ≡ some c → c ≡ a -ℤ b
unfolding checked_subtract
checked_subtract_inv a b e = ground arith

pub of_units_inv :
    {tag : Tag} (o : Option ℤ) {v : Value tag} → of_units tag o ≡ some v → o ≡ some v.units
of_units_inv none e = cc
of_units_inv (some u) e = ground arith

-- A sum or a difference that is computed is the exact one.
pub add_inv :
    {tag : Tag} (a b : Value tag) {c : Value tag} → add a b ≡ some c → c.units ≡ a.units +ℤ b.units
unfolding add
add_inv a b e = checked_add_inv a.units b.units (of_units_inv _ e)

pub subtract_inv :
    {tag : Tag} (a b : Value tag) {c : Value tag}
    → subtract a b ≡ some c
    → c.units ≡ a.units -ℤ b.units
unfolding subtract
subtract_inv a b e = checked_subtract_inv a.units b.units (of_units_inv _ e)

-- The positions are worth `market` units at their last marks, each rounded to the nearest unit, and
-- `gain` units more than they cost.
pub data IsWorth : List (String × PositionState) → ℤ → ℤ → Type 0 where
  nothing : IsWorth [] (pos 0) (pos 0)
  also :
      {symbol : String} {state : PositionState} {rest : List (String × PositionState)}
      → (marked : Money) {market gain market' gain' : ℤ}
      → notional state.last_mark_price state.quantity nearest ≡ some marked
      → IsWorth rest market gain
      → market' ≡ marked.units +ℤ market
      → gain' ≡ (marked.units -ℤ state.cost_basis.units) +ℤ gain
      → IsWorth ((symbol, state) ∷ rest) market' gain'

shift : (a b c d e : ℤ) → d ≡ a +ℤ b → e ≡ d +ℤ c → e ≡ a +ℤ (b +ℤ c)
shift a b c d e p q = grind int_laws

value_positions_inv :
    (positions : List (String × PositionState)) (marked unrealized m u : Money)
    → value_positions positions marked unrealized ≡ some (m, u)
    → (market : ℤ) × (gain : ℤ) × IsWorth positions market gain
      × (m.units ≡ marked.units +ℤ market)
      × (u.units ≡ unrealized.units +ℤ gain)
unfolding value_positions
value_positions_inv [] marked unrealized m u e =
    (pos 0, pos 0, nothing, grind (int_laws), grind (int_laws))
value_positions_inv ((symbol, state) ∷ rest) marked unrealized m u e =
    let (value, e1, k1) = bind_inv _ _ _ e in
    let (total, e2, k2) = bind_inv _ _ _ k1 in
    let (pnl, e3, k3) = bind_inv _ _ _ k2 in
    let (total_pnl, e4, k4) = bind_inv _ _ _ k3 in
    let (market, gain, worth, em, eu) = value_positions_inv rest total total_pnl m u k4 in
    (
      value.units +ℤ market,
      (value.units -ℤ state.cost_basis.units) +ℤ gain,
      also value e1 worth refl refl,
      shift marked.units value.units market total.units m.units (add_inv marked value e2) em,
      shift unrealized.units (value.units -ℤ state.cost_basis.units) gain total_pnl.units u.units
          (add_inv unrealized pnl e4
            ∙ ap (◌+ℤ◌ unrealized.units) (subtract_inv value state.cost_basis e3))
          eu,
    )

-- The equity is the cash and the worth of the positions, the unrealized result is their gain, and the
-- peak is at least both the equity and the peak before.
pub record IsValuation (F : Doubles) (p : PortfolioManager F) (cash : Money)
    (positions : List (String × PositionState)) (v : Valuation F) : Type 0 where
  pub market : ℤ
  pub worth : IsWorth positions market v.unrealized_pnl.units
  pub equity : v.total_equity.units ≡ cash.units +ℤ market
  pub peak : v.total_equity.units ≤ℤ v.max_equity.units
  pub rises : p.max_equity.units ≤ℤ v.max_equity.units

zero_add : (a b : ℤ) → a ≡ pos 0 +ℤ b → a ≡ b
zero_add a b e = grind int_laws

valued :
    (F : Doubles) (p : PortfolioManager F) (cash : Money)
    (positions : List (String × PositionState)) (m u equity : Money) (market gain : ℤ)
    → add cash m ≡ some equity
    → IsWorth positions market gain
    → m.units ≡ pos 0 +ℤ market
    → u.units ≡ pos 0 +ℤ gain
    → IsValuation F p cash positions (valuation_of F p u equity)
valued F p cash positions m u equity market gain e worth em eu = record {
  market = market;
  worth = subst (λ g. IsWorth positions market g) (sym (zero_add _ _ eu)) worth;
  equity = add_inv cash m e ∙ ap (◌+ℤ◌ cash.units) (zero_add _ _ em);
  peak = ground arith;
  rises = ground arith;
}

pub value_state_inv :
    (F : Doubles) (p : PortfolioManager F) (cash : Money)
    (positions : List (String × PositionState)) {v : Valuation F}
    → value_state F p cash positions ≡ some v
    → IsValuation F p cash positions v
unfolding value_state
value_state_inv F p cash positions {v} e =
    let (sums, e1, k1) = bind_inv _ _ v e in
    let (equity, e2, k2) =
      bind_inv (add cash sums.0) (λ x. some (valuation_of F p sums.1 x)) v k1 in
    let (market, gain, worth, em, eu) =
      value_positions_inv positions no_money no_money sums.0 sums.1 e1 in
    subst (IsValuation F p cash positions) (some-injective _ _ k2)
      (valued F p cash positions sums.0 sums.1 equity market gain e2 worth em eu)
