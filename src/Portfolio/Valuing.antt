-- ===== src/Portfolio/Valuing.antt =====
-- The valuation of the account in engine/src/PortfolioManager.cpp. The map of positions is read in
-- the order in which it stands; an exception here is always an overflow, which is `none`.
use mynyra.Prelude.{not, Option, none, some, String, List, [], ◌∷◌, if◌then◌else◌}
use mynyra.Prelude.Int.{ltb_ℤ}
use mynyra.Prelude.Dictionary.{find, assign}
use mynyra.Financial.Units.{Rounding, Money, positive, bind}
use mynyra.Financial.Values.{add, subtract, notional}
use mynyra.Financial.Units.{Price}
use mynyra.Doubles.{Doubles, zero_double}
use mynyra.Doubles.Conversions.{price_of}
use mynyra.Portfolio.Outcomes.{
  Exception, Outcome, done, ◌>>=◌, ◌>>◌, refuse, value_or_throw, require_value,
}
use mynyra.Portfolio.State.{PositionState, Valuation, PortfolioManager, no_money, value_double}

abbrev pub nearest : Rounding
nearest = Rounding.nearest_ties_away_from_zero

unfoldable pub value_positions :
    List (String × PositionState) → Money → Money → Option (Money × Money)
value_positions [] marked_value unrealized = some (marked_value, unrealized)
value_positions (entry ∷ rest) marked_value unrealized =
    let state = entry.1 in
    bind (notional state.last_mark_price state.quantity nearest) λ marked.
      bind (add marked_value marked) λ total.
        bind (subtract marked state.cost_basis) λ position_pnl.
          bind (add unrealized position_pnl) λ total_pnl. value_positions rest total total_pnl

abbrev pub larger : Money → Money → Money
larger a b = if ltb_ℤ b.units a.units then a else b

unfoldable pub drawdown_of : (F : Doubles) → Money → Money → F.Double
drawdown_of F max_equity equity =
    if positive max_equity.units
    then F.div (F.sub (value_double F max_equity) (value_double F equity))
        (value_double F max_equity)
    else zero_double F

abbrev pub valuation_of : (F : Doubles) → PortfolioManager F → Money → Money → Valuation F
valuation_of F p unrealized equity =
    let max_equity = larger equity p.max_equity in
    let drawdown = drawdown_of F max_equity equity in
    record {
      unrealized_pnl = unrealized;
      total_equity = equity;
      max_equity = max_equity;
      current_drawdown = drawdown;
      max_drawdown = if F.lt p.max_drawdown drawdown then drawdown else p.max_drawdown;
    }

unfoldable pub value_state :
    (F : Doubles)
    → PortfolioManager F
    → Money
    → List (String × PositionState)
    → Option (Valuation F)
value_state F p cash positions =
    bind (value_positions positions no_money no_money)
      λ sums. bind (add cash sums.0) λ equity. some (valuation_of F p sums.1 equity)

abbrev pub commit_valuation : (F : Doubles) → Valuation F → PortfolioManager F → PortfolioManager F
commit_valuation F valuation p = record p {
  unrealized_pnl = valuation.unrealized_pnl;
  total_equity = valuation.total_equity;
  max_equity = valuation.max_equity;
  current_drawdown = valuation.current_drawdown;
  max_drawdown = valuation.max_drawdown;
}

abbrev pub marked_at : Price → PositionState → PositionState
marked_at mark state = record state { last_mark_price = mark }

unfoldable pub update_position :
    (F : Doubles)
    → String
    → F.Double
    → PositionState
    → PortfolioManager F
    → Outcome (PortfolioManager F)
update_position F symbol current_price state p = do
  mark ← value_or_throw (price_of F current_price nearest) Exception.invalid_argument
  refuse (not (positive mark.units)) Exception.invalid_argument
  let next_positions = assign symbol (marked_at mark state) p.positions
  valuation ← require_value (value_state F p p.cash next_positions)
  done (commit_valuation F valuation (record p { positions = next_positions }))

abbrev pub if_found {ℓ} : {A : Type ℓ} → Option PositionState → A → (PositionState → A) → A
if_found none absent present = absent
if_found (some state) absent present = present state

unfoldable pub update_pnl :
    (F : Doubles) → String → F.Double → PortfolioManager F → Outcome (PortfolioManager F)
update_pnl F symbol current_price p =
    if_found (find symbol p.positions) (done p)
      λ state. update_position F symbol current_price state p
