-- ===== src/Portfolio/Restoring.antt =====
-- What `restoreState` of engine/src/PortfolioManager.cpp accepts.
use mynyra.Prelude.{
  ◌≡◌, sym, ap, ◌∙◌, Bool, true, false, not, Option, String, List, [], ◌∷◌, All, arith, subst,
}
use mynyra.Prelude.Int.{ℤ, ◌≤ℤ◌, eq_ℤ, eq_of_parts}
use mynyra.Prelude.Dictionary.{assign, IsDictionary, assign-IsDictionary, All-assign}
use mynyra.Financial.Units.{Tag, Value, Money, positive, negative}
use mynyra.Financial.Budget.{neither, not_inv}
use mynyra.Doubles.{Doubles}
use mynyra.Portfolio.Outcomes.{done, bind_done, refuse_done, value_done, done_inv}
use mynyra.Portfolio.State.{PositionState, Valuation, PortfolioManager}
use mynyra.Portfolio.Valued.{IsWorth, value_state_inv}
use mynyra.Portfolio.Purchases.{IsHeld, IsSolvent}
use mynyra.Portfolio.Entries.{positive_lt, positive_le, negative_le}
use mynyra.Portfolio.Snapshots.{
  PositionSnapshot, Snapshot, persisted, not_positive, restore_position, restore_positions,
  is_inconsistent, restore_state,
}

persisted_inv :
    {tag : Tag} (amount : Option (Value tag)) (refused : ℤ → Bool) {v : Value tag}
    → persisted amount refused ≡ done v
    → refused v.units ≡ false
unfolding persisted
persisted_inv amount refused e =
    let (value, e1, k1) = value_done _ _ _ e in
    let (fine, k2) = refuse_done _ _ _ k1 in
    subst (λ (t : Value _). refused t.units ≡ false) (done_inv k2) fine

restore_position_inv :
    (F : Doubles) (s : PositionSnapshot F) {state : PositionState}
    → restore_position F s ≡ done state
    → IsHeld state
unfolding restore_position
restore_position_inv F s e =
    let (named, k1) = refuse_done _ _ _ e in
    let (quantity, e2, k2) = bind_done _ _ k1 in
    let (average, e3, k3) = bind_done _ _ k2 in
    let (fee, e4, k4) = bind_done _ _ k3 in
    let (cost, e5, k5) = bind_done _ _ k4 in
    let (mark, e6, k6) = bind_done _ _ k5 in
    let (derived, e7, k7) = value_done _ _ _ k6 in
    let (same, k8) = refuse_done _ _ _ k7 in
    let up : positive quantity.units ≡ true = not_inv _ (persisted_inv _ not_positive e2) in
    let worth : positive cost.units ≡ true = not_inv _ (persisted_inv _ not_positive e5) in
    let marked : positive mark.units ≡ true = not_inv _ (persisted_inv _ not_positive e6) in
    subst IsHeld (done_inv k8) (record {
      quantity = positive_lt quantity.units up;
      cost = positive_le cost.units worth;
      mark = positive_lt mark.units marked;
    })

-- A position that is persisted as long.
abbrev pub IsLong : (F : Doubles) → PositionSnapshot F → Type 0
IsLong F s = s.position.is_long ≡ true

restore_position-IsLong :
    (F : Doubles) (s : PositionSnapshot F) {state : PositionState}
    → restore_position F s ≡ done state
    → IsLong F s
unfolding restore_position
restore_position-IsLong F s e =
    let (named, k1) = refuse_done _ _ _ e in not_inv _ (neither _ _ named).1

restore_positions-IsLong :
    (F : Doubles) (snapshots : List (PositionSnapshot F)) (before : List (String × PositionState))
    {after : List (String × PositionState)}
    → restore_positions F snapshots before ≡ done after
    → All (IsLong F) snapshots
unfolding restore_positions
restore_positions-IsLong F [] before e = tt
restore_positions-IsLong F (s ∷ rest) before e =
    let (state, e1, k1) = bind_done _ _ e in
    let (fresh, k2) = refuse_done _ _ _ k1 in
    (
      restore_position-IsLong F s e1,
      restore_positions-IsLong F rest (assign s.position.symbol state before) k2,
    )

restore_positions_inv :
    (F : Doubles) (snapshots : List (PositionSnapshot F)) (before : List (String × PositionState))
    {after : List (String × PositionState)}
    → IsDictionary before
    → All (λ e. IsHeld e.1) before
    → restore_positions F snapshots before ≡ done after
    → IsDictionary after × All (λ e. IsHeld e.1) after
unfolding restore_positions
restore_positions_inv F [] before keys held e =
    subst (λ (t : List (String × PositionState)). IsDictionary t × All (λ e. IsHeld e.1) t)
      (done_inv e) (keys, held)
restore_positions_inv F (s ∷ rest) before keys held e =
    let (state, e1, k1) = bind_done _ _ e in
    let (fresh, k2) = refuse_done _ _ _ k1 in
    restore_positions_inv F rest (assign s.position.symbol state before)
      (assign-IsDictionary s.position.symbol state before keys)
      (All-assign IsHeld s.position.symbol state before held (restore_position_inv F s e1)) k2

same_money : (a b : Money) → not (eq_ℤ a.units b.units) ≡ false → a ≡ b
same_money a b h = cc (units (a.units) (b.units) h)
  where
    units : (a b : ℤ) → not (eq_ℤ a b) ≡ false → a ≡ b
    units a b h = ground (arith, eq_of_parts a b)

consistent_inv :
    (F : Doubles) (v : Valuation F) (unrealized equity max_equity : Money) (s : Snapshot F)
    → is_inconsistent F v unrealized equity max_equity s ≡ false
    → (v.unrealized_pnl ≡ unrealized) × (v.total_equity ≡ equity) × (v.max_equity ≡ max_equity)
unfolding is_inconsistent
consistent_inv F v unrealized equity max_equity s e =
    let (l1, d2) = neither _ _ e in
    let (l2, d1) = neither _ _ l1 in
    let (l3, m) = neither _ _ l2 in
    let (u, t) = neither _ _ l3 in
    (
      same_money v.unrealized_pnl unrealized u,
      same_money v.total_equity equity t,
      same_money v.max_equity max_equity m,
    )

-- A snapshot of long positions has become a solvent portfolio.
pub record IsRestored (F : Doubles) (s : Snapshot F) (q : PortfolioManager F) : Type 0 where
  pub solvent : IsSolvent F q
  pub long : All (IsLong F) s.positions

-- A snapshot that restore_state accepts has only long positions, and it leaves a portfolio whose
-- cash and fees are not negative, whose positions are distinct and marked at positive prices, and
-- whose equity, unrealized result and peak agree with its cash and positions.
pub restore_state-IsRestored :
    (F : Doubles) (s : Snapshot F) (p q : PortfolioManager F)
    → restore_state F s p ≡ done q
    → IsRestored F s q
unfolding restore_state
restore_state-IsRestored F s p q e =
    let (cash, e1, k1) = bind_done _ _ e in
    let (unrealized, e2, k2) = bind_done _ _ k1 in
    let (equity, e3, k3) = bind_done _ _ k2 in
    let (max_equity, e4, k4) = bind_done _ _ k3 in
    let (fees, e5, k5) = bind_done _ _ k4 in
    let (positions, e6, k6) = bind_done _ _ k5 in
    let (v, e7, k7) = value_done _ _ _ k6 in
    let (consistent, k8) = refuse_done _ _ _ k7 in
    let w = value_state_inv F _ cash positions e7 in
    let (same_gain, same_equity, same_peak) =
      consistent_inv F v unrealized equity max_equity s consistent in
    let (keys, held) = restore_positions_inv F s.positions [] tt tt e6 in
    let solvent = subst (IsSolvent F) (done_inv k8) (record {
      cash = negative_le cash.units (persisted_inv _ negative e1);
      fees = negative_le fees.units (persisted_inv _ negative e5);
      keys = keys;
      held = held;
      market = w.market;
      worth = subst (λ (t : Money). IsWorth positions w.market t.units) same_gain w.worth;
      equity = ap (λ (t : Money). t.units) (sym same_equity) ∙ w.equity;
      peak =
          subst (λ (t : Money). t.units ≤ℤ max_equity.units) same_equity
            (subst (λ (t : Money). v.total_equity.units ≤ℤ t.units) same_peak w.peak);
    }) in
    record { solvent = solvent; long = restore_positions-IsLong F s.positions [] e6 }
