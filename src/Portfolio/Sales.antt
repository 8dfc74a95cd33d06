-- ===== src/Portfolio/Sales.antt =====
-- What `closePosition` of engine/src/PortfolioManager.cpp does to the account.
use mynyra.Prelude.{
  ◌≡◌, refl, sym, ap, ◌∙◌, inl, inr, Bool, true, false, some, String, List, arith, subst,
  Bool-cases,
}
use mynyra.Prelude.Int.{ℤ, pos, ◌-ℤ◌, ◌≤ℤ◌, ◌<ℤ◌}
use mynyra.Prelude.Dictionary.{assign, remove}
use mynyra.Financial.Units.{Price, Quantity, Money, zero_units}
use mynyra.Financial.Values.{notional, proportional, average_price}
use mynyra.Portfolio.Outcomes.{done, bind_done, refuse_done, value_done, done_inv}
use mynyra.Portfolio.State.{PositionState}
use mynyra.Portfolio.Valuing.{nearest}
use mynyra.Portfolio.Valued.{subtract_inv}
use mynyra.Portfolio.Closing.{Sale, sale_of, reduced, positions_after}
use mynyra.Portfolio.Entries.{negative_le}

-- The amounts of a sale add up.
pub record IsSale (prior : PositionState) (price : Price) (exit_fee : Money) (quantity : Quantity)
    (sale : Sale) : Type 0 where
  pub gross : Money
  pub worth : notional price quantity nearest ≡ some gross
  pub net : sale.net_proceeds.units ≡ gross.units -ℤ exit_fee.units
  pub no_debt : pos 0 ≤ℤ sale.net_proceeds.units
  pub cost :
      proportional prior.cost_basis quantity prior.quantity nearest ≡ some sale.allocated_cost
  pub fee :
      proportional prior.entry_fee quantity prior.quantity nearest ≡ some sale.allocated_entry_fee
  pub result :
      sale.realized_pnl.units
      ≡ ((gross.units -ℤ sale.allocated_cost.units) -ℤ exit_fee.units)
        -ℤ sale.allocated_entry_fee.units

pub sale_of_inv :
    (prior : PositionState) (price : Price) (exit_fee : Money) (quantity : Quantity) {sale : Sale}
    → sale_of prior price exit_fee quantity ≡ done sale
    → IsSale prior price exit_fee quantity sale
unfolding sale_of
sale_of_inv prior price exit_fee quantity e =
    let (gross, e1, k1) = value_done _ _ _ e in
    let (net, e2, k2) = value_done _ _ _ k1 in
    let (no_debt, k3) = refuse_done _ _ _ k2 in
    let (cost, e4, k4) = value_done _ _ _ k3 in
    let (fee, e5, k5) = value_done _ _ _ k4 in
    let (gross_pnl, e6, k6) = value_done _ _ _ k5 in
    let (after_fee, e7, k7) = value_done _ _ _ k6 in
    let (realized, e8, k8) = value_done _ _ _ k7 in
    let (fees, e9, k9) = value_done _ _ _ k8 in
    subst (IsSale prior price exit_fee quantity) (done_inv k9) (record {
      gross = gross;
      worth = e1;
      net = subtract_inv gross exit_fee e2;
      no_debt = negative_le net.units no_debt;
      cost = e4;
      fee = e5;
      result =
          subtract_inv after_fee fee e8
          ∙ ap (λ (t : ℤ). t -ℤ fee.units)
              (subtract_inv gross_pnl exit_fee e7
                ∙ ap (λ (t : ℤ). t -ℤ exit_fee.units) (subtract_inv gross cost e6));
    })

-- The position that is left holds what was not sold, at what was not allocated.
pub record Reduced (prior next : PositionState) (price : Price) (remaining : Quantity) (sale : Sale)
    : Type 0 where
  pub quantity : next.quantity ≡ remaining
  pub cost : next.cost_basis.units ≡ prior.cost_basis.units -ℤ sale.allocated_cost.units
  pub fee : next.entry_fee.units ≡ prior.entry_fee.units -ℤ sale.allocated_entry_fee.units
  pub mark : next.last_mark_price ≡ price
  pub opened_at : next.entry_timestamp ≡ prior.entry_timestamp
  pub no_debt : pos 0 ≤ℤ next.cost_basis.units
  pub some_left : pos 0 <ℤ next.quantity.units

average_price_inv :
    (cost : Money) (quantity : Quantity) {average : Price}
    → average_price cost quantity nearest ≡ some average
    → (pos 0 ≤ℤ cost.units) × (pos 0 <ℤ quantity.units)
unfolding average_price
average_price_inv cost quantity e = ground arith

reduced_inv :
    (price : Price) (remaining : Quantity) (sale : Sale) (prior : PositionState)
    {next : PositionState}
    → reduced price remaining sale prior ≡ done next
    → Reduced prior next price remaining sale
unfolding reduced
reduced_inv price remaining sale prior e =
    let (cost, e1, k1) = value_done _ _ _ e in
    let (fee, e2, k2) = value_done _ _ _ k1 in
    let (average, e3, k3) = value_done _ _ _ k2 in
    let (low, left) = average_price_inv cost remaining e3 in
    subst (λ (t : PositionState). Reduced prior t price remaining sale) (done_inv k3)
      (record {
        quantity = refl;
        cost = subtract_inv prior.cost_basis sale.allocated_cost e1;
        fee = subtract_inv prior.entry_fee sale.allocated_entry_fee e2;
        mark = refl;
        opened_at = refl;
        no_debt = low;
        some_left = left;
      })

-- A sale of all that is held removes the position, and another one reduces it.
pub data Left (symbol : String) (price : Price) (quantity : Quantity) (sale : Sale)
    (prior : PositionState) (before : List (String × PositionState))
    : Bool × List (String × PositionState) → Type 0 where
  sold_out :
      {after : Bool × List (String × PositionState)}
      → quantity.units ≡ prior.quantity.units
      → after ≡ (true, remove symbol before)
      → Left symbol price quantity sale prior before after
  kept :
      {after : Bool × List (String × PositionState)}
      → (next : PositionState) → (remaining : Quantity)
      → remaining.units ≡ prior.quantity.units -ℤ quantity.units
      → Reduced prior next price remaining sale
      → after ≡ (false, assign symbol next before)
      → Left symbol price quantity sale prior before after

no_rest : (a b c : ℤ) → c ≡ a -ℤ b → zero_units c ≡ true → b ≡ a
unfolding ◌-ℤ◌
no_rest a b c e z = ground arith

pub positions_after_inv :
    (symbol : String) (price : Price) (quantity : Quantity) (sale : Sale) (prior : PositionState)
    (before : List (String × PositionState)) {after : Bool × List (String × PositionState)}
    → positions_after symbol price quantity sale prior before ≡ done after
    → Left symbol price quantity sale prior before after
unfolding positions_after
positions_after_inv symbol price quantity sale prior before e =
    let (remaining, e1, k1) = value_done _ _ _ e in
    let rest = subtract_inv prior.quantity quantity e1 in
    elim (Bool-cases (zero_units remaining.units)) [
      | inl all ↦ Left.sold_out (no_rest _ _ _ rest all) (sym (done_inv (rw all at k1)))
      | inr part ↦
          let (next, e2, k2) = bind_done _ _ (rw part at k1) in
          Left.kept next remaining rest (reduced_inv price remaining sale prior e2)
            (sym (done_inv k2))
    ]
