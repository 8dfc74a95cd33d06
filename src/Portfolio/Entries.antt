-- ===== src/Portfolio/Entries.antt =====
-- The position that `openLong` of engine/src/PortfolioManager.cpp opens, and what `addToLong` adds.
use mynyra.Prelude.{
  ℕ, ◌≡◌, refl, inl, inr, true, false, Option, none, some, String, arith, subst, Bool-cases,
}
use mynyra.Prelude.Int.{ℤ, pos, ◌+ℤ◌, ◌≤ℤ◌, ◌<ℤ◌, ltb_ℤ}
use mynyra.Prelude.Dictionary.{find}
use mynyra.Financial.Units.{Price, Quantity, Money, positive, negative}
use mynyra.Financial.Values.{notional}
use mynyra.Financial.Budget.{not_inv}
use mynyra.Doubles.{Doubles}
use mynyra.Portfolio.Outcomes.{done, bind_done, refuse_done, value_done, done_inv}
use mynyra.Portfolio.State.{PositionState, PortfolioManager}
use mynyra.Portfolio.Valuing.{nearest}
use mynyra.Portfolio.Opening.{
  entry_for, explicit_entry, affordable_entry, open_entry, open_long, is_there,
}
use mynyra.Portfolio.Purchases.{
  IsHeld, Purchased, commit_purchase_inv, price_and_fee_inv, Debit, entry_debit_inv,
}

-- What an entry is sized to: a positive quantity, with its debit.
IsSized : Price → Money → Quantity × Money × Money → Type 0
IsSized price fee (quantity, cost, debit) =
    (positive quantity.units ≡ true) × Debit price quantity fee (cost, debit)

explicit_entry_inv :
    (F : Doubles) (units : F.Double) (price : Price) (fee budget : Money)
    {entry : Quantity × Money × Money}
    → explicit_entry F units price fee budget ≡ done entry
    → IsSized price fee entry
unfolding explicit_entry IsSized
explicit_entry_inv F units price fee budget e =
    let (quantity, e1, k1) = value_done _ _ _ e in
    let (up, k2) = refuse_done _ _ _ k1 in
    let (amounts, e3, k3) = bind_done _ _ k2 in
    let (low, k4) = refuse_done _ _ _ k3 in
    subst (IsSized price fee) (done_inv k4) (not_inv _ up, entry_debit_inv price quantity fee e3)

affordable_entry_inv :
    (price : Price) (fee budget : Money) {entry : Quantity × Money × Money}
    → affordable_entry price fee budget ≡ done entry
    → IsSized price fee entry
unfolding affordable_entry IsSized
affordable_entry_inv price fee budget e =
    let (net, e1, k1) = value_done _ _ _ e in
    let (up, k2) = refuse_done _ _ _ k1 in
    let (quantity, e3, k3) = value_done _ _ _ k2 in
    let (some_units, k4) = refuse_done _ _ _ k3 in
    let (amounts, e5, k5) = bind_done _ _ k4 in
    subst (IsSized price fee) (done_inv k5)
      (not_inv _ some_units, entry_debit_inv price quantity fee e5)

entry_for_inv :
    (F : Doubles) (units : F.Double) (price : Price) (fee budget : Money)
    {entry : Quantity × Money × Money}
    → entry_for F units price fee budget ≡ done entry
    → IsSized price fee entry
unfolding entry_for
entry_for_inv F units price fee budget e = elim (Bool-cases (F.lt (F.literal (pos 0) 0) units)) [
  | inl given ↦ explicit_entry_inv F units price fee budget (rw given at e)
  | inr sized ↦ affordable_entry_inv price fee budget (rw sized at e)
]

-- A new position of a positive quantity, bought at its notional and a fee that is not negative, for
-- no more than the cash.
pub record Opened (F : Doubles) (symbol : String) (timestamp : ℕ) (p q : PortfolioManager F)
    : Type 0 where
  pub state : PositionState
  pub debit : Money
  pub fresh : find symbol p.positions ≡ none
  pub bought : Purchased F symbol state debit state.entry_fee p q
  pub cost : notional state.last_mark_price state.quantity nearest ≡ some state.cost_basis
  pub total : debit.units ≡ state.cost_basis.units +ℤ state.entry_fee.units
  pub paid : ltb_ℤ p.cash.units debit.units ≡ false
  pub charged : pos 0 ≤ℤ state.entry_fee.units
  pub held : IsHeld state
  pub opened_at : state.entry_timestamp ≡ timestamp

pub positive_lt : (u : ℤ) → positive u ≡ true → pos 0 <ℤ u
positive_lt u h = ground arith

pub positive_le : (u : ℤ) → positive u ≡ true → pos 0 ≤ℤ u
positive_le u h = ground arith

pub negative_le : (u : ℤ) → negative u ≡ false → pos 0 ≤ℤ u
negative_le u h = ground arith

pub is_there_none {ℓ} : {A : Type ℓ} (o : Option A) → is_there o ≡ false → o ≡ none
is_there_none none h = refl
is_there_none (some a) h = cc

open_entry_inv :
    (F : Doubles) (symbol : String) (timestamp : ℕ) (strategy_id : String) (price : Price)
    (fee : Money) (entry : Quantity × Money × Money) (p : PortfolioManager F)
    {q : PortfolioManager F}
    → find symbol p.positions ≡ none
    → (positive price.units ≡ true) × (negative fee.units ≡ false)
    → IsSized price fee entry
    → open_entry F symbol timestamp strategy_id price fee entry p ≡ done q
    → Opened F symbol timestamp p q
unfolding open_entry IsSized
open_entry_inv F symbol timestamp strategy_id price fee (quantity, cost, debit) p fresh (up, low)
      (some_units, sized) e =
    let (paid, k1) = refuse_done _ _ _ e in
    let (worth, k2) = refuse_done _ _ _ k1 in
    let (average, e3, k3) = value_done _ _ _ k2 in
    record {
      state = record {
        quantity = quantity;
        average_entry_price = average;
        cost_basis = cost;
        last_mark_price = price;
        entry_timestamp = timestamp;
        entry_fee = fee;
        strategy_id = strategy_id;
      };
      debit = debit;
      fresh = fresh;
      bought = commit_purchase_inv F symbol _ debit fee p k3;
      cost = sized.cost;
      total = sized.total;
      paid = paid;
      charged = negative_le fee.units low;
      held = record {
        quantity = positive_lt quantity.units some_units;
        cost = positive_le cost.units (not_inv _ worth);
        mark = positive_lt price.units up;
      };
      opened_at = refl;
    }

pub open_long_lem :
    (F : Doubles) (symbol : String) (net_price : F.Double) (timestamp : ℕ)
    (fee capital_to_commit explicit_units : F.Double) (strategy_id : String)
    (p : PortfolioManager F) {q : PortfolioManager F}
    → open_long F symbol net_price timestamp fee capital_to_commit explicit_units strategy_id p
      ≡ done q
    → Opened F symbol timestamp p q
unfolding open_long
open_long_lem F symbol net_price timestamp fee capital_to_commit explicit_units strategy_id p e =
    let (named, k1) = refuse_done _ _ _ e in
    let (absent, k2) = refuse_done _ _ _ k1 in
    let (signs, k3) = refuse_done _ _ _ k2 in
    let (paid, e4, k4) = bind_done _ _ k3 in
    let (budget, e5, k5) = bind_done _ _ k4 in
    let (entry, e6, k6) = bind_done _ _ k5 in
    open_entry_inv F symbol timestamp strategy_id paid.0 paid.1 entry p (is_there_none _ absent)
      (price_and_fee_inv F net_price fee e4)
      (entry_for_inv F explicit_units paid.0 paid.1 budget e6) k6
