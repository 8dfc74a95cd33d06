-- ===== src/Portfolio/Holdings.antt =====
-- What a sale of engine/src/PortfolioManager.cpp leaves in the map of positions.
use mynyra.Prelude.{
  ◌≡◌, ap, ◌∙◌, ◌⊎◌, inl, inr, Bool, false, none, some, String, List, ℕ, if◌then◌else◌, str_eq,
  str_eq_refl,
}
use mynyra.Prelude.Int.{pos, ◌+ℤ◌, ◌-ℤ◌, ◌≤ℤ◌, ◌<ℤ◌}
use mynyra.Prelude.Dictionary.{
  find, IsDictionary, find-assign, find-remove, find-remove_other, All-find,
}
use mynyra.Financial.Units.{Price, Quantity}
use mynyra.Doubles.{Doubles}
use mynyra.Portfolio.Outcomes.{done}
use mynyra.Portfolio.State.{PositionState, PortfolioManager}
use mynyra.Portfolio.Closing.{Sale, close_position}
use mynyra.Portfolio.Purchases.{IsHeld, IsSolvent}
use mynyra.Portfolio.Sales.{Left, sold_out, kept}
use mynyra.Portfolio.Closings.{close_held_lem}

-- Either all was sold, and the symbol and a round trip are done, or the rest is still held.
abbrev pub Rest :
    (F : Doubles)
    → String
    → PositionState
    → Quantity
    → PortfolioManager F
    → PortfolioManager F
    → Type 0
Rest F symbol prior quantity p q =
    ((quantity.units ≡ prior.quantity.units)
      × (find symbol q.positions ≡ none)
      × (q.round_trip_count ≡ p.round_trip_count +ℤ pos 1))
    ⊎ ((next : PositionState) × (find symbol q.positions ≡ some next)
        × (next.quantity.units ≡ prior.quantity.units -ℤ quantity.units)
        × (pos 0 <ℤ next.quantity.units)
        × (next.entry_timestamp ≡ prior.entry_timestamp)
        × (q.round_trip_count ≡ p.round_trip_count))

pub record Sold (F : Doubles) (symbol : String) (prior : PositionState) (p q : PortfolioManager F)
    : Type 0 where
  pub quantity : Quantity
  pub some_sold : pos 0 <ℤ quantity.units
  pub not_short : quantity.units ≤ℤ prior.quantity.units
  pub others :
      (other : String)
      → str_eq other symbol ≡ false
      → find other q.positions ≡ find other p.positions
  pub rest : Rest F symbol prior quantity p q
  pub trades : q.trade_count ≡ p.trade_count +ℤ pos 1

module _ {symbol : String} {price : Price} {quantity : Quantity} {sale : Sale}
    {prior : PositionState} {before : List (String × PositionState)}
    {after : Bool × List (String × PositionState)} where
  Left-others :
      Left symbol price quantity sale prior before after
      → (other : String) → str_eq other symbol ≡ false
      → find other after.1 ≡ find other before
  Left-others (sold_out all e) other ne =
      ap (λ (t : Bool × List (String × PositionState)). find other t.1) e
      ∙ find-remove_other symbol other before ne
  Left-others (kept next remaining rest less e) other ne =
      ap (λ (t : Bool × List (String × PositionState)). find other t.1) e
      ∙ find-assign symbol other next before
      ∙ rw ne

Left-Rest :
    (F : Doubles) (symbol : String) (price : Price) (quantity : Quantity) (sale : Sale)
    (prior : PositionState) (p q : PortfolioManager F) (closed : Bool)
    → IsDictionary p.positions
    → q.round_trip_count ≡ (if closed then p.round_trip_count +ℤ pos 1 else p.round_trip_count)
    → Left symbol price quantity sale prior p.positions (closed, q.positions)
    → Rest F symbol prior quantity p q
Left-Rest F symbol price quantity sale prior p q closed keys trips (sold_out all e) = inl (
  all,
  ap (λ (t : Bool × List (String × PositionState)). find symbol t.1) e
      ∙ find-remove symbol p.positions keys,
  trips
      ∙ ap
          (λ (t : Bool × List (String × PositionState)).
            if t.0 then p.round_trip_count +ℤ pos 1 else p.round_trip_count)
          e,
)
Left-Rest F symbol price quantity sale prior p q closed keys trips
      (kept next remaining rest less e) =
    inr (
      next,
      ap (λ (t : Bool × List (String × PositionState)). find symbol t.1) e
          ∙ find-assign symbol symbol next p.positions
          ∙ rw (str_eq_refl symbol),
      ap (λ (t : Quantity). t.units) less.quantity ∙ rest,
      less.some_left,
      less.opened_at,
      trips
          ∙ ap
              (λ (t : Bool × List (String × PositionState)).
                if t.0 then p.round_trip_count +ℤ pos 1 else p.round_trip_count)
              e,
    )

-- On a solvent portfolio a close_position that succeeds on a held position sells a positive
-- quantity of at most what is held and counts one trade; every other symbol is as it was; and
-- either all was sold, the symbol has no position and one more round trip is counted, or the
-- position is held with exactly the rest, which is positive, its entry time unchanged and no round
-- trip counted.
pub close_position_lem :
    (F : Doubles) (symbol : String) (net_price : F.Double) (timestamp : ℕ) (fee : F.Double)
    (strategy_id : String) (quantity : F.Double) (prior : PositionState) (p q : PortfolioManager F)
    → IsSolvent F p
    → find symbol p.positions ≡ some prior
    → close_position F symbol net_price timestamp fee strategy_id quantity p ≡ done q
    → Sold F symbol prior p q
unfolding close_position
close_position_lem F symbol net_price timestamp fee strategy_id quantity prior p q s there e =
    let c =
      close_held_lem F symbol net_price timestamp fee strategy_id quantity prior p
        (rw there at e) in
    let held : IsHeld prior = All-find IsHeld symbol p.positions s.held there in
    record {
      quantity = c.quantity;
      some_sold = (c.within held.quantity).0;
      not_short = (c.within held.quantity).1;
      others = Left-others c.left;
      rest =
          Left-Rest F symbol c.price c.quantity c.sale prior p q c.closed s.keys c.round_trips
            c.left;
      trades = c.trades;
    }
