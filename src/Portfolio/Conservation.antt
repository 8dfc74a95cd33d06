-- ===== src/Portfolio/Conservation.antt =====
-- The book value under the calls of engine/src/PortfolioManager.cpp: only a sale changes it, by what the
-- sale realizes.
use mathlib.Core.Path.{ap₂}
use mathlib.Core.Option.{some-injective}
use mynyra.Prelude.{
  ℕ, ◌≡◌, refl, sym, ap, ◌∙◌, inl, inr, Bool, true, false, ◌||◌, Option, none, some, String, List,
  [], ◌∷◌, ◌++◌, Bool-cases, Option-cases, ◌==◌,
}
use mynyra.Prelude.Int.{ℤ, pos, ◌+ℤ◌, ◌-ℤ◌, ◌<ℤ◌, IsInt64, int_laws}
use mynyra.Prelude.Dictionary.{find}
use mynyra.Financial.Units.{Price, Money, Quantity}
use mynyra.Financial.Values.{proportional}
use mynyra.Doubles.{Doubles}
use mynyra.Portfolio.Outcomes.{done, done_inv}
use mynyra.Portfolio.State.{PositionState, OrderRecord, TradeRecord, PortfolioManager, value_double}
use mynyra.Portfolio.Valuing.{nearest, update_pnl, marked_at}
use mynyra.Portfolio.Opening.{add_to_long, budget_or_cost}
use mynyra.Portfolio.Closing.{Sale, close_position}
use mynyra.Portfolio.Pending.{
  place_pending_order, append_pending, cancel_pending_order, set_pending, evaluate_pending_orders,
  normalized_order, erase_order, is_refused, max_order_id,
}
use mynyra.Portfolio.Books.{
  paid_for, invested, book_value, invested-assign_new, invested-assign_old, invested-remove,
  proportional_whole,
}
use mynyra.Portfolio.Entries.{open_long_lem, Opened}
use mynyra.Portfolio.Additions.{add_to_position_lem, Added}
use mynyra.Portfolio.Sales.{Left, sold_out, kept, IsSale}
use mynyra.Portfolio.Closings.{close_held_lem}
use mynyra.Portfolio.Solvency.{update_position_lem, Marked}
use mynyra.Portfolio.Calls.{
  Call, opens, adds, closes, marks, places, cancels, evaluates, restores, is_restore, attempt,
}

spent :
    (cash cash' debit cost fee before after : ℤ)
    → cash' ≡ cash -ℤ debit
    → debit ≡ cost +ℤ fee
    → after ≡ (cost +ℤ fee) +ℤ before
    → cash' +ℤ after ≡ cash +ℤ before
spent cash cash' debit cost fee before after p q r = grind (int_laws, p, q, r)

added_in : (a b bs fs c f : ℤ) → a +ℤ (bs +ℤ fs) ≡ b +ℤ ((bs +ℤ c) +ℤ (fs +ℤ f)) → a ≡ (c +ℤ f) +ℤ b
added_in a b bs fs c f h = grind (int_laws, h)

left_over :
    (a b c f r net gross alloc share exit : ℤ)
    → a +ℤ (c +ℤ f) ≡ b +ℤ ((c -ℤ alloc) +ℤ (f -ℤ share))
    → net ≡ gross -ℤ exit
    → r ≡ ((gross -ℤ alloc) -ℤ exit) -ℤ share
    → net +ℤ a ≡ b +ℤ r
left_over a b c f r net gross alloc share exit h p q = grind (int_laws, h, p, q)

add_assoc_ℤ : (a b c : ℤ) → (a +ℤ b) +ℤ c ≡ a +ℤ (b +ℤ c)
add_assoc_ℤ a b c = grind int_laws

all_gone :
    (a b c f r net gross exit : ℤ)
    → a +ℤ (c +ℤ f) ≡ b
    → net ≡ gross -ℤ exit
    → r ≡ ((gross -ℤ c) -ℤ exit) -ℤ f
    → net +ℤ a ≡ b +ℤ r
all_gone a b c f r net gross exit h p q = grind (int_laws, h, p, q)

cancel : (a b c : ℤ) → a +ℤ c ≡ b +ℤ c → a ≡ b
cancel a b c h = grind (int_laws, h)

same_units : (a b : Quantity) → a.units ≡ b.units → a ≡ b
same_units a b h = cc

module _ (F : Doubles) where
  Opened-book :
      {symbol : String} {timestamp : ℕ} {p q : PortfolioManager F}
      → Opened F symbol timestamp p q
      → book_value F q ≡ book_value F p
  Opened-book {symbol} {timestamp} {p} {q} o =
      spent p.cash.units q.cash.units o.debit.units o.state.cost_basis.units o.state.entry_fee.units
        (invested p.positions) (invested q.positions) o.bought.cash o.total
        (ap invested o.bought.positions ∙ invested-assign_new symbol o.state p.positions o.fresh)

  Added-book :
      {symbol : String} {state : PositionState} {p q : PortfolioManager F}
      → find symbol p.positions ≡ some state
      → Added F symbol state p q
      → book_value F q ≡ book_value F p
  Added-book {symbol} {state} {p} {q} there a =
      let grown : invested q.positions +ℤ paid_for state ≡ invested p.positions +ℤ paid_for a.next =
        ap (λ (t : List (String × PositionState)). invested t +ℤ paid_for state) a.bought.positions
        ∙ invested-assign_old symbol a.next state p.positions there in
      let sums : paid_for a.next
          ≡ (state.cost_basis.units +ℤ a.cost.units) +ℤ (state.entry_fee.units +ℤ a.fee.units) =
        ap₂ (◌+ℤ◌) a.increased.cost_basis a.increased.entry_fee in
      spent p.cash.units q.cash.units a.debit.units a.cost.units a.fee.units (invested p.positions)
        (invested q.positions) a.bought.cash a.total
        (added_in (invested q.positions) (invested p.positions) state.cost_basis.units
          state.entry_fee.units a.cost.units a.fee.units
          (grown ∙ ap (λ (t : ℤ). invested p.positions +ℤ t) sums))

  Marked-book :
      {symbol : String} {state : PositionState} {p q : PortfolioManager F}
      → find symbol p.positions ≡ some state
      → Marked F symbol state p q
      → book_value F q ≡ book_value F p
  Marked-book {symbol} {state} {p} {q} there m =
      ap₂ (λ (c : Money) (t : ℤ). c.units +ℤ t) m.cash
        (cancel (invested q.positions) (invested p.positions) (paid_for state) (
          ap (λ (t : List (String × PositionState)). invested t +ℤ paid_for state) m.positions
          ∙ invested-assign_old symbol (marked_at m.mark state) state p.positions there))

  append_pending-book :
      (o : Option (OrderRecord F)) (p : PortfolioManager F)
      → book_value F (append_pending F o p).1 ≡ book_value F p
  append_pending-book none p = refl
  append_pending-book (some order) p = refl

  set_pending-book :
      (o : Option (List (OrderRecord F))) (p : PortfolioManager F)
      → book_value F (set_pending F o p).1 ≡ book_value F p
  set_pending-book none p = refl
  set_pending-book (some orders) p = refl

  place_pending_order-book :
      (order : OrderRecord F) (p : PortfolioManager F)
      → book_value F (place_pending_order F order p).1 ≡ book_value F p
  unfolding place_pending_order
  place_pending_order-book order p =
      elim (Bool-cases (is_refused F order || p.next_order_id == max_order_id)) [
        | inl no_room ↦ rw no_room
        | inr room ↦ rw room (append_pending-book (normalized_order F p.next_order_id order) p)
      ]

  add_to_long-book :
      (symbol : String) (net_price quantity fee capital : F.Double) (strategy_id : String)
      (p : PortfolioManager F) {q : PortfolioManager F}
      → add_to_long F symbol net_price quantity fee capital strategy_id p ≡ done q
      → book_value F q ≡ book_value F p
  unfolding add_to_long
  add_to_long-book symbol net_price quantity fee capital strategy_id p e =
      elim (Option-cases (find symbol p.positions)) [
        | inl absent ↦ Opened-book (
            open_long_lem F symbol net_price 0 fee (budget_or_cost F capital quantity net_price fee)
              quantity strategy_id p (rw absent at e))
        | inr (state, there) ↦ Added-book there (
            add_to_position_lem F symbol net_price quantity fee capital strategy_id state p
              (rw there at e))
      ]

  update_pnl-book :
      (symbol : String) (price : F.Double) (p : PortfolioManager F) {q : PortfolioManager F}
      → update_pnl F symbol price p ≡ done q
      → book_value F q ≡ book_value F p
  unfolding update_pnl
  update_pnl-book symbol price p e = elim (Option-cases (find symbol p.positions)) [
    | inl absent ↦ ap (book_value F) (sym (done_inv (rw absent at e)))
    | inr (state, there) ↦
        Marked-book there (update_position_lem F symbol price state p (rw there at e))
  ]

  abbrev pub is_sale : Call F → Bool
  is_sale (closes symbol price timestamp fee strategy_id quantity) = true
  is_sale _ = false

  -- Every call other than close_position and restore_state that succeeds leaves the book value,
  -- the cash plus the cost and the entry fees of what is held, exactly as it was.
  pub attempt-keeps_book :
      (call : Call F) (p q : PortfolioManager F)
      → is_sale call ≡ false
      → is_restore F call ≡ false
      → attempt F call p ≡ done q
      → book_value F q ≡ book_value F p
  unfolding attempt cancel_pending_order evaluate_pending_orders
  attempt-keeps_book (opens symbol price timestamp fee capital units strategy_id) p q h n e =
      Opened-book (open_long_lem F symbol price timestamp fee capital units strategy_id p e)
  attempt-keeps_book (adds symbol price quantity fee capital strategy_id) p q h n e =
      add_to_long-book symbol price quantity fee capital strategy_id p e
  attempt-keeps_book (closes symbol price timestamp fee strategy_id quantity) p q h n e = cc
  attempt-keeps_book (marks symbol price) p q h n e = update_pnl-book symbol price p e
  attempt-keeps_book (places order) p q h n e =
      ap (book_value F) (sym (done_inv e)) ∙ place_pending_order-book order p
  attempt-keeps_book (cancels order_id) p q h n e =
      ap (book_value F) (sym (done_inv e))
      ∙ set_pending-book (erase_order F order_id p.pending_orders) p
  attempt-keeps_book (evaluates symbol candle) p q h n e = ap (book_value F) (sym (done_inv e))
  attempt-keeps_book (restores snapshot) p q h n e = cc

  -- The amounts of a position fit the 64-bit types that hold them.
  pub record IsNarrow (s : PositionState) : Type 0 where
    pub quantity : IsInt64 s.quantity.units
    pub cost : IsInt64 s.cost_basis.units
    pub fee : IsInt64 s.entry_fee.units

  Left-book :
      {symbol : String} {price : Price} {exit_fee : Money} {quantity : Quantity} {sale : Sale}
      {prior : PositionState} {before : List (String × PositionState)}
      {after : Bool × List (String × PositionState)}
      → Left symbol price quantity sale prior before after
      → IsSale prior price exit_fee quantity sale
      → find symbol before ≡ some prior
      → IsNarrow prior
      → pos 0 <ℤ prior.quantity.units
      → sale.net_proceeds.units +ℤ invested after.1 ≡ invested before +ℤ sale.realized_pnl.units
  Left-book {symbol} {price} {exit_fee} {quantity} {sale} {prior} {before} {after} (sold_out all e)
        s there n up =
      let whole : quantity ≡ prior.quantity = same_units quantity prior.quantity all in
      let cost : prior.cost_basis ≡ sale.allocated_cost = some-injective _ _ (
        sym (proportional_whole prior.cost_basis prior.quantity n.cost n.quantity up)
        ∙ ap (λ (t : Quantity). proportional prior.cost_basis t prior.quantity nearest) (sym whole)
        ∙ s.cost) in
      let fee : prior.entry_fee ≡ sale.allocated_entry_fee = some-injective _ _ (
        sym (proportional_whole prior.entry_fee prior.quantity n.fee n.quantity up)
        ∙ ap (λ (t : Quantity). proportional prior.entry_fee t prior.quantity nearest) (sym whole)
        ∙ s.fee) in
      all_gone (invested after.1) (invested before) prior.cost_basis.units prior.entry_fee.units
        sale.realized_pnl.units sale.net_proceeds.units s.gross.units exit_fee.units
        (ap (λ (t : Bool × List (String × PositionState)). invested t.1 +ℤ paid_for prior) e
          ∙ invested-remove symbol prior before there)
        s.net
        (s.result
          ∙ ap₂ (λ (c f : Money). ((s.gross.units -ℤ c.units) -ℤ exit_fee.units) -ℤ f.units)
              (sym cost) (sym fee))
  Left-book {symbol} {price} {exit_fee} {quantity} {sale} {prior} {before} {after}
        (kept next remaining rest less e) s there n up =
      left_over (invested after.1) (invested before) prior.cost_basis.units prior.entry_fee.units
        sale.realized_pnl.units sale.net_proceeds.units s.gross.units sale.allocated_cost.units
        sale.allocated_entry_fee.units exit_fee.units
        (ap (λ (t : Bool × List (String × PositionState)). invested t.1 +ℤ paid_for prior) e
          ∙ invested-assign_old symbol next prior before there
          ∙ ap (λ (t : ℤ). invested before +ℤ t) (ap₂ (◌+ℤ◌) less.cost less.fee))
        s.net s.result

  -- A sale that is booked: the trade that it logs realizes what the book value changes by.
  pub record Realized (p q : PortfolioManager F) : Type 0 where
    pub sale : Sale
    pub trade : TradeRecord F
    pub logged : q.trade_log ≡ p.trade_log ++ trade ∷ []
    pub result : trade.realized_pnl ≡ value_double F sale.realized_pnl
    pub change : book_value F q ≡ book_value F p +ℤ sale.realized_pnl.units

  -- A close_position that succeeds on a held position, of positive quantity and with amounts that
  -- fit 64 bits, adds one trade to the log, and the book value (the cash plus the cost and the
  -- entry fees of what is held) changes by exactly the realized result that this trade reports,
  -- whether a part or all of the position is sold.
  pub close_position-realizes :
      (symbol : String) (net_price : F.Double) (timestamp : ℕ) (fee : F.Double)
      (strategy_id : String) (quantity : F.Double) (prior : PositionState)
      (p q : PortfolioManager F)
      → find symbol p.positions ≡ some prior
      → IsNarrow prior
      → pos 0 <ℤ prior.quantity.units
      → close_position F symbol net_price timestamp fee strategy_id quantity p ≡ done q
      → Realized p q
  unfolding close_position
  close_position-realizes symbol net_price timestamp fee strategy_id quantity prior p q there n up
        e =
      let c =
        close_held_lem F symbol net_price timestamp fee strategy_id quantity prior p
          (rw there at e) in
      record {
        sale = c.sale;
        trade = c.trade;
        logged = c.logged;
        result = c.realized;
        change =
            ap (λ (t : ℤ). t +ℤ invested q.positions) c.cash
            ∙ add_assoc_ℤ p.cash.units c.sale.net_proceeds.units (invested q.positions)
            ∙ ap (λ (t : ℤ). p.cash.units +ℤ t) (Left-book c.left c.sold there n up)
            ∙ sym (add_assoc_ℤ p.cash.units (invested p.positions) c.sale.realized_pnl.units);
      }
