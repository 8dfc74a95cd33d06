-- ===== src/Portfolio/Calls.antt =====
-- Sequences of calls of a `PortfolioManager` of engine/src/PortfolioManager.cpp. A call that throws leaves
-- the object as it was, since each function computes all that it assigns before it assigns.
use mynyra.Prelude.{ℕ, String, List, [], ◌∷◌, Bool, true, false}
use mynyra.Doubles.{Doubles}
use mynyra.Portfolio.Outcomes.{Outcome, done, thrown}
use mynyra.Portfolio.State.{OrderRecord, PortfolioManager}
use mynyra.Portfolio.Valuing.{update_pnl}
use mynyra.Portfolio.Opening.{open_long, add_to_long}
use mynyra.Portfolio.Closing.{close_position}
use mynyra.Portfolio.Pending.{
  Candle, place_pending_order, cancel_pending_order, evaluate_pending_orders,
}
use mynyra.Portfolio.Snapshots.{Snapshot, restore_state}

pub data Call (F : Doubles) : Type 0 where
  opens : String → F.Double → ℕ → F.Double → F.Double → F.Double → String → Call F
  adds : String → F.Double → F.Double → F.Double → F.Double → String → Call F
  closes : String → F.Double → ℕ → F.Double → String → F.Double → Call F
  marks : String → F.Double → Call F
  places : OrderRecord F → Call F
  cancels : ℕ → Call F
  evaluates : String → Candle F → Call F
  restores : Snapshot F → Call F

unfoldable pub attempt : (F : Doubles) → Call F → PortfolioManager F → Outcome (PortfolioManager F)
attempt F (opens symbol price timestamp fee capital units strategy_id) p =
    open_long F symbol price timestamp fee capital units strategy_id p
attempt F (adds symbol price quantity fee capital strategy_id) p =
    add_to_long F symbol price quantity fee capital strategy_id p
attempt F (closes symbol price timestamp fee strategy_id quantity) p =
    close_position F symbol price timestamp fee strategy_id quantity p
attempt F (marks symbol price) p = update_pnl F symbol price p
attempt F (places order) p = done (place_pending_order F order p).1
attempt F (cancels order_id) p = done (cancel_pending_order F order_id p).1
attempt F (evaluates symbol candle) p = done (evaluate_pending_orders F symbol candle p).1
attempt F (restores snapshot) p = restore_state F snapshot p

-- Whether a call puts a snapshot in place of the state.
abbrev pub is_restore : (F : Doubles) → Call F → Bool
is_restore F (restores snapshot) = true
is_restore F _ = false

unfoldable pub settle :
    (F : Doubles) → PortfolioManager F → Outcome (PortfolioManager F) → PortfolioManager F
settle F p (done q) = q
settle F p (thrown e) = p

unfoldable pub run : (F : Doubles) → List (Call F) → PortfolioManager F → PortfolioManager F
run F [] p = p
run F (call ∷ calls) p = run F calls (settle F p (attempt F call p))
