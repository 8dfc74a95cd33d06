-- ===== src/Risk/Halts.antt =====
-- Halts of engine/src/RiskEngine.cpp and what ends them.
use mynyra.Prelude.{
  ℕ, ◌≡◌, refl, Bool, true, false, not, String, Option, none, some, List, [], ◌∷◌, arith, All,
}
use mynyra.Contracts.{OrderSide, OrderIntent, OrderRiskContext}
use mynyra.Doubles.{Doubles}
use mynyra.Risk.Engine.{SystemConfig, RiskEngine, PortfolioView, can_trade, evaluate_side}
use mynyra.Risk.Breakers.{
  set_total_drawdown, set_daily_drawdown, set_system_config, report_latency, report_api_error,
  clear_halt, set_halt_trading, clear_latency_breach, update_live_volatility, scale_limits,
  scale_limits_by,
}
use mynyra.Risk.Snapshots.{Snapshot, can_restore_snapshot, restore_state}
use mynyra.Risk.Returns.{push_equity_return, recompute_var, sync_position}
use mynyra.Risk.Orders.{is_opening}
use mynyra.Risk.Openings.{gate_is_shut, evaluate_opening, evaluate_order}

-- A call that changes the engine. A snapshot is restored only where it may be.
pub data Change (F : Doubles) : Type 0 where
  sets_total_drawdown : F.Double → Change F
  sets_daily_drawdown : F.Double → Change F
  sets_config : Option (SystemConfig F) → Change F
  reports_latency : ℕ → Change F
  reports_error : ℕ → Change F
  clears_halt : Change F
  sets_halt : Bool → Change F
  clears_latency : Change F
  updates_volatility : F.Double → F.Double → Change F
  pushes_return : F.Double → Change F
  syncs : String → F.Double → Change F
  restores : Snapshot F → Change F

abbrev pub restore_unless : (F : Doubles) → Option String → Snapshot F → RiskEngine F → RiskEngine F
restore_unless F none s e = restore_state F s e
restore_unless F (some error) s e = e

unfoldable pub change : (F : Doubles) → Change F → RiskEngine F → RiskEngine F
change F (sets_total_drawdown d) e = set_total_drawdown F d e
change F (sets_daily_drawdown d) e = set_daily_drawdown F d e
change F (sets_config config) e = set_system_config F config e
change F (reports_latency ms) e = report_latency F ms e
change F (reports_error now) e = report_api_error F now e
change F clears_halt e = clear_halt F e
change F (sets_halt b) e = set_halt_trading F b e
change F clears_latency e = clear_latency_breach F e
change F (updates_volatility live baseline) e = update_live_volatility F live baseline e
change F (pushes_return equity) e = push_equity_return F equity e
change F (syncs symbol quantity) e = sync_position F symbol quantity e
change F (restores s) e = restore_unless F (can_restore_snapshot F s e) s e

unfoldable pub changes : (F : Doubles) → List (Change F) → RiskEngine F → RiskEngine F
changes F [] e = e
changes F (x ∷ xs) e = changes F xs (change F x e)

-- The calls that can end a halt.
abbrev pub ends_halt : (F : Doubles) → Change F → Bool
ends_halt F clears_halt = true
ends_halt F (sets_halt b) = not b
ends_halt F (restores s) = not s.halted
ends_halt F _ = false

scaled_halted :
    (F : Doubles) (config : Option (SystemConfig F)) (live baseline : F.Double) (e : RiskEngine F)
    → e.halted ≡ true
    → (scale_limits_by F config live baseline e).halted ≡ true
unfolding scale_limits scale_limits_by
scaled_halted F none live baseline e h = h
scaled_halted F (some config) live baseline e h = ground arith

restored_halted :
    (F : Doubles) (error : Option String) (s : Snapshot F) (e : RiskEngine F)
    → not s.halted ≡ false
    → e.halted ≡ true
    → (restore_unless F error s e).halted ≡ true
unfolding restore_state
restored_halted F none s e n h = ground arith
restored_halted F (some error) s e n h = h

change_halted :
    (F : Doubles) (x : Change F) (e : RiskEngine F)
    → ends_halt F x ≡ false
    → e.halted ≡ true
    → (change F x e).halted ≡ true
unfolding change set_total_drawdown set_daily_drawdown set_system_config report_latency
    report_api_error set_halt_trading clear_latency_breach update_live_volatility push_equity_return
    recompute_var sync_position restore_state
change_halted F (sets_total_drawdown d) e n h = h
change_halted F (sets_daily_drawdown d) e n h = h
change_halted F (sets_config config) e n h = h
change_halted F (reports_latency ms) e n h = ground arith
change_halted F (reports_error now) e n h = ground arith
change_halted F clears_halt e n h = ground arith
change_halted F (sets_halt b) e n h = ground arith
change_halted F clears_latency e n h = h
change_halted F (updates_volatility live baseline) e n h =
    scaled_halted F e.sys_cfg live baseline e h
change_halted F (pushes_return equity) e n h = ground arith
change_halted F (syncs symbol quantity) e n h = ground arith
change_halted F (restores s) e n h = restored_halted F (can_restore_snapshot F s e) s e n h

changes_halted :
    (F : Doubles) (xs : List (Change F)) (e : RiskEngine F)
    → All (λ x. ends_halt F x ≡ false) xs
    → e.halted ≡ true
    → (changes F xs e).halted ≡ true
unfolding changes
changes_halted F [] e n h = h
changes_halted F (x ∷ xs) e (n, ns) h =
    changes_halted F xs (change F x e) ns (change_halted F x e n h)

opening_shut :
    (F : Doubles) (e : RiskEngine F) (intent : OrderIntent) (c : OrderRiskContext)
    → gate_is_shut F e ≡ true
    → (evaluate_opening F e intent c).allowed ≡ false
unfolding evaluate_opening
opening_shut F e intent c h = ground arith

opening_refused :
    (F : Doubles) (e : RiskEngine F) (intent : OrderIntent) (c : OrderRiskContext)
    → is_opening intent ≡ true
    → e.halted ≡ true
    → (evaluate_order F e intent c).allowed ≡ false
unfolding evaluate_order gate_is_shut
opening_refused F e intent c o h =
    let shut : gate_is_shut F e ≡ true = rw h refl in
    let refused = opening_shut F e intent c shut in rw o (ground arith)

-- A halted engine stays shut through any changes other than clear_halt, set_halt_trading false and
-- a restored snapshot that is not halted: can_trade is false, a buy is refused, and so is every
-- intent that opens a position.
pub halt_holds :
    (F : Doubles) (xs : List (Change F)) (e : RiskEngine F) (portfolio : PortfolioView F)
    (intent : OrderIntent) (c : OrderRiskContext)
    → All (λ x. ends_halt F x ≡ false) xs
    → e.halted ≡ true
    → is_opening intent ≡ true
    → (can_trade F portfolio (changes F xs e) ≡ false)
      × ((evaluate_side F portfolio (changes F xs e) OrderSide.buy).allowed ≡ false)
      × ((evaluate_order F (changes F xs e) intent c).allowed ≡ false)
unfolding can_trade evaluate_side
halt_holds F xs e portfolio intent c n h o =
    let halted = changes_halted F xs e n h in
    (rw halted refl, rw halted refl, opening_refused F (changes F xs e) intent c o halted)
