-- ===== src/Risk/Restoring.antt =====
-- Snapshots of engine/src/RiskEngine.cpp, and the position cap that they may not widen.
use mynyra.Prelude.{ℕ, ◌≤◌, ◌<◌, ◌≡◌, refl, false, String, Option, none, some, List, [], ◌∷◌, arith}
use mynyra.Doubles.{Doubles}
use mynyra.Risk.Engine.{SystemConfig, RiskEngine, PortfolioView, new_engine, can_trade}
use mynyra.Risk.Breakers.{
  set_total_drawdown, set_daily_drawdown, set_system_config, report_latency, report_api_error,
  clear_halt, set_halt_trading, clear_latency_breach, update_live_volatility, scale_limits,
  scale_limits_by,
}
use mynyra.Risk.Returns.{push_equity_return, recompute_var, sync_position}
use mynyra.Risk.Snapshots.{Snapshot, can_restore_snapshot, restore_state}
use mynyra.Risk.Halts.{
  Change, sets_total_drawdown, sets_daily_drawdown, sets_config, reports_latency, reports_error,
  clears_halt, sets_halt, clears_latency, updates_volatility, pushes_return, syncs, restores,
  restore_unless, change, changes,
}

-- The configured cap stands, and the effective one is at most it.
abbrev pub IsCapped : (F : Doubles) → ℕ → RiskEngine F → Type 0
IsCapped F cap e = (e.max_concurrent_positions ≡ cap) × (e.effective_max_positions ≤ cap)

scaled-IsCapped :
    (F : Doubles) (cap : ℕ) (config : Option (SystemConfig F)) (live baseline : F.Double)
    (e : RiskEngine F)
    → 0 < cap
    → IsCapped F cap e
    → IsCapped F cap (scale_limits_by F config live baseline e)
unfolding scale_limits scale_limits_by
scaled-IsCapped F cap none live baseline e p h = h
scaled-IsCapped F cap (some config) live baseline e p h = ground arith

restored-IsCapped :
    (F : Doubles) (cap : ℕ) (o : Option String) (s : Snapshot F) (e : RiskEngine F)
    → can_restore_snapshot F s e ≡ o
    → IsCapped F cap e
    → IsCapped F cap (restore_unless F o s e)
unfolding restore_state can_restore_snapshot
restored-IsCapped F cap none s e r h = ground arith
restored-IsCapped F cap (some error) s e r h = h

change-IsCapped :
    (F : Doubles) (cap : ℕ) (x : Change F) (e : RiskEngine F)
    → 0 < cap
    → IsCapped F cap e
    → IsCapped F cap (change F x e)
unfolding change set_total_drawdown set_daily_drawdown set_system_config report_latency
    report_api_error clear_halt set_halt_trading clear_latency_breach update_live_volatility
    push_equity_return recompute_var sync_position
change-IsCapped F cap (sets_total_drawdown d) e p h = h
change-IsCapped F cap (sets_daily_drawdown d) e p h = h
change-IsCapped F cap (sets_config config) e p h = ground arith
change-IsCapped F cap (reports_latency ms) e p h = ground arith
change-IsCapped F cap (reports_error now) e p h = ground arith
change-IsCapped F cap clears_halt e p h = h
change-IsCapped F cap (sets_halt b) e p h = h
change-IsCapped F cap clears_latency e p h = h
change-IsCapped F cap (updates_volatility live baseline) e p h =
    scaled-IsCapped F cap e.sys_cfg live baseline e p h
change-IsCapped F cap (pushes_return equity) e p h = ground arith
change-IsCapped F cap (syncs symbol quantity) e p h = ground arith
change-IsCapped F cap (restores s) e p h =
    restored-IsCapped F cap (can_restore_snapshot F s e) s e refl h

changes-IsCapped :
    (F : Doubles) (cap : ℕ) (xs : List (Change F)) (e : RiskEngine F)
    → 0 < cap
    → IsCapped F cap e
    → IsCapped F cap (changes F xs e)
unfolding changes
changes-IsCapped F cap [] e p h = h
changes-IsCapped F cap (x ∷ xs) e p h =
    changes-IsCapped F cap xs (change F x e) p (change-IsCapped F cap x e p h)

shut_at_cap :
    (F : Doubles) (cap : ℕ) (portfolio : PortfolioView F) (e : RiskEngine F)
    → 0 < cap
    → IsCapped F cap e
    → cap ≤ portfolio.open_position_count
    → can_trade F portfolio e ≡ false
unfolding can_trade
shut_at_cap F cap portfolio e p h full = ground arith

-- A new engine with a configured cap of at least 1 never trades with that many positions open,
-- after any changes, volatility scaling and restored snapshots included.
pub cap_holds :
    (F : Doubles) (cap : ℕ) (limit : F.Double) (window : ℕ) (xs : List (Change F))
    (portfolio : PortfolioView F)
    → 0 < cap
    → cap ≤ portfolio.open_position_count
    → can_trade F portfolio (changes F xs (new_engine F cap limit window)) ≡ false
cap_holds F cap limit window xs portfolio p full =
    shut_at_cap F cap portfolio (changes F xs (new_engine F cap limit window)) p
      (changes-IsCapped F cap xs (new_engine F cap limit window) p (ground arith)) full
