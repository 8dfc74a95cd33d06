-- ===== src/Risk/Snapshots.antt =====
-- The snapshots of engine/src/RiskEngine.cpp.
use mynyra.Prelude.{
  ℕ, Bool, not, ◌||◌, String, Option, none, some, List, [], ltb, ◌==◌, if◌then◌else◌,
}
use mynyra.Doubles.{Doubles}
use mynyra.Risk.Engine.{AssetReturnState, RiskEngine}

pub record Snapshot (F : Doubles) : Type 0 where
  pub configured_max_positions : ℕ
  pub configured_var_limit : F.Double
  pub configured_var_window : ℕ
  pub total_drawdown : F.Double
  pub daily_drawdown : F.Double
  pub prev_equity : F.Double
  pub prev_equity_valid : Bool
  pub return_window : List F.Double
  pub current_var_95 : F.Double
  pub return_std_dev : F.Double
  pub asset_states : List (String × AssetReturnState F)
  pub covariance_matrix : List F.Double
  pub asset_order : List String
  pub multi_asset_mode : Bool
  pub close_only : Bool
  pub last_latency_ms : ℕ
  pub halted : Bool
  pub synced_positions : List (String × F.Double)
  pub effective_max_positions : ℕ
  pub effective_var_limit : F.Double
  pub volatility_scaled : Bool

unfoldable pub snapshot_state : (F : Doubles) → RiskEngine F → Snapshot F
snapshot_state F e = record {
  configured_max_positions = e.max_concurrent_positions;
  configured_var_limit = e.var_limit_fraction;
  configured_var_window = e.var_window;
  total_drawdown = e.total_drawdown;
  daily_drawdown = e.daily_drawdown;
  prev_equity = e.prev_equity;
  prev_equity_valid = e.prev_equity_valid;
  return_window = e.return_window;
  current_var_95 = e.current_var_95;
  return_std_dev = e.return_std_dev;
  asset_states = e.asset_states;
  covariance_matrix = e.cov_matrix;
  asset_order = e.asset_order;
  multi_asset_mode = e.multi_asset_mode;
  close_only = e.close_only;
  last_latency_ms = e.last_latency_ms;
  halted = e.halted;
  synced_positions = e.synced_positions;
  effective_max_positions = e.effective_max_positions;
  effective_var_limit = e.effective_var_limit;
  volatility_scaled = e.volatility_scaled;
}

-- The error text of a refusal; `none` is a snapshot that may be restored.
unfoldable pub can_restore_snapshot : (F : Doubles) → Snapshot F → RiskEngine F → Option String
can_restore_snapshot F s e =
    if not (s.configured_max_positions == e.max_concurrent_positions)
      || not (F.eq s.configured_var_limit e.var_limit_fraction)
      || not (s.configured_var_window == e.var_window)
    then some "snapshot risk configuration does not match runtime"
    else if ltb e.max_concurrent_positions s.effective_max_positions
        || F.lt e.var_limit_fraction s.effective_var_limit
    then some "snapshot would widen an effective risk limit"
    else none

unfoldable pub restore_state : (F : Doubles) → Snapshot F → RiskEngine F → RiskEngine F
restore_state F s e = record e {
  total_drawdown = s.total_drawdown;
  daily_drawdown = s.daily_drawdown;
  prev_equity = s.prev_equity;
  prev_equity_valid = s.prev_equity_valid;
  return_window = s.return_window;
  current_var_95 = s.current_var_95;
  return_std_dev = s.return_std_dev;
  asset_states = s.asset_states;
  cov_matrix = s.covariance_matrix;
  asset_order = s.asset_order;
  multi_asset_mode = s.multi_asset_mode;
  close_only = s.close_only;
  last_latency_ms = s.last_latency_ms;
  halted = s.halted;
  synced_positions = s.synced_positions;
  effective_max_positions = s.effective_max_positions;
  effective_var_limit = s.effective_var_limit;
  volatility_scaled = s.volatility_scaled;
  error_timestamps = [];
}
