-- ===== src/Risk/Breakers.antt =====
-- The circuit breakers, limits and snapshots of engine/src/RiskEngine.cpp.
use mynyra.Prelude.{
  ℕ, ◌+◌, ◌/◌, ◌%◌, ◌^◌, Bool, true, false, not, ◌&&◌, Option, none, some, List, [], ◌∷◌, ◌++◌,
  length, ltb, if◌then◌else◌,
}
use mynyra.Doubles.{Doubles, zero_double}
use mynyra.Risk.Engine.{SystemConfig, RiskEngine}

unfoldable pub set_total_drawdown : (F : Doubles) → F.Double → RiskEngine F → RiskEngine F
set_total_drawdown F drawdown e = record e { total_drawdown = drawdown }

unfoldable pub set_daily_drawdown : (F : Doubles) → F.Double → RiskEngine F → RiskEngine F
set_daily_drawdown F drawdown e = record e { daily_drawdown = drawdown }

unfoldable pub set_system_config :
    (F : Doubles) → Option (SystemConfig F) → RiskEngine F → RiskEngine F
set_system_config F config e = record e {
  sys_cfg = config;
  effective_max_positions = e.max_concurrent_positions;
  effective_var_limit = e.var_limit_fraction;
}

abbrev pub latency_threshold : (F : Doubles) → Option (SystemConfig F) → ℕ
latency_threshold F none = 500
latency_threshold F (some config) = config.latency_max_ms

unfoldable pub report_latency : (F : Doubles) → ℕ → RiskEngine F → RiskEngine F
report_latency F latency e =
    let recorded = record e { last_latency_ms = latency } in
    if ltb (latency_threshold F e.sys_cfg) latency
    then record recorded { close_only = true }
    else recorded

abbrev pub error_threshold : (F : Doubles) → Option (SystemConfig F) → ℕ
error_threshold F none = 5
error_threshold F (some config) = config.error_rate_thresh

-- The loop that drops the events of more than 60 seconds ago from the front.
unfoldable pub evict : ℕ → List ℕ → List ℕ
evict now [] = []
evict now (time ∷ times) = elim (ltb (time + 60_000_000_000) now) [
  | true ↦ evict now times
  | false ↦ time ∷ times
]

unfoldable pub report_api_error : (F : Doubles) → ℕ → RiskEngine F → RiskEngine F
report_api_error F now e =
    let times = evict now (e.error_timestamps ++ (now ∷ [])) in
    let rate = length times % 2 ^ 32 in
    let recorded = record e { error_timestamps = times } in
    if ltb (error_threshold F e.sys_cfg) rate && not e.halted
    then record recorded { halted = true }
    else recorded

unfoldable pub clear_halt : (F : Doubles) → RiskEngine F → RiskEngine F
clear_halt F e = record e { halted = false; error_timestamps = [] }

unfoldable pub set_halt_trading : (F : Doubles) → Bool → RiskEngine F → RiskEngine F
set_halt_trading F halt e = record e { halted = halt }

unfoldable pub clear_latency_breach : (F : Doubles) → RiskEngine F → RiskEngine F
clear_latency_breach F e = record e { close_only = false }

abbrev pub max_ℕ : ℕ → ℕ → ℕ
max_ℕ a b = if ltb a b then b else a

-- The limits after a new ratio of volatility.
unfoldable pub scale_limits :
    (F : Doubles) → SystemConfig F → F.Double → RiskEngine F → RiskEngine F
scale_limits F config ratio e =
    if F.lt config.atr_scale_up_threshold ratio && not e.volatility_scaled
    then record e {
      volatility_scaled = true;
      effective_max_positions = max_ℕ 1 (e.max_concurrent_positions / 2);
      effective_var_limit = F.mul e.var_limit_fraction config.var_scale_high_vol_factor;
    }
    else if F.le ratio config.atr_scale_up_threshold && e.volatility_scaled
    then record e {
      volatility_scaled = false;
      effective_max_positions = e.max_concurrent_positions;
      effective_var_limit = e.var_limit_fraction;
    }
    else e

unfoldable pub scale_limits_by :
    (F : Doubles) → Option (SystemConfig F) → F.Double → F.Double → RiskEngine F → RiskEngine F
scale_limits_by F none live_atr baseline_atr e = e
scale_limits_by F (some config) live_atr baseline_atr e =
    if F.le baseline_atr (zero_double F)
    then e
    else scale_limits F config (F.div live_atr baseline_atr) e

unfoldable pub update_live_volatility :
    (F : Doubles) → F.Double → F.Double → RiskEngine F → RiskEngine F
update_live_volatility F live_atr baseline_atr e =
    scale_limits_by F e.sys_cfg live_atr baseline_atr e
