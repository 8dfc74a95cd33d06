-- ===== src/Risk/Engine.antt =====
-- The state of engine/include/RiskEngine.hpp, its gate for new exposure, and its snapshots. What the
-- gate reads of the portfolio is an argument; a time point is a number of nanoseconds.
use mynyra.Prelude.{
  ℕ, Bool, true, false, not, ◌&&◌, ◌||◌, String, Option, none, List, [], ltb, leb, if◌then◌else◌,
}
use mynyra.Prelude.Int.{pos}
use mynyra.Contracts.{OrderSide, FailureCategory, RuleBreachAction, RiskDecision}
use mynyra.Doubles.{Doubles, zero_double}

-- The thresholds of `SystemConfig` that the engine reads.
pub record SystemConfig (F : Doubles) : Type 0 where
  pub latency_max_ms : ℕ
  pub error_rate_thresh : ℕ
  pub atr_scale_up_threshold : F.Double
  pub var_scale_high_vol_factor : F.Double

pub record AssetReturnState (F : Doubles) : Type 0 where
  pub symbol : String
  pub return_window : List F.Double
  pub prev_price : F.Double
  pub prev_price_valid : Bool
  pub position_value : F.Double

pub record RiskEngine (F : Doubles) : Type 0 where
  pub total_drawdown : F.Double
  pub daily_drawdown : F.Double
  pub max_concurrent_positions : ℕ
  pub var_limit_fraction : F.Double
  pub var_window : ℕ
  pub prev_equity : F.Double
  pub prev_equity_valid : Bool
  pub return_window : List F.Double
  pub current_var_95 : F.Double
  pub return_std_dev : F.Double
  pub asset_states : List (String × AssetReturnState F)
  pub cov_matrix : List F.Double
  pub asset_order : List String
  pub multi_asset_mode : Bool
  pub sys_cfg : Option (SystemConfig F)
  pub close_only : Bool
  pub last_latency_ms : ℕ
  pub halted : Bool
  pub error_timestamps : List ℕ
  pub synced_positions : List (String × F.Double)
  pub effective_max_positions : ℕ
  pub effective_var_limit : F.Double
  pub volatility_scaled : Bool

abbrev pub new_engine : (F : Doubles) → ℕ → F.Double → ℕ → RiskEngine F
new_engine F max_concurrent_positions var_limit_fraction var_window = record {
  total_drawdown = zero_double F;
  daily_drawdown = zero_double F;
  max_concurrent_positions = max_concurrent_positions;
  var_limit_fraction = var_limit_fraction;
  var_window = var_window;
  prev_equity = zero_double F;
  prev_equity_valid = false;
  return_window = [];
  current_var_95 = zero_double F;
  return_std_dev = zero_double F;
  asset_states = [];
  cov_matrix = [];
  asset_order = [];
  multi_asset_mode = false;
  sys_cfg = none;
  close_only = false;
  last_latency_ms = 0;
  halted = false;
  error_timestamps = [];
  synced_positions = [];
  effective_max_positions = 0;
  effective_var_limit = zero_double F;
  volatility_scaled = false;
}

-- `getOpenPositionCount` and `getTotalEquity` of the portfolio.
pub record PortfolioView (F : Doubles) : Type 0 where
  pub open_position_count : ℕ
  pub total_equity : F.Double

abbrev pub max_total_drawdown : (F : Doubles) → F.Double
max_total_drawdown F = F.literal (pos 10) 2

abbrev pub max_daily_drawdown : (F : Doubles) → F.Double
max_daily_drawdown F = F.literal (pos 4) 2

abbrev pub position_cap : (F : Doubles) → RiskEngine F → ℕ
position_cap F e =
    if ltb 0 e.effective_max_positions
    then e.effective_max_positions
    else e.max_concurrent_positions

abbrev pub var_limit : (F : Doubles) → RiskEngine F → F.Double
var_limit F e =
    if F.lt (zero_double F) e.effective_var_limit
    then e.effective_var_limit
    else e.var_limit_fraction

-- `limit > 0 && VaR > 0` and, for positive equity, `VaR > equity * limit`.
abbrev pub var_exceeds : (F : Doubles) → RiskEngine F → F.Double → Bool
var_exceeds F e equity =
    F.lt (zero_double F) (var_limit F e)
    && F.lt (zero_double F) e.current_var_95
    && F.lt (zero_double F) equity
    && F.lt (F.mul equity (var_limit F e)) e.current_var_95

unfoldable pub can_trade : (F : Doubles) → PortfolioView F → RiskEngine F → Bool
can_trade F portfolio e =
    if e.halted
    then false
    else if e.close_only
    then false
    else if F.le (max_total_drawdown F) e.total_drawdown
    then false
    else if F.le (max_daily_drawdown F) e.daily_drawdown
    then false
    else if ltb 0 (position_cap F e) && leb (position_cap F e) portfolio.open_position_count
    then false
    else if var_exceeds F e portfolio.total_equity
    then false
    else true

abbrev pub is_buy : OrderSide → Bool
is_buy OrderSide.buy = true
is_buy OrderSide.sell = false

unfoldable pub evaluate_side :
    (F : Doubles) → PortfolioView F → RiskEngine F → OrderSide → RiskDecision
evaluate_side F portfolio e side =
    let allowed = not (is_buy side) || can_trade F portfolio e in
    record {
      allowed = allowed;
      risk_increasing = is_buy side;
      failure = if allowed then FailureCategory.none else FailureCategory.validation;
      action = if allowed then RuleBreachAction.warn else RuleBreachAction.halt;
      reason =
          if allowed
          then if is_buy side
            then "RiskEngine accepted new exposure"
            else "RiskEngine accepted position reduction"
          else "RiskEngine rejected new exposure";
    }
