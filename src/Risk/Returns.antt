-- ===== src/Risk/Returns.antt =====
-- The rolling window of returns and the positions that engine/src/RiskEngine.cpp keeps.
use mynyra.Prelude.{
  ℕ, true, ◌&&◌, String, str_eq, List, [], ◌∷◌, ◌++◌, length, ltb, leb, if◌then◌else◌,
}
use mynyra.Prelude.Int.{pos}
use mynyra.Doubles.{Doubles, zero_double}
use mynyra.Risk.Engine.{RiskEngine}

-- `std::accumulate` from 0.
unfoldable pub accumulate : (F : Doubles) → F.Double → List F.Double → F.Double
accumulate F sum [] = sum
accumulate F sum (x ∷ xs) = accumulate F (F.add sum x) xs

-- The loop that sums the squared deviations.
unfoldable pub squared_deviations : (F : Doubles) → F.Double → F.Double → List F.Double → F.Double
squared_deviations F mean sum [] = sum
squared_deviations F mean sum (r ∷ rs) =
    squared_deviations F mean (F.add sum (F.mul (F.sub r mean) (F.sub r mean))) rs

-- `pop_front` of a list with an element.
abbrev pub pop_front {ℓ} : {A : Type ℓ} → List A → List A
pop_front [] = []
pop_front (x ∷ xs) = xs

abbrev pub push_window : (F : Doubles) → ℕ → F.Double → List F.Double → List F.Double
push_window F limit ret window =
    let pushed = window ++ (ret ∷ []) in
    if ltb limit (length pushed) then pop_front pushed else pushed

unfoldable pub recompute_var : (F : Doubles) → F.Double → RiskEngine F → RiskEngine F
recompute_var F current_equity e =
    let n = F.of_int (pos (length e.return_window)) in
    let mean = F.div (accumulate F (zero_double F) e.return_window) n in
    let variance = F.div (squared_deviations F mean (zero_double F) e.return_window) n in
    let std_dev = F.sqrt variance in
    if leb 2 (length e.return_window)
    then record e {
      return_std_dev = std_dev;
      current_var_95 = F.mul (F.mul (F.literal (pos 1645) 3) std_dev) current_equity;
    }
    else e

unfoldable pub push_equity_return : (F : Doubles) → F.Double → RiskEngine F → RiskEngine F
push_equity_return F current_equity e =
    let ret = F.div (F.sub current_equity e.prev_equity) e.prev_equity in
    let observed =
      if e.prev_equity_valid && F.lt (zero_double F) e.prev_equity
      then recompute_var F current_equity
          (record e { return_window = push_window F e.var_window ret e.return_window })
      else e in
    record observed { prev_equity = current_equity; prev_equity_valid = true }

-- `erase` and `operator[]` of the map of positions, whose order is not observed.
unfoldable pub forget : (F : Doubles) → String → List (String × F.Double) → List (String × F.Double)
forget F symbol [] = []
forget F symbol (entry ∷ rest) =
    if str_eq symbol entry.0 then forget F symbol rest else entry ∷ forget F symbol rest

unfoldable pub sync_position : (F : Doubles) → String → F.Double → RiskEngine F → RiskEngine F
sync_position F symbol quantity e =
    if F.le quantity (zero_double F)
    then record e { synced_positions = forget F symbol e.synced_positions }
    else record e { synced_positions = (symbol, quantity) ∷ forget F symbol e.synced_positions }

unfoldable pub position_in : (F : Doubles) → String → List (String × F.Double) → F.Double
position_in F symbol [] = zero_double F
position_in F symbol (entry ∷ rest) =
    if str_eq symbol entry.0 then entry.1 else position_in F symbol rest

abbrev pub synced_position : (F : Doubles) → String → RiskEngine F → F.Double
synced_position F symbol e = position_in F symbol e.synced_positions
