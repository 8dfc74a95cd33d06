-- ===== src/Mirror/Reconciling.antt =====
-- `applyReconciliation` of engine/src/IPortfolioView.cpp, and the calls of a mirror.
use mynyra.Prelude.{
  ℕ, Bool, true, false, not, ◌&&◌, ◌||◌, String, Option, none, some, List, [], ◌∷◌, if◌then◌else◌,
  ◌==◌, is_empty, ltb, leb,
}
use mynyra.Prelude.Dictionary.{find, assign}
use mynyra.Contracts.{
  PositionSnapshot, OrderIntent, ExecutionEvent, ReconciliationSnapshot, ReconciliationStatus,
  is_positive,
}
use mynyra.Mirror.State.{BrokerPortfolioMirror, register_intent}
use mynyra.Mirror.Executions.{apply_execution}

abbrev pub is_matched : ReconciliationStatus → Bool
is_matched ReconciliationStatus.matched = true
is_matched _ = false

unfoldable pub snapshot_is_refused : ReconciliationSnapshot → Bool
snapshot_is_refused s =
    not s.complete
    || not s.account.complete
    || not (is_matched s.status)
    || s.connection_generation == 0
    || s.snapshot_version == 0
    || not (s.account.snapshot_version == s.snapshot_version)

unfoldable pub position_is_invalid : PositionSnapshot → Bool
position_is_invalid p =
    is_empty p.canonical_symbol
    || is_empty p.logical_position_id
    || not (is_positive p.quantity)
    || not (is_positive p.average_price)

abbrev pub emplace_position :
    PositionSnapshot
    → Option PositionSnapshot
    → List (String × PositionSnapshot)
    → Option (List (String × PositionSnapshot))
emplace_position p none kept = some (assign p.logical_position_id p kept)
emplace_position p (some known) kept = none

-- The positions of a snapshot, each under its id, or none when one is invalid or an id comes twice.
abbrev pub and_then :
    Option (List (String × PositionSnapshot))
    → (List (String × PositionSnapshot) → Option (List (String × PositionSnapshot)))
    → Option (List (String × PositionSnapshot))
and_then none f = none
and_then (some kept) f = f kept

unfoldable pub replacement :
    List PositionSnapshot
    → List (String × PositionSnapshot)
    → Option (List (String × PositionSnapshot))
replacement [] kept = some kept
replacement (p ∷ rest) kept =
    and_then
      (if position_is_invalid p
        then none
        else emplace_position p (find p.logical_position_id kept) kept)
      (λ more. replacement rest more)

unfoldable pub is_stale : ReconciliationSnapshot → BrokerPortfolioMirror → Bool
is_stale s m =
    ltb s.connection_generation m.generation
    || m.generation == s.connection_generation
      && ltb 0 m.account.snapshot_version
      && leb s.snapshot_version m.account.snapshot_version

abbrev pub replace_positions :
    ReconciliationSnapshot
    → Option (List (String × PositionSnapshot))
    → BrokerPortfolioMirror
    → Bool × BrokerPortfolioMirror
replace_positions s none m = (false, m)
replace_positions s (some positions) m = if is_stale s m then (false, m) else (
  true,
  record m {
    account = s.account;
    positions = positions;
    pending_orders = s.pending_order_count;
    generation = s.connection_generation;
  },
)

unfoldable pub apply_reconciliation :
    ReconciliationSnapshot → BrokerPortfolioMirror → Bool × BrokerPortfolioMirror
apply_reconciliation s m =
    if snapshot_is_refused s then (false, m) else replace_positions s (replacement s.positions []) m

pub data Call : Type 0 where
  registers : ℕ → OrderIntent → Call
  executes : ExecutionEvent → Call
  reconciles : ReconciliationSnapshot → Call

unfoldable pub call : Call → BrokerPortfolioMirror → BrokerPortfolioMirror
call (Call.registers id intent) m = (register_intent id intent m).1
call (Call.executes e) m = (apply_execution e m).1
call (Call.reconciles s) m = (apply_reconciliation s m).1

unfoldable pub run_calls : List Call → BrokerPortfolioMirror → BrokerPortfolioMirror
run_calls [] m = m
run_calls (c ∷ cs) m = run_calls cs (call c m)
