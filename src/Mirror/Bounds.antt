-- ===== src/Mirror/Bounds.antt =====
-- The quantities of the mirror in engine/src/IPortfolioView.cpp stay within bounds.
use mynyra.Prelude.{
  ℕ, ◌≡◌, refl, inl, inr, true, String, Option, none, some, List, [], ◌∷◌, All, arith, Bool-cases,
  is_empty,
}
use mynyra.Prelude.Maps.{lookup, All-lookup, All-insert, contains}
use mynyra.Contracts.{
  AccountSnapshot, PositionSnapshot, OrderIntent, ExecutionEvent, ReconciliationSnapshot,
  is_positive,
}
use mynyra.Mirror.State.{
  MirrorApplyResult, IntentState, BrokerPortfolioMirror, new_mirror, intent_state,
  intent_is_invalid, emplace_intent, register_intent,
}
use mynyra.Mirror.Executions.{
  event_is_invalid, moved_positions, filled_state, settle_execution, execute_intent,
  apply_execution,
}
use mynyra.Mirror.Reconciling.{
  replacement, replace_positions, is_stale, snapshot_is_refused, apply_reconciliation, Call, call,
  run_calls,
}
use mynyra.Mirror.Held.{
  IsBounded, AllHeld, IsProgress, event_inv, moved_positions-AllHeld, replacement-AllHeld,
}

pub record IsMirror (m : BrokerPortfolioMirror) : Type 0 where
  pub held : AllHeld m.positions
  pub bounded : All (λ (e : ℕ × IntentState). IsBounded e.1) m.intents

emplace_intent-IsMirror :
    (id : ℕ) (intent : OrderIntent) (known : Option IntentState) (m : BrokerPortfolioMirror)
    → is_positive intent.exact_quantity ≡ true
    → IsMirror m
    → IsMirror (emplace_intent id intent known m).1
emplace_intent-IsMirror id intent (some known) m up h = h
emplace_intent-IsMirror id intent none m up h = record {
  held = h.held;
  bounded =
      All-insert IsBounded id (intent_state intent) m.intents h.bounded
        (ground arith, ground (arith, up));
}

register_intent-IsMirror :
    (id : ℕ) (intent : OrderIntent) (m : BrokerPortfolioMirror)
    → IsMirror m
    → IsMirror (register_intent id intent m).1
unfolding register_intent intent_is_invalid
register_intent-IsMirror id intent m h = elim (Bool-cases (intent_is_invalid id intent)) [
  | inl invalid ↦ rw invalid h
  | inr valid ↦
      rw valid (emplace_intent-IsMirror id intent (lookup id m.intents) m (ground (arith, valid)) h)
]

settle_execution-IsMirror :
    (e : ExecutionEvent) (s : IntentState)
    (t : MirrorApplyResult × List (String × PositionSnapshot)) (m : BrokerPortfolioMirror)
    → AllHeld t.1
    → IsProgress e s
    → IsMirror m
    → IsMirror (settle_execution e s t m).1
settle_execution-IsMirror e s (MirrorApplyResult.applied, positions) m all progress h = record {
  held = all;
  bounded =
      All-insert IsBounded e.local_order_id (filled_state e s) m.intents h.bounded
        (progress.low, progress.high);
}
settle_execution-IsMirror e s (MirrorApplyResult.duplicate, positions) m all progress h = record {
  held = all;
  bounded = h.bounded;
}
settle_execution-IsMirror e s (MirrorApplyResult.unknown_order, positions) m all progress h =
    record { held = all; bounded = h.bounded }
settle_execution-IsMirror e s (MirrorApplyResult.invalid_event, positions) m all progress h =
    record { held = all; bounded = h.bounded }
settle_execution-IsMirror e s (MirrorApplyResult.invalid_transition, positions) m all progress h =
    record { held = all; bounded = h.bounded }

execute_intent-IsMirror :
    (e : ExecutionEvent) (o : Option IntentState) (m : BrokerPortfolioMirror)
    → lookup e.local_order_id m.intents ≡ o
    → IsMirror m
    → IsMirror (execute_intent e o m).1
execute_intent-IsMirror e none m found h = h
execute_intent-IsMirror e (some s) m found h = elim (Bool-cases (event_is_invalid e s)) [
  | inl invalid ↦ rw invalid h
  | inr valid ↦
      let progress = event_inv e s valid in
      let bounded = All-lookup IsBounded e.local_order_id m.intents h.bounded found in
      rw valid (
        settle_execution-IsMirror e s (moved_positions e s m.positions) m
          (moved_positions-AllHeld e s m.positions progress bounded h.held) progress h)
]

apply_execution-IsMirror :
    (e : ExecutionEvent) (m : BrokerPortfolioMirror) → IsMirror m → IsMirror (apply_execution e m).1
unfolding apply_execution
apply_execution-IsMirror e m h = elim (Bool-cases (is_empty e.event_key)) [
  | inl nameless ↦ rw nameless h
  | inr named ↦ elim (Bool-cases (contains e.event_key m.event_keys)) [
    | inl seen ↦ rw (named, seen) h
    | inr unseen ↦
        rw (named, unseen) (execute_intent-IsMirror e (lookup e.local_order_id m.intents) m refl h)
  ]
]

replace_positions-IsMirror :
    (s : ReconciliationSnapshot) (o : Option (List (String × PositionSnapshot)))
    (m : BrokerPortfolioMirror)
    → ((ps : List (String × PositionSnapshot)) → o ≡ some ps → AllHeld ps)
    → IsMirror m
    → IsMirror (replace_positions s o m).1
replace_positions-IsMirror s none m all h = h
replace_positions-IsMirror s (some ps) m all h = elim (Bool-cases (is_stale s m)) [
  | inl stale ↦ rw stale h
  | inr fresh ↦ rw fresh (record { held = all ps refl; bounded = h.bounded })
]

apply_reconciliation-IsMirror :
    (s : ReconciliationSnapshot) (m : BrokerPortfolioMirror)
    → IsMirror m
    → IsMirror (apply_reconciliation s m).1
unfolding apply_reconciliation
apply_reconciliation-IsMirror s m h = elim (Bool-cases (snapshot_is_refused s)) [
  | inl refused ↦ rw refused h
  | inr taken ↦ rw taken (
      replace_positions-IsMirror s (replacement s.positions []) m
        (λ (ps : List (String × PositionSnapshot)) (e : replacement s.positions [] ≡ some ps).
          replacement-AllHeld s.positions [] ps (tt, tt, tt) e)
        h)
]

run_calls-IsMirror :
    (cs : List Call) (m : BrokerPortfolioMirror) → IsMirror m → IsMirror (run_calls cs m)
unfolding run_calls call
run_calls-IsMirror [] m h = h
run_calls-IsMirror (Call.registers id intent ∷ cs) m h =
    run_calls-IsMirror cs _ (register_intent-IsMirror id intent m h)
run_calls-IsMirror (Call.executes e ∷ cs) m h =
    run_calls-IsMirror cs _ (apply_execution-IsMirror e m h)
run_calls-IsMirror (Call.reconciles s ∷ cs) m h =
    run_calls-IsMirror cs _ (apply_reconciliation-IsMirror s m h)

-- After any sequence of registrations, executions and reconciliations of a new mirror every
-- position has a positive quantity and a key of its own, which is its logical id, and of every
-- registered intent a quantity between nothing and all of it is filled.
pub run_calls_new-IsMirror :
    (account : AccountSnapshot) (cs : List Call) → IsMirror (run_calls cs (new_mirror account))
run_calls_new-IsMirror account cs =
    run_calls-IsMirror cs (new_mirror account) (record { held = (tt, tt, tt); bounded = tt })
