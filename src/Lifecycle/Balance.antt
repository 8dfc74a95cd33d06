-- ===== src/Lifecycle/Balance.antt =====
-- The quantities of every order in an `OrderLifecycleStore` stay consistent.
use mynyra.Prelude.{ℕ, ◌≡◌, true, String, some, List, [], ◌∷◌, arith, All}
use mynyra.Prelude.Int.{◌+ℤ◌}
use mynyra.Prelude.Maps.{lookup, All-lookup, All-insert}
use mynyra.Contracts.{OrderRequest, is_positive}
use mynyra.Lifecycle.Record.{OrderLifecycleRecord, append_audit}
use mynyra.Lifecycle.Store.{OrderLifecycleStore, empty_store, commit, initial_record}
use mynyra.Lifecycle.Advance.{Outcome, IsBalanced}
use mynyra.Lifecycle.Events.{apply-Outcome}
use mynyra.Lifecycle.Run.{Call, creates, delivers, Creation, create-Creation, step, run}

abbrev pub AllBalanced : OrderLifecycleStore → Type 0
AllBalanced s = All (λ (e : ℕ × OrderLifecycleRecord). IsBalanced e.1) s.records

initial_record-IsBalanced :
    (q : OrderRequest) → is_positive q.quantity ≡ true → IsBalanced (initial_record q)
unfolding initial_record append_audit ◌+ℤ◌
initial_record-IsBalanced q h = ground arith

commit-AllBalanced :
    (s : OrderLifecycleStore) (id : ℕ) (key : String) (r : OrderLifecycleRecord)
    → AllBalanced s
    → IsBalanced r
    → AllBalanced (commit s id key r)
unfolding commit
commit-AllBalanced s id key r v b = All-insert IsBalanced id r s.records v b

pub step-AllBalanced : (s : OrderLifecycleStore) (c : Call) → AllBalanced s → AllBalanced (step s c)
unfolding step
step-AllBalanced s (creates q) v = elim (create-Creation s q) [
  | Creation.declined e _ ↦ rw e v
  | Creation.added _ _ _ positive e _ ↦ rw e (
      All-insert IsBalanced q.local_order_id (initial_record q) s.records v
        (initial_record-IsBalanced q positive))
]
step-AllBalanced s (delivers w) v = elim (apply-Outcome s w) [
  | Outcome.refused e _ ↦ rw e v
  | Outcome.recorded a b found _ _ adv e _ ↦
      rw e (commit-AllBalanced s _ _ b v (adv.balance (All-lookup IsBalanced _ s.records v found)))
]

run-AllBalanced :
    (s : OrderLifecycleStore) (cs : List Call) → AllBalanced s → AllBalanced (run s cs)
unfolding run
run-AllBalanced s [] v = v
run-AllBalanced s (c ∷ cs) v = run-AllBalanced (step s c) cs (step-AllBalanced s c v)

-- After any history of calls on a new store, the filled and remaining quantities of each order are
-- non-negative, have the order's scale and add up to the ordered quantity; a Filled order has
-- nothing remaining; a pending cancellation came from Accepted or PartiallyFilled.
pub run_empty-IsBalanced :
    (cs : List Call) (id : ℕ) (r : OrderLifecycleRecord)
    → lookup id (run empty_store cs).records ≡ some r
    → IsBalanced r
run_empty-IsBalanced cs id r found =
    All-lookup IsBalanced id (run empty_store cs).records (run-AllBalanced empty_store cs tt) found
