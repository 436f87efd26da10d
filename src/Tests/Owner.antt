-- ===== src/Tests/Owner.antt =====
-- The owner of a root run at concrete runs.
use locus_pi.Common.{ℕ, ◌+◌, ◌≡◌, refl, true, List, [], ◌∷◌, none, some, get_elem?, get_or, count}
use locus_pi.Common.Number.{pos}
use locus_pi.Execution.Budget
use locus_pi.Execution.Budget.{Budget, fresh, replay, ok}
use locus_pi.Execution.Budget.Invariant.{IsBalanced, Within}
use locus_pi.Execution.Scheduler
use locus_pi.Owner
use locus_pi.Owner.{Event, create, close, step, run}
use locus_pi.Owner.Records.{Root, Scope, Launch}
use locus_pi.Owner.Steps.{
  new_launch, create_invocation, run_invocation, admit, observe, fail_launch, finish, fail_scope,
}
use locus_pi.Owner.Signals.{fire, run_listeners}
use locus_pi.Owner.Delegation.{
  with_children, end_child_work, drain, leave, reenter, clear, end_work, join,
}
use locus_pi.Owner.Moves.{is_busy}
use locus_pi.Owner.Waiting.{run-create-Waits, Waits, child}
use locus_pi.Owner.Charging.{run-create-IsCharged, is_called}
use locus_pi.Owner.Closing.{run-close}

owners : Unit {0}
unfolding create close step run create_invocation run_invocation admit observe fail_launch finish
    fail_scope fire run_listeners with_children end_child_work drain leave reenter clear end_work
    join Budget.create Budget.check_axis Budget.remaining Budget.allocate Budget.charge
    Budget.consume Budget.owned Budget.assert_deadline Budget.step Scheduler.create Scheduler.admit
    Scheduler.dispatch_from Scheduler.dispatch Scheduler.acquire Scheduler.abort_waiter
    Scheduler.abort_waiters Scheduler.activate Scheduler.release Scheduler.step
owners = tt

abbrev ledger : Budget
ledger = record {
  total_agents = some 3;
  runtime_ms = none;
  started = 5;
  sequence = 0;
  charged = 0;
  replayed = 0;
  reserved = 0;
  reservations = [];
}

-- A parent delegates, and its child is called in the one slot that the parent gave back.
abbrev delegation : List Event
delegation =
    Owner.creates 0 fresh none
    ∷ Owner.runs 0 5
    ∷ Owner.admits 0 5
    ∷ Owner.delegates 0
    ∷ Owner.creates 1 fresh none
    ∷ Owner.runs 1 5
    ∷ Owner.admits 1 5
    ∷ []

-- The child ends, its scope drains, and the parent takes a slot again and ends.
abbrev ending : List Event
ending =
    Owner.ends_work 1 none
    ∷ Owner.observes 1
    ∷ Owner.ends_child_work 0 none
    ∷ Owner.drains 0
    ∷ Owner.leaves 0
    ∷ Owner.reenters 0
    ∷ Owner.clears 0
    ∷ Owner.ends_work 0 none
    ∷ Owner.observes 0
    ∷ []

abbrev root : Root
root = run (create ledger 1 true) delegation

abbrev launch_at : ℕ → Launch
launch_at i = get_or (get_elem? root.launches i) (new_launch 9 9 replay none)

abbrev scope_at : ℕ → Scope
scope_at c = get_or (get_elem? root.scopes c) (Owner.root_scope 9)

delegation_test :
    (count is_called root.launches ≡ 2)
    × (root.scheduler.active ≡ 1)
    × ((launch_at 0).permit ≡ none)
    × ((launch_at 1).permit ≡ some 1)
unfolding owners
delegation_test = (refl, refl, refl, refl)

ending_test :
    (count is_busy (run root ending).launches ≡ 0)
    × ((run root ending).scheduler.in_use ≡ 0)
    × ((run root ending).scheduler.next_request ≡ 3)
unfolding owners
ending_test = (refl, refl, refl)

run-create-Waits_example : (lp : Launch) × (get_elem? root.launches 0 ≡ some lp) × Waits lp
unfolding owners
run-create-Waits_example =
    run-create-Waits ledger 1 true delegation 0 1 (launch_at 1)
      (child 1 (launch_at 1) (scope_at 1) refl refl refl) refl refl

run-create-IsCharged_example :
    (o : Root) × (root ≡ o)
    × (o.budget.charged ≡ count is_called o.launches)
    × Within (some 3) (count is_called o.launches + o.budget.reserved)
    × IsBalanced o.budget
unfolding owners
run-create-IsCharged_example =
    run-create-IsCharged (some (pos 3)) none 5 ledger 1 true delegation refl

run-close_example :
    count is_called
      (run
        (close root)
        (Owner.creates 0 fresh none ∷ Owner.runs 2 5 ∷ Owner.admits 2 5 ∷ [])).launches
    ≡ count is_called root.launches
run-close_example =
    run-close ledger 1 true delegation
      (Owner.creates 0 fresh none ∷ Owner.runs 2 5 ∷ Owner.admits 2 5 ∷ [])
