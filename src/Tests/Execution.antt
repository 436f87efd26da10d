-- ===== src/Tests/Execution.antt =====
-- The ledger and the scheduler at concrete inputs.
use locus_pi.Common.{◌+◌, ◌≡◌, refl, true, List, [], ◌∷◌, none, some, arith}
use locus_pi.Common.Number.{pos}
use locus_pi.Execution.Budget
use locus_pi.Execution.Budget.{
  Budget, Reservation, Call, reserves, releases, allocates, charges, replay, fresh, ok, err, cap,
  create,
}
use locus_pi.Execution.Budget.Invariant.{IsBalanced, run-create-IsBalanced}
use locus_pi.Execution.Budget.Guarantees.{reserve-charge_times, charge_times}
use locus_pi.Execution.Scheduler
use locus_pi.Execution.Facade.{Carries, is_created, create_shared, create_shared_iff}
use locus_pi.Execution.Scheduler.{acquires, aborts, activates, admitted, rejected}
use locus_pi.Execution.Scheduler.Invariant.{HoldsWidth, run-create-HoldsWidth}
use locus_pi.Execution.Scheduler.Admission.{Once, run-create-Once}
use locus_pi.Execution.Scheduler.Order.{InOrder, run-create-InOrder}

abbrev ledger : Budget
ledger = record {
  total_agents = some 5;
  runtime_ms = none;
  started = 0;
  sequence = 0;
  charged = 0;
  replayed = 0;
  reserved = 0;
  reservations = [];
}

abbrev calls : List Call
calls =
    reserves (pos 3) ∷ charges (some 0) ∷ charges none ∷ allocates replay (some 0) ∷ releases 0 ∷ []

ledger_created : create (some (pos 5)) none 0 ≡ ok ledger
unfolding create
ledger_created = refl

ledger_test : Budget.counts (Budget.run ledger calls) ≡ (2, 1)
unfolding Budget.counts Budget.run Budget.step Budget.reserve Budget.charge Budget.allocate
    Budget.release
ledger_test = refl

run-create-IsBalanced_example : IsBalanced (Budget.run ledger calls)
run-create-IsBalanced_example =
    run-create-IsBalanced (some (pos 5)) none 0 ledger calls ledger_created

abbrev holding : Budget
holding = record ledger {
  reserved = 3;
  reservations = record { remaining = 3; active = true } ∷ [];
}

holding-IsBalanced : IsBalanced holding
holding-IsBalanced = record {
  balanced = refl;
  settled = ((λ e. ground arith), tt);
  capped = omega arith;
}

granted : Budget.reserve ledger (pos 3) ≡ ok (holding, 0)
unfolding Budget.reserve
granted = refl

reserve-charge_times_example :
    (b : Budget) × (charge_times 3 0 (Budget.run holding (charges none ∷ releases 4 ∷ [])) ≡ ok b)
    × (b.charged ≡ (Budget.run holding (charges none ∷ releases 4 ∷ [])).charged + 3)
    × (Budget.charge b (some 0) ≡ err (cap (Budget.total_or_zero b.total_agents) none none))
reserve-charge_times_example =
    reserve-charge_times ledger holding 3 0 (charges none ∷ releases 4 ∷ []) granted
      ((λ e. ground arith), ((λ e. ground arith), tt))

-- Two slots: the third request waits, the second permit's release admits it, and the fourth is cancelled.
abbrev events : List Scheduler.Event
events =
    acquires 7
    ∷ acquires 7
    ∷ acquires 8
    ∷ acquires 9
    ∷ activates 0
    ∷ aborts 9
    ∷ Scheduler.releases 1
    ∷ []

scheduler : Unit {0}
unfolding Scheduler.create Scheduler.run Scheduler.step Scheduler.acquire Scheduler.abort_signal
    Scheduler.activate Scheduler.release
scheduler = tt

scheduler_test :
    (Scheduler.run (Scheduler.create 2) events).settled
    ≡ admitted 0 ∷ admitted 1 ∷ rejected 3 ∷ admitted 2 ∷ []
unfolding scheduler
scheduler_test = refl

run-create-HoldsWidth_example : HoldsWidth (Scheduler.run (Scheduler.create 2) events)
run-create-HoldsWidth_example = run-create-HoldsWidth 2 events

run-create-Once_example : Once 2 (Scheduler.run (Scheduler.create 2) events)
run-create-Once_example = run-create-Once 2 events 2

run-create-InOrder_example : InOrder (Scheduler.run (Scheduler.create 2) events)
run-create-InOrder_example = run-create-InOrder 2 events

create_shared_iff_example :
    (is_created (create_shared none (some (pos 12)) none 0) ≡ true)
    × Carries none (some (pos 12)) none (create_shared none (some (pos 12)) none 0)
create_shared_iff_example = create_shared_iff none (some (pos 12)) none 0
