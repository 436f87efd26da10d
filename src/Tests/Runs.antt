-- ===== src/Tests/Runs.antt =====
-- The run registry at concrete inputs.
use locus_pi.Common.{none, ◌≤◌, ◌≡◌, refl, true, false, List, [], ◌∷◌, arith, All}
use locus_pi.Common.Text.{codes, decimal}
use locus_pi.Runs.Records.{
  Lease, Registry, empty, is_current_lease, settled_run_limit, fulfilled, lease_key,
}
use locus_pi.Runs.Defs.{
  starts_session, launches, attaches, settles, stops, shuts_down, Event, start_session, launch,
  attach, stop, shutdown, settle_run, step, run, stale_lease, unknown,
}
use locus_pi.Runs.Queries.{active, unsettled}
use locus_pi.Runs.Ending.{start_session-ended}
use locus_pi.Runs.Exclusive.{busy, run-busy-le-one}
use locus_pi.Runs.Pruning.{settled_count, run-settled-le}
use locus_pi.Runs.Survival.{is_present, run-is_present}
use locus_pi.Runs.Sessions.{IsStale, run-IsStale, IsStopped, start_session_supersedes}

abbrev first : Lease
first = record { project_root = codes "/p"; session_id = codes "s"; generation = 1 }

abbrev later : Lease
later = record first { generation = 2 }

-- The second launch is refused, the attached run is not exclusive, and the stop reaches a run.
abbrev events : List Event
events =
    starts_session (codes "/p") (codes "s")
    ∷ launches first
    ∷ launches first
    ∷ attaches first 5 []
    ∷ stops first (codes "pending-1")
    ∷ []

registry : Unit {0}
unfolding start_session launch attach stop shutdown settle_run step run empty decimal
registry = tt

events_test : (busy first (run empty events).runs ≡ 1) × ((run empty events).next_run ≡ 3)
unfolding registry
events_test = (refl, refl)

run-busy-le-one_example : busy first (run empty events).runs ≤ 1
run-busy-le-one_example = run-busy-le-one events first

run-settled-le_example :
    settled_count (run empty (settles (codes "pending-1") (fulfilled 0) ∷ [])).runs
    ≤ settled_run_limit
run-settled-le_example = run-settled-le (settles (codes "pending-1") (fulfilled 0) ∷ [])

abbrev closing : List Event
closing = settles (codes "pending-2") (fulfilled 0) ∷ shuts_down first ∷ []

run-is_present_example : is_present (codes "pending-1") (run (run empty events) closing).runs ≡ true
unfolding registry
run-is_present_example = run-is_present (codes "pending-1") events closing refl (refl, (tt, tt))

-- The session was started anew, so the first lease is stale.
abbrev replaced : Registry
replaced = record {
  next_generation = 3;
  next_run = 1;
  sessions = record { key = lease_key first; generation = 2; revoked = false } ∷ [];
  runs = [];
}

replaced_stale : is_current_lease replaced first ≡ false
unfolding is_current_lease
replaced_stale = refl

run-IsStale_example : IsStale first (run replaced events)
run-IsStale_example = run-IsStale first replaced events (omega arith, replaced_stale)

-- The first lease is used, its session is started anew, and all its calls come again.
abbrev ended : Registry
ended =
    run
      (step (run (start_session empty (codes "/p") (codes "s")).0 events)
        (starts_session (codes "/p") (codes "s")))
      events

start_session-ended_example :
    (launch ended first ≡ (ended, stale_lease))
    × (attach ended first 5 [] ≡ (ended, stale_lease))
    × (stop ended first (codes "last") ≡ (ended, unknown))
    × (shutdown ended first ≡ ended)
    × (active ended first ≡ none)
    × (unsettled ended first ≡ [])
unfolding start_session empty
start_session-ended_example =
    start_session-ended empty (codes "/p") (codes "s") events
      (starts_session (codes "/p") (codes "s")) events 5 [] (codes "last") (refl, refl)

replaced_current : is_current_lease replaced later ≡ true
unfolding is_current_lease
replaced_current = refl

start_session_supersedes_example :
    let next = (start_session replaced (codes "/p") (codes "s")).0 in
    (is_current_lease next later ≡ false) × All (IsStopped (lease_key later) 2) next.runs
start_session_supersedes_example =
    start_session_supersedes replaced later (omega arith) replaced_current
