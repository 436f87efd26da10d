-- ===== src/Runs/Defs.antt =====
-- background-run-registry.ts: the operations that change the registry.
use locus_pi.Common.{
  ℕ, ◌+◌, Bool, true, false, not, ◌&&◌, List, [], ◌∷◌, ◌++◌, Option, none, some, ◌==◌,
  if◌then◌else◌, any, keep, map, drop,
}
use locus_pi.Common.Text.{Text, codes, text_eq, decimal, is_blank}
use locus_pi.Runs.Records.{
  Lease, Settlement, AbortReason, Run, Session, Registry, settled_run_limit, is_settled,
  session_key, get_session, set_session, delete_session, lease_key, is_current_lease, running,
  stopping, settled, operator_stop, session_shutdown, host_abort,
}
use locus_pi.Runs.Queries.{newest_first, find_active_exclusive_run, select_run}

-- `controller.abort(reason)`: the first reason stays.
abbrev pub abort : AbortReason → Run → Run
abort reason r = record r { aborted = elim r.aborted [ none ↦ some reason | some old ↦ some old ] }

abbrev pub request_stop : AbortReason → Run → Run
request_stop reason r = abort reason (record r { stop_requested = true; state = stopping })

-- `revokeGeneration`
abbrev pub revoke_session : ℕ → Session → Session
revoke_session generation s = if s.generation == generation then record s { revoked = true } else s

abbrev pub is_hit : Text → ℕ → Run → Bool
is_hit k generation r =
    text_eq (lease_key r.lease) k && r.lease.generation == generation && not (is_settled r.state)

abbrev pub revoke_run : Text → ℕ → Run → Run
revoke_run k generation r = if is_hit k generation r then request_stop session_shutdown r else r

abbrev pub revoke_in : Text → ℕ → List Session → List Session
revoke_in k generation = map (λ s. if text_eq s.key k then revoke_session generation s else s)

unfoldable pub revoke_generation : Registry → Text → ℕ → Registry
revoke_generation state k generation = record state {
  sessions = revoke_in k generation state.sessions;
  runs = map (revoke_run k generation) state.runs;
}

abbrev pub revoke_previous : Registry → Text → Option Session → Registry
revoke_previous state k none = state
revoke_previous state k (some previous) =
    if previous.revoked then state else revoke_generation state k previous.generation

-- `startSession`: a new generation of the session, after the previous one has been revoked.
unfoldable pub start_session : Registry → Text → Text → Registry × Lease
unfolding revoke_generation
start_session state project_root session_id =
    let k = session_key project_root session_id in
    let revoked = revoke_previous state k (get_session k state.sessions) in
    let generation = state.next_generation in
    (
      record revoked {
        next_generation = generation + 1;
        sessions =
            set_session (record { key = k; generation = generation; revoked = false })
              revoked.sessions;
      },
      record { project_root = project_root; session_id = session_id; generation = generation },
    )

abbrev pub is_already_aborted : List ℕ → Option ℕ → Option AbortReason
is_already_aborted fired none = none
is_already_aborted fired (some g) = if any (λ h. h == g) fired then some (host_abort g) else none

-- The record that `startRun` builds; `fired` lists the host signals that are aborted already.
abbrev pub new_run : Registry → Lease → Bool → Option ℕ → List ℕ → Run
new_run state lease exclusive host_signal fired = record {
  launch_id = codes "pending-" ++ decimal state.next_run;
  lease = lease;
  state = running;
  stop_requested = false;
  exclusive = exclusive;
  started_order = state.next_run + 1;
  run_id = none;
  settlement = none;
  aborted = is_already_aborted fired host_signal;
  host_signal = host_signal;
}

unfoldable pub start_run : Registry → Lease → Bool → Option ℕ → List ℕ → Registry × Run
start_run state lease exclusive host_signal fired =
    let r = new_run state lease exclusive host_signal fired in
    (record state { next_run = state.next_run + 1; runs = state.runs ++ r ∷ [] }, r)

-- `WorkflowBackgroundLaunchResult`
pub data LaunchResult : Type 0 where
  launched : Run → LaunchResult
  stale_lease : LaunchResult
  active_run : Run → LaunchResult

abbrev pub started : Registry × Run → Registry × LaunchResult
started (state, r) = (state, launched r)

unfoldable pub launch : Registry → Lease → Registry × LaunchResult
unfolding start_run is_current_lease find_active_exclusive_run
launch state lease =
    if not (is_current_lease state lease)
    then (state, stale_lease)
    else elim (find_active_exclusive_run state lease) [
      | some r ↦ (state, active_run r)
      | none ↦ started (start_run state lease true none [])
    ]

unfoldable pub attach : Registry → Lease → ℕ → List ℕ → Registry × LaunchResult
unfolding start_run is_current_lease
attach state lease host_signal fired =
    if not (is_current_lease state lease)
    then (state, stale_lease)
    else started (start_run state lease false (some host_signal) fired)

-- A write to the object that stands under a launch id.
abbrev pub update_run : Text → (Run → Run) → List Run → List Run
update_run launch_id change = map (λ r. if text_eq r.launch_id launch_id then change r else r)

abbrev pub with_run_id : Text → Run → Run
with_run_id run_id r = record r { run_id = some run_id }

-- `setRunId` of a run's context: a blank id is ignored.
unfoldable pub set_run_id : Registry → Text → Text → Registry
set_run_id state launch_id run_id =
    if is_blank run_id
    then state
    else record state { runs = update_run launch_id (with_run_id run_id) state.runs }

abbrev pub follows : ℕ → Option ℕ → Bool
follows g none = false
follows g (some h) = h == g

-- The host signal fires: `forwardHostAbort` of each run that still listens.
unfoldable pub host_aborts : Registry → ℕ → Registry
host_aborts state g = record state {
  runs = map (λ r. if follows g r.host_signal then abort (host_abort g) r else r) state.runs;
}

-- `pruneSettledRuns`
abbrev pub doomed : List Run → List Run
doomed runs = drop settled_run_limit (newest_first (keep (λ r. is_settled r.state) runs))

abbrev pub is_among : Text → List Run → Bool
is_among launch_id = any (λ r. text_eq r.launch_id launch_id)

unfoldable pub prune_settled_runs : Registry → Registry
unfolding newest_first
prune_settled_runs state = record state {
  runs = keep (λ r. not (is_among r.launch_id (doomed state.runs))) state.runs;
}

-- The listener is removed and the record takes its settlement.
abbrev pub settle : Settlement → Run → Run
settle settlement r = record r { state = settled; settlement = some settlement; host_signal = none }

-- `settleRun`
unfoldable pub settle_run : Registry → Text → Settlement → Registry
unfolding prune_settled_runs
settle_run state launch_id settlement =
    prune_settled_runs (record state { runs = update_run launch_id (settle settlement) state.runs })

-- `WorkflowBackgroundStopResult`
pub data StopResult : Type 0 where
  requested already_requested already_settled : Run → StopResult
  unknown : StopResult

unfoldable pub stop_selected : Registry → Option Run → Registry × StopResult
stop_selected state none = (state, unknown)
stop_selected state (some r) =
    if is_settled r.state
    then (state, already_settled r)
    else if r.stop_requested
    then (state, already_requested r)
    else (
      record state { runs = update_run r.launch_id (request_stop operator_stop) state.runs },
      requested (request_stop operator_stop r),
    )

unfoldable pub stop : Registry → Lease → Text → Registry × StopResult
unfolding is_current_lease select_run stop_selected
stop state lease selector =
    if is_current_lease state lease
    then stop_selected state (select_run state lease selector)
    else (state, unknown)

unfoldable pub shutdown : Registry → Lease → Registry
unfolding is_current_lease revoke_generation
shutdown state lease =
    let revoked = revoke_generation state (lease_key lease) lease.generation in
    if is_current_lease state lease
    then record revoked { sessions = delete_session (lease_key lease) revoked.sessions }
    else state

-- The calls and the callbacks that change the registry.
pub data Event : Type 0 where
  starts_session : Text → Text → Event
  launches : Lease → Event
  attaches : Lease → ℕ → List ℕ → Event
  names_run : Text → Text → Event
  fires_host_signal : ℕ → Event
  settles : Text → Settlement → Event
  stops : Lease → Text → Event
  shuts_down : Lease → Event

unfoldable pub step : Registry → Event → Registry
step state (starts_session project_root session_id) =
    (start_session state project_root session_id).0
step state (launches lease) = (launch state lease).0
step state (attaches lease g fired) = (attach state lease g fired).0
step state (names_run launch_id run_id) = set_run_id state launch_id run_id
step state (fires_host_signal g) = host_aborts state g
step state (settles launch_id settlement) = settle_run state launch_id settlement
step state (stops lease selector) = (stop state lease selector).0
step state (shuts_down lease) = shutdown state lease

unfoldable pub run : Registry → List Event → Registry
run state [] = state
run state (e ∷ es) = run (step state e) es
