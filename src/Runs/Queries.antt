-- ===== src/Runs/Queries.antt =====
-- background-run-registry.ts: which runs a lease sees.
pub mod Order
use locus_pi.Common.{
  Bool, false, not, ◌&&◌, ◌||◌, List, [], ◌∷◌, Option, none, some, ltb, ◌==◌, if◌then◌else◌, any,
  keep, find?,
}
use locus_pi.Common.Text.{Text, codes, text_eq}
use locus_pi.Runs.Records.{
  Lease, Run, Session, Registry, is_settled, session_key, same_session, get_session,
  is_current_lease,
}

-- Stable, and descending by `startedOrder`.
insert_run : Run → List Run → List Run
insert_run r [] = r ∷ []
insert_run r (q ∷ qs) =
    if ltb r.started_order q.started_order then q ∷ insert_run r qs else r ∷ q ∷ qs

unfoldable pub newest_first : List Run → List Run
unfolding insert_run
newest_first [] = []
newest_first (r ∷ rs) = insert_run r (newest_first rs)

unfoldable pub find_unsettled_runs : Registry → Lease → List Run
unfolding newest_first
find_unsettled_runs state lease =
    newest_first (keep (λ r. same_session r.lease lease && not (is_settled r.state)) state.runs)

unfoldable pub find_active_exclusive_run : Registry → Lease → Option Run
unfolding find_unsettled_runs
find_active_exclusive_run state lease = find? (λ r. r.exclusive) (find_unsettled_runs state lease)

unfoldable pub active : Registry → Lease → Option Run
unfolding is_current_lease find_active_exclusive_run
active state lease =
    if is_current_lease state lease then find_active_exclusive_run state lease else none

unfoldable pub unsettled : Registry → Lease → List Run
unfolding is_current_lease find_unsettled_runs
unsettled state lease = if is_current_lease state lease then find_unsettled_runs state lease else []

abbrev pub has_unsettled : Text → Text → Option Session → List Run → Bool
has_unsettled project_root session_id none runs = false
has_unsettled project_root session_id (some current) runs =
    not current.revoked
    && any
        (λ r.
          text_eq r.lease.project_root project_root
          && text_eq r.lease.session_id session_id
          && r.lease.generation == current.generation
          && not (is_settled r.state))
        runs

unfoldable pub has_active_session : Registry → Text → Text → Bool
has_active_session state project_root session_id =
    has_unsettled project_root session_id
      (get_session (session_key project_root session_id) state.sessions) state.runs

abbrev pub first_of_session : List Run → Option Run
first_of_session [] = none
first_of_session (r ∷ rs) = some r

abbrev pub or_else : Option Run → Option Run → Option Run
or_else none b = b
or_else (some a) b = some a

abbrev pub has_run_id : Text → Option Text → Bool
has_run_id selector none = false
has_run_id selector (some run_id) = text_eq run_id selector

-- `selectRun`
unfoldable pub select_run : Registry → Lease → Text → Option Run
unfolding newest_first
select_run state lease selector =
    let candidates = newest_first (keep (λ r. same_session r.lease lease) state.runs) in
    if text_eq selector (codes "last")
    then or_else (find? (λ r. not (is_settled r.state)) candidates) (first_of_session candidates)
    else find? (λ r. has_run_id selector r.run_id || text_eq r.launch_id selector) candidates
