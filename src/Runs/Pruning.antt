-- ===== src/Runs/Pruning.antt =====
-- background-run-registry.ts: what the registry forgets, and what it keeps.
use locus_pi.Common.{
  ℕ, ◌≤◌, ◌≡◌, ap, Bool, true, false, not, ◌&&◌, List, [], ◌∷◌, Option, none, some, if◌then◌else◌,
  keep, map, arith, inl, inr, All, All-zip, count, count-append, count-map-le, count-keep,
  count_congr, count_none, count-le-length, length-take-le, take, drop, take-append-drop,
  Option-cases, if_intro,
}
use locus_pi.Common.Text.{Text, text_eq, text_eq_refl}
use locus_pi.Runs.Records.{
  Run, Lease, Registry, empty, is_settled, session_key, lease_key, get_session, host_abort,
  operator_stop, settled_run_limit,
}
use locus_pi.Runs.Queries.{newest_first, select_run}
use locus_pi.Runs.Queries.Order.{count-newest_first}
use locus_pi.Runs.Defs.{
  abort, request_stop, revoke_run, revoke_generation, start_session, new_run, start_run, launch,
  attach, update_run, with_run_id, set_run_id, follows, host_aborts, settle, prune_settled_runs,
  settle_run, stop, shutdown, Event, starts_session, launches, attaches, names_run,
  fires_host_signal, settles, stops, shuts_down, step, run, is_among,
}

abbrev has_settled : Run → Bool
has_settled r = is_settled r.state

abbrev pub settled_count : List Run → ℕ
settled_count = count has_settled

among_self : (rs : List Run) → All (λ r. is_among r.launch_id rs ≡ true) rs
among_self [] = tt
among_self (r ∷ rs) = (
  ground (arith, text_eq_refl r.launch_id),
  All-zip _ _ _ (λ q h _. ground arith) rs (among_self rs) (among_self rs),
)

-- Of the settled runs at most the newest forty are left.
prune-le : (state : Registry) → settled_count (prune_settled_runs state).runs ≤ settled_run_limit
unfolding prune_settled_runs
prune-le state =
    let sorted = newest_first (keep has_settled state.runs) in
    let gone = drop settled_run_limit sorted in
    let stays = λ (r : Run). not (is_among r.launch_id gone) in
    let none_left : count stays gone ≡ 0 =
      count_none stays gone
        (All-zip _ _ _ (λ r h _. ground arith) gone (among_self gone) (among_self gone)) in
    omega (
      arith,
      count-keep has_settled stays state.runs,
      count_congr (λ r. stays r && has_settled r) (λ r. has_settled r && stays r) state.runs
          (λ r. ground arith),
      count-keep stays has_settled state.runs,
      count-newest_first stays (keep has_settled state.runs),
      ap (count stays) (take-append-drop settled_run_limit sorted),
      count-append stays (take settled_run_limit sorted) gone,
      none_left,
      count-le-length stays (take settled_run_limit sorted),
      length-take-le settled_run_limit sorted,
    )

abbrev Limited : Registry → Type 0
Limited state = settled_count state.runs ≤ settled_run_limit

-- A change that settles no run.
settled-map :
    (f : Run → Run) (rs : List Run)
    → ((r : Run) → has_settled (f r) ≡ true → has_settled r ≡ true)
    → settled_count (map f rs) ≤ settled_count rs
settled-map f rs h = count-map-le has_settled f rs h

revoke_generation-Limited :
    (state : Registry) (k : Text) (g : ℕ) → Limited state → Limited (revoke_generation state k g)
unfolding revoke_generation
revoke_generation-Limited state k g h =
    omega (arith, settled-map (revoke_run k g) state.runs (λ r e. ground arith))

start_session-Limited :
    (state : Registry) (a b : Text) → Limited state → Limited (start_session state a b).0
unfolding start_session
start_session-Limited state a b h =
    elim (Option-cases (get_session (session_key a b) state.sessions)) [
      | inl first ↦ rw (first, start_session) h
      | inr (old, found) ↦
          rw (found, start_session)
            (if_intro Limited old.revoked {x = state} (λ _. h)
              (λ _. revoke_generation-Limited state (session_key a b) old.generation h))
    ]

start_run-Limited :
    (state : Registry) (l : Lease) (exclusive : Bool) (g : Option ℕ) (fired : List ℕ)
    → Limited state
    → Limited (start_run state l exclusive g fired).0
unfolding start_run
start_run-Limited state l exclusive g fired h =
    omega (arith, count-append has_settled state.runs (new_run state l exclusive g fired ∷ []))

stop-Limited :
    (state : Registry) (l : Lease) (t : Text) → Limited state → Limited (stop state l t).0
unfolding stop
stop-Limited state l t h = elim (Option-cases (select_run state l t)) [
  | inl missing ↦ ground arith
  | inr (r, found) ↦ ground (
    arith,
    settled-map (λ q. if text_eq q.launch_id r.launch_id then request_stop operator_stop q else q)
        state.runs (λ q e. ground arith),
  )
]

step-Limited : (state : Registry) (e : Event) → Limited state → Limited (step state e)
unfolding step
step-Limited state (starts_session a b) h = start_session-Limited state a b h
step-Limited state (launches l) h =
    unfold launch in ground (arith, start_run-Limited state l true none [] h)
step-Limited state (attaches l g fired) h =
    unfold attach in ground (arith, start_run-Limited state l false (some g) fired h)
step-Limited state (names_run i t) h =
    unfold set_run_id in
    ground (
      arith,
      settled-map (λ r. if text_eq r.launch_id i then with_run_id t r else r) state.runs
          (λ r e. ground arith),
    )
step-Limited state (fires_host_signal g) h =
    unfold host_aborts in
    omega (
      arith,
      settled-map (λ r. if follows g r.host_signal then abort (host_abort g) r else r) state.runs
          (λ r e. ground arith),
    )
step-Limited state (settles i s) h =
    unfold settle_run in prune-le (record state { runs = update_run i (settle s) state.runs })
step-Limited state (stops l t) h = stop-Limited state l t h
step-Limited state (shuts_down l) h =
    unfold shutdown in ground (arith, revoke_generation-Limited state (lease_key l) l.generation h)

run-Limited : (state : Registry) (es : List Event) → Limited state → Limited (run state es)
unfolding run
run-Limited state [] h = h
run-Limited state (e ∷ es) h = run-Limited (step state e) es (step-Limited state e h)

-- The registry never holds more than forty settled runs, whatever happened.
pub run-settled-le : (es : List Event) → settled_count (run empty es).runs ≤ settled_run_limit
run-settled-le es = run-Limited empty es (unfold empty in (omega arith))
