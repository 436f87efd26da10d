-- ===== src/Runs/Exclusive.antt =====
-- background-run-registry.ts: a session has one interactive command slot.
use locus_pi.Common.{
  ℕ, ◌≤◌, ◌≡◌, refl, sym, Bool, true, false, not, ◌&&◌, List, [], ◌∷◌, none, some, if◌then◌else◌,
  keep, map, count, count-append, count-map-le, count-keep-le, count-keep, count_of_find_none,
  arith, inl, inr, Option-cases, if_intro, ◌∙◌,
}
use locus_pi.Common.Text.{Text, text_eq, text_eq_iff}
use locus_pi.Runs.Records.{
  Run, Lease, Registry, Settlement, empty, is_settled, same_session, session_key, lease_key,
  get_session,
}
use locus_pi.Runs.Queries.{newest_first, find_unsettled_runs, find_active_exclusive_run, select_run}
use locus_pi.Runs.Records.{host_abort, operator_stop}
use locus_pi.Runs.Queries.Order.{count-newest_first}
use locus_pi.Runs.Numbering.{
  WellNumbered, Twins, select_run-Twins, step-WellNumbered, empty-WellNumbered,
}
use locus_pi.Runs.Defs.{
  abort, request_stop, revoke_run, revoke_generation, start_session, new_run, launch, attach,
  update_run, with_run_id, set_run_id, follows, host_aborts, settle, settle_run, stop, shutdown,
  Event, starts_session, launches, attaches, names_run, fires_host_signal, settles, stops,
  shuts_down, step, run,
}

-- An unsettled run of a session that holds its interactive slot.
abbrev pub is_busy : Lease → Run → Bool
is_busy lease r = (same_session r.lease lease && not (is_settled r.state)) && r.exclusive

-- How many runs hold the slot of the session of `lease`.
abbrev pub busy : Lease → List Run → ℕ
busy lease = count (is_busy lease)

busy_of_free :
    (state : Registry) (lease : Lease)
    → find_active_exclusive_run state lease ≡ none
    → busy lease state.runs ≡ 0
unfolding find_active_exclusive_run find_unsettled_runs
busy_of_free state lease e =
    let seen = keep (λ r. same_session r.lease lease && not (is_settled r.state)) state.runs in
    sym (count-keep (λ r. r.exclusive) _ state.runs)
    ∙ sym (count-newest_first (λ r. r.exclusive) seen)
    ∙ count_of_find_none (λ r. r.exclusive) (newest_first seen) e

busy_of_same :
    (l lease : Lease) (rs : List Run) → same_session l lease ≡ true → busy lease rs ≡ busy l rs
busy_of_same l lease [] e = refl
busy_of_same l lease (r ∷ rs) e = ground (
  arith,
  text_eq_iff l.project_root lease.project_root,
  text_eq_iff l.session_id lease.session_id,
  busy_of_same l lease rs e,
)

module _ (lease : Lease) where
  -- A change that keeps lease and slot and revives no settled run frees the slot at most.
  busy-map :
      (f : Run → Run) (rs : List Run)
      → ((r : Run) → is_busy lease (f r) ≡ true → is_busy lease r ≡ true)
      → busy lease (map f rs) ≤ busy lease rs
  busy-map f rs h = count-map-le (is_busy lease) f rs h

  -- Stopping an unsettled run writes to no settled one.
  busy-stop :
      (r : Run) (rs : List Run)
      → Twins rs r
      → is_settled r.state ≡ false
      → busy lease (update_run r.launch_id (request_stop operator_stop) rs) ≤ busy lease rs
  busy-stop r [] w e = omega arith
  busy-stop r (q ∷ rs) w e = ground (arith, busy-stop r rs w.1 e, w.0)

  abbrev OneAtMost : Registry → Type 0
  OneAtMost state = busy lease state.runs ≤ 1

  revoke_generation-OneAtMost :
      (state : Registry) (k : Text) (g : ℕ)
      → OneAtMost state
      → OneAtMost (revoke_generation state k g)
  unfolding revoke_generation
  revoke_generation-OneAtMost state k g h =
      omega (arith, busy-map (revoke_run k g) state.runs (λ r e. ground arith))

  start_session-OneAtMost :
      (state : Registry) (a b : Text) → OneAtMost state → OneAtMost (start_session state a b).0
  unfolding start_session
  start_session-OneAtMost state a b h =
      elim (Option-cases (get_session (session_key a b) state.sessions)) [
        | inl first ↦ rw (first, start_session) h
        | inr (old, found) ↦
            rw (found, start_session)
              (if_intro OneAtMost old.revoked {x = state} (λ _. h)
                (λ _. revoke_generation-OneAtMost state (session_key a b) old.generation h))
      ]

  launch-OneAtMost : (state : Registry) (l : Lease) → OneAtMost state → OneAtMost (launch state l).0
  unfolding launch
  launch-OneAtMost state l h = elim (Option-cases (find_active_exclusive_run state l)) [
    | inr (r, taken) ↦ ground arith
    | inl free ↦ ground (
      arith,
      busy_of_free state l free,
      busy_of_same l lease state.runs,
      count-append (is_busy lease) state.runs (new_run state l true none [] ∷ []),
    )
  ]

  attach-OneAtMost :
      (state : Registry) (l : Lease) (g : ℕ) (fired : List ℕ)
      → OneAtMost state
      → OneAtMost (attach state l g fired).0
  unfolding attach
  attach-OneAtMost state l g fired h =
      ground
        (arith, count-append (is_busy lease) state.runs (new_run state l false (some g) fired ∷ []))

  settle_run-OneAtMost :
      (state : Registry) (i : Text) (v : Settlement)
      → OneAtMost state
      → OneAtMost (settle_run state i v)
  unfolding settle_run
  settle_run-OneAtMost state i v h = omega (
    arith,
    busy-map (λ r. if text_eq r.launch_id i then settle v r else r) state.runs
        (λ r e. ground arith),
    count-keep-le (is_busy lease) _ (update_run i (settle v) state.runs),
  )

  stop-OneAtMost :
      (state : Registry) (l : Lease) (t : Text)
      → WellNumbered state
      → OneAtMost state
      → OneAtMost (stop state l t).0
  unfolding stop
  stop-OneAtMost state l t v h = elim (Option-cases (select_run state l t)) [
    | inl missing ↦ ground arith
    | inr (r, found) ↦ ground (arith, busy-stop r state.runs (select_run-Twins state l t r v found))
  ]

  step-OneAtMost :
      (state : Registry) (e : Event)
      → WellNumbered state
      → OneAtMost state
      → OneAtMost (step state e)
  unfolding step
  step-OneAtMost state (starts_session a b) v h = start_session-OneAtMost state a b h
  step-OneAtMost state (launches l) v h = launch-OneAtMost state l h
  step-OneAtMost state (attaches l g fired) v h = attach-OneAtMost state l g fired h
  step-OneAtMost state (names_run i t) v h =
      unfold set_run_id in
      ground (
        arith,
        busy-map (λ r. if text_eq r.launch_id i then with_run_id t r else r) state.runs
            (λ r e. ground arith),
      )
  step-OneAtMost state (fires_host_signal g) v h =
      unfold host_aborts in
      ground (
        arith,
        busy-map (λ r. if follows g r.host_signal then abort (host_abort g) r else r) state.runs
            (λ r e. ground arith),
      )
  step-OneAtMost state (settles i s) v h = settle_run-OneAtMost state i s h
  step-OneAtMost state (stops l t) v h = stop-OneAtMost state l t v h
  step-OneAtMost state (shuts_down l) v h =
      unfold shutdown in
      ground (arith, revoke_generation-OneAtMost state (lease_key l) l.generation h)

  run-OneAtMost :
      (state : Registry) (es : List Event)
      → WellNumbered state
      → OneAtMost state
      → OneAtMost (run state es)
  unfolding run
  run-OneAtMost state [] v h = h
  run-OneAtMost state (e ∷ es) v h =
      run-OneAtMost (step state e) es (step-WellNumbered state e v) (step-OneAtMost state e v h)

-- Whatever calls and callbacks happen, at most one unsettled run of a session holds its interactive
-- command slot, over all generations of the session.
pub run-busy-le-one : (es : List Event) (lease : Lease) → busy lease (run empty es).runs ≤ 1
run-busy-le-one es lease =
    run-OneAtMost lease empty es empty-WellNumbered (unfold empty in (omega arith))
