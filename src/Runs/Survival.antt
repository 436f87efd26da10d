-- ===== src/Runs/Survival.antt =====
-- background-run-registry.ts: an unsettled run is never forgotten.
use locus_pi.Common.{
  ℕ, ◌≡◌, refl, Bool, true, false, not, ◌&&◌, List, [], ◌∷◌, Option, none, some, if◌then◌else◌, any,
  keep, arith, inl, inr, All, All-keep, All-zip, All-drop, All-true, any-append, any-map, any-keep,
  Option-cases, if_intro,
}
use locus_pi.Common.Text.{Text, text_eq, text_eq_iff}
use locus_pi.Runs.Records.{
  Run, Lease, Registry, Settlement, empty, is_settled, session_key, lease_key, get_session,
  host_abort, operator_stop, settled_run_limit,
}
use locus_pi.Runs.Queries.{select_run}
use locus_pi.Runs.Queries.Order.{newest_first-All}
use locus_pi.Runs.Numbering.{
  WellNumbered, Twins, Numbered-Twins, step-WellNumbered, empty-WellNumbered, run-WellNumbered,
  update_run-WellNumbered,
}
use locus_pi.Runs.Defs.{
  abort, request_stop, revoke_run, revoke_generation, start_session, new_run, start_run, launch,
  attach, update_run, with_run_id, set_run_id, follows, host_aborts, settle, prune_settled_runs,
  settle_run, stop, shutdown, Event, starts_session, launches, attaches, names_run,
  fires_host_signal, settles, stops, shuts_down, step, run, doomed, is_among,
}

-- The event is no settlement of the run.
abbrev pub Spares : Text → Event → Type 0
Spares i (settles j s) = text_eq i j ≡ false
Spares i e = Unit

-- A run of the map with this launch id that has not settled.
abbrev pub is_present : Text → List Run → Bool
is_present i = any (λ r. text_eq r.launch_id i && not (is_settled r.state))

-- A run that has not settled is not among those that pruning deletes.
kept :
    (rs gone : List Run)
    → All (Twins rs) gone
    → All (λ d. is_settled d.state ≡ true) gone
    → All (λ r. is_settled r.state ≡ false → is_among r.launch_id gone ≡ false) rs
kept rs [] w d = All-true _ rs (λ r _. refl)
kept rs (g ∷ gone) w d =
    All-zip _ _ _
      (λ r twin rest open_run. ground (
        arith,
        rest open_run,
        twin,
        d.0,
        text_eq_iff r.launch_id g.launch_id,
        text_eq_iff g.launch_id r.launch_id,
      ))
      rs w.0 (kept rs gone w.1 d.1)

keep-All : (p : Run → Bool) (rs : List Run) → All (λ r. p r ≡ true) (keep p rs)
keep-All p [] = tt
keep-All p (r ∷ rs) =
    if_intro (All λ q. p q ≡ true) (p r) (λ h. (h, keep-All p rs)) (λ _. keep-All p rs)

doomed-All {ℓ} :
    (P : Run → Type ℓ) (rs : List Run)
    → All P (keep (λ r. is_settled r.state) rs)
    → All P (doomed rs)
doomed-All P rs a = All-drop P settled_run_limit _ (newest_first-All P _ a)

prune-is_present :
    (state : Registry) (i : Text)
    → WellNumbered state
    → is_present i state.runs ≡ true
    → is_present i (prune_settled_runs state).runs ≡ true
unfolding prune_settled_runs
prune-is_present state i v h =
    let twins = Numbered-Twins 0 state.next_run state.runs v in
    let w =
      doomed-All (Twins state.runs) state.runs
        (All-keep (Twins state.runs) (λ r. is_settled r.state) state.runs twins) in
    let d =
      doomed-All (λ r. is_settled r.state ≡ true) state.runs
        (keep-All (λ r. is_settled r.state) state.runs) in
    let k = kept state.runs (doomed state.runs) w d in
    any-keep _ _ state.runs (All-zip _ _ _ (λ r e _ present. ground (arith, e)) state.runs k k) h

module _ (i : Text) where
  abbrev Present : Registry → Type 0
  Present state = is_present i state.runs ≡ true

  abbrev is_one : Run → Bool
  is_one r = text_eq r.launch_id i && not (is_settled r.state)

  revoke_generation-Present :
      (state : Registry) (k : Text) (g : ℕ) → Present state → Present (revoke_generation state k g)
  unfolding revoke_generation
  revoke_generation-Present state k g h =
      any-map is_one (revoke_run k g) state.runs (λ r e. ground arith) h

  start_session-Present :
      (state : Registry) (a b : Text) → Present state → Present (start_session state a b).0
  unfolding start_session
  start_session-Present state a b h =
      elim (Option-cases (get_session (session_key a b) state.sessions)) [
        | inl first ↦ rw (first, start_session) h
        | inr (old, found) ↦
            rw (found, start_session)
              (if_intro Present old.revoked {x = state} (λ _. h)
                (λ _. revoke_generation-Present state (session_key a b) old.generation h))
      ]

  start_run-Present :
      (state : Registry) (l : Lease) (exclusive : Bool) (g : Option ℕ) (fired : List ℕ)
      → Present state
      → Present (start_run state l exclusive g fired).0
  unfolding start_run
  start_run-Present state l exclusive g fired h =
      any-append is_one state.runs (new_run state l exclusive g fired ∷ []) h

  settle_run-Present :
      (state : Registry) (j : Text) (s : Settlement)
      → WellNumbered state
      → text_eq i j ≡ false
      → Present state
      → Present (settle_run state j s)
  unfolding settle_run
  settle_run-Present state j s v other h =
      prune-is_present (record state { runs = update_run j (settle s) state.runs }) i
        (update_run-WellNumbered state j (settle s) (λ r. (refl, refl)) v)
        (any-map is_one (λ r. if text_eq r.launch_id j then settle s r else r) state.runs
          (λ r e. ground (arith, text_eq_iff r.launch_id i)) h)

  stop-Present :
      (state : Registry) (l : Lease) (t : Text) → Present state → Present (stop state l t).0
  unfolding stop
  stop-Present state l t h = elim (Option-cases (select_run state l t)) [
    | inl missing ↦ ground arith
    | inr (r, found) ↦ ground (
      arith,
      any-map is_one
          (λ q. if text_eq q.launch_id r.launch_id then request_stop operator_stop q else q)
          state.runs (λ q e. ground arith) h,
    )
  ]

  step-Present :
      (state : Registry) (e : Event)
      → WellNumbered state
      → Spares i e
      → Present state
      → Present (step state e)
  unfolding step
  step-Present state (starts_session a b) v s h = start_session-Present state a b h
  step-Present state (launches l) v s h =
      unfold launch in ground (arith, start_run-Present state l true none [] h)
  step-Present state (attaches l g fired) v s h =
      unfold attach in ground (arith, start_run-Present state l false (some g) fired h)
  step-Present state (names_run j t) v s h =
      unfold set_run_id in
      ground (
        arith,
        any-map is_one (λ r. if text_eq r.launch_id j then with_run_id t r else r) state.runs
            (λ r e. ground arith) h,
      )
  step-Present state (fires_host_signal g) v s h =
      unfold host_aborts in
      any-map is_one (λ r. if follows g r.host_signal then abort (host_abort g) r else r) state.runs
        (λ r e. ground arith) h
  step-Present state (settles j t) v s h = settle_run-Present state j t v s h
  step-Present state (stops l t) v s h = stop-Present state l t h
  step-Present state (shuts_down l) v s h =
      unfold shutdown in
      ground (arith, revoke_generation-Present state (lease_key l) l.generation h)

  run-Present :
      (state : Registry) (es : List Event)
      → WellNumbered state
      → All (Spares i) es
      → Present state
      → Present (run state es)
  unfolding run
  run-Present state [] v s h = h
  run-Present state (e ∷ es) v s h =
      run-Present (step state e) es (step-WellNumbered state e v) s.1 (step-Present state e v s.0 h)

-- An unsettled run of a reachable registry stays in it, unsettled, through every later sequence of
-- events that does not settle it: pruning, stops and session changes never drop it.
pub run-is_present :
    (i : Text) (before after : List Event)
    → is_present i (run empty before).runs ≡ true
    → All (Spares i) after
    → is_present i (run (run empty before) after).runs ≡ true
run-is_present i before after h s =
    run-Present i (run empty before) after (run-WellNumbered empty before empty-WellNumbered) s h
