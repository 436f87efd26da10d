-- ===== src/Runs/Ending.antt =====
-- background-run-registry.ts: what the lease of an ended session still does.
use locus_pi.Common.{
  ℕ, ◌<◌, ◌≡◌, sym, subst, false, List, [], ◌∷◌, none, arith, inl, inr, Option-cases,
}
use locus_pi.Common.Text.{Text, text_eq_refl}
use locus_pi.Runs.Records.{Lease, Registry, lease_key, Session, get_session, is_current_lease}
use locus_pi.Runs.Queries.{select_run, active, unsettled}
use locus_pi.Runs.Defs.{
  revoke_generation, revoke_previous, start_session, launch, attach, set_run_id, host_aborts,
  settle_run, stop, shutdown, Event, starts_session, launches, attaches, stale_lease, unknown,
  names_run, fires_host_signal, settles, stops, shuts_down, step, run,
}
use locus_pi.Runs.Sessions.{run-IsStale, get_session-set_session, get_session-delete_session}

-- The event ends the lease's session: it starts the session anew, or shuts the lease down.
abbrev pub IsEnd : Lease → Event → Type 0
IsEnd l (starts_session a b) = (a ≡ l.project_root) × (b ≡ l.session_id)
IsEnd l (shuts_down m) = m ≡ l
IsEnd l (launches m) = ⊥
IsEnd l (attaches m g fired) = ⊥
IsEnd l (names_run i t) = ⊥
IsEnd l (fires_host_signal g) = ⊥
IsEnd l (settles i s) = ⊥
IsEnd l (stops m t) = ⊥

-- Generations are numbered upwards.
generation-step :
    (n : ℕ) (state : Registry) (e : Event)
    → n < state.next_generation
    → n < (step state e).next_generation
unfolding step
generation-step n state (starts_session a b) h = unfold start_session in (omega arith)
generation-step n state (launches m) h = unfold launch in (ground arith)
generation-step n state (attaches m g fired) h = unfold attach in (ground arith)
generation-step n state (names_run i t) h = unfold set_run_id in (ground arith)
generation-step n state (fires_host_signal g) h = unfold host_aborts in h
generation-step n state (settles i s) h = unfold settle_run in h
generation-step n state (stops m t) h =
    unfold stop in
    (elim (Option-cases (select_run state m t)) [
      | inl missing ↦ ground arith
      | inr (r, found) ↦ ground arith
    ])
generation-step n state (shuts_down m) h = unfold shutdown revoke_generation in (ground arith)

generation-run :
    (n : ℕ) (state : Registry) (es : List Event)
    → n < state.next_generation
    → n < (run state es).next_generation
unfolding run
generation-run n state [] h = h
generation-run n state (e ∷ es) h = generation-run n (step state e) es (generation-step n state e h)

-- A session that is started anew has a later generation.
restarted_stale :
    (state : Registry) (l : Lease)
    → l.generation < state.next_generation
    → is_current_lease (start_session state l.project_root l.session_id).0 l ≡ false
unfolding start_session is_current_lease
restarted_stale state l h =
    let k = lease_key l in
    let before = revoke_previous state k (get_session k state.sessions) in
    let new : Session = record { key = k; generation = state.next_generation; revoked = false } in
    rw (get_session-set_session new k before.sessions) (ground (arith, text_eq_refl k))

shutdown_stale : (state : Registry) (l : Lease) → is_current_lease (shutdown state l) l ≡ false
unfolding shutdown is_current_lease
shutdown_stale state l =
    let k = lease_key l in
    ground (
      arith,
      text_eq_refl k,
      get_session-delete_session k k (revoke_generation state k l.generation).sessions,
    )

end-stale :
    (state : Registry) (l : Lease) (e : Event)
    → IsEnd l e
    → l.generation < state.next_generation
    → is_current_lease (step state e) l ≡ false
unfolding step
end-stale state l (starts_session a b) (p, q) h =
    subst (λ x. is_current_lease (start_session state x b).0 l ≡ false) (sym p)
      (subst (λ y. is_current_lease (start_session state l.project_root y).0 l ≡ false) (sym q)
        (restarted_stale state l h))
end-stale state l (shuts_down m) p h =
    subst (λ x. is_current_lease (shutdown state x) l ≡ false) (sym p) (shutdown_stale state l)
end-stale state l (launches m) p h = absurd p
end-stale state l (attaches m g fired) p h = absurd p
end-stale state l (names_run i t) p h = absurd p
end-stale state l (fires_host_signal g) p h = absurd p
end-stale state l (settles i s) p h = absurd p
end-stale state l (stops m t) p h = absurd p

refused :
    (state : Registry) (l : Lease) (g : ℕ) (fired : List ℕ) (t : Text)
    → is_current_lease state l ≡ false
    → (launch state l ≡ (state, stale_lease))
      × (attach state l g fired ≡ (state, stale_lease))
      × (stop state l t ≡ (state, unknown))
      × (shutdown state l ≡ state)
      × (active state l ≡ none)
      × (unsettled state l ≡ [])
unfolding launch attach stop shutdown active unsettled
refused state l g fired t h =
    (ground arith, ground arith, ground arith, ground arith, ground arith, ground arith)

-- An ended session stays ended: take the lease that starting a session returns, and let any calls
-- follow, then one that starts that session anew or shuts the lease down, and any calls after it. From
-- then on the lease launches, attaches and stops nothing, its shutdown changes nothing, and it sees
-- no active and no unsettled run; each of these calls leaves the registry as it was.
pub start_session-ended :
    (state : Registry) (root session : Text) (es : List Event) (e : Event) (later : List Event)
    (g : ℕ) (fired : List ℕ) (t : Text)
    → IsEnd (start_session state root session).1 e
    → let l = (start_session state root session).1 in
      let end = run (step (run (start_session state root session).0 es) e) later in
      (launch end l ≡ (end, stale_lease))
      × (attach end l g fired ≡ (end, stale_lease))
      × (stop end l t ≡ (end, unknown))
      × (shutdown end l ≡ end)
      × (active end l ≡ none)
      × (unsettled end l ≡ [])
start_session-ended state root session es e later g fired t f =
    let l = (start_session state root session).1 in
    let before = run (start_session state root session).0 es in
    let handed_out =
      generation-run l.generation (start_session state root session).0 es
        (unfold start_session in (omega arith)) in
    refused (run (step before e) later) l g fired t
      (run-IsStale l (step before e) later
        (generation-step l.generation before e handed_out, end-stale before l e f handed_out)).1
