-- ===== src/Runs/Sessions.antt =====
-- background-run-registry.ts: leases and generations of a session.
use locus_pi.Common.{
  ℕ, ◌<◌, ◌≡◌, refl, Bool, true, false, List, [], ◌∷◌, Option, none, some, if◌then◌else◌, map,
  arith, inl, inr, All, Option-cases, if_intro,
}
use locus_pi.Common.Text.{Text, text_eq, text_eq_iff, text_eq_refl}
use locus_pi.Runs.Records.{
  Run, Lease, Registry, is_live, session_key, lease_key, get_session, set_session, delete_session,
  Session, is_current_lease, stopping, AbortReason,
}
use locus_pi.Runs.Queries.{select_run}
use locus_pi.Runs.Defs.{
  revoke_run, is_hit, revoke_in, revoke_generation, revoke_previous, start_session, launch, attach,
  set_run_id, host_aborts, settle_run, stop, shutdown, Event, starts_session, launches, attaches,
  names_run, fires_host_signal, settles, stops, shuts_down, step, run,
}

pub get_session-set_session :
    (new : Session) (k : Text) (ss : List Session)
    → get_session k (set_session new ss)
      ≡ (if text_eq new.key k then some new else get_session k ss)
get_session-set_session new k [] = refl
get_session-set_session new k (s ∷ ss) = ground (
  arith,
  get_session-set_session new k ss,
  text_eq_iff s.key new.key,
  text_eq_iff s.key k,
  text_eq_iff new.key k,
)

pub get_session-delete_session :
    (gone k : Text) (ss : List Session)
    → get_session k (delete_session gone ss) ≡ (if text_eq gone k then none else get_session k ss)
get_session-delete_session gone k [] = ground arith
get_session-delete_session gone k (s ∷ ss) = ground (
  arith,
  get_session-delete_session gone k ss,
  text_eq_iff s.key gone,
  text_eq_iff s.key k,
  text_eq_iff gone k,
)

-- Revoking a generation makes no lease current.
stale-revoke_in :
    (g : ℕ) (k other : Text) (n : ℕ) (ss : List Session)
    → is_live g (get_session k ss) ≡ false
    → is_live g (get_session k (revoke_in other n ss)) ≡ false
stale-revoke_in g k other n [] h = h
stale-revoke_in g k other n (s ∷ ss) h = ground (arith, stale-revoke_in g k other n ss)

-- The generation that is revoked is not current any more.
revoke_in-stale :
    (g : ℕ) (k : Text) (ss : List Session) → is_live g (get_session k (revoke_in k g ss)) ≡ false
revoke_in-stale g k [] = refl
revoke_in-stale g k (s ∷ ss) = ground (arith, revoke_in-stale g k ss)

module _ (l : Lease) where
  -- The lease was handed out before, and is not current.
  abbrev pub IsStale : Registry → Type 0
  IsStale state = (l.generation < state.next_generation) × (is_current_lease state l ≡ false)

  revoke_generation-IsStale :
      (state : Registry) (k : Text) (g : ℕ) → IsStale state → IsStale (revoke_generation state k g)
  unfolding revoke_generation is_current_lease
  revoke_generation-IsStale state k g h =
      (h.0, stale-revoke_in l.generation (lease_key l) k g state.sessions h.1)

  revoke_previous-IsStale :
      (state : Registry) (k : Text) (o : Option Session)
      → IsStale state
      → IsStale (revoke_previous state k o)
  revoke_previous-IsStale state k none h = h
  revoke_previous-IsStale state k (some old) h =
      if_intro IsStale old.revoked {x = state} (λ _. h)
        (λ _. revoke_generation-IsStale state k old.generation h)

  start_session-IsStale :
      (state : Registry) (a b : Text) → IsStale state → IsStale (start_session state a b).0
  unfolding start_session is_current_lease
  start_session-IsStale state a b h =
      let k = session_key a b in
      let before = revoke_previous state k (get_session k state.sessions) in
      let new : Session = record { key = k; generation = state.next_generation; revoked = false } in
      let w = revoke_previous-IsStale state k (get_session k state.sessions) h in
      (omega arith, rw (get_session-set_session new (lease_key l) before.sessions) (ground arith))

  shutdown-IsStale : (state : Registry) (m : Lease) → IsStale state → IsStale (shutdown state m)
  unfolding shutdown is_current_lease
  shutdown-IsStale state m h =
      let w = revoke_generation-IsStale state (lease_key m) m.generation h in
      ground (
        arith,
        w,
        get_session-delete_session (lease_key m) (lease_key l)
            (revoke_in (lease_key m) m.generation state.sessions),
      )

  stop-IsStale :
      (state : Registry) (m : Lease) (t : Text) → IsStale state → IsStale (stop state m t).0
  unfolding stop is_current_lease
  stop-IsStale state m t h = elim (Option-cases (select_run state m t)) [
    | inl missing ↦ ground arith
    | inr (r, found) ↦ ground arith
  ]

  step-IsStale : (state : Registry) (e : Event) → IsStale state → IsStale (step state e)
  unfolding step is_current_lease
  step-IsStale state (starts_session a b) h = start_session-IsStale state a b h
  step-IsStale state (launches m) h = unfold launch in ground arith
  step-IsStale state (attaches m g fired) h = unfold attach in ground arith
  step-IsStale state (names_run i t) h = unfold set_run_id in ground arith
  step-IsStale state (fires_host_signal g) h = unfold host_aborts in h
  step-IsStale state (settles i s) h = unfold settle_run in h
  step-IsStale state (stops m t) h = stop-IsStale state m t h
  step-IsStale state (shuts_down m) h = shutdown-IsStale state m h

  -- A lease that was handed out and is not current never becomes current again.
  pub run-IsStale : (state : Registry) (es : List Event) → IsStale state → IsStale (run state es)
  unfolding run
  run-IsStale state [] h = h
  run-IsStale state (e ∷ es) h = run-IsStale (step state e) es (step-IsStale state e h)

abbrev has_reason : Option AbortReason → Bool
has_reason none = false
has_reason (some reason) = true

-- An unsettled run of the generation has been told to stop.
abbrev pub IsStopped : Text → ℕ → Run → Type 0
IsStopped k g r =
    is_hit k g r ≡ true
    → (r.state ≡ stopping) × (r.stop_requested ≡ true) × (has_reason r.aborted ≡ true)

revoked_run-All : (k : Text) (g : ℕ) (rs : List Run) → All (IsStopped k g) (map (revoke_run k g) rs)
revoked_run-All k g [] = tt
revoked_run-All k g (r ∷ rs) = (ground arith, revoked_run-All k g rs)

-- Starting a session anew supersedes its current lease: that lease is current no longer, and each
-- of its generation's unsettled runs is stopping, with a stop requested and its signal aborted.
pub start_session_supersedes :
    (state : Registry) (l : Lease)
    → l.generation < state.next_generation
    → is_current_lease state l ≡ true
    → let next = (start_session state l.project_root l.session_id).0 in
      (is_current_lease next l ≡ false) × All (IsStopped (lease_key l) l.generation) next.runs
unfolding start_session is_current_lease
start_session_supersedes state l i h =
    elim (Option-cases (get_session (lease_key l) state.sessions)) [
      | inl first ↦ absurd (ground arith)
      | inr (old, found) ↦
          let k = lease_key l in
          let before = revoke_previous state k (get_session k state.sessions) in
          let new : Session = record {
            key = k;
            generation = state.next_generation;
            revoked = false;
          } in
          let open_one : old.revoked ≡ false = ground arith in
          let same : old.generation ≡ l.generation = ground arith in
          (
            rw (get_session-set_session new k before.sessions) (ground (arith, text_eq_refl k)),
            rw (found, open_one, same, revoke_generation)
                (revoked_run-All k l.generation state.runs),
          )
    ]
