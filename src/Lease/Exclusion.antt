-- ===== src/Lease/Exclusion.antt =====
-- workflow-location-lease.ts: without --force a workspace has one live owner, but for one window.
use locus_pi.Common.{
  ℕ, ◌≡◌, refl, sym, ap, ◌∙◌, Bool, true, false, some, ==_iff, List, [], ◌∷◌, arith, if_intro,
}
use locus_pi.Lease.Records.{inspect_lease_owner, lease_may_be_reclaimed, holding}
use locus_pi.Lease.Moves.{owned_by, succeed, fault}
use locus_pi.Lease.Protocol.{
  World, Event, succeeds, faults, releases, crashes, step, run, start, act, actor, may_reclaim_from,
  assert_workflow_root_lease, begin_release, inspected,
}
use locus_pi.Lease.Claims.{owns, succeed_relies, fault_relies, succeed-Spares, fault-Spares}
use locus_pi.Lease.Soundness.{
  AllSound, IsTimely, put_sound, release-Kept, release-Spares, crash_sound, judged-inspected,
}

module _ (is_visible is_complete : ℕ → Bool) where
  abbrev unforced : ℕ → Bool
  unforced i = false

  reclaim_dead :
      (w : World) (i d : ℕ)
      → may_reclaim_from unforced is_visible is_complete w i (some d) ≡ true
      → w.crashed d ≡ true
  unfolding lease_may_be_reclaimed inspect_lease_owner
  reclaim_dead w i d h = ground arith

  act_sound :
      (e : Event) (w : World)
      → w.crashed (actor e) ≡ false
      → IsTimely e w
      → AllSound w
      → AllSound (act unforced is_visible is_complete e w)
  act_sound (succeeds i) w live timely all =
      let pc = w.pcs i in
      let free = may_reclaim_from unforced is_visible is_complete w i (inspected pc) in
      put_sound w i live all (succeed i free w.lock w.guard pc) free
        (succeed_relies i free w.lock w.guard pc (all i live).0)
        (λ h d j. reclaim_dead w i d (
          ap (may_reclaim_from unforced is_visible is_complete w i) (sym (judged-inspected pc d j))
          ∙ h))
        (succeed-Spares i free w.lock w.guard pc (all i live).0)
  act_sound (faults i late) w live timely all =
      put_sound w i live all (fault late w.lock w.guard (w.pcs i)) false
        (fault_relies i late false w.lock w.guard (w.pcs i) (all i live).0) (λ h. absurd (cc))
        (fault-Spares i late w.lock w.guard (w.pcs i) (all i live).0)
  act_sound (releases i) w live timely all =
      put_sound w i live all
        (record { lock = w.lock; guard = w.guard; pc = begin_release (w.pcs i) }) false
        (release-Kept i w.lock w.guard (w.pcs i) (all i live).0) (λ h. absurd (cc))
        (release-Spares i w.lock w.guard (w.pcs i))
  act_sound (crashes i) w live timely all = crash_sound i w timely all

  step_sound :
      (e : Event) (w : World)
      → IsTimely e w
      → AllSound w
      → AllSound (step unforced is_visible is_complete e w)
  unfolding step
  step_sound e w timely all =
      if_intro AllSound (w.crashed (actor e)) {x = w} {y = act unforced is_visible is_complete e w}
        (λ gone. all) (λ live. act_sound e w live timely all)

  abbrev pub AreTimely : List Event → World → Type 0
  AreTimely [] w = Unit {0}
  AreTimely (e ∷ es) w = IsTimely e w × AreTimely es (step unforced is_visible is_complete e w)

  run_sound :
      (es : List Event) (w : World)
      → AreTimely es w
      → AllSound w
      → AllSound (run unforced is_visible is_complete es w)
  unfolding run
  run_sound [] w timely all = all
  run_sound (e ∷ es) w (now, later) all =
      run_sound es (step unforced is_visible is_complete e w) later (step_sound e w now all)

  start_sound : AllSound start
  start_sound i live =
      (((λ h. absurd (cc)), (λ h. absurd (cc))), ((λ h. absurd (cc)), λ d h gone. absurd (cc)))

  -- Mutual exclusion: when no launch uses --force, and no process dies between the read of its record
  -- by a launch that holds the guard and the test of its liveness that follows, then in every
  -- interleaving of any number of acquisitions and releases, with operations that fail and processes
  -- that die at any other point, two live processes that hold the lease are the same, and the lease
  -- file still carries the holder's record, so that its assertion passes.
  pub run-start-exclusive :
      (es : List Event) (i j : ℕ)
      → AreTimely es start
      → (run unforced is_visible is_complete es start).pcs i ≡ holding
      → (run unforced is_visible is_complete es start).pcs j ≡ holding
      → (run unforced is_visible is_complete es start).crashed i ≡ false
      → (run unforced is_visible is_complete es start).crashed j ≡ false
      → (i ≡ j)
        × (assert_workflow_root_lease i (run unforced is_visible is_complete es start) ≡ true)
  run-start-exclusive es i j timely hi hj li lj =
      let w = run unforced is_visible is_complete es start in
      let all = run_sound es start timely start_sound in
      let owner_i : w.lock ≡ some i = (all i li).0.0 (ap owns hi) in
      let owner_j : w.lock ≡ some j = (all j lj).0.0 (ap owns hj) in
      (ground arith, ap (owned_by i) owner_i ∙ (==_iff i i).1 refl)
