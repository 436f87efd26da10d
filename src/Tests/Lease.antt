-- ===== src/Tests/Lease.antt =====
-- The workspace lease at concrete inputs.
use locus_pi.Common.{
  ℕ, zero, suc, ◌≡◌, refl, Bool, true, false, none, some, ◌==◌, if◌then◌else◌, List, [], ◌∷◌, arith,
}
use locus_pi.Lease.Records.{
  holding, acquiring, undoing, inspect_lease_owner, lease_may_be_reclaimed,
}
use locus_pi.Lease.Moves.{succeed, fault}
use locus_pi.Lease.Protocol.{
  World, Event, succeeds, releases, crashes, step, run, start, assert_workflow_root_lease,
}
use locus_pi.Lease.Exclusion.{run-start-exclusive, AreTimely}
use locus_pi.Lease.Rank.{is_settled}
use locus_pi.Lease.Settling.{run-is_settled}

abbrev nobody : ℕ → Bool
nobody i = false

abbrev everybody : ℕ → Bool
everybody i = true

leases : Unit {0}
unfolding run step succeed fault inspect_lease_owner lease_may_be_reclaimed
leases = tt

-- The owner dies; the next process reads its lease, takes the guard, renames the lease away and
-- writes its own.
abbrev takeover : List Event
takeover =
    succeeds 0
    ∷ crashes 0
    ∷ succeeds 1
    ∷ succeeds 1
    ∷ succeeds 1
    ∷ succeeds 1
    ∷ succeeds 1
    ∷ succeeds 1
    ∷ succeeds 1
    ∷ succeeds 1
    ∷ succeeds 1
    ∷ succeeds 1
    ∷ succeeds 1
    ∷ []

abbrev after_takeover : World
after_takeover = run nobody everybody nobody takeover start

takeover_test :
    (after_takeover.pcs 1 ≡ holding)
    × (after_takeover.lock ≡ some 1)
    × (after_takeover.guard ≡ none)
unfolding leases
takeover_test = (refl, refl, refl)

-- Nobody reads the first record before its process has died.
takeover_timely : AreTimely everybody nobody takeover start
unfolding leases
takeover_timely = (
  tt,
  (λ j live e. ground arith, (tt, (tt, (tt, (tt, (tt, (tt, (tt, (tt, (tt, (tt, (tt, tt)))))))))))),
)

run-start-exclusive_example :
    (◌≡◌ {A = ℕ} 1 1) × (assert_workflow_root_lease 1 after_takeover ≡ true)
unfolding leases
run-start-exclusive_example =
    run-start-exclusive everybody nobody takeover 1 1 takeover_timely refl refl refl refl

-- A live owner whose run is complete; a forced launch has found it so when the owner releases its
-- lease and a third process takes it. The forced launch then renames that lease away.
abbrev only_first : ℕ → Bool
only_first i = i == 0

abbrev only_second : ℕ → Bool
only_second i = i == 1

abbrev race : List Event
race =
    succeeds 0
    ∷ succeeds 1
    ∷ succeeds 1
    ∷ succeeds 1
    ∷ succeeds 1
    ∷ succeeds 1
    ∷ succeeds 1
    ∷ releases 0
    ∷ succeeds 0
    ∷ succeeds 0
    ∷ succeeds 2
    ∷ succeeds 1
    ∷ succeeds 1
    ∷ succeeds 1
    ∷ succeeds 1
    ∷ succeeds 1
    ∷ []

abbrev after_race : World
after_race = run only_second everybody only_first race start

-- Both then hold the lease, and the third process's assertion fails.
race_test :
    (after_race.pcs 1 ≡ holding)
    × (after_race.pcs 2 ≡ holding)
    × (assert_workflow_root_lease 2 after_race ≡ false)
unfolding leases
race_test = (refl, refl, refl)

-- Without --force: a launch has read a record under the guard when that process releases its lease, a
-- third one takes it, and the first one exits. The launch finds it dead, and renames the third one's
-- lease away.
abbrev times : ℕ → ℕ → List Event → List Event
times zero i rest = rest
times (suc n) i rest = succeeds i ∷ times n i rest

abbrev exit_race : List Event
exit_race =
    succeeds 0
    ∷ crashes 0
    ∷ times 3 1
        (times 11 2 (times 2 1 (releases 2 ∷ times 2 2 (succeeds 3 ∷ crashes 2 ∷ times 6 1 []))))

abbrev after_exit_race : World
after_exit_race = run nobody everybody nobody exit_race start

exit_race_test :
    (after_exit_race.pcs 1 ≡ holding)
    × (after_exit_race.pcs 3 ≡ holding)
    × (after_exit_race.crashed 1 ≡ false)
    × (after_exit_race.crashed 3 ≡ false)
    × (assert_workflow_root_lease 3 after_exit_race ≡ false)
unfolding leases
exit_race_test = (refl, refl, refl, refl, refl)

-- The guard could not be removed, and the process gives its new lease back; another one tries to
-- acquire it meanwhile.
abbrev undone : World
undone = record {
  lock = some 1;
  guard = some 1;
  crashed = nobody;
  pcs = λ j. if j == 1 then undoing false else acquiring 0;
}

abbrev last_events : List Event
last_events = succeeds 1 ∷ succeeds 2 ∷ succeeds 1 ∷ []

run-is_settled_example : is_settled ((run nobody everybody nobody last_events undone).pcs 1) ≡ true
run-is_settled_example =
    run-is_settled nobody everybody nobody 1 last_events undone (refl, (refl, (refl, tt))) refl
      (ground arith)

undone_test : (run nobody everybody nobody last_events undone).lock ≡ none
unfolding leases
undone_test = refl
