-- ===== src/Lease/Protocol.antt =====
-- workflow-location-lease.ts: the interleavings of the processes.
use locus_pi.Common.{ℕ, Bool, true, false, Option, none, some, ◌==◌, List, [], ◌∷◌, if◌then◌else◌}
use locus_pi.Lease.Records.{
  Liveness, alive, dead, unverifiable, inspect_lease_owner, lease_may_be_reclaimed, Pc, acquiring,
  inspecting, judging, holding, releasing, Move,
}
use locus_pi.Lease.Moves.{owned_by, succeed, fault}

pub record World : Type 0 where
  pub lock : Option ℕ
  pub guard : Option ℕ
  pub crashed : ℕ → Bool
  pub pcs : ℕ → Pc

-- Each process runs one operation, throws in it, begins its release, or dies.
pub data Event : Type 0 where
  succeeds : ℕ → Event
  faults : ℕ → Bool → Event
  releases crashes : ℕ → Event

abbrev pub put : ℕ → Move → World → World
put i m w = record w { lock = m.lock; guard = m.guard; pcs = λ j. if j == i then m.pc else w.pcs j }

-- The process whose record was read, when its liveness is tested next.
abbrev pub inspected : Pc → Option ℕ
inspected (inspecting n d) = some d
inspected (judging n d) = some d
inspected _ = none

-- A release of a lease that is held.
abbrev pub begin_release : Pc → Pc
begin_release holding = releasing false
begin_release pc = pc

abbrev pub actor : Event → ℕ
actor (succeeds i) = i
actor (faults i late) = i
actor (releases i) = i
actor (crashes i) = i

-- `force`: the process was launched with --force. `is_visible`: the host may signal the process.
-- `is_complete`: its run has a complete terminal result.
module _ (force is_visible is_complete : ℕ → Bool) where
  -- `processLiveness`; a process that reuses a dead owner's pid is a live owner.
  abbrev pub process_liveness : World → ℕ → Liveness
  process_liveness w d = if is_visible d then if w.crashed d then dead else alive else unverifiable

  abbrev pub may_reclaim_from : World → ℕ → Option ℕ → Bool
  may_reclaim_from w i none = false
  may_reclaim_from w i (some d) =
      lease_may_be_reclaimed (force i) (inspect_lease_owner (process_liveness w d) (is_complete d))

  abbrev pub act : Event → World → World
  act (succeeds i) w =
      put i (succeed i (may_reclaim_from w i (inspected (w.pcs i))) w.lock w.guard (w.pcs i)) w
  act (faults i late) w = put i (fault late w.lock w.guard (w.pcs i)) w
  act (releases i) w =
      put i (record { lock = w.lock; guard = w.guard; pc = begin_release (w.pcs i) }) w
  act (crashes i) w = record w { crashed = λ j. if j == i then true else w.crashed j }

  -- A dead process does nothing.
  unfoldable pub step : Event → World → World
  unfolding succeed fault
  step e w = if w.crashed (actor e) then w else act e w

  unfoldable pub run : List Event → World → World
  unfolding step
  run [] w = w
  run (e ∷ es) w = run es (step e w)

-- No file is there, and every process is at its first attempt.
abbrev pub start : World
start = record { lock = none; guard = none; crashed = λ i. false; pcs = λ i. acquiring 0 }

-- `assertWorkflowRootLease`
abbrev pub assert_workflow_root_lease : ℕ → World → Bool
assert_workflow_root_lease i w = owned_by i w.lock
