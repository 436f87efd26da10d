-- ===== src/Lease/Moves.antt =====
-- workflow-location-lease.ts: one operation of an acquisition, and of a release.
use locus_pi.Common.{ℕ, ◌+◌, Bool, true, false, ◌&&◌, Option, none, some, ◌==◌, ltb, if◌then◌else◌}
use locus_pi.Lease.Records.{
  Outcome, held, retried, refused, Pc, acquiring, reading, inspecting, judging, guarding, awaiting,
  guarded, renaming, recreating, losing, cleaning, rolling_back, unguarding, undoing, releasing,
  holding, released, failed, Move,
}

-- `LEASE_ACQUISITION_ATTEMPTS`
abbrev pub lease_acquisition_attempts : ℕ
lease_acquisition_attempts = 6

-- `LEASE_OWNER_READ_ATTEMPTS`
abbrev pub lease_owner_read_attempts : ℕ
lease_owner_read_attempts = 20

-- `continue`
abbrev pub retry : ℕ → Pc
retry n = if ltb (n + 1) lease_acquisition_attempts then acquiring (n + 1) else failed

-- The next round of `waitForReclaimGuard`.
abbrev pub await_next : ℕ → ℕ → Pc
await_next n k = if ltb (k + 1) lease_owner_read_attempts then awaiting n (k + 1) else failed

-- The end of `tryAcquireReclaimGuard` once the guard is gone.
abbrev pub finish : ℕ → Outcome → Pc
finish n held = holding
finish n retried = retry n
finish n refused = failed

-- The guard could not be removed.
abbrev pub cleanup_failed : Outcome → Pc
cleanup_failed held = undoing false
cleanup_failed retried = failed
cleanup_failed refused = failed

-- The stale file could not be removed.
abbrev pub stale_cleanup_failed : ℕ → Outcome → Pc
stale_cleanup_failed n held = rolling_back n false
stale_cleanup_failed n retried = unguarding n refused false
stale_cleanup_failed n refused = unguarding n refused false

abbrev pub owned_by : ℕ → Option ℕ → Bool
owned_by i none = false
owned_by i (some d) = d == i

-- `i` is the process, `may_reclaim` what it finds of the owner of the lease that it has read.
module _ (i : ℕ) (may_reclaim : Bool) where
  abbrev guard_removal : ℕ → Outcome → Option ℕ → Pc
  guard_removal n o none = finish n o
  guard_removal n o (some d) = if d == i then unguarding n o true else cleanup_failed o

  unfoldable pub succeed : Option ℕ → Option ℕ → Pc → Move
  succeed none g (acquiring n) = record { lock = some i; guard = g; pc = holding }
  succeed (some d) g (acquiring n) = record { lock = some d; guard = g; pc = reading n }
  succeed none g (reading n) = record { lock = none; guard = g; pc = retry n }
  succeed (some d) g (reading n) = record { lock = some d; guard = g; pc = inspecting n d }
  succeed l g (inspecting n d) = record {
    lock = l;
    guard = g;
    pc = if may_reclaim then guarding n else failed;
  }
  succeed l none (guarding n) = record { lock = l; guard = some i; pc = guarded n }
  succeed l (some d) (guarding n) = record { lock = l; guard = some d; pc = awaiting n 0 }
  succeed l none (awaiting n k) = record { lock = l; guard = none; pc = retry n }
  succeed l (some d) (awaiting n k) = record { lock = l; guard = some d; pc = await_next n k }
  succeed none g (guarded n) = record { lock = none; guard = g; pc = unguarding n retried false }
  succeed (some d) g (guarded n) = record { lock = some d; guard = g; pc = judging n d }
  succeed l g (judging n d) = record {
    lock = l;
    guard = g;
    pc = if may_reclaim then renaming n else unguarding n refused false;
  }
  succeed none g (renaming n) = record { lock = none; guard = g; pc = unguarding n retried false }
  succeed (some d) g (renaming n) = record { lock = none; guard = g; pc = recreating n }
  succeed none g (recreating n) = record { lock = some i; guard = g; pc = cleaning n held }
  succeed (some d) g (recreating n) = record { lock = some d; guard = g; pc = losing n }
  succeed none g (losing n) = record { lock = none; guard = g; pc = cleaning n retried }
  succeed (some d) g (losing n) = record { lock = some d; guard = g; pc = cleaning n refused }
  succeed l g (cleaning n o) = record { lock = l; guard = g; pc = unguarding n o false }
  succeed l g (rolling_back n false) = record {
    lock = l;
    guard = g;
    pc = if owned_by i l then rolling_back n true else unguarding n refused false;
  }
  succeed l g (rolling_back n true) = record {
    lock = none;
    guard = g;
    pc = unguarding n refused false;
  }
  succeed l g (unguarding n o false) = record { lock = l; guard = g; pc = guard_removal n o g }
  succeed l g (unguarding n o true) = record { lock = l; guard = none; pc = finish n o }
  succeed l g (undoing false) = record {
    lock = l;
    guard = g;
    pc = if owned_by i l then undoing true else failed;
  }
  succeed l g (undoing true) = record { lock = none; guard = g; pc = failed }
  succeed l g (releasing false) = record {
    lock = l;
    guard = g;
    pc = if owned_by i l then releasing true else failed;
  }
  succeed l g (releasing true) = record { lock = none; guard = g; pc = released }
  succeed l g holding = record { lock = l; guard = g; pc = holding }
  succeed l g released = record { lock = l; guard = g; pc = released }
  succeed l g failed = record { lock = l; guard = g; pc = failed }

-- An operation that throws. `late`: a removal has unlinked the file already, and a wait for the
-- guard throws at once instead of reading again.
abbrev pub removed : Bool → Option ℕ → Option ℕ
removed true f = none
removed false f = f

module _ (late : Bool) where
  unfoldable pub fault : Option ℕ → Option ℕ → Pc → Move
  fault l g (acquiring n) = record { lock = l; guard = g; pc = failed }
  fault l g (reading n) = record { lock = l; guard = g; pc = failed }
  fault l g (inspecting n d) = record { lock = l; guard = g; pc = failed }
  fault l g (guarding n) = record { lock = l; guard = g; pc = failed }
  fault l g (awaiting n k) = record {
    lock = l;
    guard = g;
    pc = if late then failed else await_next n k;
  }
  fault l g (guarded n) = record { lock = l; guard = g; pc = unguarding n refused false }
  fault l g (judging n d) = record { lock = l; guard = g; pc = unguarding n refused false }
  fault l g (renaming n) = record { lock = l; guard = g; pc = unguarding n refused false }
  fault l g (recreating n) = record { lock = l; guard = g; pc = cleaning n refused }
  fault l g (losing n) = record { lock = l; guard = g; pc = cleaning n refused }
  fault l g (cleaning n o) = record { lock = l; guard = g; pc = stale_cleanup_failed n o }
  fault l g (rolling_back n b) = record {
    lock = removed (late && b) l;
    guard = g;
    pc = unguarding n refused false;
  }
  fault l g (unguarding n o b) = record {
    lock = l;
    guard = removed (late && b) g;
    pc = cleanup_failed o;
  }
  fault l g (undoing b) = record { lock = removed (late && b) l; guard = g; pc = failed }
  fault l g (releasing b) = record { lock = removed (late && b) l; guard = g; pc = failed }
  fault l g holding = record { lock = l; guard = g; pc = holding }
  fault l g released = record { lock = l; guard = g; pc = released }
  fault l g failed = record { lock = l; guard = g; pc = failed }
