-- ===== src/Lease/Records.antt =====
-- workflow-location-lease.ts, workflow-lease-evidence.ts: where a process stands, and who may reclaim.
use locus_pi.Common.{ℕ, Bool, true, false, ◌||◌, ◌&&◌, Option}

-- `WorkflowLeaseOwnerInspection`; the terminal result is complete or not.
pub data Liveness : Type 0 where
  alive dead unverifiable : Liveness

pub record Owner : Type 0 where
  pub liveness : Liveness
  pub complete : Bool

abbrev pub is_alive : Liveness → Bool
is_alive alive = true
is_alive dead = false
is_alive unverifiable = false

abbrev pub is_dead : Liveness → Bool
is_dead dead = true
is_dead alive = false
is_dead unverifiable = false

-- `inspectLeaseOwner`: a terminal result counts only beside a live owner.
unfoldable pub inspect_lease_owner : Liveness → Bool → Owner
inspect_lease_owner liveness complete = record {
  liveness = liveness;
  complete = is_alive liveness && complete;
}

-- `leaseMayBeReclaimed`
unfoldable pub lease_may_be_reclaimed : Bool → Owner → Bool
lease_may_be_reclaimed force owner =
    is_dead owner.liveness || (force && (is_alive owner.liveness && owner.complete))

-- What the guarded reclaim came to: the lease, "retry", or an error.
pub data Outcome : Type 0 where
  held retried refused : Outcome

-- The argument is the attempt. `inspecting` and `judging` have read the record of a process, the second
-- under the guard, and test its liveness next. A removal has two operations: it reads the file and compares the record
-- (`false`), and unlinks (`true`).
pub data Pc : Type 0 where
  acquiring reading guarding : ℕ → Pc
  awaiting : ℕ → ℕ → Pc
  guarded renaming recreating losing : ℕ → Pc
  inspecting judging : (attempt owner : ℕ) → Pc
  cleaning : ℕ → Outcome → Pc
  rolling_back : ℕ → Bool → Pc
  unguarding : ℕ → Outcome → Bool → Pc
  undoing releasing : Bool → Pc
  holding released failed : Pc

-- The two files and where the process stands, after one operation of it.
pub record Move : Type 0 where
  pub lock : Option ℕ
  pub guard : Option ℕ
  pub pc : Pc
