-- ===== src/Lease/Claims.antt =====
-- workflow-location-lease.ts: what a process owns of the files, and that the others spare it.
use locus_pi.Common.{
  ℕ, ◌≡◌, ◌≢◌, Bool, true, false, ◌&&◌, ◌||◌, ◌⊎◌, Option, none, some, is_some, arith,
}
use locus_pi.Lease.Records.{
  Outcome, held, retried, refused, Pc, acquiring, reading, inspecting, judging, guarding, awaiting,
  guarded, renaming, recreating, losing, cleaning, rolling_back, unguarding, undoing, releasing,
  holding, released, failed, Move,
}
use locus_pi.Lease.Moves.{succeed, fault}

abbrev pub is_held : Outcome → Bool
is_held held = true
is_held retried = false
is_held refused = false

-- The process has created the lease file and not removed it.
abbrev pub owns : Pc → Bool
owns (cleaning n o) = is_held o
owns (rolling_back n b) = true
owns (unguarding n o b) = is_held o
owns (undoing b) = true
owns (releasing b) = true
owns holding = true
owns (acquiring n) = false
owns (inspecting n d) = false
owns (judging n d) = false
owns (reading n) = false
owns (guarding n) = false
owns (awaiting n k) = false
owns (guarded n) = false
owns (renaming n) = false
owns (recreating n) = false
owns (losing n) = false
owns released = false
owns failed = false

-- The process has created the reclaim guard and not removed it.
abbrev pub guards : Pc → Bool
guards (guarded n) = true
guards (renaming n) = true
guards (recreating n) = true
guards (losing n) = true
guards (cleaning n o) = true
guards (rolling_back n b) = true
guards (unguarding n o b) = true
guards (undoing b) = false
guards (releasing b) = false
guards holding = false
guards (acquiring n) = false
guards (inspecting n d) = false
guards (judging n d) = true
guards (reading n) = false
guards (guarding n) = false
guards (awaiting n k) = false
guards released = false
guards failed = false

abbrev pub renames : Pc → Bool
renames (renaming n) = true
renames (guarded n) = false
renames (recreating n) = false
renames (losing n) = false
renames (cleaning n o) = false
renames (rolling_back n b) = false
renames (unguarding n o b) = false
renames (undoing b) = false
renames (releasing b) = false
renames holding = false
renames (acquiring n) = false
renames (inspecting n d) = false
renames (judging n d) = false
renames (reading n) = false
renames (guarding n) = false
renames (awaiting n k) = false
renames released = false
renames failed = false

-- The process whose record was read under the guard, when its liveness is tested next.
abbrev pub judged : Pc → Option ℕ
judged (judging n d) = some d
judged (inspecting n d) = none
judged (acquiring n) = none
judged (reading n) = none
judged (guarding n) = none
judged (awaiting n k) = none
judged (guarded n) = none
judged (renaming n) = none
judged (recreating n) = none
judged (losing n) = none
judged (cleaning n o) = none
judged (rolling_back n b) = none
judged (unguarding n o b) = none
judged (undoing b) = none
judged (releasing b) = none
judged holding = none
judged released = none
judged failed = none

-- What a process relies on: its lease file, and its guard.
abbrev pub Relies : ℕ → Option ℕ → Option ℕ → Pc → Type 0
Relies i l g pc = (owns pc ≡ true → l ≡ some i) × (guards pc ≡ true → g ≡ some i)

-- What it relies on after an operation of its own. It is about to rename a lease away only when it was
-- before, or has found the process `free` whose record it had read under the guard; a record that it
-- judges next was there just now, or is judged since before.
abbrev pub Kept : ℕ → Bool → Option ℕ → Pc → Move → Type 0
Kept i free l pc m =
    (owns m.pc ≡ true → m.lock ≡ some i)
    × (guards m.pc ≡ true → m.guard ≡ some i)
    × (renames m.pc ≡ true → (m.lock ≡ l) × ((renames pc || (free && is_some (judged pc))) ≡ true))
    × ((d : ℕ) → judged m.pc ≡ some d → (m.lock ≡ some d) ⊎ ((m.lock ≡ l) × (judged pc ≡ some d)))

-- An operation of process `i` leaves the files of another one alone.
abbrev pub Spares : ℕ → Option ℕ → Option ℕ → Pc → Move → Type 0
Spares i l g pc m =
    ((d : ℕ) → l ≡ some d → d ≢ i → (renames pc ≡ true → ⊥) → m.lock ≡ some d)
    × ((d : ℕ) → g ≡ some d → d ≢ i → m.guard ≡ some d)

pub succeed_relies :
    (i : ℕ) (free : Bool) (l g : Option ℕ) (pc : Pc)
    → Relies i l g pc
    → Kept i free l pc (succeed i free l g pc)
unfolding succeed
succeed_relies i free l g (acquiring n) r = ground arith
succeed_relies i free l g (inspecting n d) r = ground arith
succeed_relies i free l g (judging n d) r = ground arith
succeed_relies i free l g (reading n) r = ground arith
succeed_relies i free l g (guarding n) r = ground arith
succeed_relies i free l g (awaiting n k) r = ground arith
succeed_relies i free l g (guarded n) r = ground arith
succeed_relies i free l g (renaming n) r = ground arith
succeed_relies i free l g (recreating n) r = ground arith
succeed_relies i free l g (losing n) r = ground arith
succeed_relies i free l g (cleaning n o) r = ground arith
succeed_relies i free l g (rolling_back n b) r = ground arith
succeed_relies i free l g (unguarding n o b) r = ground arith
succeed_relies i free l g (undoing b) r = ground arith
succeed_relies i free l g (releasing b) r = ground arith
succeed_relies i free l g holding r = ground arith
succeed_relies i free l g released r = ground arith
succeed_relies i free l g failed r = ground arith

pub fault_relies :
    (i : ℕ) (late free : Bool) (l g : Option ℕ) (pc : Pc)
    → Relies i l g pc
    → Kept i free l pc (fault late l g pc)
unfolding fault
fault_relies i late free l g (acquiring n) r = ground arith
fault_relies i late free l g (inspecting n d) r = ground arith
fault_relies i late free l g (judging n d) r = ground arith
fault_relies i late free l g (reading n) r = ground arith
fault_relies i late free l g (guarding n) r = ground arith
fault_relies i late free l g (awaiting n k) r = ground arith
fault_relies i late free l g (guarded n) r = ground arith
fault_relies i late free l g (renaming n) r = ground arith
fault_relies i late free l g (recreating n) r = ground arith
fault_relies i late free l g (losing n) r = ground arith
fault_relies i late free l g (cleaning n o) r = ground arith
fault_relies i late free l g (rolling_back n b) r = ground arith
fault_relies i late free l g (unguarding n o b) r = ground arith
fault_relies i late free l g (undoing b) r = ground arith
fault_relies i late free l g (releasing b) r = ground arith
fault_relies i late free l g holding r = ground arith
fault_relies i late free l g released r = ground arith
fault_relies i late free l g failed r = ground arith

pub succeed-Spares :
    (i : ℕ) (free : Bool) (l g : Option ℕ) (pc : Pc)
    → Relies i l g pc
    → Spares i l g pc (succeed i free l g pc)
unfolding succeed
succeed-Spares i free l g (acquiring n) r = ground arith
succeed-Spares i free l g (inspecting n d) r = ground arith
succeed-Spares i free l g (judging n d) r = ground arith
succeed-Spares i free l g (reading n) r = ground arith
succeed-Spares i free l g (guarding n) r = ground arith
succeed-Spares i free l g (awaiting n k) r = ground arith
succeed-Spares i free l g (guarded n) r = ground arith
succeed-Spares i free l g (renaming n) r = ground arith
succeed-Spares i free l g (recreating n) r = ground arith
succeed-Spares i free l g (losing n) r = ground arith
succeed-Spares i free l g (cleaning n o) r = ground arith
succeed-Spares i free l g (rolling_back n b) r = ground arith
succeed-Spares i free l g (unguarding n o b) r = ground arith
succeed-Spares i free l g (undoing b) r = ground arith
succeed-Spares i free l g (releasing b) r = ground arith
succeed-Spares i free l g holding r = ground arith
succeed-Spares i free l g released r = ground arith
succeed-Spares i free l g failed r = ground arith

pub fault-Spares :
    (i : ℕ) (late : Bool) (l g : Option ℕ) (pc : Pc)
    → Relies i l g pc
    → Spares i l g pc (fault late l g pc)
unfolding fault
fault-Spares i late l g (acquiring n) r = ground arith
fault-Spares i late l g (inspecting n d) r = ground arith
fault-Spares i late l g (judging n d) r = ground arith
fault-Spares i late l g (reading n) r = ground arith
fault-Spares i late l g (guarding n) r = ground arith
fault-Spares i late l g (awaiting n k) r = ground arith
fault-Spares i late l g (guarded n) r = ground arith
fault-Spares i late l g (renaming n) r = ground arith
fault-Spares i late l g (recreating n) r = ground arith
fault-Spares i late l g (losing n) r = ground arith
fault-Spares i late l g (cleaning n o) r = ground arith
fault-Spares i late l g (rolling_back n b) r = ground arith
fault-Spares i late l g (unguarding n o b) r = ground arith
fault-Spares i late l g (undoing b) r = ground arith
fault-Spares i late l g (releasing b) r = ground arith
fault-Spares i late l g holding r = ground arith
fault-Spares i late l g released r = ground arith
fault-Spares i late l g failed r = ground arith
