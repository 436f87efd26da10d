-- ===== src/Lease/Rank.antt =====
-- workflow-location-lease.ts: how far an acquisition is from its end.
use locus_pi.Common.{ℕ, ◌+◌, ◌-◌, ◌*◌, ◌<◌, ◌≡◌, Bool, true, false, Option, arith}
use locus_pi.Lease.Records.{
  Pc, acquiring, reading, inspecting, judging, guarding, awaiting, guarded, renaming, recreating,
  losing, cleaning, rolling_back, unguarding, undoing, releasing, holding, released, failed,
}
use locus_pi.Lease.Moves.{succeed, fault, lease_acquisition_attempts}

-- The acquisition has the lease or has given up.
abbrev pub is_settled : Pc → Bool
is_settled (acquiring n) = false
is_settled (reading n) = false
is_settled (inspecting n d) = false
is_settled (judging n d) = false
is_settled (guarding n) = false
is_settled (awaiting n k) = false
is_settled (guarded n) = false
is_settled (renaming n) = false
is_settled (recreating n) = false
is_settled (losing n) = false
is_settled (cleaning n o) = false
is_settled (rolling_back n b) = false
is_settled (unguarding n o b) = false
is_settled (undoing b) = false
is_settled (releasing b) = true
is_settled holding = true
is_settled released = true
is_settled failed = true

-- The attempts that are left, each of at most a hundred operations.
abbrev left : ℕ → ℕ
left n = (lease_acquisition_attempts - n) * 100

-- A bound on the operations until a process settles.
abbrev pub rank : Pc → ℕ
rank (acquiring n) = left n + 62
rank (reading n) = left n + 61
rank (inspecting n d) = left n + 60
rank (guarding n) = left n + 59
rank (awaiting n k) = left n + (1 + (57 - k))
rank (guarded n) = left n + 58
rank (judging n d) = left n + 57
rank (renaming n) = left n + 56
rank (recreating n) = left n + 55
rank (losing n) = left n + 54
rank (cleaning n o) = left n + 53
rank (rolling_back n false) = left n + 52
rank (rolling_back n true) = left n + 51
rank (unguarding n o false) = left n + 50
rank (unguarding n o true) = left n + 49
rank (undoing false) = 2
rank (undoing true) = 1
rank (releasing b) = 0
rank holding = 0
rank released = 0
rank failed = 0

pub rank-succeed :
    (i : ℕ) (free : Bool) (l g : Option ℕ) (pc : Pc)
    → is_settled pc ≡ false
    → rank (succeed i free l g pc).pc < rank pc
unfolding succeed
rank-succeed i free l g (acquiring n) h = ground arith
rank-succeed i free l g (inspecting n d) h = ground arith
rank-succeed i free l g (judging n d) h = ground arith
rank-succeed i free l g (reading n) h = ground arith
rank-succeed i free l g (guarding n) h = ground arith
rank-succeed i free l g (awaiting n k) h = ground arith
rank-succeed i free l g (guarded n) h = ground arith
rank-succeed i free l g (renaming n) h = ground arith
rank-succeed i free l g (recreating n) h = ground arith
rank-succeed i free l g (losing n) h = ground arith
rank-succeed i free l g (cleaning n o) h = ground arith
rank-succeed i free l g (rolling_back n b) h = ground arith
rank-succeed i free l g (unguarding n o b) h = ground arith
rank-succeed i free l g (undoing b) h = ground arith
rank-succeed i free l g (releasing b) h = ground arith
rank-succeed i free l g holding h = ground arith
rank-succeed i free l g released h = ground arith
rank-succeed i free l g failed h = ground arith

pub rank-fault :
    (late : Bool) (l g : Option ℕ) (pc : Pc)
    → is_settled pc ≡ false
    → rank (fault late l g pc).pc < rank pc
unfolding fault
rank-fault late l g (acquiring n) h = ground arith
rank-fault late l g (inspecting n d) h = ground arith
rank-fault late l g (judging n d) h = ground arith
rank-fault late l g (reading n) h = ground arith
rank-fault late l g (guarding n) h = ground arith
rank-fault late l g (awaiting n k) h = ground arith
rank-fault late l g (guarded n) h = ground arith
rank-fault late l g (renaming n) h = ground arith
rank-fault late l g (recreating n) h = ground arith
rank-fault late l g (losing n) h = ground arith
rank-fault late l g (cleaning n o) h = ground arith
rank-fault late l g (rolling_back n b) h = ground arith
rank-fault late l g (unguarding n o b) h = ground arith
rank-fault late l g (undoing b) h = ground arith
rank-fault late l g (releasing b) h = ground arith
rank-fault late l g holding h = ground arith
rank-fault late l g released h = ground arith
rank-fault late l g failed h = ground arith

pub succeed_settled :
    (i : ℕ) (free : Bool) (l g : Option ℕ) (pc : Pc)
    → is_settled pc ≡ true
    → is_settled (succeed i free l g pc).pc ≡ true
unfolding succeed
succeed_settled i free l g (acquiring n) h = ground arith
succeed_settled i free l g (inspecting n d) h = ground arith
succeed_settled i free l g (judging n d) h = ground arith
succeed_settled i free l g (reading n) h = ground arith
succeed_settled i free l g (guarding n) h = ground arith
succeed_settled i free l g (awaiting n k) h = ground arith
succeed_settled i free l g (guarded n) h = ground arith
succeed_settled i free l g (renaming n) h = ground arith
succeed_settled i free l g (recreating n) h = ground arith
succeed_settled i free l g (losing n) h = ground arith
succeed_settled i free l g (cleaning n o) h = ground arith
succeed_settled i free l g (rolling_back n b) h = ground arith
succeed_settled i free l g (unguarding n o b) h = ground arith
succeed_settled i free l g (undoing b) h = ground arith
succeed_settled i free l g (releasing b) h = ground arith
succeed_settled i free l g holding h = ground arith
succeed_settled i free l g released h = ground arith
succeed_settled i free l g failed h = ground arith

pub fault_settled :
    (late : Bool) (l g : Option ℕ) (pc : Pc)
    → is_settled pc ≡ true
    → is_settled (fault late l g pc).pc ≡ true
unfolding fault
fault_settled late l g (acquiring n) h = ground arith
fault_settled late l g (inspecting n d) h = ground arith
fault_settled late l g (judging n d) h = ground arith
fault_settled late l g (reading n) h = ground arith
fault_settled late l g (guarding n) h = ground arith
fault_settled late l g (awaiting n k) h = ground arith
fault_settled late l g (guarded n) h = ground arith
fault_settled late l g (renaming n) h = ground arith
fault_settled late l g (recreating n) h = ground arith
fault_settled late l g (losing n) h = ground arith
fault_settled late l g (cleaning n o) h = ground arith
fault_settled late l g (rolling_back n b) h = ground arith
fault_settled late l g (unguarding n o b) h = ground arith
fault_settled late l g (undoing b) h = ground arith
fault_settled late l g (releasing b) h = ground arith
fault_settled late l g holding h = ground arith
fault_settled late l g released h = ground arith
fault_settled late l g failed h = ground arith
