-- ===== src/Lease/Settling.antt =====
-- workflow-location-lease.ts: an acquisition ends, whatever the other processes do.
use locus_pi.Common.{
  ℕ, ◌+◌, ◌≤◌, ◌≡◌, refl, Bool, true, false, Option, ◌==◌, List, [], ◌∷◌, if◌then◌else◌, arith,
  Bool-cases, ◌⊎◌, inl, inr, if_intro, All,
}
use locus_pi.Lease.Records.{
  Pc, acquiring, reading, inspecting, judging, guarding, awaiting, guarded, renaming, recreating,
  losing, cleaning, rolling_back, unguarding, undoing, releasing, holding, released, failed, Move,
}
use locus_pi.Lease.Moves.{succeed, fault}
use locus_pi.Lease.Protocol.{
  World, Event, succeeds, faults, releases, crashes, step, run, act, actor, put, may_reclaim_from,
  inspected, begin_release,
}
use locus_pi.Lease.Rank.{is_settled, rank, rank-succeed, rank-fault, succeed_settled, fault_settled}

-- What an operation of the process itself is: it succeeds or faults.
abbrev pub is_own : ℕ → Event → Bool
is_own i (succeeds j) = j == i
is_own i (faults j late) = j == i
is_own i (releases j) = false
is_own i (crashes j) = false

abbrev pub own : ℕ → List Event → ℕ
own i [] = 0
own i (e ∷ es) = (if is_own i e then 1 else 0) + own i es

abbrev pub is_crash : ℕ → Event → Bool
is_crash i (crashes j) = j == i
is_crash i (succeeds j) = false
is_crash i (faults j late) = false
is_crash i (releases j) = false

-- Settled, or within `n` operations of it.
abbrev Ends : Pc → ℕ → Type 0
Ends pc n = (is_settled pc ≡ true) ⊎ (rank pc ≤ n)

release-Ends : (pc : Pc) (n : ℕ) → Ends pc n → Ends (begin_release pc) n
release-Ends (acquiring m) n h = h
release-Ends (inspecting m d) n h = h
release-Ends (judging m d) n h = h
release-Ends (reading m) n h = h
release-Ends (guarding m) n h = h
release-Ends (awaiting m k) n h = h
release-Ends (guarded m) n h = h
release-Ends (renaming m) n h = h
release-Ends (recreating m) n h = h
release-Ends (losing m) n h = h
release-Ends (cleaning m o) n h = h
release-Ends (rolling_back m b) n h = h
release-Ends (unguarding m o b) n h = h
release-Ends (undoing b) n h = h
release-Ends (releasing b) n h = h
release-Ends holding n h = inl refl
release-Ends released n h = h
release-Ends failed n h = h

rank_settled : (pc : Pc) → Ends pc 0 → is_settled pc ≡ true
rank_settled (acquiring n) h = ground arith
rank_settled (inspecting n d) h = ground arith
rank_settled (judging n d) h = ground arith
rank_settled (reading n) h = ground arith
rank_settled (guarding n) h = ground arith
rank_settled (awaiting n k) h = ground arith
rank_settled (guarded n) h = ground arith
rank_settled (renaming n) h = ground arith
rank_settled (recreating n) h = ground arith
rank_settled (losing n) h = ground arith
rank_settled (cleaning n o) h = ground arith
rank_settled (releasing b) h = ground arith
rank_settled holding h = ground arith
rank_settled released h = ground arith
rank_settled failed h = ground arith
rank_settled (rolling_back n true) h = ground arith
rank_settled (rolling_back n false) h = ground arith
rank_settled (unguarding n o true) h = ground arith
rank_settled (unguarding n o false) h = ground arith
rank_settled (undoing true) h = ground arith
rank_settled (undoing false) h = ground arith

succeed-Ends :
    (i : ℕ) (free : Bool) (l g : Option ℕ) (pc : Pc) (n : ℕ)
    → Ends pc (1 + n)
    → Ends (succeed i free l g pc).pc n
succeed-Ends i free l g pc n h = elim (Bool-cases (is_settled pc)) [
  | inl settled ↦ inl (succeed_settled i free l g pc settled)
  | inr waits ↦ ground (arith, rank-succeed i free l g pc waits)
]

fault-Ends :
    (late : Bool) (l g : Option ℕ) (pc : Pc) (n : ℕ)
    → Ends pc (1 + n)
    → Ends (fault late l g pc).pc n
fault-Ends late l g pc n h = elim (Bool-cases (is_settled pc)) [
  | inl settled ↦ inl (fault_settled late l g pc settled)
  | inr waits ↦ ground (arith, rank-fault late l g pc waits)
]

module _ (force is_visible is_complete : ℕ → Bool) (i : ℕ) where
  -- Of another process's operation, or of one's own.
  put-Ends :
      (j : ℕ) (m : Move) (w : World) (n : ℕ)
      → ((j == i) ≡ true → Ends m.pc n)
      → ((j == i) ≡ false → Ends (w.pcs i) n)
      → Ends ((put j m w).pcs i) n
  put-Ends j m w n mine others =
      if_intro (λ pc. Ends pc n) (i == j) {x = m.pc} {y = w.pcs i} (λ same. mine (ground arith))
        (λ differs. others (ground arith))

  act-Ends :
      (e : Event) (w : World) (n : ℕ)
      → is_crash i e ≡ false
      → Ends (w.pcs i) ((if is_own i e then 1 else 0) + n)
      → Ends ((act force is_visible is_complete e w).pcs i) n
  act-Ends (succeeds j) w n c h =
      let free = may_reclaim_from force is_visible is_complete w j (inspected (w.pcs j)) in
      put-Ends j (succeed j free w.lock w.guard (w.pcs j)) w n
        (λ same. succeed-Ends j free w.lock w.guard (w.pcs j) n (ground arith))
        (λ differs. (ground arith))
  act-Ends (faults j late) w n c h =
      put-Ends j (fault late w.lock w.guard (w.pcs j)) w n
        (λ same. fault-Ends late w.lock w.guard (w.pcs j) n (ground arith))
        (λ differs. (ground arith))
  act-Ends (releases j) w n c h =
      put-Ends j (record { lock = w.lock; guard = w.guard; pc = begin_release (w.pcs j) }) w n
        (λ same. release-Ends (w.pcs j) n (ground arith)) (λ differs. ground arith)
  act-Ends (crashes j) w n c h = ground arith

  act_alive :
      (e : Event) (w : World)
      → is_crash i e ≡ false
      → w.crashed i ≡ false
      → (act force is_visible is_complete e w).crashed i ≡ false
  act_alive (succeeds j) w c h = h
  act_alive (faults j late) w c h = h
  act_alive (releases j) w c h = h
  act_alive (crashes j) w c h = ground arith

  weaken : (b : Bool) (pc : Pc) (n : ℕ) → b ≡ false → Ends pc ((if b then 1 else 0) + n) → Ends pc n
  weaken b pc n e h = ground arith

  own_actor :
      (e : Event) (w : World)
      → w.crashed i ≡ false
      → w.crashed (actor e) ≡ true
      → is_own i e ≡ false
  own_actor (succeeds j) w h g = ground arith
  own_actor (faults j late) w h g = ground arith
  own_actor (releases j) w h g = refl
  own_actor (crashes j) w h g = refl

  step-Ends :
      (e : Event) (w : World) (n : ℕ)
      → is_crash i e ≡ false
      → w.crashed i ≡ false
      → Ends (w.pcs i) ((if is_own i e then 1 else 0) + n)
      → Ends ((step force is_visible is_complete e w).pcs i) n
        × ((step force is_visible is_complete e w).crashed i ≡ false)
  unfolding step
  step-Ends e w n c a h =
      if_intro (λ v. Ends (v.pcs i) n × (v.crashed i ≡ false)) (w.crashed (actor e)) {x = w}
        {y = act force is_visible is_complete e w}
        (λ gone. (weaken (is_own i e) (w.pcs i) n (own_actor e w a gone) h, a))
        (λ live. (act-Ends e w n c h, act_alive e w c a))

  run-Ends :
      (es : List Event) (w : World)
      → All (λ e. is_crash i e ≡ false) es
      → w.crashed i ≡ false
      → Ends (w.pcs i) (own i es)
      → Ends ((run force is_visible is_complete es w).pcs i) 0
  unfolding run
  run-Ends [] w c a h = h
  run-Ends (e ∷ es) w (c, cs) a h =
      let (h', a') = step-Ends e w (own i es) c a h in
      run-Ends es (step force is_visible is_complete e w) cs a' h'

  -- An acquisition ends: a live process that has run as many operations of its own as its rank says
  -- (662 for a new one), failing or not, holds the lease or has given up, whatever the other
  -- processes did in between, with or without --force.
  pub run-is_settled :
      (es : List Event) (w : World)
      → All (λ e. is_crash i e ≡ false) es
      → w.crashed i ≡ false
      → rank (w.pcs i) ≤ own i es
      → is_settled ((run force is_visible is_complete es w).pcs i) ≡ true
  run-is_settled es w c a h =
      rank_settled ((run force is_visible is_complete es w).pcs i) (run-Ends es w c a (inr h))
