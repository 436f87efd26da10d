-- ===== src/Execution/Scheduler/Invariant.antt =====
-- The permits in use never exceed the width: execution-scheduler.ts.
use locus_pi.Common.{
  ℕ, ◌+◌, ◌≤◌, ◌<◌, ◌≡◌, ◌⊎◌, inl, inr, Bool, true, false, List, [], ◌∷◌, ◌++◌, some, arith,
  Option-cases, if◌then◌else◌, if_intro, any,
}
use locus_pi.Execution.Scheduler.{
  Waiter, Permit, Scheduler, create, admit, dispatch_from, dispatch, acquire, abort_waiter,
  abort_waiters, abort_signal, find_permit, set_permit, activate, release, Event, acquires, aborts,
  activates, releases, step, run, or_same, is_aborted, refuse, enqueue, is_of, dequeue, mark,
  listeners, give_back,
}

abbrev pub one_if : Bool → ℕ
one_if true = 1
one_if false = 0

abbrev pub holds_slot : Permit → ℕ
holds_slot p = if p.released then 0 else 1

abbrev pub runs : Permit → ℕ
runs p = if p.released then 0 else if p.executing then 1 else 0

-- The permits that are not released, and those among them that execute.
abbrev pub held : List Permit → ℕ
held [] = 0
held (p ∷ ps) = holds_slot p + held ps

abbrev pub running : List Permit → ℕ
running [] = 0
running (p ∷ ps) = runs p + running ps

-- What holds also between two rounds of `dispatch`.
pub record Books (s : Scheduler) : Type 0 where
  pub slots : s.in_use ≡ held s.permits
  pub executing : s.active ≡ running s.permits
  pub width : s.in_use ≤ s.concurrency
  pub peak_above : s.active ≤ s.peak
  pub peak_within : s.peak ≤ s.concurrency

-- A request waits only while every slot is in use.
pub record HoldsWidth (s : Scheduler) : Type 0 where
  pub books : Books s
  pub busy : (s.waiters ≡ []) ⊎ (s.in_use ≡ s.concurrency)

held-append : (xs ys : List Permit) → held (xs ++ ys) ≡ held xs + held ys
held-append [] ys = omega arith
held-append (x ∷ xs) ys = omega (arith, held-append xs ys)

running-append : (xs ys : List Permit) → running (xs ++ ys) ≡ running xs + running ys
running-append [] ys = omega arith
running-append (x ∷ xs) ys = omega (arith, running-append xs ys)

running-le-held : (ps : List Permit) → running ps ≤ held ps
running-le-held [] = omega arith
running-le-held (p ∷ ps) = ground (arith, running-le-held ps)

-- The permit that is found counts, and so does the one that takes its place.
module _ (q : Permit) where
  held-set :
      (ps : List Permit) (p : Permit)
      → find_permit q.request ps ≡ some p
      → held (set_permit q ps) + holds_slot p ≡ held ps + holds_slot q
  held-set [] p e = ground arith
  held-set (x ∷ ps) p e = ground (arith, held-set ps p)

  running-set :
      (ps : List Permit) (p : Permit)
      → find_permit q.request ps ≡ some p
      → running (set_permit q ps) + runs p ≡ running ps + runs q
  running-set [] p e = ground arith
  running-set (x ∷ ps) p e = ground (arith, running-set ps p)

slack :
    (r : ℕ) (ps : List Permit) (p : Permit)
    → find_permit r ps ≡ some p
    → running ps + holds_slot p ≤ held ps + runs p
slack r [] p e = ground arith
slack r (x ∷ ps) p e = ground (arith, slack r ps p, running-le-held ps)

find_permit-request :
    (r : ℕ) (ps : List Permit) (p : Permit) → find_permit r ps ≡ some p → p.request ≡ r
find_permit-request r [] p e = ground arith
find_permit-request r (x ∷ ps) p e = ground (arith, find_permit-request r ps p)

admit-Books : (s : Scheduler) (w : Waiter) → Books s → s.in_use < s.concurrency → Books (admit s w)
unfolding admit
admit-Books s w b h =
    let new : Permit = record { request = w.request; released = false; executing = false } in
    ground (arith, held-append s.permits (new ∷ []), running-append s.permits (new ∷ []))

pub dispatch_from-HoldsWidth :
    (ws : List Waiter) (s : Scheduler) → Books s → HoldsWidth (dispatch_from ws s)
unfolding dispatch_from
dispatch_from-HoldsWidth [] s b = ground arith
dispatch_from-HoldsWidth (w ∷ ws) s b =
    ground (arith, admit-Books s w b, dispatch_from-HoldsWidth ws (admit s w))

dispatch-HoldsWidth : (s : Scheduler) → Books s → HoldsWidth (dispatch s)
unfolding dispatch
dispatch-HoldsWidth s b = dispatch_from-HoldsWidth s.waiters s b

acquire-HoldsWidth : (s : Scheduler) (g : ℕ) → HoldsWidth s → HoldsWidth (acquire s g)
unfolding acquire
acquire-HoldsWidth s g v =
    if_intro HoldsWidth (is_aborted g s.aborted) {x = refuse s} (λ _. ground arith)
      (λ _. dispatch-HoldsWidth (enqueue s g) (ground arith))

abort_waiter-HoldsWidth :
    (s : Scheduler) (w : Waiter) → HoldsWidth s → HoldsWidth (abort_waiter s w)
unfolding abort_waiter
abort_waiter-HoldsWidth s w v =
    if_intro HoldsWidth (any (is_of w.request) s.waiters)
      (λ _. dispatch-HoldsWidth (dequeue s w.request) (ground arith)) (λ _. v)

abort_waiters-HoldsWidth :
    (s : Scheduler) (ws : List Waiter) → HoldsWidth s → HoldsWidth (abort_waiters s ws)
unfolding abort_waiters
abort_waiters-HoldsWidth s [] v = v
abort_waiters-HoldsWidth s (w ∷ ws) v =
    abort_waiters-HoldsWidth (abort_waiter s w) ws (abort_waiter-HoldsWidth s w v)

abort_signal-HoldsWidth : (s : Scheduler) (g : ℕ) → HoldsWidth s → HoldsWidth (abort_signal s g)
unfolding abort_signal
abort_signal-HoldsWidth s g v =
    if_intro HoldsWidth (is_aborted g s.aborted) (λ _. v)
      (λ _. abort_waiters-HoldsWidth (mark s g) (listeners g s.waiters) (ground arith))

module _ (s : Scheduler) (r : ℕ) (p : Permit) (found : find_permit r s.permits ≡ some p) where
  activate-HoldsWidth : HoldsWidth s → HoldsWidth (or_same s (activate s p))
  unfolding activate
  activate-HoldsWidth v =
      let q : Permit = record p { executing = true } in
      ground (
        arith,
        find_permit-request r s.permits p found,
        held-set q s.permits p,
        running-set q s.permits p,
        slack r s.permits p found,
      )

  release-HoldsWidth : HoldsWidth s → HoldsWidth (release s p)
  unfolding release
  release-HoldsWidth v =
      let q : Permit = record p { released = true } in
      if_intro HoldsWidth p.released (λ _. v)
        (λ kept. dispatch-HoldsWidth (give_back s p) (
          ground (
            arith,
            find_permit-request r s.permits p found,
            held-set q s.permits p,
            running-set q s.permits p,
          )))

pub step-HoldsWidth : (s : Scheduler) (e : Event) → HoldsWidth s → HoldsWidth (step s e)
unfolding step
step-HoldsWidth s (acquires g) v = acquire-HoldsWidth s g v
step-HoldsWidth s (aborts g) v = abort_signal-HoldsWidth s g v
step-HoldsWidth s (activates r) v = elim (Option-cases (find_permit r s.permits)) [
  | inl missing ↦ rw (missing, step) v
  | inr (p, found) ↦ rw (found, step) (activate-HoldsWidth s r p found v)
]
step-HoldsWidth s (releases r) v = elim (Option-cases (find_permit r s.permits)) [
  | inl missing ↦ rw (missing, step) v
  | inr (p, found) ↦ rw (found, step) (release-HoldsWidth s r p found v)
]

create-HoldsWidth : (n : ℕ) → HoldsWidth (create n)
unfolding create
create-HoldsWidth n = ground arith

pub run-HoldsWidth : (s : Scheduler) (es : List Event) → HoldsWidth s → HoldsWidth (run s es)
unfolding run
run-HoldsWidth s [] v = v
run-HoldsWidth s (e ∷ es) v = run-HoldsWidth (step s e) es (step-HoldsWidth s e v)

-- After any sequence of acquisitions, aborts, activations and releases the slots in use are the
-- permits not yet released, the active count is the executing ones among them, neither these nor the
-- peak exceed the width, and a request waits only while every slot is in use.
pub run-create-HoldsWidth : (n : ℕ) (es : List Event) → HoldsWidth (run (create n) es)
run-create-HoldsWidth n es = run-HoldsWidth (create n) es (create-HoldsWidth n)
