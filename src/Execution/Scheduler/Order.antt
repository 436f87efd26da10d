-- ===== src/Execution/Scheduler/Order.antt =====
-- First come, first served, and cancelled requests leave the queue: execution-scheduler.ts.
use locus_pi.Common.{
  ℕ, suc, ◌+◌, ◌≤◌, ◌<◌, inl, inr, true, false, not, List, [], ◌∷◌, ◌++◌, arith, Option-cases,
  if_intro, any, ltb, All, All-append, keep,
}
use locus_pi.Execution.Scheduler.{
  Waiter, Permit, Scheduler, create, admit, dispatch_from, dispatch, acquire, abort_waiter,
  abort_waiters, abort_signal, find_permit, set_permit, activate, release, Event, acquires, aborts,
  activates, releases, step, run, or_same, is_aborted, refuse, enqueue, is_of, dequeue, mark,
  listeners, give_back, turn_away, grant,
}

-- The queue's numbers rise from `low` on and stay below `high`.
abbrev pub Rises : ℕ → ℕ → List Waiter → Type 0
Rises low high [] = low ≤ high
Rises low high (w ∷ ws) = (low ≤ w.request) × Rises (suc w.request) high ws

abbrev pub AdmittedBelow : ℕ → List Permit → Type 0
AdmittedBelow bound = All λ p. p.request < bound

-- Some number separates the admitted requests from the queued ones.
abbrev pub InOrder : Scheduler → Type 0
InOrder s = (bound : ℕ) × AdmittedBelow bound s.permits × Rises bound s.next_request s.waiters

AdmittedBelow-mono : (m n : ℕ) (ps : List Permit) → m ≤ n → AdmittedBelow m ps → AdmittedBelow n ps
AdmittedBelow-mono m n [] h a = tt
AdmittedBelow-mono m n (p ∷ ps) h a = (omega arith, AdmittedBelow-mono m n ps h a.1)

AdmittedBelow-set :
    (n : ℕ) (q : Permit) (ps : List Permit) → AdmittedBelow n ps → AdmittedBelow n (set_permit q ps)
AdmittedBelow-set n q [] a = tt
AdmittedBelow-set n q (p ∷ ps) a = ground (arith, AdmittedBelow-set n q ps a.1)

Rises-mono : (l m h : ℕ) (ws : List Waiter) → l ≤ m → Rises m h ws → Rises l h ws
Rises-mono l m h [] le r = omega arith
Rises-mono l m h (w ∷ ws) le r = (omega arith, r.1)

Rises-concat :
    (l h g : ℕ) (ws : List Waiter)
    → Rises l h ws
    → Rises l (h + 1) (ws ++ record { request = h; signal = g } ∷ [])
Rises-concat l h g [] r = omega arith
Rises-concat l h g (w ∷ ws) r = (r.0, Rises-concat (suc w.request) h g ws r.1)

Rises-le : (l h : ℕ) (ws : List Waiter) → Rises l h ws → l ≤ h
Rises-le l h [] r = r
Rises-le l h (w ∷ ws) r = omega (arith, Rises-le (suc w.request) h ws r.1)

Rises-grow : (l h : ℕ) (ws : List Waiter) → Rises l h ws → Rises l (h + 1) ws
Rises-grow l h [] r = omega arith
Rises-grow l h (w ∷ ws) r = (r.0, Rises-grow (suc w.request) h ws r.1)

Rises-keep :
    (l h q : ℕ) (ws : List Waiter) → Rises l h ws → Rises l h (keep (λ v. not (is_of q v)) ws)
Rises-keep l h q [] r = r
Rises-keep l h q (w ∷ ws) r =
    let rest = Rises-keep (suc w.request) h q ws r.1 in
    ground (arith, rest, Rises-mono l (suc w.request) h (keep (λ v. not (is_of q v)) ws))

admit-AdmittedBelow :
    (s : Scheduler) (w : Waiter) (bound : ℕ)
    → AdmittedBelow bound s.permits
    → bound ≤ w.request
    → AdmittedBelow (suc w.request) (admit s w).permits
unfolding admit
admit-AdmittedBelow s w bound a h =
    let new : Permit = record { request = w.request; released = false; executing = false } in
    let old = AdmittedBelow-mono bound (suc w.request) s.permits (omega arith) a in
    if_intro (λ t. AdmittedBelow (suc w.request) t.permits) (is_aborted w.signal s.aborted)
      {x = turn_away s w} {y = grant s w} (λ _. old)
      (λ _.
        All-append (λ (p : Permit). p.request < suc w.request) s.permits (new ∷ []) old
          (omega arith))

admit-Rises :
    (s : Scheduler) (w : Waiter) (l : ℕ) (ws : List Waiter)
    → Rises l s.next_request ws
    → Rises l (admit s w).next_request ws
unfolding admit
admit-Rises s w l ws r = ground arith

dispatch_from-InOrder :
    (ws : List Waiter) (s : Scheduler) (bound : ℕ)
    → AdmittedBelow bound s.permits
    → Rises bound s.next_request ws
    → InOrder (dispatch_from ws s)
unfolding dispatch_from
dispatch_from-InOrder [] s bound a r = (bound, a, r)
dispatch_from-InOrder (w ∷ ws) s bound a r =
    if_intro InOrder (ltb s.in_use s.concurrency)
      (λ _.
        dispatch_from-InOrder ws (admit s w) (suc w.request) (admit-AdmittedBelow s w bound a r.0)
          (admit-Rises s w (suc w.request) ws r.1))
      (λ _. (bound, a, r))

dispatch-InOrder : (s : Scheduler) → InOrder s → InOrder (dispatch s)
unfolding dispatch
dispatch-InOrder s (bound, a, r) = dispatch_from-InOrder s.waiters s bound a r

acquire-InOrder : (s : Scheduler) (g : ℕ) → InOrder s → InOrder (acquire s g)
unfolding acquire
acquire-InOrder s g (bound, a, r) =
    if_intro InOrder (is_aborted g s.aborted) {x = refuse s}
      (λ _. (bound, a, Rises-grow bound s.next_request s.waiters r))
      (λ _.
        dispatch-InOrder (enqueue s g) (bound, a, Rises-concat bound s.next_request g s.waiters r))

abort_waiter-InOrder : (s : Scheduler) (w : Waiter) → InOrder s → InOrder (abort_waiter s w)
unfolding abort_waiter
abort_waiter-InOrder s w (bound, a, r) =
    if_intro InOrder (any (is_of w.request) s.waiters)
      (λ _.
        dispatch-InOrder (dequeue s w.request)
          (bound, a, Rises-keep bound s.next_request w.request s.waiters r))
      (λ _. (bound, a, r))

abort_waiters-InOrder :
    (s : Scheduler) (ws : List Waiter) → InOrder s → InOrder (abort_waiters s ws)
unfolding abort_waiters
abort_waiters-InOrder s [] o = o
abort_waiters-InOrder s (w ∷ ws) o =
    abort_waiters-InOrder (abort_waiter s w) ws (abort_waiter-InOrder s w o)

activate-InOrder : (s : Scheduler) (p : Permit) → InOrder s → InOrder (or_same s (activate s p))
unfolding activate
activate-InOrder s p (bound, a, r) = (
  bound,
  ground (arith, AdmittedBelow-set bound (record p { executing = true }) s.permits a),
  ground arith,
)

release-InOrder : (s : Scheduler) (p : Permit) → InOrder s → InOrder (release s p)
unfolding release
release-InOrder s p (bound, a, r) =
    if_intro InOrder p.released (λ _. (bound, a, r))
      (λ _.
        dispatch-InOrder (give_back s p)
          (bound, AdmittedBelow-set bound (record p { released = true }) s.permits a, r))

step-InOrder : (s : Scheduler) (e : Event) → InOrder s → InOrder (step s e)
unfolding step
step-InOrder s (acquires g) o = acquire-InOrder s g o
step-InOrder s (aborts g) o =
    unfold abort_signal in
    (if_intro InOrder (is_aborted g s.aborted) (λ _. o)
      (λ _. abort_waiters-InOrder (mark s g) (listeners g s.waiters) o))
step-InOrder s (activates q) o = elim (Option-cases (find_permit q s.permits)) [
  | inl missing ↦ rw (missing, step) o
  | inr (p, found) ↦ rw (found, step) (activate-InOrder s p o)
]
step-InOrder s (releases q) o = elim (Option-cases (find_permit q s.permits)) [
  | inl missing ↦ rw (missing, step) o
  | inr (p, found) ↦ rw (found, step) (release-InOrder s p o)
]

run-InOrder : (s : Scheduler) (es : List Event) → InOrder s → InOrder (run s es)
unfolding run
run-InOrder s [] o = o
run-InOrder s (e ∷ es) o = run-InOrder (step s e) es (step-InOrder s e o)

-- Permits are granted in the order of the requests: at any time a request that still waits was made
-- after every request that was admitted, and the queue itself is in the order of the requests.
pub run-create-InOrder : (n : ℕ) (es : List Event) → InOrder (run (create n) es)
run-create-InOrder n es = run-InOrder (create n) es (unfold create in (0, tt, omega arith))
