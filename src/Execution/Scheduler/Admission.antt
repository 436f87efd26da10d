-- ===== src/Execution/Scheduler/Admission.antt =====
-- Who gets a permit, and that each request settles once: execution-scheduler.ts.
use locus_pi.Common.{
  ℕ, ◌+◌, ◌≤◌, ◌≡◌, refl, inl, inr, Bool, true, false, not, List, [], ◌∷◌, ◌++◌, arith,
  Option-cases, if◌then◌else◌, if_intro, any, ltb, ◌==◌, keep,
}
use locus_pi.Execution.Scheduler.{
  Waiter, Permit, Scheduler, Settlement, admitted, rejected, create, admit, dispatch_from, dispatch,
  acquire, abort_waiter, abort_waiters, abort_signal, find_permit, activate, release, Event,
  acquires, aborts, activates, releases, step, run, or_same, is_aborted, refuse, enqueue, is_of,
  dequeue, mark, listeners, give_back,
}

abbrev pub one_if : Bool → ℕ
one_if true = 1
one_if false = 0

abbrev settles_one : ℕ → Settlement → ℕ
settles_one r (admitted q) = one_if (q == r)
settles_one r (rejected q) = one_if (q == r)

-- How often a request has settled, and how often it stands in the queue.
abbrev pub settles : ℕ → List Settlement → ℕ
settles r [] = 0
settles r (e ∷ es) = settles_one r e + settles r es

abbrev pub waits : ℕ → List Waiter → ℕ
waits r [] = 0
waits r (w ∷ ws) = one_if (w.request == r) + waits r ws

settles-append :
    (r : ℕ) (xs ys : List Settlement) → settles r (xs ++ ys) ≡ settles r xs + settles r ys
settles-append r [] ys = omega arith
settles-append r (x ∷ xs) ys = omega (arith, settles-append r xs ys)

waits-append : (r : ℕ) (xs ys : List Waiter) → waits r (xs ++ ys) ≡ waits r xs + waits r ys
waits-append r [] ys = omega arith
waits-append r (x ∷ xs) ys = omega (arith, waits-append r xs ys)

waits-keep :
    (r q : ℕ) (ws : List Waiter)
    → waits r (keep (λ v. not (is_of q v)) ws) ≡ (if q == r then 0 else waits r ws)
waits-keep r q [] = ground arith
waits-keep r q (w ∷ ws) = ground (arith, waits-keep r q ws)

waits_of_any : (q : ℕ) (ws : List Waiter) → any (is_of q) ws ≡ true → 1 ≤ waits q ws
waits_of_any q [] h = ground arith
waits_of_any q (w ∷ ws) h = ground (arith, waits_of_any q ws)

-- A request that was made is either queued or settled, and once only; a later number is neither.
abbrev pub Once : ℕ → Scheduler → Type 0
Once r s = settles r s.settled + waits r s.waiters ≡ one_if (ltb r s.next_request)

dispatch_from-next :
    (ws : List Waiter) (s : Scheduler) → (dispatch_from ws s).next_request ≡ s.next_request
unfolding dispatch_from
dispatch_from-next [] s = refl
dispatch_from-next (w ∷ ws) s = ground (arith, dispatch_from-next ws (admit s w))

module _ (r : ℕ) where
  dispatch_from-total :
      (ws : List Waiter) (s : Scheduler)
      → settles r (dispatch_from ws s).settled + waits r (dispatch_from ws s).waiters
        ≡ settles r s.settled + waits r ws
  unfolding dispatch_from
  dispatch_from-total [] s = refl
  dispatch_from-total (w ∷ ws) s = ground (
    arith,
    dispatch_from-total ws (admit s w),
    settles-append r s.settled (admitted w.request ∷ []),
    settles-append r s.settled (rejected w.request ∷ []),
  )

  dispatch-Once : (s : Scheduler) → Once r s → Once r (dispatch s)
  unfolding dispatch
  dispatch-Once s h =
      ground (arith, dispatch_from-next s.waiters s, dispatch_from-total s.waiters s)

  acquire-Once : (s : Scheduler) (g : ℕ) → Once r s → Once r (acquire s g)
  unfolding acquire
  acquire-Once s g h =
      if_intro (Once r) (is_aborted g s.aborted) {x = refuse s}
        (λ _. ground (arith, settles-append r s.settled (rejected s.next_request ∷ [])))
        (λ _. dispatch-Once (enqueue s g) (
          ground (
            arith,
            waits-append r s.waiters (record { request = s.next_request; signal = g } ∷ []),
          )))

  abort_waiter-Once : (s : Scheduler) (w : Waiter) → Once r s → Once r (abort_waiter s w)
  unfolding abort_waiter
  abort_waiter-Once s w h =
      if_intro (Once r) (any (is_of w.request) s.waiters)
        (λ queued. dispatch-Once (dequeue s w.request) (
          ground (
            arith,
            waits-keep r w.request s.waiters,
            waits_of_any w.request s.waiters queued,
            settles-append r s.settled (rejected w.request ∷ []),
          )))
        (λ _. h)

  abort_waiters-Once : (s : Scheduler) (ws : List Waiter) → Once r s → Once r (abort_waiters s ws)
  unfolding abort_waiters
  abort_waiters-Once s [] h = h
  abort_waiters-Once s (w ∷ ws) h =
      abort_waiters-Once (abort_waiter s w) ws (abort_waiter-Once s w h)

  activate-Once : (s : Scheduler) (p : Permit) → Once r s → Once r (or_same s (activate s p))
  unfolding activate
  activate-Once s p h = ground arith

  release-Once : (s : Scheduler) (p : Permit) → Once r s → Once r (release s p)
  unfolding release
  release-Once s p h = if_intro (Once r) p.released (λ _. h) (λ _. dispatch-Once (give_back s p) h)

  step-Once : (s : Scheduler) (e : Event) → Once r s → Once r (step s e)
  unfolding step
  step-Once s (acquires g) h = acquire-Once s g h
  step-Once s (aborts g) h =
      unfold abort_signal in
      (if_intro (Once r) (is_aborted g s.aborted) (λ _. h)
        (λ _. abort_waiters-Once (mark s g) (listeners g s.waiters) h))
  step-Once s (activates q) h = elim (Option-cases (find_permit q s.permits)) [
    | inl missing ↦ rw (missing, step) h
    | inr (p, found) ↦ rw (found, step) (activate-Once s p h)
  ]
  step-Once s (releases q) h = elim (Option-cases (find_permit q s.permits)) [
    | inl missing ↦ rw (missing, step) h
    | inr (p, found) ↦ rw (found, step) (release-Once s p h)
  ]

  run-Once : (s : Scheduler) (es : List Event) → Once r s → Once r (run s es)
  unfolding run
  run-Once s [] h = h
  run-Once s (e ∷ es) h = run-Once (step s e) es (step-Once s e h)

-- At any time each request that was made is either waiting or settled, by admission or by rejection,
-- and never both or twice; a request not yet made is neither.
pub run-create-Once : (n : ℕ) (es : List Event) (r : ℕ) → Once r (run (create n) es)
run-create-Once n es r = run-Once r (create n) es (unfold create in (ground arith))
