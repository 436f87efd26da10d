-- ===== src/Groups/Draining.antt =====
-- workflow-groups.ts: the first failure stops the dispatch, and is what the group throws.
use locus_pi.Common.{ℕ, ◌≡◌, refl, ap, Option, some, ◌==◌, if_intro, any, List, [], ◌∷◌, arith}
use locus_pi.Groups.Workers.{
  Outcome, fulfilled, rejected, State, Event, settles, remove_one, keep_first, turn, absorb, settle,
  run, finished,
}

module _ {T E : Type 0} (total : ℕ) (outcome : ℕ → Outcome T E) where
  -- Nothing begins, and the failure stays.
  abbrev Stopped : E → ℕ → State T E → Type 0
  Stopped e n s = (s.failure ≡ some e) × (s.next ≡ n)

  absorb-Stopped :
      (e : E) (n i : ℕ) (o : Outcome T E) (s : State T E)
      → Stopped e n s
      → Stopped e n (absorb total outcome i o s)
  absorb-Stopped e n i (fulfilled v) s h = h
  absorb-Stopped e n i (rejected f) s (h, k) = (ap (λ g. keep_first g f) h, k)

  settle-Stopped :
      (e : E) (n i : ℕ) (refusal : Option E) (s : State T E)
      → Stopped e n s
      → Stopped e n (settle total outcome i refusal s)
  unfolding settle turn
  settle-Stopped e n i refusal s h =
      let t = absorb total outcome i (outcome i) (record s { running = remove_one i s.running }) in
      let st = absorb-Stopped e n i (outcome i) (record s { running = remove_one i s.running }) h in
      if_intro (Stopped e n) (any (λ j. j == i) s.running) {x = turn total outcome refusal t}
        {y = s} (λ _. ground arith) (λ _. h)

  run-Stopped :
      (es : List (Event E)) (e : E) (n : ℕ) (s : State T E)
      → Stopped e n s
      → Stopped e n (run total outcome es s)
  unfolding run
  run-Stopped [] e n s h = h
  run-Stopped (settles i refusal ∷ es) e n s h =
      run-Stopped es e n (settle total outcome i refusal s) (settle-Stopped e n i refusal s h)

  -- Once a thunk has failed or a dispatch was refused, no further thunk is begun, whatever still
  -- settles, and the group can end only by throwing that first error, when nothing is in flight.
  pub run-finished-failure :
      (es : List (Event E)) (s : State T E) (e : E) (last : Option E) (r : Outcome (ℕ → Option T) E)
      → s.failure ≡ some e
      → ((run total outcome es s).next ≡ s.next)
        × (finished total outcome last (run total outcome es s) ≡ some r
            → (r ≡ rejected e) × ((run total outcome es s).running ≡ []))
  unfolding finished
  run-finished-failure es s e last r h =
      let (failed, same) = run-Stopped es e s.next s (h, refl) in
      (same, λ ended. (ground arith, ground arith))
