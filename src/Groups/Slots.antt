-- ===== src/Groups/Slots.antt =====
-- workflow-groups.ts: every result stands in its own slot, and the width is kept.
use locus_pi.Common.{
  ℕ, zero, suc, ◌+◌, ◌≤◌, ◌<◌, ◌≡◌, refl, sym, ap, ◌∙◌, min, false, Option, none, some, ◌==◌, ltb,
  if_intro, is_some, any, length, List, [], ◌∷◌, arith, Bool-cases, inl, inr,
}
use locus_pi.Groups.Workers.{
  Outcome, fulfilled, rejected, State, Event, settles, remove_one, turn, absorb, settle, run,
  start_workers, start, finished,
}
use locus_pi.Groups.Turns.{Busy, Placed, run_kept, start_kept}

module _ {T E : Type 0} (total : ℕ) (outcome : ℕ → Outcome T E) where
  turn_workers :
      (refusal : Option E) (s : State T E) → (turn total outcome refusal s).workers ≡ s.workers
  unfolding turn
  turn_workers refusal s = ground arith

  absorb_workers :
      (i : ℕ) (o : Outcome T E) (s : State T E) → (absorb total outcome i o s).workers ≡ s.workers
  absorb_workers i (fulfilled v) s = refl
  absorb_workers i (rejected e) s = refl

  settle_workers :
      (i : ℕ) (refusal : Option E) (s : State T E)
      → (settle total outcome i refusal s).workers ≡ s.workers
  unfolding settle
  settle_workers i refusal s =
      let t = absorb total outcome i (outcome i) (record s { running = remove_one i s.running }) in
      if_intro (λ u. u.workers ≡ s.workers) (any (λ j. j == i) s.running)
        {x = turn total outcome refusal t} {y = s}
        (λ _.
          turn_workers refusal t
          ∙ absorb_workers i (outcome i) (record s { running = remove_one i s.running }))
        (λ _. refl)

  run_workers : (es : List (Event E)) (s : State T E) → (run total outcome es s).workers ≡ s.workers
  unfolding run
  run_workers [] s = refl
  run_workers (settles i refusal ∷ es) s =
      run_workers es (settle total outcome i refusal s) ∙ settle_workers i refusal s

  workers_lem :
      (refusal : ℕ → Option E) (k : ℕ) → (start_workers total outcome refusal k).workers ≡ k
  unfolding start_workers
  workers_lem refusal zero = refl
  workers_lem refusal (suc k) =
      let s = start_workers total outcome refusal k in
      turn_workers (refusal k) (record s { workers = s.workers + 1 })
      ∙ ground (arith, workers_lem refusal k)

  finished_fulfilled :
      (last : Option E) (s : State T E) (out : ℕ → Option T)
      → finished total outcome last s ≡ some (fulfilled out)
      → (s.running ≡ []) × (s.failure ≡ none) × (s.out ≡ out)
  unfolding finished
  finished_fulfilled last s out h = ground arith

  all_begun :
      (width : ℕ) (s : State T E) (i : ℕ)
      → 1 ≤ width
      → s.workers ≡ min width total
      → Busy total outcome 0 s
      → s.running ≡ []
      → s.failure ≡ none
      → i < total
      → i < s.next
  all_begun width s i wide count (le, eq) rest fine in_range =
      let none_running : length s.running ≡ 0 = ap length rest in
      let no_failure : is_some s.failure ≡ false = ap is_some fine in
      elim (Bool-cases (ltb s.next total)) [
        | inl left ↦ absurd (ground arith)
        | inr done ↦ ground arith
      ]

  slot :
      (s : State T E) (i : ℕ) (out : ℕ → Option T)
      → s.running ≡ []
      → s.failure ≡ none
      → s.out ≡ out
      → Placed total outcome s i
      → (v : T) × (outcome i ≡ fulfilled v) × (out i ≡ some v)
  slot s i out rest fine same (inl running) = absurd (ground arith)
  slot s i out rest fine same (inr (inl (v, o, f))) = (v, o, ap (λ g. g i) (sym same) ∙ f)
  slot s i out rest fine same (inr (inr failed)) = absurd (ground arith)

  -- When every thunk in flight may settle at any time and in any order, never more than `width` are
  -- in flight; and when the group ends without an error, each of its slots holds the value that the
  -- thunk of its index came to, whatever the order was in which they settled.
  pub run-start-Placed :
      (width : ℕ) (refusal : ℕ → Option E) (es : List (Event E))
      → 1 ≤ width
      → (length (run total outcome es (start total outcome width refusal)).running ≤ width)
        × ((last : Option E) (out : ℕ → Option T) (i : ℕ)
            → finished total outcome last (run total outcome es (start total outcome width refusal))
              ≡ some (fulfilled out)
            → i < total
            → (v : T) × (outcome i ≡ fulfilled v) × (out i ≡ some v))
  unfolding start
  run-start-Placed width refusal es wide =
      let first = start_workers total outcome refusal (min width total) in
      let (b0, p0) = start_kept total outcome refusal (min width total) in
      let s = run total outcome es first in
      let (b, p) = run_kept total outcome es first b0 p0 in
      let count : s.workers ≡ min width total =
        run_workers es first ∙ workers_lem refusal (min width total) in
      (
        ground arith,
        λ last out i ended in_range.
            let (rest, fine, same) = finished_fulfilled last s out ended in
            let begun : i < s.next = all_begun width s i wide count b rest fine in_range in
            slot s i out rest fine same (p i begun in_range),
      )
