-- ===== src/Tests/Groups.antt =====
-- The workers of a group at concrete schedules.
use locus_pi.Common.{
  ℕ, ◌*◌, ◌≤◌, ◌<◌, ◌≡◌, refl, Option, none, some, List, [], ◌∷◌, arith, length, ◌==◌,
  if◌then◌else◌,
}
use locus_pi.Groups.Workers.{
  Outcome, fulfilled, rejected, State, Event, settles, turn, settle, run, start, start_workers,
  finished,
}
use locus_pi.Groups.Slots.{run-start-Placed}
use locus_pi.Groups.Draining.{run-finished-failure}

abbrev squares : ℕ → Outcome ℕ ℕ
squares i = fulfilled (i * i)

abbrev never : ℕ → Option ℕ
never k = none

-- The last of the first three settles first.
abbrev schedule : List (Event ℕ)
schedule = settles 2 none ∷ settles 0 none ∷ settles 1 none ∷ settles 3 none ∷ settles 4 none ∷ []

groups : Unit {0}
unfolding turn settle run start start_workers finished
groups = tt

slots_test :
    ((run 5 squares schedule (start 5 squares 3 never)).out 3 ≡ some 9)
    × ((run 5 squares schedule (start 5 squares 3 never)).running ≡ [])
unfolding groups
slots_test = (refl, refl)

run-start-Placed_example :
    (length (run 5 squares schedule (start 5 squares 3 never)).running ≤ 3)
    × ((last : Option ℕ) (out : ℕ → Option ℕ) (i : ℕ)
        → finished 5 squares last (run 5 squares schedule (start 5 squares 3 never))
          ≡ some (fulfilled out)
        → i < 5
        → (v : ℕ) × (squares i ≡ fulfilled v) × (out i ≡ some v))
run-start-Placed_example = run-start-Placed 5 squares 3 never schedule (ground arith)

abbrev second_fails : ℕ → Outcome ℕ ℕ
second_fails i = if i == 1 then rejected 77 else fulfilled i

abbrev failing : State ℕ ℕ
failing = run 5 second_fails (settles 1 none ∷ []) (start 5 second_fails 3 never)

run-finished-failure_example :
    ((run 5 second_fails (settles 0 none ∷ settles 2 none ∷ []) failing).next ≡ failing.next)
    × (finished 5 second_fails none
            (run 5 second_fails (settles 0 none ∷ settles 2 none ∷ []) failing)
          ≡ some (rejected 77)
        → (◌≡◌ {A = Outcome (ℕ → Option ℕ) ℕ} (rejected 77) (rejected 77))
          × ((run 5 second_fails (settles 0 none ∷ settles 2 none ∷ []) failing).running ≡ []))
unfolding groups
run-finished-failure_example =
    run-finished-failure 5 second_fails (settles 0 none ∷ settles 2 none ∷ []) failing 77 none
      (rejected 77) refl

drained_test :
    finished 5 second_fails none (run 5 second_fails (settles 0 none ∷ settles 2 none ∷ []) failing)
    ≡ some (rejected 77)
unfolding groups
drained_test = refl
