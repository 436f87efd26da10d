-- ===== src/Owner/Stepping.antt =====
-- Each step of the owner is a move: extensions/_shared/runtime/execution-state.ts.
use locus_pi.Common.{ℕ, ◌+◌, ◌≡◌, refl, some, get_elem?, on_option, arith}
use locus_pi.Common.Number.{Number, pos, negsuc, inexact}
use locus_pi.Execution.Budget
use locus_pi.Execution.Budget.{Budget}
use locus_pi.Owner.Records.{Root, Launch}
use locus_pi.Owner.Signals.{fire}
use locus_pi.Owner.Moves.{Move, IsTidy, stays, reckons}
use locus_pi.Owner.Entering.{
  unchanged, create_invocation-Move, run_invocation-Move, admit-Move, observe-Move,
}
use locus_pi.Owner.Leaving.{
  with_children-Move, end_child_work-Move, drain-Move, leave-Move, reenter-Move, clear-Move,
  end_work-Move, join-Move,
}
use locus_pi.Owner.{
  Event, reserves, releases_reservation, creates, runs, admits, observes, delegates,
  ends_child_work, drains, leaves, reenters, clears, ends_work, joins, interrupts, closes, step,
  on_launch, close,
}

reserves-charged :
    (b : Budget) (n : Number) → (Budget.step b (Budget.reserves n)).charged ≡ b.charged + 0
unfolding Budget.step Budget.reserve
reserves-charged b (pos n) = ground arith
reserves-charged b (negsuc n) = omega arith
reserves-charged b inexact = omega arith

releases-charged :
    (b : Budget) (r : ℕ) → (Budget.step b (Budget.releases r)).charged ≡ b.charged + 0
unfolding Budget.step Budget.release Budget.owned
releases-charged b r = ground arith

abbrev pub AllTidy : Root → Type 0
AllTidy o = (i : ℕ) (l : Launch) → get_elem? o.launches i ≡ some l → IsTidy l

module _ (o : Root) (tidy : AllTidy o) where
  at_launch :
      (i : ℕ) (f : Launch → Root)
      → ((l : Launch) → get_elem? o.launches i ≡ some l → IsTidy l → Move o (f l))
      → Move o (on_launch o i f)
  at_launch i f h =
      on_option (Move o) (get_elem? o.launches i) (λ _. unchanged o) (λ l at. h l at (tidy i l at))

  pub step-Move : (e : Event) → Move o (step o e)
  unfolding step close fire
  step-Move (reserves n) = reckons (Budget.reserves n, refl, reserves-charged o.budget n) refl refl
  step-Move (releases_reservation r) =
      reckons (Budget.releases r, refl, releases-charged o.budget r) refl refl
  step-Move (creates c kind r) = create_invocation-Move o c kind r
  step-Move (runs i now) = at_launch i _ (λ l at t. run_invocation-Move o i l at t now)
  step-Move (admits i now) = at_launch i _ (λ l at t. admit-Move o i l at t now)
  step-Move (observes i) = at_launch i _ (λ l at t. observe-Move o i l at t)
  step-Move (delegates i) = at_launch i _ (λ l at t. with_children-Move o i l at t)
  step-Move (ends_child_work i outcome) =
      at_launch i _ (λ l at t. end_child_work-Move o i l at t outcome)
  step-Move (drains i) = at_launch i _ (λ l at t. drain-Move o i l at t)
  step-Move (leaves i) = at_launch i _ (λ l at t. leave-Move o i l at t)
  step-Move (reenters i) = at_launch i _ (λ l at t. reenter-Move o i l at t)
  step-Move (clears i) = at_launch i _ (λ l at t. clear-Move o i l at t)
  step-Move (ends_work i outcome) = at_launch i _ (λ l at t. end_work-Move o i l at t outcome)
  step-Move (joins i) = at_launch i _ (λ l at t. join-Move o i l at t)
  step-Move interrupts =
      on_option (Move o) o.outer_signal (λ _. unchanged o) (λ g _. stays refl refl refl)
  step-Move closes = stays refl refl refl
