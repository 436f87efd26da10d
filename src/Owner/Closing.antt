-- ===== src/Owner/Closing.antt =====
-- A closed owner starts nothing: extensions/_shared/runtime/execution-state.ts.
use locus_pi.Common.{ℕ, ◌≡◌, refl, ap, ◌∙◌, Bool, true, List, [], ◌∷◌, count, count-append, arith}
use locus_pi.Execution.Budget.{Budget}
use locus_pi.Owner.Records.{Root}
use locus_pi.Owner.Signals.{fire}
use locus_pi.Owner.Moves.{
  Move, stays, reckons, adds, enters, turns, starts, observes, delegates, closes_child, drains,
}
use locus_pi.Owner.Steps.{
  create_invocation, run_invocation, admit, fail_launch, finish, fail_scope, observe, new_launch,
}
use locus_pi.Owner.Delegation.{
  with_children, end_child_work, drain, leave, reenter, clear, end_work, join,
}
use locus_pi.Owner.Waiting.{Joined, Move-Joined, create-Joined, run-Joined}
use locus_pi.Owner.Charging.{is_called, wrote_same}
use locus_pi.Owner.Stepping.{step-Move}
use locus_pi.Owner
use locus_pi.Owner.{Event, create, close, step, run}

stays_closed : (o : Root) (e : Event) → o.closed ≡ true → (step o e).closed ≡ true
unfolding step
stays_closed o (Owner.reserves n) h = h
stays_closed o (Owner.releases_reservation r) h = h
stays_closed o (Owner.creates c k r) h = unfold create_invocation in (ground arith)
stays_closed o (Owner.runs i now) h = unfold run_invocation in (ground arith)
stays_closed o (Owner.admits i now) h =
    unfold admit fail_launch finish fire fail_scope in (ground arith)
stays_closed o (Owner.observes i) h = unfold observe fail_scope in (ground arith)
stays_closed o (Owner.delegates i) h = unfold with_children in (ground arith)
stays_closed o (Owner.ends_child_work i outcome) h = unfold end_child_work in (ground arith)
stays_closed o (Owner.drains i) h = unfold drain in (ground arith)
stays_closed o (Owner.leaves i) h = unfold leave in (ground arith)
stays_closed o (Owner.reenters i) h = unfold reenter in (ground arith)
stays_closed o (Owner.clears i) h = unfold clear in (ground arith)
stays_closed o (Owner.ends_work i outcome) h =
    unfold end_work fail_launch finish fire fail_scope in (ground arith)
stays_closed o (Owner.joins i) h = unfold join fail_launch finish fire fail_scope in (ground arith)
stays_closed o Owner.interrupts h = unfold fire in (ground arith)
stays_closed o Owner.closes h = unfold close fire in (refl)

close-launches : (o : Root) → count is_called (close o).launches ≡ count is_called o.launches
unfolding close fire
close-launches o = refl

closes-closed : (o : Root) → (close o).closed ≡ true
unfolding close fire
closes-closed o = refl

Move-closed :
    (o o' : Root)
    → Move o o'
    → o.closed ≡ true
    → count is_called o'.launches ≡ count is_called o.launches
Move-closed o o' (stays k ls os) h = ap (count is_called) ls
Move-closed o o' (reckons k ls os) h = ap (count is_called) ls
Move-closed o o' (adds c n kind r k ls os) h =
    ap (count is_called) ls
    ∙ count-append is_called o.launches (new_launch c n kind r ∷ [])
    ∙ omega arith
Move-closed o o' (enters i l l' s at found opened scope called serves tidy k ls os) h =
    wrote_same o o' i l l' at called ls
Move-closed o o' (turns i l l' at t k called ls os) h = wrote_same o o' i l l' at called ls
Move-closed o o' (starts i l l' at t opened k before after ls os) h = absurd (ground arith)
Move-closed o o' (observes i l s at quiet found k ls os) h = ap (count is_called) ls
Move-closed o o' (delegates i l l' at free scope busy called serves tidy k ls os) h =
    wrote_same o o' i l l' at called ls
Move-closed o o' (closes_child i l l' c s at before found scope busy called now tidy k ls os) h =
    wrote_same o o' i l l' at called ls
Move-closed o o' (drains i l l' c w s at before found all scope busy called now tidy k ls os) h =
    wrote_same o o' i l l' at called ls

closed-run :
    (o : Root) (es : List Event)
    → Joined o
    → o.closed ≡ true
    → count is_called (run o es).launches ≡ count is_called o.launches
unfolding run
closed-run o [] j h = refl
closed-run o (e ∷ es) j h =
    let m = step-Move o (λ i l at. j.tidy i l at) e in
    closed-run (step o e) es (Move-Joined o (step o e) m j) (stays_closed o e h)
    ∙ Move-closed o (step o e) m h

close-Joined : (o : Root) → Joined o → Joined (close o)
close-Joined o j =
    unfold step in
    (Move-Joined o (step o Owner.closes) (step-Move o (λ i l at. j.tidy i l at) Owner.closes) j)

-- Once the owner is closed, at any point of a run, no callback is called any more, whatever calls and
-- continuations follow.
pub run-close :
    (b : Budget) (n : ℕ) (has_signal : Bool) (es later : List Event)
    → count is_called (run (close (run (create b n has_signal) es)) later).launches
      ≡ count is_called (run (create b n has_signal) es).launches
run-close b n has_signal es later =
    let o = run (create b n has_signal) es in
    let j = run-Joined (create b n has_signal) es (create-Joined b n has_signal) in
    closed-run (close o) later (close-Joined o j) (closes-closed o) ∙ close-launches o
