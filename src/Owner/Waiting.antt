-- ===== src/Owner/Waiting.antt =====
-- While a launch runs, the launches above it hold no permit: extensions/_shared/runtime/execution-state.ts.
use locus_pi.Common.{
  ℕ, zero, suc, if◌then◌else◌, ◌≡◌, refl, sym, ap, subst, ◌∙◌, Bool, true, false, List, [], ◌∷◌,
  Option, none, some, get_elem?, is_some, get_elem?-map-some, length-map, arith, Option-cases, inl,
  inr,
}
use locus_pi.Execution.Budget.{Budget}
use locus_pi.Owner.Records.{
  Root, Scope, Launch, Delegation, Stage, child_work, draining, leaving, reentering, over,
}
use locus_pi.Owner.Steps.{new_launch}
use locus_pi.Owner.Moves.{
  Outline, outline, outlines, is_busy, is_away, is_away_at, serving, serving_of, serving_at, Move,
  stays, reckons, adds, enters, turns, starts, observes, delegates, closes_child, drains,
}
use locus_pi.Owner.Joining.{IsJoined, Serving, serves, waits_for}
use locus_pi.Owner.Joining.Writes.{turned, entered, delegated, closed, drained, observed, added}
use locus_pi.Owner.Leaving.{away_started}
use locus_pi.Owner.Stepping.{step-Move}
use locus_pi.Owner.{Event, root_scope, create, step, run}

-- The owner's state is joined.
abbrev pub Joined : Root → Type 0
Joined o = IsJoined (outlines o) o.launches

rejoined :
    (o' : Root) (os : List Outline) (ls : List Launch)
    → o'.launches ≡ ls
    → outlines o' ≡ os
    → IsJoined os ls
    → Joined o'
rejoined o' os ls launches scopes j =
    subst (λ x. IsJoined x o'.launches) (sym scopes) (subst (IsJoined os) (sym launches) j)

pub Move-Joined : (o o' : Root) → Move o o' → Joined o → Joined o'
Move-Joined o o' (stays k ls os) j = rejoined o' _ _ ls os j
Move-Joined o o' (reckons k ls os) j = rejoined o' _ _ ls os j
Move-Joined o o' (adds c n kind r k ls os) j =
    rejoined o' _ _ ls os
      (added (outlines o) o.launches j (new_launch c n kind r) refl ((refl, refl, refl), refl))
Move-Joined o o' (enters i l l' s at found opened scope called serves tidy k ls os) j =
    rejoined o' _ _ ls os
      (entered (outlines o) o.launches j i l l' at scope tidy serves s found opened)
Move-Joined o o' (turns i l l' at t k called ls os) j =
    rejoined o' _ _ ls os
      (turned (outlines o) o.launches j i l l' at t.same_scope t.tidy t.same_serving t.stays_busy)
Move-Joined o o' (starts i l l' at t opened k before after ls os) j =
    rejoined o' _ _ ls os
      (turned (outlines o) o.launches j i l l' at t.same_scope t.tidy t.same_serving t.stays_busy)
Move-Joined o o' (observes i l s at quiet found k ls os) j =
    rejoined o' _ _ ls os (observed (outlines o) o.launches j i l s at quiet found)
Move-Joined o o' (delegates i l l' at free scope busy called serves tidy k ls os) j =
    rejoined o' _ _ ls os (
      delegated (outlines o) o.launches j i l l' at scope tidy free busy
        (serves ∙ ap (λ n. some (n, none)) (sym (length-map outline o.scopes))))
Move-Joined o o' (closes_child i l l' c s at before found scope busy called now tidy k ls os) j =
    rejoined o' _ _ ls os
      (closed (outlines o) o.launches j i l l' at scope tidy c s before found busy now)
Move-Joined o o' (drains i l l' c w s at before found all scope busy called now tidy k ls os) j =
    rejoined o' _ _ ls os
      (drained (outlines o) o.launches j i l l' at scope tidy c w s before found all busy now)

pub run-Joined : (o : Root) (es : List Event) → Joined o → Joined (run o es)
unfolding run
run-Joined o [] j = j
run-Joined o (e ∷ es) j =
    run-Joined (step o e) es (Move-Joined o (step o e) (step-Move o (λ i l at. j.tidy i l at) e) j)

parentless :
    (c : ℕ) (s : Outline) (p : ℕ) (has_signal : Bool)
    → get_elem? (outline (root_scope (if has_signal then 2 else 0)) ∷ []) c ≡ some s
    → s.parent ≡ some p
    → ⊥
parentless zero s p has_signal found parent = ground arith
parentless (suc c) s p has_signal found parent = ground arith

pub create-Joined : (b : Budget) (n : ℕ) (has_signal : Bool) → Joined (create b n has_signal)
unfolding create
create-Joined b n has_signal = record {
  tidy = λ i l e. ground arith;
  placed = λ i l e busy. ground arith;
  run_by = λ c p s found shut parent. absurd (parentless c s p has_signal found parent);
}

-- `p` made the scope that `i` was made in, or is above the launch that did.
pub data Descends (o : Root) (p : ℕ) : ℕ → Type 0 where
  child :
      (i : ℕ) (l : Launch) (s : Scope)
      → get_elem? o.launches i ≡ some l
      → get_elem? o.scopes l.scope ≡ some s
      → s.parent ≡ some p
      → Descends o p i
  below :
      (q i : ℕ) (l : Launch) (s : Scope)
      → Descends o p q
      → get_elem? o.launches i ≡ some l
      → get_elem? o.scopes l.scope ≡ some s
      → s.parent ≡ some q
      → Descends o p i

-- The callback runs without a permit, and its delegation is not past the drain.
abbrev pub Waits : Launch → Type 0
Waits l = (is_busy l ≡ true) × (l.permit ≡ none) × (is_some (serving l) ≡ true)

served_away_at : (c : ℕ) (s : Stage) → is_some (serving_at c s) ≡ true → is_away_at s ≡ true
served_away_at c child_work e = refl
served_away_at c (draining w x) e = refl
served_away_at c (leaving x) e = ground arith
served_away_at c (reentering r x) e = ground arith
served_away_at c (over x) e = ground arith

same_parent :
    {os : Option Outline} (t : Outline) (s : Scope) (p : ℕ)
    → os ≡ some t
    → os ≡ some (outline s)
    → s.parent ≡ some p
    → t.parent ≡ some p
same_parent t s p e f parent = ground arith

served_some : (c i : ℕ) (v : Serving) → waits_for c i v ≡ true → is_some v ≡ true
served_some c i none e = ground arith
served_some c i (some v) e = refl

served_away : (d : Option Delegation) → is_some (serving_of d) ≡ true → is_away d ≡ true
served_away none e = ground arith
served_away (some d) e = served_away_at d.child d.stage e

module _ (o : Root) (j : Joined o) where
  serving-Waits :
      (p : ℕ) (lp : Launch)
      → get_elem? o.launches p ≡ some lp
      → is_some (serving lp) ≡ true
      → Waits lp
  serving-Waits p lp at serves =
      let away = served_away lp.delegation serves in
      let (started, busy) = away_started lp lp.phase (j.tidy p lp at) away in
      (busy, started.3 away, serves)

  same_busy :
      (i : ℕ) (l x : Launch)
      → get_elem? o.launches i ≡ some l
      → get_elem? o.launches i ≡ some x
      → is_busy x ≡ true
      → is_busy l ≡ true
  same_busy i l x at at_x busy = ground arith

  parent-Waits :
      (p i : ℕ) (l : Launch) (s : Scope)
      → get_elem? o.launches i ≡ some l
      → get_elem? o.scopes l.scope ≡ some s
      → s.parent ≡ some p
      → is_busy l ≡ true
      → (lp : Launch) × (get_elem? o.launches p ≡ some lp) × Waits lp
  parent-Waits p i l s at found parent busy =
      let (t, there_is, member, parents) = j.placed i l at busy in
      let outlined = get_elem?-map-some outline o.scopes l.scope s found in
      let waiting = parents p (same_parent t s p there_is outlined parent) in
      elim (Option-cases (get_elem? o.launches p)) [
        | inl missing ↦ absurd (ground arith)
        | inr (lp, at_p) ↦ (
          lp,
          at_p,
          serving-Waits p lp at_p (
              served_some l.scope i (serving lp) (
                sym (
                  ap (λ x. elim x [ none ↦ false | some y ↦ waits_for l.scope i (serving y) ]) at_p)
                ∙ waiting)),
        )
      ]

  -- While a launch runs, each launch above it waits.
  pub above-Waits :
      (p i : ℕ)
      → Descends o p i
      → (l : Launch) → get_elem? o.launches i ≡ some l
      → is_busy l ≡ true
      → (lp : Launch) × (get_elem? o.launches p ≡ some lp) × Waits lp
  above-Waits p i (child _ l s at found parent) x at_x busy =
      parent-Waits p i l s at found parent (same_busy i l x at at_x busy)
  above-Waits p i (below q _ l s up at found parent) x at_x busy =
      let (lq, at_q, waits) = parent-Waits q i l s at found parent (same_busy i l x at at_x busy) in
      above-Waits p q up lq at_q waits.0

-- Over any run of the owner: while a launch has begun and not settled, every launch above it has not
-- settled either, holds no permit, and has a delegation that is not past the drain of its jobs.
pub run-create-Waits :
    (b : Budget) (n : ℕ) (has_signal : Bool) (es : List Event) (p i : ℕ) (l : Launch)
    → Descends (run (create b n has_signal) es) p i
    → get_elem? (run (create b n has_signal) es).launches i ≡ some l
    → is_busy l ≡ true
    → (lp : Launch) × (get_elem? (run (create b n has_signal) es).launches p ≡ some lp) × Waits lp
run-create-Waits b n has_signal es p i l up at busy =
    above-Waits (run (create b n has_signal) es)
      (run-Joined (create b n has_signal) es (create-Joined b n has_signal)) p i up l at busy
