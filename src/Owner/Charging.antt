-- ===== src/Owner/Charging.antt =====
-- The callbacks that the owner calls are the launches that its ledger charges:
-- extensions/_shared/runtime/execution-state.ts.
use locus_pi.Common.{
  ℕ, zero, suc, ◌+◌, ◌≡◌, refl, sym, ap, subst, ◌∙◌, Bool, true, false, List, [], ◌∷◌, Option, none,
  some, get_elem?, set, count, count-append, arith,
}
use locus_pi.Common.Number.{Number, pos, negsuc, inexact}
use locus_pi.Execution.Budget
use locus_pi.Execution.Budget.{Budget, Kind, fresh, replay, Call, ok}
use locus_pi.Execution.Budget.Invariant.{IsBalanced, Within, step-IsBalanced, run-create-IsBalanced}
use locus_pi.Owner.Records.{Root, Launch}
use locus_pi.Owner.Moves.{
  Move, stays, reckons, adds, enters, turns, starts, observes, delegates, closes_child, drains,
  Reckoned, Kept,
}
use locus_pi.Owner.Steps.{new_launch}
use locus_pi.Owner.Waiting.{Joined, Move-Joined, create-Joined}
use locus_pi.Owner.Stepping.{step-Move}
use locus_pi.Owner.{Event, create, step, run}

abbrev pub is_called : Launch → Bool
is_called l = l.called

abbrev one_if : Bool → ℕ
one_if true = 1
one_if false = 0

count-set :
    (ls : List Launch) (i : ℕ) (l l' : Launch)
    → get_elem? ls i ≡ some l
    → count is_called (set ls i l') + one_if l.called ≡ count is_called ls + one_if l'.called
count-set [] i l l' at = ground arith
count-set (x ∷ ls) zero l l' at = ground arith
count-set (x ∷ ls) (suc i) l l' at = ground (arith, count-set ls i l l' at)

-- The ledger balances, its total is the declared one, and it has charged each callback that was called.
pub record IsCharged (total : Option ℕ) (o : Root) : Type 0 where
  pub balanced : IsBalanced o.budget
  pub declared : o.budget.total_agents ≡ total
  pub charged : o.budget.charged ≡ count is_called o.launches

step-total : (b : Budget) (c : Call) → (Budget.step b c).total_agents ≡ b.total_agents
unfolding Budget.step
step-total b (Budget.reserves (pos n)) = unfold Budget.reserve in (ground arith)
step-total b (Budget.reserves (negsuc n)) = unfold Budget.reserve in (ground arith)
step-total b (Budget.reserves inexact) = unfold Budget.reserve in (ground arith)
step-total b (Budget.releases r) = unfold Budget.release Budget.owned in (ground arith)
step-total b (Budget.allocates fresh r) = unfold Budget.allocate in (ground arith)
step-total b (Budget.allocates replay none) = unfold Budget.allocate in (ground arith)
step-total b (Budget.allocates replay (some r)) =
    unfold Budget.allocate Budget.consume Budget.owned in (ground arith)
step-total b (Budget.charges none) = unfold Budget.charge in (ground arith)
step-total b (Budget.charges (some r)) =
    unfold Budget.charge Budget.consume Budget.owned in (ground arith)

-- What a write adds to the calls.
module _ (o o' : Root) where
  wrote :
      (i : ℕ) (l l' : Launch)
      → get_elem? o.launches i ≡ some l
      → o'.launches ≡ set o.launches i l'
      → count is_called o'.launches + one_if l.called
        ≡ count is_called o.launches + one_if l'.called
  wrote i l l' at ls =
      ap (λ x. count is_called x + one_if l.called) ls ∙ count-set o.launches i l l' at

  pub wrote_same :
      (i : ℕ) (l l' : Launch)
      → get_elem? o.launches i ≡ some l
      → l'.called ≡ l.called
      → o'.launches ≡ set o.launches i l'
      → count is_called o'.launches ≡ count is_called o.launches
  wrote_same i l l' at called ls = let w = wrote i l l' at ls in ground arith

module _ (total : Option ℕ) (o o' : Root) (v : IsCharged total o) where
  -- The ledger as it was, and after one call.
  kept : Kept o o' → count is_called o'.launches ≡ count is_called o.launches → IsCharged total o'
  kept k same = record {
    balanced = subst IsBalanced (sym k) v.balanced;
    declared = ap (λ b. b.total_agents) k ∙ v.declared;
    charged = ap (λ b. b.charged) k ∙ v.charged ∙ sym same;
  }

  reckoned :
      (n : ℕ)
      → Reckoned o o' n
      → count is_called o'.launches ≡ count is_called o.launches + n
      → IsCharged total o'
  reckoned n (c, ran, more) grown = record {
    balanced = subst IsBalanced (sym ran) (step-IsBalanced o.budget c v.balanced);
    declared = ap (λ b. b.total_agents) ran ∙ step-total o.budget c ∙ v.declared;
    charged = more ∙ ap (◌+ n) v.charged ∙ sym grown;
  }

  Move-IsCharged : Move o o' → IsCharged total o'
  Move-IsCharged (stays k ls os) = kept k (ap (count is_called) ls)
  Move-IsCharged (reckons k ls os) = reckoned 0 k (ap (count is_called) ls ∙ omega arith)
  Move-IsCharged (adds c n kind r k ls os) =
      reckoned 0 k
        (ap (count is_called) ls ∙ count-append is_called o.launches (new_launch c n kind r ∷ []))
  Move-IsCharged (enters i l l' s at found opened scope called serves tidy k ls os) =
      kept k (wrote_same o o' i l l' at called ls)
  Move-IsCharged (turns i l l' at t k called ls os) = kept k (wrote_same o o' i l l' at called ls)
  Move-IsCharged (starts i l l' at t opened k before after ls os) =
      reckoned 1 k (let w = wrote o o' i l l' at ls in ground arith)
  Move-IsCharged (observes i l s at quiet found k ls os) = kept k (ap (count is_called) ls)
  Move-IsCharged (delegates i l l' at free scope busy called serves tidy k ls os) =
      kept k (wrote_same o o' i l l' at called ls)
  Move-IsCharged (closes_child i l l' c s at before found scope busy called now tidy k ls os) =
      kept k (wrote_same o o' i l l' at called ls)
  Move-IsCharged (drains i l l' c w s at before found all scope busy called now tidy k ls os) =
      kept k (wrote_same o o' i l l' at called ls)

run-IsCharged :
    (total : Option ℕ) (o : Root) (es : List Event)
    → Joined o
    → IsCharged total o
    → IsCharged total (run o es)
unfolding run
run-IsCharged total o [] j v = v
run-IsCharged total o (e ∷ es) j v =
    let m = step-Move o (λ i l at. j.tidy i l at) e in
    run-IsCharged total (step o e) es (Move-Joined o (step o e) m j)
      (Move-IsCharged total o (step o e) v m)

create-IsCharged :
    (t r : Option Number) (now : ℕ) (b : Budget) (n : ℕ) (has_signal : Bool)
    → Budget.create t r now ≡ ok b
    → IsCharged b.total_agents (create b n has_signal)
unfolding create Budget.create Budget.run
create-IsCharged t r now b n has_signal made = record {
  balanced = run-create-IsBalanced t r now b [] made;
  declared = refl;
  charged = ground arith;
}

Within-called :
    (total : Option ℕ) (o : Root)
    → IsCharged total o
    → Within total (count is_called o.launches + o.budget.reserved)
Within-called total o v =
    subst (λ x. Within x (count is_called o.launches + o.budget.reserved)) v.declared
      (subst (λ x. Within o.budget.total_agents (x + o.budget.reserved)) v.charged
        v.balanced.capped)

-- Over any run of an owner with a new ledger, the ledger has charged exactly the callbacks that the
-- owner has called, it balances, and together with what is reserved they stay within the declared total.
pub run-create-IsCharged :
    (t r : Option Number) (now : ℕ) (b : Budget) (n : ℕ) (has_signal : Bool) (es : List Event)
    → Budget.create t r now ≡ ok b
    → (o : Root) × (run (create b n has_signal) es ≡ o)
      × (o.budget.charged ≡ count is_called o.launches)
      × Within b.total_agents (count is_called o.launches + o.budget.reserved)
      × IsBalanced o.budget
run-create-IsCharged t r now b n has_signal es made =
    let v =
      run-IsCharged b.total_agents (create b n has_signal) es (create-Joined b n has_signal)
        (create-IsCharged t r now b n has_signal made) in
    (
      run (create b n has_signal) es,
      refl,
      v.charged,
      Within-called b.total_agents (run (create b n has_signal) es) v,
      v.balanced,
    )
