-- ===== src/Owner/Signals.antt =====
-- The abort signals of extensions/_shared/runtime/execution-state.ts, over the language's
-- `AbortController` and `AbortSignal.any`: a signal follows the controllers of its sources, an abort
-- marks every signal that follows the controller, and then their listeners run, in the order in
-- which the signals were made.
use locus_pi.Common.{
  ℕ, suc, not, ◌||◌, List, [], ◌∷◌, ◌++◌, none, some, if◌then◌else◌, ◌==◌, any, keep, length,
  get_elem?,
}
use locus_pi.Execution.Scheduler.{Scheduler, is_aborted, mark, listeners, abort_waiters}
use locus_pi.Owner.Records.{Root}

abbrev pub sources_of : List (List ℕ) → ℕ → List ℕ
sources_of sources g = elim (get_elem? sources g) [ none ↦ [] | some ks ↦ ks ]

-- `new AbortController()`: its signal is the next position.
abbrev pub new_controller : Root → Root
new_controller o = record o { sources = o.sources ++ (length o.sources ∷ []) ∷ [] }

-- `AbortSignal.any([a, b])`, aborted from the start when one of them is.
abbrev pub any_of : Root → ℕ → ℕ → Root
any_of o a b = record o {
  sources = o.sources ++ (sources_of o.sources a ++ sources_of o.sources b) ∷ [];
  scheduler =
      if is_aborted a o.scheduler.aborted || is_aborted b o.scheduler.aborted
      then mark o.scheduler (length o.sources)
      else o.scheduler;
}

-- The signals, from position `n` on, that follow the controller of `k`.
abbrev pub followers : ℕ → ℕ → List (List ℕ) → List ℕ
followers k n [] = []
followers k n (ks ∷ rest) =
    if any (λ g. g == k) ks then n ∷ followers k (suc n) rest else followers k (suc n) rest

abbrev pub mark_all : Scheduler → List ℕ → Scheduler
mark_all s [] = s
mark_all s (g ∷ gs) = mark_all (mark s g) gs

unfoldable pub run_listeners : Scheduler → List ℕ → Scheduler
run_listeners s [] = s
run_listeners s (g ∷ gs) = run_listeners (abort_waiters s (listeners g s.waiters)) gs

abbrev pub fire_all : Scheduler → List ℕ → Scheduler
fire_all s gs =
    let fresh = keep (λ g. not (is_aborted g s.aborted)) gs in
    run_listeners (mark_all s fresh) fresh

-- `controller.abort(reason)`
unfoldable pub fire : Root → ℕ → Root
fire o k = record o {
  scheduler =
      if is_aborted k o.scheduler.aborted
      then o.scheduler
      else fire_all o.scheduler (followers k 0 o.sources);
}
