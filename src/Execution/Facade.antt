-- ===== src/Execution/Facade.antt =====
-- extensions/workflows/runtime/workflow-execution-state.ts and extensions/_shared/runtime/execution-state.ts:
-- the creation of a root run's execution state, up to its ledger and its scheduler.
use locus_pi.Common.{
  ℕ, ◌≡◌, refl, sym, subst, ap, ◌∙◌, Bool, true, false, ◌&&◌, Option, none, some, [], if◌then◌else◌,
  get_or, arith,
}
use locus_pi.Common.Number.{Number, pos, negsuc, inexact, is_positive_safe}
use locus_pi.Execution.Budget
use locus_pi.Execution.Scheduler
use locus_pi.Execution.Budget.{Budget, Result, ok, err, check_axis}
use locus_pi.Execution.Scheduler.{Scheduler}

pub data Error : Type 0 where
  bad_max_concurrent_agents bad_max_total bad_runtime bad_concurrency : Error
  bad_budget : Budget.Error → Error

-- The owner's ledger and scheduler.
pub record Owner : Type 0 where
  pub budget : Budget
  pub scheduler : Scheduler

pub data Created : Type 0 where
  created : Owner → Created
  refused : Error → Created

abbrev with_budget : ℕ → Result Budget → Created
with_budget concurrency (err e) = refused (bad_budget e)
with_budget concurrency (ok b) =
    created (record { budget = b; scheduler = Scheduler.create concurrency })

-- `createExecutionState`
unfoldable pub create_execution_state : Number → Option Number → Option Number → ℕ → Created
unfolding Budget.create Scheduler.create
create_execution_state (pos n) total runtime now =
    if is_positive_safe (pos n)
    then with_budget n (Budget.create total runtime now)
    else refused bad_concurrency
create_execution_state (negsuc n) total runtime now = refused bad_concurrency
create_execution_state inexact total runtime now = refused bad_concurrency

-- An absent option passes.
abbrev pub is_fine : Option Number → Bool
is_fine none = true
is_fine (some v) = is_positive_safe v

-- `input.maxConcurrentAgents ?? DEFAULT_WORKFLOW_CONCURRENCY`
abbrev pub concurrency_or_default : Option Number → Number
concurrency_or_default c = get_or c (pos 4)

-- `createWorkflowSharedExecutionState`
unfoldable pub create_shared : Option Number → Option Number → Option Number → ℕ → Created
unfolding create_execution_state
create_shared concurrency total runtime now =
    if is_positive_safe (concurrency_or_default concurrency)
    then if is_fine total
      then if is_fine runtime
        then create_execution_state (concurrency_or_default concurrency) total runtime now
        else refused bad_runtime
      else refused bad_max_total
    else refused bad_max_concurrent_agents

abbrev pub is_created : Created → Bool
is_created (created o) = true
is_created (refused e) = false

-- `pos` of an option
abbrev pub declared : Option ℕ → Option Number
declared none = none
declared (some n) = some (pos n)

abbrev pub Carries : Option Number → Option Number → Option Number → Created → Type 0
Carries concurrency total runtime (refused e) = Unit {0}
Carries concurrency total runtime (created o) =
    (pos o.scheduler.concurrency ≡ concurrency_or_default concurrency)
    × (declared o.budget.total_agents ≡ total)
    × (declared o.budget.runtime_ms ≡ runtime)

abbrev new_ledger : Option ℕ → Option ℕ → ℕ → Budget
new_ledger total runtime now = record {
  total_agents = total;
  runtime_ms = runtime;
  started = now;
  sequence = 0;
  charged = 0;
  replayed = 0;
  reserved = 0;
  reservations = [];
}

budget_created :
    (total runtime : Option Number) (now : ℕ)
    → is_fine total ≡ true
    → is_fine runtime ≡ true
    → (b : Budget) × (Budget.create total runtime now ≡ ok b)
      × (declared b.total_agents ≡ total)
      × (declared b.runtime_ms ≡ runtime)
unfolding Budget.create check_axis
budget_created none none now t r = (new_ledger none none now, refl, refl, refl)
budget_created none (some (pos n)) now t r =
    (new_ledger none (some n) now, ground arith, refl, refl)
budget_created (some (pos m)) none now t r =
    (new_ledger (some m) none now, ground arith, refl, refl)
budget_created (some (pos m)) (some (pos n)) now t r =
    (new_ledger (some m) (some n) now, ground arith, refl, refl)
budget_created (some (negsuc m)) runtime now t r = absurd (ground arith)
budget_created (some inexact) runtime now t r = absurd (ground arith)
budget_created none (some (negsuc m)) now t r = absurd (ground arith)
budget_created none (some inexact) now t r = absurd (ground arith)
budget_created (some (pos m)) (some (negsuc n)) now t r = absurd (ground arith)
budget_created (some (pos m)) (some inexact) now t r = absurd (ground arith)

owner_carries :
    (c : Number) (total runtime : Option Number) (now : ℕ)
    → is_positive_safe c ≡ true
    → is_fine total ≡ true
    → is_fine runtime ≡ true
    → (o : Owner) × (create_execution_state c total runtime now ≡ created o)
      × (pos o.scheduler.concurrency ≡ c)
      × (declared o.budget.total_agents ≡ total)
      × (declared o.budget.runtime_ms ≡ runtime)
unfolding create_execution_state Scheduler.create
owner_carries (pos n) total runtime now fine t r =
    let (b, made, dt, dr) = budget_created total runtime now t r in
    (
      record { budget = b; scheduler = Scheduler.create n },
      ap
            (λ x.
              if x
              then with_budget n (Budget.create total runtime now)
              else refused bad_concurrency)
            fine
          ∙ ap (with_budget n) made,
      refl,
      dt,
      dr,
    )
owner_carries (negsuc n) total runtime now fine t r = absurd (ground arith)
owner_carries inexact total runtime now fine t r = absurd (ground arith)

fine_default : (c : Option Number) → is_positive_safe (concurrency_or_default c) ≡ is_fine c
fine_default none = refl
fine_default (some v) = refl

carried :
    (concurrency total runtime : Option Number) (now : ℕ)
    → (o : Owner) × (create_execution_state (concurrency_or_default concurrency) total runtime now
        ≡ created o)
      × (pos o.scheduler.concurrency ≡ concurrency_or_default concurrency)
      × (declared o.budget.total_agents ≡ total)
      × (declared o.budget.runtime_ms ≡ runtime)
    → (is_created (create_execution_state (concurrency_or_default concurrency) total runtime now)
        ≡ true)
      × Carries concurrency total runtime
          (create_execution_state (concurrency_or_default concurrency) total runtime now)
carried concurrency total runtime now (o, made, w, t, r) =
    subst (λ x. (is_created x ≡ true) × Carries concurrency total runtime x) (sym made)
      (refl, (w, t, r))

pick :
    (concurrency total runtime : Option Number) (p q r : Bool) (x : Created)
    → (p ≡ true → q ≡ true → r ≡ true → (is_created x ≡ true) × Carries concurrency total runtime x)
    → (is_created (
          if p
          then if q then if r then x else refused bad_runtime else refused bad_max_total
          else refused bad_max_concurrent_agents)
        ≡ (p && (q && r)))
      × Carries concurrency total runtime (
          if p
          then if q then if r then x else refused bad_runtime else refused bad_max_total
          else refused bad_max_concurrent_agents)
pick concurrency total runtime true true true x h = h refl refl refl
pick concurrency total runtime true true false x h = (refl, tt)
pick concurrency total runtime true false r x h = (refl, tt)
pick concurrency total runtime false q r x h = (refl, tt)

-- A run's execution state is created exactly when each limit that is given is a positive safe
-- integer: the owner's own checks refuse nothing more. The scheduler then has the width that was
-- given, or four, and the ledger the given total and runtime, or none.
pub create_shared_iff :
    (concurrency total runtime : Option Number) (now : ℕ)
    → (is_created (create_shared concurrency total runtime now)
        ≡ (is_fine concurrency && (is_fine total && is_fine runtime)))
      × Carries concurrency total runtime (create_shared concurrency total runtime now)
unfolding create_shared
create_shared_iff concurrency total runtime now =
    let c = concurrency_or_default concurrency in
    let (created_when, carries) =
      pick concurrency total runtime (is_positive_safe c) (is_fine total) (is_fine runtime)
        (create_execution_state c total runtime now)
        (λ p q r.
          carried concurrency total runtime now (owner_carries c total runtime now p q r)) in
    (created_when ∙ ap (◌&& (is_fine total && is_fine runtime)) (fine_default concurrency), carries)
