-- ===== src/Owner.antt =====
-- extensions/_shared/runtime/execution-state.ts, the owner of a root run: its scopes, its launches,
-- their permits and their delegations, over the ledger and the scheduler.
--
-- A run of the owner is a list of events: a call by the adapters, or the continuation of one of the
-- owner's awaits, which does nothing before its promise has settled. Each order of the list that the
-- host's job queue can take is a run, and more orders are.
pub mod Records
pub mod Signals
pub mod Steps
pub mod Delegation
pub mod Moves
mod Matches
mod Frames
mod Entering
mod Leaving
mod Stepping
mod Joining
pub mod Waiting
pub mod Charging
pub mod Closing
use locus_pi.Common.{
  ℕ, Bool, true, false, List, [], ◌∷◌, Option, none, some, if◌then◌else◌, get_elem?,
}
use locus_pi.Common.Number.{Number}
use locus_pi.Execution.Budget
use locus_pi.Execution.Budget.{Budget, Kind}
use locus_pi.Execution.Scheduler
use locus_pi.Owner.Records.{Root, Scope, Launch, Error}
use locus_pi.Owner.Signals.{fire}
use locus_pi.Owner.Steps.{create_invocation, run_invocation, admit, observe}
use locus_pi.Owner.Delegation.{
  with_children, end_child_work, drain, leave, reenter, clear, end_work, join,
}

-- The scope `root`
abbrev pub root_scope : ℕ → Scope
root_scope signal = record {
  signal = signal;
  parent = none;
  jobs = [];
  closed = false;
  failure = none;
  stop = none;
}

-- The state that `createExecutionState` returns for a ledger and a width that it accepts, with or
-- without a signal of the caller.
unfoldable pub create : Budget → ℕ → Bool → Root
create budget concurrency has_signal = record {
  budget = budget;
  scheduler = Scheduler.create concurrency;
  closed = false;
  outer_signal = if has_signal then some 1 else none;
  sources = if has_signal then (0 ∷ []) ∷ (1 ∷ []) ∷ (0 ∷ 1 ∷ []) ∷ [] else (0 ∷ []) ∷ [];
  scopes = root_scope (if has_signal then 2 else 0) ∷ [];
  launches = [];
}

-- `close` up to its `await`
unfoldable pub close : Root → Root
close o = fire (record o { closed = true }) 0

-- The caller's signal fires.
abbrev pub interrupt : Root → Root
interrupt o = elim o.outer_signal [ none ↦ o | some g ↦ fire o g ]

pub data Event : Type 0 where
  reserves : Number → Event
  releases_reservation : ℕ → Event
  creates : ℕ → Kind → Option ℕ → Event
  runs : (launch now : ℕ) → Event
  admits : (launch now : ℕ) → Event
  observes : ℕ → Event
  delegates : ℕ → Event
  ends_child_work : ℕ → Option Error → Event
  drains leaves reenters clears : ℕ → Event
  ends_work : ℕ → Option Error → Event
  joins : ℕ → Event
  interrupts closes : Event

abbrev pub on_launch : Root → ℕ → (Launch → Root) → Root
on_launch o i f = elim (get_elem? o.launches i) [ none ↦ o | some l ↦ f l ]

unfoldable pub step : Root → Event → Root
step o (reserves n) = record o { budget = Budget.step o.budget (Budget.reserves n) }
step o (releases_reservation r) = record o { budget = Budget.step o.budget (Budget.releases r) }
step o (creates c kind reservation) = create_invocation o c kind reservation
step o (runs i now) = on_launch o i (λ l. run_invocation o i l now)
step o (admits i now) = on_launch o i (λ l. admit o i l now)
step o (observes i) = on_launch o i (observe o i)
step o (delegates i) = on_launch o i (with_children o i)
step o (ends_child_work i outcome) = on_launch o i (λ l. end_child_work o i l outcome)
step o (drains i) = on_launch o i (drain o i)
step o (leaves i) = on_launch o i (leave o i)
step o (reenters i) = on_launch o i (reenter o i)
step o (clears i) = on_launch o i (clear o i)
step o (ends_work i outcome) = on_launch o i (λ l. end_work o i l outcome)
step o (joins i) = on_launch o i (join o i)
step o interrupts = interrupt o
step o closes = close o

unfoldable pub run : Root → List Event → Root
run o [] = o
run o (e ∷ es) = run (step o e) es
