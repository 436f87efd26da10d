-- ===== src/Owner/Records.antt =====
-- extensions/_shared/runtime/execution-state.ts: the state that the owner of a root run keeps.
--
-- `Root` is the closure of `createExecutionState`. An invocation with the locals of its `execute` is
-- a `Launch`, a `ScopeState` is a `Scope`, and both are named by their positions. A signal is a
-- position in `sources`, which holds the controllers' signals that it follows. `Phase` says at which
-- `await` of `execute` a launch stands, `Stage` where its delegation stands. A job is the position of
-- its launch. The reason of an abort is not kept: `aborted` stands for it.
use locus_pi.Common.{ℕ, Bool, Option, List}
use locus_pi.Execution.Budget
use locus_pi.Execution.Budget.{Budget, Kind}
use locus_pi.Execution.Scheduler.{Scheduler}

pub data Error : Type 0 where
  aborted scope_closed : Error
  ledger : Budget.Error → Error
  thrown : ℕ → Error

-- `await scheduler.acquire`, `await work`, `await delegation`, `await Promise.allSettled` in the
-- `catch`, and the settled promise.
pub data Phase : Type 0 where
  idle : Phase
  queued : ℕ → Phase
  working returned : Phase
  failing : Error → Phase
  settled : Option Error → Phase

-- `await work` of `delegate`, `await Promise.allSettled(child.jobs)` with the jobs it waits for,
-- the `finally` before and after its own `await`, and the settled promise `waiting`.
pub data Stage : Type 0 where
  child_work : Stage
  draining : List ℕ → Option Error → Stage
  leaving : Option Error → Stage
  reentering : ℕ → Option Error → Stage
  over : Option Error → Stage

pub record Delegation : Type 0 where
  pub child : ℕ
  pub stage : Stage

pub record Launch : Type 0 where
  pub scope : ℕ
  pub sequence : ℕ
  pub kind : Kind
  pub reservation : Option ℕ
  pub used : Bool
  pub phase : Phase
  pub permit : Option ℕ
  -- the signals of `stop`, `activeScope` and `resumeStop`
  pub stop : ℕ
  pub active_signal : ℕ
  pub resume_stop : ℕ
  pub delegation : Option Delegation
  pub delegation_failure : Option Error
  -- `work(lease)` has been called
  pub called : Bool

-- The parent is the launch that made the scope; its sequence is `parentSequence`.
pub record Scope : Type 0 where
  pub signal : ℕ
  pub parent : Option ℕ
  pub jobs : List ℕ
  pub closed : Bool
  pub failure : Option Error
  pub stop : Option ℕ

pub record Root : Type 0 where
  pub budget : Budget
  pub scheduler : Scheduler
  pub closed : Bool
  -- `options.signal`
  pub outer_signal : Option ℕ
  pub sources : List (List ℕ)
  pub scopes : List Scope
  pub launches : List Launch
