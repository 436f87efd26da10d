-- ===== src/RunBudget/Axes.antt =====
-- workflow-budget.ts: `WorkflowBudget` and its axes.
use locus_pi.Common.{ℕ, Bool, Option, none, some, List, [], ◌∷◌, ◌==◌, if◌then◌else◌}
use locus_pi.Common.Text.{Text, codes}
use locus_pi.Common.Number.{Number, pos, negsuc, inexact, is_positive_safe}

-- `keyof WorkflowBudget`
pub data Axis : Type 0 where
  concurrency total_agents runtime_ms timeout_ms tool_calls turns : Axis

pub record Budget : Type 0 where
  pub concurrency : ℕ
  pub total_agents : Option ℕ
  pub runtime_ms : Option ℕ
  pub timeout_ms : Option ℕ
  pub tool_calls : Option ℕ
  pub turns : Option ℕ

-- `WORKFLOW_BUDGET_AXES`
abbrev pub workflow_budget_axes : List Axis
workflow_budget_axes =
    concurrency ∷ total_agents ∷ runtime_ms ∷ timeout_ms ∷ tool_calls ∷ turns ∷ []

abbrev pub axis_name : Axis → Text
axis_name concurrency = codes "concurrency"
axis_name total_agents = codes "totalAgents"
axis_name runtime_ms = codes "runtimeMs"
axis_name timeout_ms = codes "timeoutMs"
axis_name tool_calls = codes "toolCalls"
axis_name turns = codes "turns"

abbrev axis_index : Axis → ℕ
axis_index concurrency = 0
axis_index total_agents = 1
axis_index runtime_ms = 2
axis_index timeout_ms = 3
axis_index tool_calls = 4
axis_index turns = 5

abbrev pub axis_eq : Axis → Axis → Bool
axis_eq a b = axis_index a == axis_index b

-- `budget[axis]` and `budget[axis] = value`
abbrev pub get_axis : Axis → Budget → Option ℕ
get_axis concurrency b = some b.concurrency
get_axis total_agents b = b.total_agents
get_axis runtime_ms b = b.runtime_ms
get_axis timeout_ms b = b.timeout_ms
get_axis tool_calls b = b.tool_calls
get_axis turns b = b.turns

abbrev pub set_axis : Axis → ℕ → Budget → Budget
set_axis concurrency n b = record b { concurrency = n }
set_axis total_agents n b = record b { total_agents = some n }
set_axis runtime_ms n b = record b { runtime_ms = some n }
set_axis timeout_ms n b = record b { timeout_ms = some n }
set_axis tool_calls n b = record b { tool_calls = some n }
set_axis turns n b = record b { turns = some n }

-- `assertWorkflowBudgetValue`: `none` is the error.
abbrev natural : Number → Option ℕ
natural (pos n) = some n
natural (negsuc n) = none
natural inexact = none

unfoldable pub checked_value : Number → Option ℕ
checked_value v = if is_positive_safe v then natural v else none

-- `WorkflowBudgetRaise`
pub record Raise : Type 0 where
  pub axis : Axis
  pub applied : ℕ
  pub requested : ℕ

-- `ResolvedWorkflowBudget`
pub record Resolved : Type 0 where
  pub budget : Budget
  pub raises : List Raise

pub data Error : Type 0 where
  not_positive : Axis → Error
  no_axis : Text → Error
  removed : Text → Option Axis → Error

pub data Resolution : Type 0 where
  resolved : Resolved → Resolution
  refused : Error → Resolution
