-- ===== src/RunBudget/Resolve.antt =====
-- workflow-budget.ts: `resolveWorkflowBudget`.
use locus_pi.Common.{
  ℕ, Bool, ◌||◌, not, Option, none, some, List, [], ◌∷◌, ◌++◌, any, ltb, if◌then◌else◌, is_some,
}
use locus_pi.Common.Text.{Text, codes, text_eq}
use locus_pi.Common.Number.{Number}
use locus_pi.RunBudget.Axes.{
  Axis, total_agents, Budget, workflow_budget_axes, axis_name, get_axis, set_axis, checked_value,
  Raise, Resolved, Error, not_positive, no_axis, removed, Resolution, resolved, refused,
}

abbrev pub default_workflow_concurrency : ℕ
default_workflow_concurrency = 4

abbrev pub default_headless_workflow_total_agents : ℕ
default_headless_workflow_total_agents = 10000

abbrev pub Override : Type 0
Override = List (Text × Option Number)

-- `override[axis]`
abbrev pub get_value : Text → Override → Option Number
get_value key [] = none
get_value key ((k, v) ∷ entries) = if text_eq k key then v else get_value key entries

abbrev pub default_budget : Bool → Budget
default_budget headless = record {
  concurrency = default_workflow_concurrency;
  total_agents = if headless then some default_headless_workflow_total_agents else none;
  runtime_ms = none;
  timeout_ms = none;
  tool_calls = none;
  turns = none;
}

-- `REMOVED_WORKFLOW_BUDGET_KEYS`: `some none` is a key without a replacement.
abbrev pub removed_key : Text → Option (Option Axis)
removed_key key =
    if text_eq key (codes "maxTotalAgentInvocations")
    then some (some total_agents)
    else if text_eq key (codes "answerChars")
    then some none
    else none

abbrev pub is_axis : Text → Bool
is_axis key = any (λ a. text_eq (axis_name a) key) workflow_budget_axes

abbrev pub key_error : Text → Option (Option Axis) → Error
key_error key none = no_axis key
key_error key (some replacement) = removed key replacement

-- `assertClosedWorkflowBudgetKeys`: the first error, if there is one.
unfoldable pub closed_keys_error : Override → Option Error
closed_keys_error [] = none
closed_keys_error ((key, value) ∷ entries) =
    if is_axis key || not (is_some value)
    then closed_keys_error entries
    else some (key_error key (removed_key key))

abbrev pub raise_for : Axis → ℕ → Option ℕ → List Raise
raise_for axis requested none = []
raise_for axis requested (some applied) =
    if ltb applied requested
    then record { axis = axis; applied = applied; requested = requested } ∷ []
    else []

abbrev pub apply_value : Axis → ℕ → Resolved → Resolved
apply_value axis requested r = record {
  budget = set_axis axis requested r.budget;
  raises = r.raises ++ raise_for axis requested (get_axis axis r.budget);
}

-- The loop over the axes.
unfoldable pub apply_axes : List Axis → Override → Resolved → Resolution
apply_axes [] o r = resolved r
apply_axes (a ∷ axes) o r = elim (get_value (axis_name a) o) [
  | none ↦ apply_axes axes o r
  | some v ↦ elim (checked_value v) [
    | none ↦ refused (not_positive a)
    | some n ↦ apply_axes axes o (apply_value a n r)
  ]
]

abbrev pub initial : Bool → Resolved
initial headless = record { budget = default_budget headless; raises = [] }

unfoldable pub resolve_entries : Override → Bool → Resolution
unfolding apply_axes closed_keys_error
resolve_entries o headless = elim (closed_keys_error o) [
  | some e ↦ refused e
  | none ↦ apply_axes workflow_budget_axes o (initial headless)
]

-- `resolveWorkflowBudget`
unfoldable pub resolve_workflow_budget : Option Override → Bool → Resolution
unfolding resolve_entries
resolve_workflow_budget none headless = resolved (initial headless)
resolve_workflow_budget (some o) headless = resolve_entries o headless
