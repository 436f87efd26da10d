-- ===== src/RunBudget/Format.antt =====
-- workflow-budget.ts: the lines and the envelope that report a budget.
use locus_pi.Common.{ℕ, Option, none, some, List, [], ◌∷◌, ◌++◌, map}
use locus_pi.Common.Text.{Text, codes, decimal}
use locus_pi.RunBudget.Axes.{Axis, Budget, workflow_budget_axes, axis_name, get_axis, Raise}

abbrev pub workflow_budget_unbounded : Text
workflow_budget_unbounded = codes "unbounded"

abbrev value_text : Option ℕ → Text
value_text none = workflow_budget_unbounded
value_text (some n) = decimal n

-- `formatWorkflowBudgetAxis`
unfoldable pub format_axis : Budget → Axis → Text
unfolding decimal
format_axis b axis = value_text (get_axis axis b)

abbrev join_words : List Text → Text
join_words [] = []
join_words (w ∷ []) = w
join_words (w ∷ v ∷ words) = w ++ codes " " ++ join_words (v ∷ words)

-- `formatWorkflowBudgetPrelude`
unfoldable pub format_prelude : Budget → Text
unfolding format_axis
format_prelude b =
    codes "[workflow:budget] applied "
    ++ join_words (map (λ a. axis_name a ++ codes "=" ++ format_axis b a) workflow_budget_axes)

pub data Scope : Type 0 where
  run call : Scope

abbrev scope_text : Scope → Text
scope_text run = codes "run"
scope_text call = codes "call"

-- `formatWorkflowBudgetRaise`
unfoldable pub format_raise : Raise → Scope → Text
unfolding decimal
format_raise r scope =
    codes "[workflow:budget] "
    ++ scope_text scope
    ++ codes " raised "
    ++ axis_name r.axis
    ++ codes " above the applied default: default="
    ++ decimal r.applied
    ++ codes " requested="
    ++ decimal r.requested

-- `workflowBudgetEnvelope`; `none` prints as `unbounded`.
unfoldable pub budget_envelope : Budget → List (Text × Option ℕ)
budget_envelope b = map (λ a. (axis_name a, get_axis a b)) workflow_budget_axes

-- `formatWorkflowBudgetStop`
unfoldable pub format_stop : Axis → Text → Text
format_stop axis detail =
    codes "[workflow:budget] stopped by budget "
    ++ axis_name axis
    ++ codes ": "
    ++ detail
    ++ codes ". Data received so far is kept."
