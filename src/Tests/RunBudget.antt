-- ===== src/Tests/RunBudget.antt =====
-- Budgets at concrete overrides.
use locus_pi.Common.{◌≡◌, refl, true, false, none, some, [], ◌∷◌, any, not, ◌&&◌}
use locus_pi.Common.Text.{codes, decimal}
use locus_pi.Common.Number.{pos}
use locus_pi.RunBudget.Axes.{
  Resolved, concurrency, total_agents, checked_value, get_axis, axis_name, workflow_budget_axes,
  resolved, refused, removed,
}
use locus_pi.RunBudget.Resolve.{
  Override, get_value, default_budget, resolve_workflow_budget, resolve_entries, closed_keys_error,
  apply_axes,
}
use locus_pi.RunBudget.Format.{format_prelude, format_axis}
use locus_pi.RunBudget.Exact.{asked, or_value, above, raises_axis, resolve_workflow_budget_exact}
use locus_pi.RunBudget.Closed.{
  is_resolved, is_stray, is_unusable, is_resolved-resolve_workflow_budget,
}

-- The concurrency is raised, the run's time is bounded, and an absent key asks for nothing.
abbrev override : Override
override =
    (codes "runtimeMs", some (pos 60000))
    ∷ (codes "concurrency", some (pos 8))
    ∷ (codes "answerChars", none)
    ∷ []

abbrev budget : Resolved
budget = record {
  budget = record {
    concurrency = 8;
    total_agents = some 10000;
    runtime_ms = some 60000;
    timeout_ms = none;
    tool_calls = none;
    turns = none;
  };
  raises = record { axis = concurrency; applied = 4; requested = 8 } ∷ [];
}

budgets : Unit {0}
unfolding resolve_workflow_budget resolve_entries closed_keys_error apply_axes checked_value
    format_prelude format_axis decimal
budgets = tt

resolve_test : resolve_workflow_budget (some override) true ≡ resolved budget
unfolding budgets
resolve_test = refl

removed_test :
    resolve_workflow_budget (some ((codes "maxTotalAgentInvocations", some (pos 5)) ∷ [])) false
    ≡ refused (removed (codes "maxTotalAgentInvocations") (some total_agents))
unfolding budgets
removed_test = refl

prelude_test :
    format_prelude budget.budget
    ≡ codes
        "[workflow:budget] applied concurrency=8 totalAgents=10000 runtimeMs=60000 timeoutMs=unbounded toolCalls=unbounded turns=unbounded"
unfolding budgets
prelude_test = refl

resolve_workflow_budget_exact_example :
    (get_axis concurrency budget.budget
      ≡ or_value (asked concurrency override) (get_axis concurrency (default_budget true)))
    × (raises_axis concurrency budget.raises
        ≡ above (asked concurrency override) (get_axis concurrency (default_budget true)))
unfolding budgets
resolve_workflow_budget_exact_example =
    resolve_workflow_budget_exact override true budget concurrency refl

is_resolved-resolve_workflow_budget_example :
    is_resolved (resolve_workflow_budget (some override) true) ≡ (
      not (any is_stray override)
      && not (any (λ a. is_unusable (get_value (axis_name a) override)) workflow_budget_axes))
is_resolved-resolve_workflow_budget_example = is_resolved-resolve_workflow_budget override true
