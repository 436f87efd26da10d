-- ===== src/Tests/Outcome.antt =====
-- Results and dispositions at concrete inputs.
use locus_pi.Common.{◌≡◌, refl, true, false, none, some, [], ◌∷◌, ◌++◌}
use locus_pi.Common.Text.{codes}
use locus_pi.Common.Json.{null, string, object, array, item, no_items, no_fields, field}
use locus_pi.Outcome.Disposition.{
  Completion, disposition_for_completion, disposition_object, awaiting_operator,
  parse_workflow_disposition,
}
use locus_pi.Outcome.Summary.{
  Envelope, is_awaiting, project_workflow_disposition, format_failure_summary,
  unresolved_requirement_ids,
}
use locus_pi.Outcome.Failure.{classify_returned_failure}
use locus_pi.Outcome.RoundTrip.{parse-project-disposition_for_completion}
use locus_pi.Outcome.Agreement.{allowed, project_workflow_disposition-allowed}

-- The reason is compacted before it is stored.
abbrev asking : Completion
asking = record {
  ok = true;
  aborted_now = false;
  abort_reason = none;
  await_operator_reason = some (codes "  pick   one ");
}

abbrev stored : Envelope
stored = record {
  ok = true;
  result = null;
  error = none;
  disposition = some (disposition_object (awaiting_operator (codes "pick one")));
}

outcomes : Unit {0}
unfolding disposition_for_completion disposition_object parse_workflow_disposition
    project_workflow_disposition classify_returned_failure format_failure_summary
    unresolved_requirement_ids
outcomes = tt

parse-project-disposition_for_completion_example :
    (parse_workflow_disposition stored.disposition ≡ some (awaiting_operator (codes "pick one")))
    × ((project_workflow_disposition stored none).status ≡ is_awaiting)
unfolding outcomes
parse-project-disposition_for_completion_example =
    parse-project-disposition_for_completion asking stored none refl refl

project_workflow_disposition-allowed_example :
    allowed true (project_workflow_disposition stored none).status ≡ true
project_workflow_disposition-allowed_example = project_workflow_disposition-allowed stored none

summary_test :
    format_failure_summary
      (object (
        field
          (codes "unresolvedRows")
          (array (item (string (codes "R2")) (item (string (codes " R1 ")) no_items)))
          no_fields))
      none
      none
    ≡ codes "Workflow execution failed." ++ (32 ∷ 183 ∷ 32 ∷ []) ++ codes "unresolved: R1, R2"
unfolding outcomes
summary_test = refl
