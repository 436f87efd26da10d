-- ===== src/Outcome/Summary.antt =====
-- workflow-outcome.ts: the summaries of a result, and the read-side projection.
use locus_pi.Common.{
  Bool, true, false, ◌&&◌, Option, none, some, ◌==◌, ltb, if◌then◌else◌, is_some, get_or, List, [],
  ◌∷◌, ◌++◌,
}
use locus_pi.Common.Text.{Text, codes, text_eq}
use locus_pi.Common.Json.{
  Json, null, boolean, number, string, array, object, Items, no_items, item, Fields, get_field,
  fields_of, string_of, is_text,
}
use locus_pi.Outcome.Compact.{non_empty_string}
use locus_pi.Outcome.Disposition.{
  Disposition, completed, awaiting_operator, cancelled, failed, parse_workflow_disposition,
  legacy_disposition, disposition_matches_ok, cancellation_summary,
}

-- `x ?? y`
abbrev pub or_else : Option Text → Option Text → Option Text
or_else (some t) u = some t
or_else none u = u

-- `String(b)`
abbrev boolean_text : Bool → Text
boolean_text true = codes "true"
boolean_text false = codes "false"

abbrev scalar_text : Option Json → Option Text
scalar_text (some (boolean b)) = some (boolean_text b)
scalar_text (some (number n)) = some n
scalar_text none = none
scalar_text (some null) = none
scalar_text (some (string s)) = none
scalar_text (some (array items)) = none
scalar_text (some (object fs)) = none

-- `semanticScalar`
abbrev pub semantic_scalar : Option Json → Option Text
semantic_scalar v = or_else (non_empty_string (string_of v)) (scalar_text v)

abbrev fields_summary : Fields → Option Text
fields_summary fs =
    or_else (non_empty_string (string_of (get_field (codes "summary") fs)))
      (semantic_scalar (get_field (codes "verdict") fs))

-- `workflowResultSummaryFromPrepared`: an object is no string.
abbrev pub summary_from_prepared : Json → Option Text
summary_from_prepared v =
    or_else (elim (fields_of (some v)) [ none ↦ none | some fs ↦ fields_summary fs ])
      (non_empty_string (string_of (some v)))

-- `isWorkflowResultDiagnostic`
abbrev pub is_workflow_result_diagnostic : Json → Bool
is_workflow_result_diagnostic v = elim (fields_of (some v)) [
  | none ↦ false
  | some fs ↦
      is_text (codes "workflow_result_diagnostic") (get_field (codes "kind") fs)
      && (is_text (codes "WORKFLOW_RESULT_NOT_JSON_SAFE") (get_field (codes "code") fs)
          && is_some (string_of (get_field (codes "message") fs)))
]

-- `formatWorkflowResultSummary`
unfoldable pub format_result_summary : Json → Text
format_result_summary v =
    if is_workflow_result_diagnostic v
    then codes "result unavailable"
    else get_or (summary_from_prepared v) (codes "completed")

-- `<` on strings, by code units
abbrev pub text_ltb : Text → Text → Bool
text_ltb [] [] = false
text_ltb [] (y ∷ ys) = true
text_ltb (x ∷ xs) [] = false
text_ltb (x ∷ xs) (y ∷ ys) = if x == y then text_ltb xs ys else ltb x y

-- `[...new Set(rows)].sort()`, by insertion: a row that is there is not put again.
abbrev pub insert_row : Text → List Text → List Text
insert_row t [] = t ∷ []
insert_row t (u ∷ us) =
    if text_eq t u then u ∷ us else if text_ltb t u then t ∷ u ∷ us else u ∷ insert_row t us

abbrev pub sorted_set : List Text → List Text
sorted_set [] = []
sorted_set (t ∷ ts) = insert_row t (sorted_set ts)

abbrev pub rows_of : Items → List Text
rows_of no_items = []
rows_of (item v items) = elim (non_empty_string (string_of (some v))) [
  | none ↦ rows_of items
  | some row ↦ row ∷ rows_of items
]

abbrev items_of : Option Json → Items
items_of (some (array items)) = items
items_of none = no_items
items_of (some null) = no_items
items_of (some (boolean b)) = no_items
items_of (some (number n)) = no_items
items_of (some (string s)) = no_items
items_of (some (object fs)) = no_items

-- `unresolvedRequirementIds`
unfoldable pub unresolved_requirement_ids : Json → List Text
unresolved_requirement_ids v = elim (fields_of (some v)) [
  | none ↦ []
  | some fs ↦ sorted_set (rows_of (items_of (get_field (codes "unresolvedRows") fs)))
]

-- `rows.join(", ")`
abbrev join_rows : List Text → Text
join_rows [] = []
join_rows (r ∷ []) = r
join_rows (r ∷ s ∷ rows) = r ++ codes ", " ++ join_rows (s ∷ rows)

-- U+00B7 stands between two spaces.
abbrev middle_dot : Text
middle_dot = 32 ∷ 183 ∷ 32 ∷ []

abbrev with_unresolved : Text → List Text → Text
with_unresolved summary [] = summary
with_unresolved summary (r ∷ rows) =
    summary ++ middle_dot ++ codes "unresolved: " ++ join_rows (r ∷ rows)

-- `formatWorkflowFailureSummary`
unfoldable pub format_failure_summary : Json → Option Text → Option Text → Text
unfolding unresolved_requirement_ids
format_failure_summary v technical_error fallback_error =
    let semantic =
      if is_workflow_result_diagnostic v
      then some (codes "Workflow result unavailable")
      else summary_from_prepared v in
    let summary =
      get_or (or_else semantic (non_empty_string fallback_error))
        (codes "Workflow execution failed.") in
    get_or (non_empty_string technical_error)
      (with_unresolved summary (unresolved_requirement_ids v))

-- `WorkflowProjectedStatus`
pub data ProjectedStatus : Type 0 where
  is_completed is_awaiting is_cancelled is_failed is_unknown : ProjectedStatus

-- `WorkflowDispositionProjection`
pub record Projection : Type 0 where
  pub status : ProjectedStatus
  pub summary : Text

-- The persisted envelope.
pub record Envelope : Type 0 where
  pub ok : Bool
  pub result : Json
  pub error : Option Text
  pub disposition : Option Json

abbrev unknown_projection : Projection
unknown_projection = record { status = is_unknown; summary = codes "unknown workflow disposition" }

unfoldable pub project_as : Envelope → Option Text → Disposition → Projection
unfolding format_result_summary format_failure_summary
project_as e fallback completed = record {
  status = is_completed;
  summary = format_result_summary e.result;
}
project_as e fallback (awaiting_operator detail) = record {
  status = is_awaiting;
  summary = codes "awaiting operator" ++ middle_dot ++ detail;
}
project_as e fallback (cancelled reason) = record {
  status = is_cancelled;
  summary = cancellation_summary reason;
}
project_as e fallback failed = record {
  status = is_failed;
  summary = format_failure_summary e.result e.error fallback;
}

-- The disposition that is read: a missing one is a legacy envelope's.
unfoldable pub read_disposition : Envelope → Option Disposition
unfolding parse_workflow_disposition
read_disposition e = elim e.disposition [
  | none ↦ some (legacy_disposition e.ok)
  | some v ↦ parse_workflow_disposition (some v)
]

unfoldable pub project_read : Envelope → Option Text → Option Disposition → Projection
unfolding project_as
project_read e fallback none = unknown_projection
project_read e fallback (some d) =
    if disposition_matches_ok d e.ok then project_as e fallback d else unknown_projection

-- `projectWorkflowDisposition`
unfoldable pub project_workflow_disposition : Envelope → Option Text → Projection
unfolding project_read read_disposition
project_workflow_disposition e fallback = project_read e fallback (read_disposition e)
