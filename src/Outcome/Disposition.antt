-- ===== src/Outcome/Disposition.antt =====
-- workflow-outcome.ts: the terminal disposition of a run.
use locus_pi.Common.{
  Bool, true, false, not, ◌&&◌, Option, none, some, ◌==◌, ltb, if◌then◌else◌, is_some, length,
}
use locus_pi.Common.Text.{Text, codes}
use locus_pi.Common.Json.{
  Json, string, object, Fields, no_fields, field, get_field, has_field, field_count, fields_of,
  string_of, is_text,
}
use locus_pi.Outcome.Compact.{non_empty_string}

-- `WorkflowCancellationReason`
pub data CancellationReason : Type 0 where
  operator_stop session_shutdown aborted : CancellationReason

-- `WorkflowDisposition`
pub data Disposition : Type 0 where
  completed : Disposition
  awaiting_operator : Text → Disposition
  cancelled : CancellationReason → Disposition
  failed : Disposition

abbrev pub reason_text : CancellationReason → Text
reason_text operator_stop = codes "operator_stop"
reason_text session_shutdown = codes "session_shutdown"
reason_text aborted = codes "aborted"

-- `workflowCancellationReasonFromPersisted`
abbrev pub cancellation_reason_from_persisted : Option Json → Option CancellationReason
cancellation_reason_from_persisted v =
    if is_text (codes "operator_stop") v
    then some operator_stop
    else if is_text (codes "session_shutdown") v
    then some session_shutdown
    else if is_text (codes "aborted") v
    then some aborted
    else none

abbrev kind_reason : Option Json → CancellationReason
kind_reason kind =
    if is_text (codes "operator_stop") kind
    then operator_stop
    else if is_text (codes "session_shutdown") kind
    then session_shutdown
    else aborted

-- `workflowCancellationReason`
unfoldable pub cancellation_reason : Option Json → CancellationReason
cancellation_reason v = elim (fields_of v) [
  | none ↦ aborted
  | some record_fields ↦ kind_reason (get_field (codes "kind") record_fields)
]

abbrev pub at_most_200 : Option Text → Option Text
at_most_200 none = none
at_most_200 (some detail) = if ltb 200 (length detail) then none else some detail

-- `boundedDispositionDetail`
abbrev pub bounded_disposition_detail : Option Text → Option Text
bounded_disposition_detail v = at_most_200 (non_empty_string v)

pub record Completion : Type 0 where
  pub ok : Bool
  pub aborted_now : Bool
  pub abort_reason : Option Json
  pub await_operator_reason : Option Text

abbrev pub awaiting_or : Bool → Option Text → Disposition
awaiting_or asked (some detail) = awaiting_operator detail
awaiting_or true none = failed
awaiting_or false none = completed

-- `workflowDispositionForCompletion`
unfoldable pub disposition_for_completion : Completion → Disposition
unfolding cancellation_reason
disposition_for_completion input =
    if input.aborted_now
    then cancelled (cancellation_reason input.abort_reason)
    else if not input.ok
    then failed
    else awaiting_or (is_some input.await_operator_reason)
        (bounded_disposition_detail input.await_operator_reason)

-- The object of a disposition, as the envelope stores it.
unfoldable pub disposition_object : Disposition → Json
disposition_object completed =
    object (field (codes "status") (string (codes "completed")) no_fields)
disposition_object failed = object (field (codes "status") (string (codes "failed")) no_fields)
disposition_object (awaiting_operator detail) = object (
    field (codes "status") (string (codes "awaiting_operator"))
      (field (codes "detail") (string detail) no_fields))
disposition_object (cancelled reason) = object (
    field (codes "status") (string (codes "cancelled"))
      (field (codes "reason") (string (reason_text reason)) no_fields))

-- The sorted keys are `status`, or `status` and `key`.
abbrev only_status : Fields → Bool
only_status fs = field_count fs == 1 && has_field (codes "status") fs

abbrev status_and : Text → Fields → Bool
status_and key fs = field_count fs == 2 && (has_field key fs && has_field (codes "status") fs)

abbrev map_awaiting : Option Text → Option Disposition
map_awaiting none = none
map_awaiting (some detail) = some (awaiting_operator detail)

abbrev map_cancelled : Option CancellationReason → Option Disposition
map_cancelled none = none
map_cancelled (some reason) = some (cancelled reason)

abbrev parse_fields : Fields → Option Disposition
parse_fields fs =
    let status = get_field (codes "status") fs in
    if is_text (codes "completed") status
    then if only_status fs then some completed else none
    else if is_text (codes "failed") status
    then if only_status fs then some failed else none
    else if is_text (codes "awaiting_operator") status
    then if status_and (codes "detail") fs
      then map_awaiting (bounded_disposition_detail (string_of (get_field (codes "detail") fs)))
      else none
    else if is_text (codes "cancelled") status
    then if status_and (codes "reason") fs
      then map_cancelled (cancellation_reason_from_persisted (get_field (codes "reason") fs))
      else none
    else none

-- `parseWorkflowDisposition`
unfoldable pub parse_workflow_disposition : Option Json → Option Disposition
parse_workflow_disposition v = elim (fields_of v) [ none ↦ none | some fs ↦ parse_fields fs ]

-- `legacyWorkflowDisposition`
abbrev pub legacy_disposition : Bool → Disposition
legacy_disposition ok = if ok then completed else failed

-- `dispositionMatchesOk`
abbrev pub disposition_matches_ok : Disposition → Bool → Bool
disposition_matches_ok completed ok = ok
disposition_matches_ok (awaiting_operator detail) ok = ok
disposition_matches_ok (cancelled reason) ok = not ok
disposition_matches_ok failed ok = not ok

-- `formatWorkflowCancellationSummary`
abbrev pub cancellation_summary : CancellationReason → Text
cancellation_summary operator_stop = codes "cancelled by operator"
cancellation_summary session_shutdown = codes "cancelled (session shutdown)"
cancellation_summary aborted = codes "cancelled"
