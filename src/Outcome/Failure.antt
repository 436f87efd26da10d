-- ===== src/Outcome/Failure.antt =====
-- workflow-outcome.ts: `classifyWorkflowReturnedFailure`.
use locus_pi.Common.{Bool, true, false, Option, none, some, if◌then◌else◌, is_some}
use locus_pi.Common.Text.{Text, codes, is_blank}
use locus_pi.Common.Json.{Json, Fields, get_field, fields_of, string_of, is_boolean, is_text}

-- `WorkflowReturnedFailureStatus` and `WorkflowReturnedFailureKind`
pub data FailureStatus : Type 0 where
  failed blocked cancelled : FailureStatus

pub data FailureKind : Type 0 where
  ok_false partial by_status : FailureKind

-- `WorkflowReturnedFailure`
pub record ReturnedFailure : Type 0 where
  pub kind : FailureKind
  pub status : Option FailureStatus
  pub summary : Option Text

-- A status that is one of the three terminal ones.
abbrev pub failure_status : Option Json → Option FailureStatus
failure_status v =
    if is_text (codes "failed") v
    then some failed
    else if is_text (codes "blocked") v
    then some blocked
    else if is_text (codes "cancelled") v
    then some cancelled
    else none

abbrev unless_blank : Option Text → Option Text
unless_blank none = none
unless_blank (some t) = if is_blank t then none else some t

abbrev pub failure_kind : Fields → Option FailureKind
failure_kind fs =
    if is_boolean false (get_field (codes "ok") fs)
    then some ok_false
    else if is_boolean true (get_field (codes "partial") fs)
    then some partial
    else if is_some (failure_status (get_field (codes "status") fs))
    then some by_status
    else none

abbrev classify_fields : Fields → Option ReturnedFailure
classify_fields fs = elim (failure_kind fs) [
  | none ↦ none
  | some kind ↦ some (record {
    kind = kind;
    status = failure_status (get_field (codes "status") fs);
    summary = unless_blank (string_of (get_field (codes "summary") fs));
  })
]

-- `classifyWorkflowReturnedFailure`
unfoldable pub classify_returned_failure : Option Json → Option ReturnedFailure
classify_returned_failure v = elim (fields_of v) [ none ↦ none | some fs ↦ classify_fields fs ]

-- `isWorkflowResultExplicitFailure`
abbrev pub is_explicit_failure : Option Json → Bool
is_explicit_failure v = is_some (classify_returned_failure v)
