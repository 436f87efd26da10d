-- ===== src/Outcome/RoundTrip.antt =====
-- workflow-outcome.ts: a stored disposition reads back, and projects to its own status.
use locus_pi.Common.{
  ◌≡◌, refl, sym, ap, ◌∙◌, Bool, true, false, not, Option, none, some, arith, if_intro,
  if◌then◌else◌, is_some, [], ◌∷◌,
}
use locus_pi.Common.Text.{Text}
use locus_pi.Outcome.Compact.{compact, compact-compact, non_empty}
use locus_pi.Outcome.Disposition.{
  operator_stop, session_shutdown, aborted, Disposition, completed, awaiting_operator, cancelled,
  failed, Completion, awaiting_or, at_most_200, bounded_disposition_detail,
  disposition_for_completion, disposition_object, parse_workflow_disposition,
  disposition_matches_ok, cancellation_reason,
}
use locus_pi.Outcome.Summary.{
  ProjectedStatus, is_completed, is_awaiting, is_cancelled, is_failed, Envelope, project_as,
  project_read, read_disposition, project_workflow_disposition,
}

-- A detail that the bound leaves as it is.
abbrev pub IsStorable : Disposition → Type 0
IsStorable (awaiting_operator detail) = bounded_disposition_detail (some detail) ≡ some detail
IsStorable completed = Unit {0}
IsStorable (cancelled reason) = Unit {0}
IsStorable failed = Unit {0}

non_empty-some : (t d : Text) → non_empty t ≡ some d → t ≡ d
non_empty-some [] d h = absurd (cc)
non_empty-some (c ∷ cs) d h = ground arith

at_most_some : (o : Option Text) (d : Text) → at_most_200 o ≡ some d → o ≡ some d
at_most_some none d h = h
at_most_some (some t) d h = ground arith

bounded_twice :
    (v : Option Text) (d : Text)
    → bounded_disposition_detail v ≡ some d
    → bounded_disposition_detail (some d) ≡ some d
bounded_twice none d h = absurd (cc)
bounded_twice (some t) d h =
    let kept : non_empty (compact t) ≡ some d = at_most_some (non_empty (compact t)) d h in
    let same : compact t ≡ d = non_empty-some (compact t) d kept in
    let again : compact d ≡ compact t = ap compact (sym same) ∙ compact-compact t in
    ap (λ u. at_most_200 (non_empty u)) again ∙ h

awaiting-IsStorable :
    (asked : Bool) (v o : Option Text)
    → bounded_disposition_detail v ≡ o
    → IsStorable (awaiting_or asked o)
awaiting-IsStorable asked v (some d) h = bounded_twice v d h
awaiting-IsStorable true v none h = tt
awaiting-IsStorable false v none h = tt

disposition_for_completion-IsStorable :
    (input : Completion) → IsStorable (disposition_for_completion input)
unfolding disposition_for_completion
disposition_for_completion-IsStorable input =
    let answer =
      awaiting_or (is_some input.await_operator_reason)
        (bounded_disposition_detail input.await_operator_reason) in
    if_intro IsStorable input.aborted_now {x = cancelled (cancellation_reason input.abort_reason)}
      {y = if not input.ok then failed else answer} (λ _. tt)
      (λ _.
        if_intro IsStorable (not input.ok) {x = failed} {y = answer} (λ _. tt)
          (λ _.
            awaiting-IsStorable (is_some input.await_operator_reason) input.await_operator_reason
              (bounded_disposition_detail input.await_operator_reason) refl))

parse-disposition_object :
    (d : Disposition)
    → IsStorable d
    → parse_workflow_disposition (some (disposition_object d)) ≡ some d
unfolding parse_workflow_disposition disposition_object
parse-disposition_object completed s = refl
parse-disposition_object failed s = refl
parse-disposition_object (awaiting_operator detail) s = ground arith
parse-disposition_object (cancelled operator_stop) s = refl
parse-disposition_object (cancelled session_shutdown) s = refl
parse-disposition_object (cancelled aborted) s = refl

abbrev pub status_of : Disposition → ProjectedStatus
status_of completed = is_completed
status_of (awaiting_operator detail) = is_awaiting
status_of (cancelled reason) = is_cancelled
status_of failed = is_failed

project_status :
    (e : Envelope) (fallback : Option Text) (d : Disposition)
    → (project_as e fallback d).status ≡ status_of d
unfolding project_as
project_status e fallback completed = refl
project_status e fallback (awaiting_operator detail) = refl
project_status e fallback (cancelled reason) = refl
project_status e fallback failed = refl

-- What a completion decides survives its storage: the stored object parses to the same disposition,
-- and an envelope that holds it beside the matching `ok` is projected to that status, never to
-- unknown.
pub parse-project-disposition_for_completion :
    (input : Completion) (e : Envelope) (fallback : Option Text)
    → e.disposition ≡ some (disposition_object (disposition_for_completion input))
    → disposition_matches_ok (disposition_for_completion input) e.ok ≡ true
    → (parse_workflow_disposition e.disposition ≡ some (disposition_for_completion input))
      × ((project_workflow_disposition e fallback).status
          ≡ status_of (disposition_for_completion input))
unfolding project_workflow_disposition read_disposition project_read
parse-project-disposition_for_completion input e fallback h m =
    let d = disposition_for_completion input in
    let parsed = parse-disposition_object d (disposition_for_completion-IsStorable input) in
    let read : read_disposition e ≡ some d = ground arith in
    (ap parse_workflow_disposition h ∙ parsed, ground (arith, project_status e fallback d))
