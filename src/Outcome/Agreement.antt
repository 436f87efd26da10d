-- ===== src/Outcome/Agreement.antt =====
-- workflow-outcome.ts: the projected status and the stored `ok` agree.
use locus_pi.Common.{◌≡◌, refl, Bool, true, not, Option, none, some, arith}
use locus_pi.Common.Text.{Text}
use locus_pi.Outcome.Disposition.{Disposition, completed, awaiting_operator, cancelled, failed}
use locus_pi.Outcome.Summary.{
  ProjectedStatus, is_completed, is_awaiting, is_cancelled, is_failed, is_unknown, Envelope,
  project_as, project_read, read_disposition, project_workflow_disposition,
}

-- The statuses that an envelope with this `ok` may have.
abbrev pub allowed : Bool → ProjectedStatus → Bool
allowed ok is_completed = ok
allowed ok is_awaiting = ok
allowed ok is_cancelled = not ok
allowed ok is_failed = not ok
allowed ok is_unknown = true

read_allowed :
    (e : Envelope) (fallback : Option Text) (d : Option Disposition)
    → allowed e.ok (project_read e fallback d).status ≡ true
unfolding project_read project_as
read_allowed e fallback none = refl
read_allowed e fallback (some completed) = ground arith
read_allowed e fallback (some (awaiting_operator detail)) = ground arith
read_allowed e fallback (some (cancelled reason)) = ground arith
read_allowed e fallback (some failed) = ground arith

-- The projection never contradicts the stored `ok`: an envelope that is not ok is not projected as
-- completed or awaiting its operator, and an ok one not as cancelled or failed, whatever its
-- disposition is, malformed and foreign ones included.
pub project_workflow_disposition-allowed :
    (e : Envelope) (fallback : Option Text)
    → allowed e.ok (project_workflow_disposition e fallback).status ≡ true
unfolding project_workflow_disposition
project_workflow_disposition-allowed e fallback = read_allowed e fallback (read_disposition e)
