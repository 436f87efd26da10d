-- ===== src/Outcome.antt =====
-- extensions/workflows/runtime/workflow-outcome.ts: what a workflow's result means.
--
-- The values are JSON already, as the read side has them: `prepareWorkflowResult` returns such a
-- value unchanged, and a value that has no JSON form comes as its diagnostic. The messages of an
-- error are the host's.
pub mod Compact
pub mod Disposition
pub mod Summary
pub mod Failure
pub mod RoundTrip
pub mod Agreement
pub mod Bounds
