-- ===== src/SavedNames.antt =====
-- extensions/workflows/runtime/workflow-saved-name.ts, the names of saved workflows and the identities
-- of their targets.
--
-- The real path of a file and the operations of `node:path` are parameters.
pub mod Grammar
pub mod Segments
pub mod Division
pub mod Paths
pub mod Normal
pub mod Targets
pub mod Identity
