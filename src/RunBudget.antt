-- ===== src/RunBudget.antt =====
-- extensions/workflows/runtime/workflow-budget.ts: what a run may spend.
--
-- An override is the list of its own properties with their values, `none` for `undefined`; its keys
-- differ. A refused override is the error that is thrown, by what its message names.
pub mod Axes
pub mod Resolve
pub mod Format
pub mod Exact
pub mod Closed
