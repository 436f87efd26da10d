-- ===== src/Replay.antt =====
-- extensions/workflows/runtime/workflow-replay.ts, the recorded-call store of a workflow run.
--
-- `FileBackedWorkflowReplayController` is the record `Controller`, its private fields under their
-- names; its two maps are association lists. A receipt object is the ordinal of its admission, and
-- `admissions` holds those not yet settled. An operation that throws may have changed the state
-- before, so each returns the next state beside its outcome. The record file is `log`, in the order
-- of the writes: a write that fails is swallowed by the source, and is not modelled. SHA-256 comes
-- from node:crypto and is the parameter `hash`. Entries are JSON values already, on which
-- `immutableJSON` is a frozen copy.
pub mod Records
pub mod Controller
pub mod Attempts
pub mod Values
pub mod Prefix
pub mod Modes
pub mod Strict
pub mod Soundness
pub mod Recording
pub mod Loading
pub mod RoundTrip
