-- ===== src/Tests.antt =====
-- The theorems at concrete inputs, and runs of the definitions.
mod Execution
mod Runs
mod Replay
mod Host
mod Lease
mod Outcome
mod RunBudget
mod Groups
mod Owner
mod Names
mod LiveStore
mod Command
mod SavedNames
