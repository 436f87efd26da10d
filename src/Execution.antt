-- ===== src/Execution.antt =====
-- extensions/_shared/runtime: the execution owner of a root run.
pub mod Budget
pub mod Scheduler
pub mod Facade
