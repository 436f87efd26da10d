-- ===== src/Runs.antt =====
-- extensions/workflows/run/background-run-registry.ts, the process-global owner of workflow lifetimes.
--
-- The registry state behind the global symbol is the record `Registry`; its maps are association
-- lists in insertion order, as a JavaScript `Map` iterates them. A promise's settlement is an event
-- of the run (`settle_run`), its value or error a number; an abort signal of the host is a number.
-- The records of runs are the mutable objects: an operation on one writes it back under its launch
-- id, which is unique in the map. A record always has its `exclusive` flag; one of the older shape,
-- which lacks it, reads as exclusive.
pub mod Records
pub mod Queries
pub mod Defs
pub mod Numbering
pub mod Exclusive
pub mod Sessions
pub mod Ending
pub mod Pruning
pub mod Survival
