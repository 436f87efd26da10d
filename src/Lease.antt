-- ===== src/Lease.antt =====
-- extensions/workflows/runtime/location-state: the exclusive lease on a workflow's workspace.
--
-- Each acquisition is a process of its own, numbered; the number stands for the record that it
-- writes (its fencing token, run id and pid), so that two records are equal when the numbers are.
-- The shared state is the two files of the workspace's state directory, `lease.json` and
-- `reclaim.json`, each absent or written by one process. The stale file's name is random, so nobody
-- else touches it. Every constructor of `Pc` stands before one operation on the shared files, and
-- an event is one such operation by one process, in any interleaving: it succeeds, or it faults,
-- that is, it throws for any reason but a file that is there or missing. The exclusive open is
-- atomic. A lease is read in one operation, and its owner is inspected in the next (its liveness,
-- and whether its result is complete, which is a parameter that does not change), so that the
-- others may move in between. A reader's twenty retries on an incomplete file are one operation,
-- with its last outcome; a write that throws removes its file again.
pub mod Records
pub mod Moves
pub mod Protocol
pub mod Claims
pub mod Soundness
pub mod Exclusion
pub mod Rank
pub mod Settling
