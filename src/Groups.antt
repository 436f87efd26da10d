-- ===== src/Groups.antt =====
-- extensions/workflows/runtime/workflow-groups.ts: `runScheduled`, which runs the thunks of a group.
--
-- The host runs one callback at a time, so a worker's turn, from the head of its loop to its next
-- `await`, is one operation. What each thunk comes to is the function `outcome`; when it settles, and
-- in which order, is given by the events. `running` lists the thunks in flight.
pub mod Workers
pub mod Turns
pub mod Slots
pub mod Draining
