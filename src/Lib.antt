-- ===== src/Lib.antt =====
-- Verification of locus-pi, a set of extensions that run agents and workflows inside a terminal host.
--
-- A workflow is a script that makes agent calls. Its run is bounded by a budget, its calls are queued
-- by a scheduler and paid from a ledger, they are recorded so that a later run can replay them, its
-- workspace is leased against other processes, and its result is stored with a disposition. A registry
-- keeps the runs of a session apart. This library models these parts and proves what each promises.
--
--   Execution.Budget     extensions/_shared/runtime/execution-budget.ts
--     `createExecutionBudget`: the closure's variables are the record `Budget`, a reservation object is
--     its position, and each method (reserve, release, allocate, charge, counts, assertDeadline) is a
--     function of its name that returns the next state or the error.
--   Execution.Scheduler  extensions/_shared/runtime/execution-scheduler.ts
--     `createExecutionScheduler`: the queue, the permits and the settled promises are lists; acquire,
--     abort, activate and release are the events of a run. `dispatch` is structural on the queue.
--   Execution.Facade     extensions/workflows/runtime/workflow-execution-state.ts,
--                        extensions/_shared/runtime/execution-state.ts
--     The creation of a run's execution state, its checks and defaults.
--   Runs                 extensions/workflows/run/background-run-registry.ts
--     The registry of background runs as a state, its methods and the settlement of a run's promise as
--     events, with sessions as generations of leases.
--   Replay               extensions/workflows/runtime/workflow-replay.ts
--     `FileBackedWorkflowReplayController`: its constructor over the recorded entries, and
--     beginAgentAttempt, recordAgentAttempt, resolveValue, counts and assertComplete.
--   Lease                extensions/workflows/runtime/location-state/workflow-location-lease.ts,
--                        extensions/workflows/runtime/location-state/workflow-lease-evidence.ts
--     Acquisition, guarded reclaim and release as single operations on the two shared files, in any
--     interleaving of processes, with operations that throw and processes that die. The read of a lease
--     and the test of its owner's liveness are two operations.
--   Outcome              extensions/workflows/runtime/workflow-outcome.ts
--     Dispositions, their stored form and their projection, summaries, and returned failures.
--   RunBudget            extensions/workflows/runtime/workflow-budget.ts
--     The axes of a run's budget, the resolution of an override, and the lines that report it.
--   Groups               extensions/workflows/runtime/workflow-groups.ts
--     `runScheduled`: its workers as turns between awaits, in any order of settlements.
--   Owner                extensions/_shared/runtime/execution-state.ts
--     `createExecutionState`: scopes, invocations and delegations over the ledger and the scheduler, each
--     async function cut at its awaits, with every order of the continuations as a run.
--   Names                extensions/_shared/agent-runtime/agent-names.ts
--     The hash, the dictionary and `PetnameRegistry`.
--   LiveStore            extensions/_shared/agent-runtime/agent-live-store.ts
--     `AgentLiveStore`: rows and their current executions, the callbacks that cancel a row and take its
--     input, and the writes by row and by execution.
--   Command              extensions/workflows/command/command-parser.ts
--     The grammar of `/workflows` commands: tokens and their quoting, the options and input of a run,
--     `continue`, and the usage lines.
--   SavedNames           extensions/workflows/runtime/workflow-saved-name.ts
--     The pattern of saved names, a test for each of its lookaheads, the normal form of references, and
--     the identities of targets.
--   Host.LongTimer       extensions/_shared/runtime/long-timer.ts
--   Host.Render          extensions/_shared/host/render-scheduler.ts
--     A wait as a chain of representable timers, and the pacing of frames; the event loop's callbacks
--     are events. The scheduler is given two clocks, that of `now` and the event loop's, which timers
--     follow.
--   Common               lists, options, texts, numbers and JSON values that the parts share.
--   Tests                the theorems at concrete inputs, and runs of the definitions.
--
-- The parts meet in the program as follows: a launch is accepted by the registry, resolves its budget,
-- takes the lease of its workspace, and creates one ledger, one scheduler and one replay controller;
-- its completion becomes a disposition. The owner of a run joins ledger and scheduler, and a live row
-- stands for each agent call, under a name of the registry. The theorems on Owner are about the joint
-- runs; the others are about a part for itself, under any sequence of the calls that its clients can
-- make.
--
-- Numbers are native naturals; the host's doubles are `Number`, which tells integers from all else,
-- and the guards on safe integers are the code's. The counts that a ledger adds up are exact: the
-- rounding of doubles, when an unbounded ledger holds several reservations near `MAX_SAFE_INTEGER`, is
-- not modelled. Texts are lists of UTF-16 code units. Loops are structural, but for the chain of
-- timers, which runs on fuel: two rounds more than the milliseconds of the wait are enough, as its
-- theorem says, and the search for a free name, whose rounds are one more than the names in use. The
-- loops of the command parser have a round for each unit of their text, and each round reads at least
-- one. The decimal numerals of `Common.Text` have fuel above the number they print.
--
-- Not modelled: file and process I/O below the operations named above, the host's SDK and terminal, the
-- analysis of workflow sources, and the session events, statistics and transcripts of a live row.
-- SHA-256, `JSON.parse` of a command's typed input, `node:path` with the real path of a file, and the
-- liveness and completeness of a lease's owner are parameters.
pub mod Common
pub mod Execution
pub mod Runs
pub mod Replay
pub mod Host
pub mod Lease
pub mod Outcome
pub mod RunBudget
pub mod Groups
pub mod Owner
pub mod Names
pub mod LiveStore
pub mod Command
pub mod SavedNames
mod Tests
