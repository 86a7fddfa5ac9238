-- ===== src/Lib.antt =====
-- Atoms Platform: agent runs on one shared database.
--
-- A user starts a run of agents for a project and steers it through the control plane
-- (apps/control-api); workers (apps/orchestrator-worker) take the runs from a queue and carry them
-- out; sweeps expire, remind of and purge the runs that stay paused. They meet in one PostgreSQL
-- database, where a run's row carries a status and a control version: every change of the status is
-- a compare-and-swap on both, and the transactions of a worker that holds a run (Worker/Calls) are
-- fenced by the version at which it claimed the run. The calls that agents make to models are
-- bounded by a ledger of budgets.
--
-- The parts, with the code that they model:
--   Common: lists, tables and Boolean tests that all parts share.
--   Store: the rows of packages/db/prisma/schema.prisma that the modelled code reads or writes
--     (Store/Model), what the schemas of packages/contracts/src/events.ts refuse in the payload of
--     an event (Store/Payloads), transactions with thrown errors that roll back
--     (Store/Transactions), the statements on tasks, file versions, sandboxes and previews
--     (Store/Rows, Store/Files, Store/SandboxRows), and the laws that no transaction may break
--     (Store/Laws, Store/Keeps, Store/Primitives).
--   Worker: apps/orchestrator-worker/src/repository.ts. Worker/Runs: claimRun, requestApproval,
--     completeRun, failRun. Worker/Tasks: prepareTask, skipTask, startTask, failTask.
--     Worker/Patches: applyGeneratedFiles. Worker/Completion: completeTask. Worker/Sandboxes and
--     Worker/Previews: createSandboxSession to markPreviewStopped. Worker/Calls: the calls of a
--     worker that holds a run as one type. Worker/Errors: errors.ts beside it, how an error is
--     classified. Worker/Jobs: a sequence of transactions and calls of agents with the error that
--     it may end in. Worker/Agents and Worker/Graph: graph.ts, runAgent, the approval gates and the
--     order of the nodes. Worker/Processor: processor.ts and, of repair.ts, how a failed validation
--     is recognised: a job from its claim to its outcome. Worker/Routes: route-coverage.ts beside
--     it, which the processor takes as a parameter. Worker/Releases: the run events of an
--     assessment (release-repository.ts).
--   Control: apps/control-api/src. Control/Transition: resolveRunTransition of app.ts, and
--     availableRunActions of apps/web/src/lib/workspace-state.ts with the buttons of RunControls in
--     apps/web/src/components/workspace-shell.tsx. Control/Runs: the handler controlRun of app.ts
--     with getRun, transitionRun, markRunFailed and listRunEventsAfter of repository.ts.
--     Control/Creation: createRunWithIdempotency. Control/Start: the handler createRun of app.ts.
--     Control/Files: putProjectFile.
--   Expiry: apps/orchestrator-worker/src/approval-expiry.ts, its three repositories and the
--     sweepOnce of its three sweepers.
--   Budget: apps/orchestrator-worker/src/model-budget.ts. Budget/Doubles: the floating point of its
--     prices. Budget/Pricing: estimates, with calculateCostUsdMicros of
--     packages/model-gateway/src/openai-model-gateway.ts. Budget/Ledger:
--     PostgresRunProviderBudgetStore. Budget/Gateway: BudgetedModelGateway before and after a call.
--   Quality: packages/quality/src/evaluate.ts, the assessment of a release.
--   Preview: of packages/preview/src/ticket.ts, the session id in a preview ticket.
--   System: the histories that these operations produce together on one database; System/Jobs takes
--     the run graph and the whole of process (processor.ts) along such histories, and
--     System/Releases the events of an assessment.
--   Tests: the operations on concrete databases.
--
-- Conventions. A transaction is a function from a database to an outcome with the next database; a
-- thrown error leaves the database as it was. Where an operation reads before it writes and other
-- connections may commit in between, it takes what they commit as a function, `others`; in System
-- that function is itself a history. Ids are natural numbers, since they are only compared; times
-- are milliseconds since the epoch. JSON columns and prompts are texts. Prices and the safety
-- multiplier are finite doubles, rounded to 53 bits as in the code. Most loops follow a list, and a
-- sweep makes ten batches at most, as in the code. Three functions run on fuel: the loop of
-- validations and repairs has one unit more than the configured number of repairs, and the digits
-- and the bit length of a number have the number itself. Texts whose characters matter are lists of
-- UTF-16 code units. Exit codes, process ids and the counts of milliseconds are natural numbers.
--
-- Parameters stand for code outside the repository or behind an interface: the schema that parses
-- David's output and the hash (Parsers), the sizes of buffers (Buffers), the queue and the clock of
-- a request (Request), the clock and the runs' workspaces of the ledger (Clock), the agents with
-- their schemas, the attachment loader and the order of paths in the database (Ports), the outputs
-- that LangGraph's checkpointer restores and the collaborators of a processor (Processor), the
-- check of a UUID, the order of texts in an assessment (Orders), and the text functions of the
-- event schemas, which a database carries along (Formats).
--
-- Not modelled: provisioning of databases, attachments, revenue, memory, the web client but for the
-- offered actions, the wiring of queues and HTTP, and the clients of external services. Of the
-- repair loop, the prompts and the repairs that Alex makes; of previews, the signature and host
-- name of a ticket and the store of sessions; of releases, the adapters that collect evidence and
-- the tables of assessments. Messages of errors are left out but where they are stored. Operations
-- of the same database on other tables are in System as changes that leave runs, events and files
-- alone, and the events that the repositories of generated databases and of releases write are
-- there as single steps.
pub mod Budget
pub mod Common
pub mod Control
pub mod Expiry
pub mod Preview
pub mod Quality
pub mod Store
pub mod System
pub mod Tests
pub mod Worker
