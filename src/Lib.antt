-- ===== src/Lib.antt =====
-- xcoder: an orchestration platform for software tasks (src/).
--
-- The library models the engine that the program runs by default, the SDLC engine
-- (src/core/engine/SdlcEngine.ts), with the independent judge that it asks (src/core/goalValidator.ts);
-- the lean engine (src/core/engine/LeanEngine.ts), the plain loop of model and tools;
-- the procedures, which are generated and executed step by step (src/core/workflows,
-- src/core/engine/ProcedureEngine.ts); the worker processes (src/subprocess);
-- the response cache (src/cache) that stands between every part and the language model; the heuristics
-- that watch over a task (in src/core: iterationReasonDedup.ts, duplicateActionDetector.ts, stepScorer.ts,
-- truncationGuard.ts, contextCompaction.ts, taskTokenTracker.ts); the tenants, their features, quotas and
-- gate (src/saas); the tokens, passwords, rate limits and the middleware at the door of the HTTP interface
-- (src/api/auth.ts); the plans that tasks keep in files (src/tools/filePlanStore.ts); and the token
-- allowance, the scheduler and the supervisor of the autonomous agent (integrations/agi).
--
-- Files.
--   Prelude       the names that the modules share, tests on numbers, lists, texts as UTF-16 code units
--   Sdlc/Stage    the stages, their order, chains and roles, the node of the DAG, the options
--   Sdlc/Dag      `buildDag` and `validateDag`; the depth-first search takes fuel, one for each node
--                 and one more
--   Sdlc/World    the sub-agents, the shell, the judge, the clock and the caller's cancellations, as
--                 one tape of attempts; `redactSecrets` is a field of the world
--   Sdlc/Gate     `validateNode` and `validateGoal`
--   Sdlc/Healing  `runNodeWithHealing`, one turn of its loop at a time
--   Sdlc/Run      the frontier loop of `runInternal`, the isolation boundary, `persistState`, `cancel`;
--                 the loop takes fuel, one round for each node and one more
--   Sdlc/Entry    `run`: its checks, the resume from a checkpoint, the stuck guard, the endings
--   Agi/Ledger    `TokenLedger` of integrations/agi/src/meter.ts: the windows of spent tokens
--   Agi/Schedule  `parseSchedule` of integrations/agi/src/scheduler.ts
--   Agi/Scheduler `Scheduler` of the same file: `update`, `tick` before and after its cycle, the hooks;
--                 Agi/Scheduler/Cycles runs it over whole histories of events
--   Agi/Kernel    the supervisor of integrations/agi/kernel/supervisor.ts: promotions, rollbacks, exits
--   Cache/Memory  `MemoryBackend`: a store of at most so many entries, in the order of use
--   Cache/Redis   `RedisBackend`: the circuit breaker and the clearing in batches
--   Cache/Backend the interface between the client and a store; Cache/Memory/Served fills it
--   Cache/Client  `CachingLlmClient` of src/cache/llmCache.ts; hashing, JSON and the model are parameters
--   Health/Similarity  `levenshteinSimilarity` of src/core/iterationReasonDedup.ts
--   Health/Reasons     `checkDuplicateReason` of the same file, with lower case as a parameter
--   Health/Json, Health/Actions  `findDuplicateActions` of src/core/duplicateActionDetector.ts
--   Health/Steps       src/core/stepScorer.ts and src/core/truncationGuard.ts
--   Health/Totals      src/core/taskTokenTracker.ts, src/core/accumulatedTotal.ts
--   Health/Compaction  `compactStaleFileReads` of src/core/contextCompaction.ts
--   Lean/Engine   `LeanEngine` of src/core/engine/LeanEngine.ts: its state, `cancel`, and the world it calls
--   Lean/Calls    the tool calls of one response; Lean/Report what is kept at the limit
--   Lean/Run      `run`, one turn of its loop at a time; the loop takes fuel, two rounds more than the limit
--   Workflows/Steps, Workflows/Actions, Workflows/Attempts, Workflows/Procedures
--                 src/core/workflows/stepExecution.ts and types.ts: an action, the attempts of one step, the
--                 sweeps over the pending steps, which take fuel, one for each step and one more
--   Workflows/Router, Workflows/Generation  src/core/workflows/router.ts and procedure.ts
--   Workflows/Engine  `ProcedureEngine` of src/core/engine/ProcedureEngine.ts
--   Subprocess    one worker of src/subprocess/SubprocessManager.ts: its listeners and timers, whose events
--                 are the steps of a relation
--   Plans         the file store of plans, src/tools/filePlanStore.ts
--   Saas/Roles, Saas/Features, Saas/Plans, Saas/Ids, Saas/Tenants, Saas/Usage, Saas/Gate
--                 src/saas: roles, feature switches at two levels, tenants and their plans, monthly usage
--                 and the metered client, the gate in front of every route
--   Api/Limits    the rate limits of src/api/auth.ts; Api/Limits/Capped and Retried run them over
--                 histories
--   Api/Tokens    its token store; Api/Tokens/Refined compares it with tokens that are never evicted
--   Api/Access    `authMiddleware` and `requireAdmin`; Api/Access/LockedOut joins them with the tenants
--   Api/Passwords hashes of passwords and log-ins; the hash functions of the platform are parameters
--
-- An engine is a record of the fields that a run changes; an operation returns the new record. The
-- loop's reference into the DAG is written back by the node's id. A cancellation is part of the attempt
-- that it falls into: before its sub-agent settled, or while the gate was at work.
--
-- Times are natural numbers of milliseconds, offsets from UTC integers of minutes. A cycle of the
-- scheduler runs between two events, so other events may come in between.
--
-- Left out: console output, spans and metrics, the prompts, and the duration in an attempt's record;
-- of the scheduler, its files, `status` and the texts of outcomes and errors; of the supervisor, its links as
-- files, signals and the file of requests; of a worker process, its environment; of the cache, the connection
-- to Redis and the time-out timer; of the plans, `listPlans` and errors of the file system; the texts of
-- warnings and scores. Similarities are exact quotients, where the program rounds them as
-- floating-point numbers.
pub mod Prelude
pub mod Sdlc
pub mod Agi
pub mod Cache
pub mod Health
pub mod Api
pub mod Lean
pub mod Plans
pub mod Saas
pub mod Workflows
pub mod Subprocess
