-- ===== src/Lib.antt =====
-- flowkit runs steps over items: it loads cached results, admits fresh work against finite budgets and
-- rate limits, calls the provider with retries, and files each item as a value, a quarantined or a
-- skipped one. The package execution holds the limiters and the caches; the package flow holds the
-- run around them.
--
-- The files and the code that they model:
--   Base, Base/*: tests, lists, integers, text and association lists over native numbers. A Go map is
--     an association list, an int is a whole number, and a duration is an int64 whose arithmetic wraps.
--     Base/Float is float64 as a parameter.
--   Errors: the chains of %w, errors.Join, and the typed errors of flow/classify.go; errors.Is.
--   Execution/Reservation: execution/reservation.go and the limiter interfaces of execution/map.go.
--   Execution/Budget: execution/budget.go. Budget/Trace has any sequence of calls on a shared budget;
--     the mutex makes each call one step.
--   Execution/Chain: execution/chain.go, over any state in which the limiters act.
--   Execution/Rate: execution/rate.go, as a step relation: the goroutine of a Reserve, the replenisher,
--     the other holders of tokens and Close act between any two steps.
--   Execution/Cache: execution/cache.go and the MemoryStore of flow/store.go. Go's encoders and hashes
--     and the file system are parameters.
--   Execution/Group: the grouping by key of execution/cached_map.go and the batches of
--     execution/cached_batch_map.go. The batches recur on the number of the misses, which is enough
--     since each takes at least one.
--   Exec, Exec/Yields: actions on a state that may fail, and how a proof follows them.
--   Execution/Map, Execution/CachedMap, Execution/Outcome: Map and MapCached, over any order in which
--     the workers take the jobs.
--   Execution/MySql: the options, the schema and the entries of execution/mysql_cache.go; the server's
--     statements are a parameter.
--   Files: AtomicWrite of internal/fsutil/fsutil.go over any results of the system's calls.
--   Flow/Classify, Flow/Policy, Flow/Report: flow/classify.go, flow/policy.go and flow/report.go, with
--     validatePolicy, retryDelay and nextRetryDelay of flow/run.go.
--   Flow/Env: runEnv of flow/run.go, newRunEnv and ensure. Flow/Admit: runEnv.admit.
--   Flow/Accounts: the accessors of runEnv, policyPlans, collectPlans and a step's report.
--   Flow/Runner, Runner/Work, Runner/Process: typedRunner of flow/run.go as actions of Exec. The loop
--     of work recurs on the attempts that are left.
--     A leader ends before the next item starts. Runner/Counts, Untouched, Tallies, Ending, Attempts,
--     Settling and Books prove what the runner counts.
--     Runner/Plain and Whole prove what leaves a stage.
--   Flow/Pipeline: runStages of flow/run.go. A schedule picks the stage that moves and the item that a
--     worker takes; the moves that a line has left bound its loop. Pipeline/Ordered and its children
--     prove that a line ends.
--   Flow/Observe: the snapshots and the ledger of flow/observe.go.
--   Flow/Stages: stageSpec, typedRunner and overrideStageRunner of flow/run.go as stages of a pipeline.
--   Flow/Run: Run and runCore of flow/run.go, and flow/pipe.go. An engine of a step's own is an action
--     over all its items.
--   Flow/Batched: flow/batch.go, with the group calls and the repairs as nested runs of Flow/Run.
--     Batched/Covered, Repaired, Placed and Complete follow each index to its result.
--   Flow/Bulk: runBulk of flow/bulk.go, with its batches as jobs of Execution/Map; its attempts are
--     bounded as in Runner/Work. The child modules follow what is written into its results.
--   Execution/Plans: execution/resource_plan.go; Plans/AsEnsure compares it with Flow/Env.
--   Examples: the theorems at concrete inputs.
--
-- The parts interact as in the code: the runner admits through Flow/Admit, which finds in Flow/Env the
-- chains of Execution/Chain over the budgets of Execution/Budget and the caller's rate limiters. The
-- context, the provider, the stores, the hooks and the ledger act on a world that is a parameter.
--
-- Not modelled: two workers of a stage between two steps of one item; in the stages of a pipeline, the
-- bounded channels and a context that ends while items are sent: the tests of it in the feeder, at a
-- barrier and in a send, and the cancellation of what is under way when a stage fails.
-- A line of Flow/Pipeline is a run whose context does not end, so nothing is said here of a run that is
-- cancelled. Nor are the ticker of the periodic reporter and the progress lines of the log modelled; the step value of Bulk; repair steps that are pipes; the pool of
-- connections of execution/mysql_cache.go; the JSON and digest calls of internal; and the command,
-- the examples and the test support. The text of an error is its format string.
pub mod Base
pub mod Errors
pub mod Exec
pub mod Files
pub mod Execution
pub mod Flow
pub mod Examples
