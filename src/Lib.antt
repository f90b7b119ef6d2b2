-- ===== src/Lib.antt =====
-- Verification of redrill, which proves that backups restore: a drill checks a backup source at up
-- to three levels (l1 repository checks, l2 a restore, l3 a sandboxed load), and a passing drill is
-- a dated proof that must not grow older than the drill allows.
--
-- The parts, and the files that model them (paths are from the repository's root):
--   * internal/store, the database of runs, is Store. Store/Model has its types and tables, Store/Action
--     the methods as state functions that may fail, Store/Runs, Store/Trail, Store/Proofs and
--     Store/Retention the methods of runs.go, state.go and retention.go by name (CreateRun is
--     create_run). The other files of Store prove what the methods promise.
--   * internal/orchestrate/orchestrate.go is Orchestrate: Model has its types and pure functions,
--     Level runLevel and recordStep, Run the function Run, split where its parts end (run_levels is
--     its loop, or_finalize its deferred call, run_tail what follows its FinishRun).
--   * internal/scheduler is Scheduler: Staleness (Stale, HeadlineLevel), Gate (TryAcquire and its
--     release) and Due (jitter, advance, due, dispatch, and what Run waits for); Flight, Fires, Never and
--     Fresh prove what they promise.
--   * internal/notify/notify.go and cmd/redrill/notify.go are Alerts: Model has ClassifyRun and the
--     notifications, Watch the alerter; the sender is the list of what it was given.
--   * internal/exec is Exec: Step has the step and its reply, Verdict aggregate and summarize,
--     Repository the first level of borg and restic repositories, Second and Second/* the second level,
--     Third and Third/* the third level (l3.go), DumpLevels the first and second level of a directory
--     of dumps and RunStep, World what these levels meet outside the program, with scratch.go, Stage
--     and Load the staging and loading of a dump, Sample the selection of sample.go, Secrets the secrets
--     of a source and io.go, Startup CleanStaleScratch and ValidateSource.
--   * internal/server is Server: the credentials (auth.go) and the routes that ask for them (server.go).
--   * internal/sandbox/sandbox.go is Sandbox, internal/redact/redact.go is Redact.
--   * internal/checks is Checks: Snapshot, Dump (dumpfile.go), Tree (l2.go, filecount.go and the
--     script of execcheck.go), Entropy (entropy.go), Sandboxed (sql.go, tcp.go and the rest of execcheck.go),
--     Expect (expect.go), Glob (the patterns of filecount.go), and Status and Evidence themselves.
--   * internal/config is Config with its types, Config/Validate and Config/DrillRules
--     with the paths of the errors that validate reports; Config/Units is parseDuration of units.go.
--   * Clock has the values of Go's time package, Text functions of its strings package, Prelude the
--     shared names; Examples applies the theorems to concrete inputs.
-- A run calls the executor for each level and writes the steps and evidence, the verdict and the
-- proofs to the store; the scheduler starts runs through the gate, and staleness reads the proofs.
--
-- What is assumed and what is left out:
--   * A time is a number of nanoseconds since year 1 in UTC, one that UnixNano can hold; durations
--     and totals are integers, and the overflow of a total of bytes is not modelled.
--   * An SQL statement is a function on tables kept as lists. Each one may fail, by a parameter of
--     type Faults, and one that fails changes nothing; a statement that cancelling a context stops
--     is one that fails.
--   * The executor is a parameter from steps to replies, and the clock one from the number of
--     reads to times. Logging and the callback that prints a level are left out. The cron library and the random generator are parameters.
--   * The driver of a repository is a record of its answers, and so are the texts that Go's fmt makes,
--     the file system and the sandbox, whose answers may depend on all effects before. A step gives its
--     reply and the list of its effects, newest first. The orchestrator takes any executor; run_step of
--     Exec/DumpLevels is the one of the program. A closing, a removal and an unmounting are effects with
--     the error that the call returned, which the program drops; it may have left what it was to remove.
--     A panic of the executor is a reply, and unwinds through the deferred call of Run. That a step's context may end is an error of a call.
--   * Not modelled: sources in the configuration, the server's handlers, the reports
--     and the commands, which are mostly output; the drivers themselves call other programs.
--   * The permutation of the seeded generator, path.Match, regular expressions, the readers of numbers
--     and of timestamps, decompressors, strconv.Itoa and floating-point comparisons are parameters where
--     they are used. A text is Unicode; a cut at a byte within a character is not modelled.
--     Validation keeps the path of an error and not its message.
--   * The moves of the gate are sequences of the steps that the lock and the channel make atomic.
-- No function here needs fuel: the loops run over lists.
pub mod Prelude
pub mod Clock
pub mod Text
pub mod Config
pub mod Checks
pub mod Store
pub mod Redact
pub mod Sandbox
pub mod Exec
pub mod Orchestrate
pub mod Scheduler
pub mod Alerts
pub mod Server
pub mod Examples
