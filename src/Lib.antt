-- ===== src/Lib.antt =====
-- Durex, a durable command executor in Go: commands with retries, deadlines, repetition, fan-out and
-- fan-in, kept in a storage and run by worker goroutines.
--
-- The program's parts and the files that model them. Paths are from the repository's root.
--   status.go, event.go, instance.go, result.go, spec.go: the data. Status, Event, Instance, Result
--     and Spec have the fields and constructors of the source; a pointer that may be nil and a map
--     that may be nil are options, times and durations are integers in nanoseconds, and a text
--     that the program composes with fmt is a constructor of Text with its arguments.
--     Instance/Json is MarshalJSON and UnmarshalJSON. command.go is in Executor.
--   storage.go: Storage is the interface as a record of operations on a state; Storage/Laws is its
--     contract, read as a map from ids to commands, on which the executor's proofs rest.
--     Storage/Hooked is HookedStorage.
--   storage/memory.go: Storage/Memory, its operations on an association list; the order of the
--     list stands for the order in which Go happens to range over a map. Storage/Memory/Map fills
--     the contract.
--   storage/sqlite.go, storage/postgres.go: Storage/Sql is the table of commands and the SQL that
--     both use; Storage/Sql/Rows turns commands into rows and back, Storage/Sql/Sqlite and
--     Storage/Sql/Postgres are the operations (its queries in Storage/Sql/Postgres/Queries), and
--     Storage/Sql/Postgres/Exclusive has several executors on one table as a step relation.
--     Storage/Sql/Postgres/Transaction is postgresTx.
--   registry.go, cron.go, backoff.go: Registry, Cron and Backoff.
--   ratelimit.go: RateLimiter; each critical section under its mutex is one step. Acquire is cut
--     at its waits. RateLimiter/Holders has the interleavings of several callers as a step relation.
--     RateLimitMiddleware, over the rest of the chain, is in Executor/RateLimited. RateLimiter/Lost is
--     about a waiter that is signalled as it gives up.
--   executor.go and executor_*.go, barrier.go, command.go: Executor is the state, Executor/Create
--     is createInstance, Executor/Schedule is queueSchedule and the timers, Executor/Api is Add,
--     Get, Cancel and their like, Executor/Dlq the dead letter queue and Stats, Executor/Barrier
--     the fan-in command, Executor/Handlers is handleResult, handleError and handleExpired with the
--     changes of instances in Executor/Handlers/Changes,
--     Executor/Worker is execute, safeExecute and the workers, Executor/Maintenance the cleanup
--     and the recovery of stuck commands, Executor/Run is New, Start and Stop.
--   options.go: Executor/Options, and Executor/Options/Valid.
--   func.go, typed.go: Func and Typed, with their options; Typed/RoundTrip follows a value from Typed
--     to the handler's function.
--   id.go, context.go: Id and Context.
--   dashboard.go: Executor/Dashboard, the handlers of the API, with their requests and responses in
--     Executor/Dashboard/Messages.
--   prometheus.go: Prometheus, over the client library.
--   storagetest/conformance.go: Conformance, with the tests in Conformance/Basics, Queries, Sweeps and
--     Fields, and RunConformanceTests in Conformance/Suite.
--   cmd/durex: Cli, with ConnectStorage; Cli/Format is FormatDuration and TruncateString, Cli/Listing,
--     Cli/Details, Cli/Stats, Cli/Retry, Cli/Cancel and Cli/Serve are the commands list, get, stats,
--     retry, cancel and dashboard from their parsed flags to what they print and store, and Cli/Main
--     is main's dispatch over them. The commands run on any storage of the interface.
--
-- How they interact. An operation of the executor takes its state, with the storage in it, and
-- returns the new one; the clock's reading is an argument. User code (handlers, middleware, Recover,
-- Expired) is a function from an instance to the instance as it leaves it and to how it ends: a
-- Result, an error or a panic. Flow says how an execution ends: finished, with an error of the
-- storage, with a panic, or still blocked on the rate limiter. Calls of the metrics collector and of
-- the error handler are recorded in the state.
--
-- Bounds. Loops are recursions over the lists that the source ranges over, so no fuel is needed; the
-- attempt counter and the products of backoff wrap as int64 does, and so does the barrier's check
-- count. The counters of the rate limiter are natural numbers that are tested before they are
-- decremented. The queue is a list without a capacity: a send that blocks on the full channel is
-- already at its place in the list. Sums of times are not wrapped.
--
-- Parameters. Env holds the values of Go's `any` with their JSON form and their type assertions,
-- the cron parser and the ids as the executor is given them; Floats the floating-point numbers;
-- Json in Typed is encoding/json on a Go type. What the executor's proofs ask of a storage is
-- StorageLaws.
--
-- Of the SQL storages: Engine is the database with encoding/json, its time columns and the
-- comparisons that a query leaves to it. A statement or a transaction is one step, rows that compare
-- equal in an ORDER BY stay in the table's order, integer columns are not bounded, SQLite does not
-- enforce foreign keys, the database and the program read the same clock, and a database at fault
-- answers every statement with its error.
--
-- Not modelled: Migrate and the opening and closing of databases; logging, the dashboard's page
-- and server, and the sample programs, which are input and output around calls
-- of the executor. Goroutines are not interleaved inside one execution.
-- An operation that reads a command and writes it later is one step, so that what another executor
-- writes in between is left out; and a handler's Default() makes its map anew at each call, although
-- mergeSpecs writes into it (Spec/Merge has what becomes of a map that is not made anew).
mod Prelude
pub mod Text
pub mod Status
pub mod Event
pub mod Spec
pub mod Env
pub mod Result
pub mod Instance
pub mod Storage
pub mod Cron
pub mod Registry
pub mod Backoff
pub mod RateLimiter
pub mod Executor
pub mod Func
pub mod Typed
pub mod Id
pub mod Context
pub mod Cli
pub mod Conformance
pub mod Prometheus
pub mod Examples
