-- ===== src/Lib.antt =====
-- Tick, a task queue and scheduler on PostgreSQL.
--
-- API servers submit tasks, workers claim and run them, schedulers turn recurring schedules into tasks
-- and sweep up after workers that fall silent. They share nothing but the database: each store
-- operation is one SQL statement, or one transaction, on the tables `tasks` and `schedules`.
--
-- Parts, and the files of the repository that they model:
--   Base            lists, options, Boolean tests and integers of the model
--   Domain          internal/domain: statuses, tasks, schedules, errors, their methods
--   Database        the tables of internal/migrate/sql, their constraints, what the SQL uses of
--                   PostgreSQL, and what can happen to a statement
--   Retry           internal/retry/backoff.go
--   Store           internal/store/postgres, a module for each file: Claim (claim.go), Finish
--                   (complete.go, fail.go), Heartbeat (heartbeat.go), Recover (recover_orphans.go),
--                   Cancel (get_cancel.go), Enqueue (enqueue.go), Bulk (enqueue_bulk.go), Schedules
--                   (schedule.go), QueueStats (queue_stats.go), Backoff (the interval in their SQL), Pool
--                   (New of postgres.go)
--   Store.History   histories: sequences of the operations of any number of processes
--   Cron            internal/cron: cron.go, nextn.go
--   Materializer    internal/materializer: plan.go, materialize.go, run.go
--   Sweeper         internal/sweeper/sweeper.go
--   Ticker          the loop over a ticker of the sweeper and the materializer
--   Worker          internal/worker: registry.go, dispatch.go, heartbeat.go, worker.go,
--                   identity.go
--   Worker.Run      Run of worker.go with its dispatches and heartbeats, as a step relation
--   Api             internal/api: validate.go, tasks_submit.go, schedules_create.go, tasks_bulk.go
--                   (BulkSubmissions), and errors.go, health.go, tasks_get.go, tasks_cancel.go,
--                   schedules_get.go, queue_stats.go (Resources), server.go and middleware.go
--                   (Server); FireTimes is what schedules_create.go shows of a new schedule
--   Config          internal/config/config.go
--   Migrate         internal/migrate/migrate.go
--   Obs             internal/obs/log.go: the logger (Obs), and the attributes of a context, over the
--                   memory of Go's slices (Obs.Context)
--   Commands        cmd: from the environment to a process, and cmd/tick-worker/handlers.go
--   System          cmd: the processes of tick-api, tick-scheduler and tick-worker together
--   Samples, Tests  concrete databases, and the theorems applied to them
--
-- Conventions. A Go function that changes the database takes it as its last argument and returns the
-- new one with its answer. `Link` says what happens to a statement: `up`, `down` (it does not arrive)
-- or `lost` (it is executed, its reply is lost). `now` is the statement's now(), `locked` the rows
-- that other transactions hold when a claim runs, `jitter` what random() makes of a ceiling, and
-- `meanwhile` what other connections do between two statements of one operation. A time is the number
-- of microseconds since Go's zero time. A string is its bytes.
--
-- Statements are atomic, as PostgreSQL runs them; a history is the order in which they commit. Rows
-- stand in the order of their ids, which an id sequence draws. The order of rows that ORDER BY leaves
-- open is a parameter of `Postgres`, like the text encoding and the storing of JSON documents.
-- power() works on numbers without overflow here; in the database it overflows from 1022 attempts on,
-- and the API admits at most 100.
--
-- A worker's run and the system of all processes are step relations (Worker.Run, System): what can
-- come between two of their steps is what can come between two statements. In System the statements of
-- one request follow one another without a break.
--
-- The loop of NextN runs on fuel: `none` is the fuel running out, and a schedule that keeps one of any
-- k candidates in a row needs n * k + 1 rounds. Everything else is by recursion on the data.
--
-- The loops around a ticker run over the list of what their select takes. tick_times counts the ticks
-- of a sweeper whose sweeps take no time.
--
-- Not modelled: the table of routes and JSON, the encoding of a log line, metrics, what pgxpool does
-- with its tuning, signals, how tick-api drains its connections, and the package redishybrid, which has
-- no code yet. The cron parser (robfig/cron), chi, the time zones, the parsers and prints of the Go
-- library, sort.Slice, the effect of a migration's SQL and the registered handlers are parameters.
pub mod Base
pub mod Domain
pub mod Database
pub mod Retry
pub mod Store
pub mod System
pub mod Samples
pub mod Tests
pub mod Cron
pub mod Materializer
pub mod Sweeper
pub mod Worker
pub mod Api
pub mod Config
pub mod Migrate
pub mod Ticker
pub mod Commands
pub mod Obs
