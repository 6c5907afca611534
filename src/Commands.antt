-- ===== src/Commands.antt =====
-- cmd/tick-api, cmd/tick-scheduler and cmd/tick-worker: from the environment to the running process,
-- and the handlers that a worker registers.
--
-- A duration of the configuration is a number of nanoseconds; where a loop takes it, it is rounded up
-- to microseconds. Signals and the log lines of the start are left out; so is what a process does
-- after its context has ended but what its parts do.
pub mod Handlers
pub mod Starts
use tick.Base.{
  ℕ, ◌+◌, ◌*◌, ◌≡◌, Bool, true, false, Option, none, some, List, [], ◌∷◌, Text, bytes,
  if◌then◌else◌,
}
use Prim.Native.Nat.{◌/◌}
use tick.Base.Int.{ℤ, pos}
use tick.Config.{Config, Problem, GoText, Sorter, Lookup, second_ns}
use tick.Config.Load.{Loaded, loaded, invalid_config, load}
use tick.Store.Pool.{Opened, opened, refused_url, no_pool, closed}
use tick.Api.Server.{HttpServer, default_config, http_server}
use tick.Materializer.Loop.{Runner}
use tick.Materializer.Loop as RunnerLoop
use tick.Sweeper.Loop as SweeperLoop
use tick.Worker.Run

-- What a command is after its start: over with the problems of its configuration, over without a
-- database, or a process.
pub data Startup (P : Type 0) : Type 0 where
  bad_config : (fields : List Problem) → Startup P
  no_database : Startup P
  process : (parts : P) → Startup P

abbrev pub connected : {P : Type 0} → Opened → P → Startup P
connected opened p = process p
connected _ p = no_database

abbrev pub configured : {P : Type 0} → (Config → P) → (Text → Opened) → Loaded → Startup P
configured build open_store (invalid_config fields) = bad_config fields
configured build open_store (loaded cfg) = connected (open_store cfg.database_url) (build cfg)

-- The common beginning of the three functions run; FromEnv is Load of the process's environment.
unfoldable pub start :
    {P : Type 0} → GoText → Sorter → (Text → Opened) → (Config → P) → Lookup → Startup P
unfolding load
start go sorter open_store build env = configured build open_store (load go sorter env)

unfoldable pub microseconds : ℕ → ℕ
microseconds ns = (ns + 999) / 1000

-- worker.Config: the part that Run reads, and the times.
pub record WorkerProcess : Type 0 where
  pub cfg : Run.Config
  pub heartbeat_interval : ℕ
  pub task_timeout : ℕ
  pub shutdown_grace : ℕ

abbrev pub worker_process : Config → WorkerProcess
worker_process c = record {
  cfg = record { queue = c.queue; claim_batch = c.claim_batch; concurrency = c.concurrency };
  heartbeat_interval = microseconds c.heartbeat_interval;
  task_timeout = microseconds c.task_timeout;
  shutdown_grace = microseconds c.shutdown_grace;
}

pub record SchedulerProcess : Type 0 where
  pub runner : Runner
  pub sweep_interval : ℕ

abbrev pub scheduler_process : Config → SchedulerProcess
scheduler_process c = record {
  runner =
      RunnerLoop.new (pos (microseconds c.materializer_horizon))
        (pos (microseconds c.materializer_interval));
  sweep_interval = SweeperLoop.new (pos (microseconds c.sweep_interval));
}

-- What tick-api serves with, and how long it waits for requests when it stops.
pub record ApiProcess : Type 0 where
  pub server : HttpServer
  pub shutdown_grace : ℕ

abbrev pub api_process : Config → ApiProcess
api_process c = record {
  server = http_server default_config c.http_addr;
  shutdown_grace = microseconds c.shutdown_grace;
}
