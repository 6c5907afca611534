-- ===== src/System.antt =====
-- cmd/tick-api, cmd/tick-scheduler and cmd/tick-worker: any number of processes on one database.
--
-- A step of the system is one request to an API server, one pass of a scheduler's materializer, one
-- sweep, or one step of a worker's run; workers start and are killed at any time. The GET requests,
-- which only read, make no step. Within a request, no other process acts between its statements.
pub mod Requests
pub mod Reached
pub mod Promises
use tick.Base.{ℕ, ◌≡◌, Bool, Option, some, List, [], ◌∷◌, ◌++◌, Text}
use tick.Base.Int.{ℤ}
use tick.Domain.Operations.{Clockwork}
use tick.Cron.{Robfig, Zone}
use tick.Database.{Db, Postgres, Link}
use tick.Worker.{Registry, Format}
use tick.Worker.Run.{Config, State, new}
use tick.Worker.Run
use tick.Sweeper.{sweep_once}
use tick.Materializer.{Trip, run_once}
use tick.Api.{TaskSubmission, ScheduleSubmission, submit_task}
use tick.Api.BulkSubmissions.{submit_tasks_bulk}
use tick.Api.ScheduleSubmissions.{submit_schedule}
use tick.Api.Resources.{cancel_task, update_schedule}

-- A worker process.
pub record Node : Type 0 where
  pub worker_id : Text
  pub cfg : Config
  pub state : State

pub record World : Type 0 where
  pub db : Db
  pub nodes : List Node

-- What all processes share: the database, the Go library, the cron parser and the handlers.
pub record Setting (Location Spec Handler : Type 0) : Type 0 where
  pub pg : Postgres
  pub go : Clockwork Location
  pub zone : Location → Zone
  pub cron : Robfig Spec
  pub cron_error : Text → Text
  pub rfc3339 : Text → Option ℕ
  pub parse_int : Text → Option ℤ
  pub fmt : Format
  pub registry : Registry Handler

module _ {Location Spec Handler : Type 0} (env : Setting Location Spec Handler) where
  pub data Step : World → World → Type 0 where
    post_task :
        {w : World} (link link' : Link) (now : ℕ) (header : Text) (sub : TaskSubmission)
        → Step w (record w {
          db = (submit_task env.pg link link' (λ d. d) now env.rfc3339 header sub w.db).0;
        })
    post_tasks :
        {w : World} (link commit : Link) (now start : ℕ) (subs : List TaskSubmission)
        → Step w (record w {
          db = (submit_tasks_bulk env.rfc3339 env.pg link commit now start subs w.db).0;
        })
    post_schedule :
        {w : World} (link : Link) (now : ℕ) (sub : ScheduleSubmission)
        → Step w (record w {
          db = (submit_schedule env.go env.cron env.cron_error env.pg link now sub w.db).0;
        })
    patch_schedule :
        {w : World} (link : Link) (raw : Text) (enabled : Option Bool)
        → Step w (record w { db = (update_schedule env.parse_int link raw enabled w.db).0 })
    delete_task :
        {w : World} (link link' : Link) (raw : Text)
        → Step w (record w { db = (cancel_task env.parse_int link link' (λ d. d) raw w.db).0 })
    sweep :
        {w : World} (link : Link) (now : ℕ)
        → Step w (record w { db = (sweep_once link now w.db).0 })
    pass :
        {w : World} {after : Db} (link : Link) (trips : ℕ → Trip) (fuel now horizon : ℕ)
        → run_once env.go env.cron env.zone env.pg link trips fuel now horizon w.db ≡ some after
        → Step w (record w { db = after })
    boot :
        {w : World} (worker_id : Text) (cfg : Config)
        → Step w (record w {
          nodes = record { worker_id = worker_id; cfg = cfg; state = new } ∷ w.nodes;
        })
    crash :
        {w : World} (before after : List Node) (n : Node)
        → w.nodes ≡ before ++ n ∷ after
        → Step w (record w { nodes = before ++ after })
    work :
        {w : World} {db' : Db} (before after : List Node) (n : Node) (state' : State)
        → w.nodes ≡ before ++ n ∷ after
        → Run.Step env.pg env.fmt env.registry n.cfg n.worker_id (w.db, n.state) (db', state')
        → Step w (record { db = db'; nodes = before ++ record n { state = state' } ∷ after })

  -- What the system can reach from a world.
  pub data Reach (w : World) : World → Type 0 where
    here : Reach w w
    later : {x y : World} → Reach w x → Step x y → Reach w y
