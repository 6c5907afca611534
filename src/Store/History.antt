-- ===== src/Store/History.antt =====
-- Histories of the tasks table: the statements of any number of workers, API servers, schedulers and
-- sweepers, in the order in which the database commits them. A statement that does not arrive has
-- `down`, and one whose reply is lost has `lost`.
pub mod Inserts
pub mod Valid
pub mod Untouched
pub mod ResumePoints
pub mod Moves
pub mod Progress
pub mod LifeCycle
pub mod Runs
use tick.Base.{ℕ, ◌≡◌, Bool, true, false, Option, List, [], ◌∷◌, Text, length, select}
use tick.Domain.{Task, Schedule}
use tick.Database.{Db, Postgres, Link, up}
use tick.Store.Backoff.{Jitter}
use tick.Store.Claim.{claim}
use tick.Store.Finish.{complete, fail}
use tick.Store.Heartbeat.{heartbeat}
use tick.Store.Recover.{recover_orphans}
use tick.Store.Cancel.{cancel}
use tick.Store.Enqueue.{enqueue}
use tick.Store.Bulk.{enqueue_bulk}
use tick.Store.Schedules.{create_schedule, set_schedule_enabled, advance_last_materialized_at}

-- One call of an operation that writes, with what the environment decides of it.
pub data Op : Type 0 where
  enqueues : (t : Task) → Op
  enqueues_bulk : (commit : Link) (ts : List Task) → Op
  claims : (locked : ℕ → Bool) (queue worker_id : Text) (limit : ℕ) → Op
  heartbeats : (ids : List ℕ) (worker_id : Text) → Op
  completes : (id : ℕ) (worker_id : Text) → Op
  fails : (jitter : Jitter) (id : ℕ) (worker_id : Text) (exec_err : Option Text) → Op
  recovers : Op
  cancels : (id : ℕ) → Op
  creates_schedule : (sc : Schedule) → Op
  enables : (id : ℕ) (enabled : Bool) → Op
  advances : (id instant : ℕ) → Op

pub record Event : Type 0 where
  pub link : Link
  pub now : ℕ
  pub op : Op

-- Reads that follow a write leave the tables alone, so they are given no time of their own here.
unfoldable pub perform : Postgres → Link → ℕ → Op → Db → Db
perform pg link now (enqueues t) db = (enqueue pg link up (λ d. d) now t db).0
perform pg link now (enqueues_bulk commit ts) db = (enqueue_bulk pg link commit now ts db).0
perform pg link now (claims locked queue worker_id limit) db =
    (claim pg locked now queue worker_id limit link db).0
perform pg link now (heartbeats ids worker_id) db = (heartbeat pg link now ids worker_id db).0
perform pg link now (completes id worker_id) db = (complete pg link id worker_id db).0
perform pg link now (fails jitter id worker_id exec_err) db =
    (fail pg link now jitter id worker_id exec_err db).0
perform pg link now recovers db = (recover_orphans link now db).0
perform pg link now (cancels id) db = (cancel link up (λ d. d) id db).0
perform pg link now (creates_schedule sc) db = (create_schedule pg link now sc db).0
perform pg link now (enables id enabled) db = (set_schedule_enabled link id enabled db).0
perform pg link now (advances id instant) db = (advance_last_materialized_at link id instant db).0

unfoldable pub run : Postgres → List Event → Db → Db
run pg [] db = db
run pg (e ∷ es) db = run pg es (perform pg e.link e.now e.op db)
