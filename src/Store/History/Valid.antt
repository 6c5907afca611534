-- ===== src/Store/History/Valid.antt =====
-- The operations on the tasks table and its invariant.
pub use tick.Store.History.Inserts.{
  IsValid, exec-IsValid, write-IsValid, insert_statement-IsValid, resolve-db, enqueue-IsValid,
  after_update-db, insert_statement-next,
}
use tick.Store.History.Inserts.{enqueue_bulk-IsValid}
use tick.Base.{ℕ, Bool, true, ◌&&◌, Option, none, List, [], ◌∷◌, Text}
use tick.Database.{Db, Postgres, Link, up, exec}
use tick.Store.{write, held}
use tick.Store.Rows.{
  succeed-IsSoundRow, retry_or_bury-IsSoundRow, beat-IsSoundRow, reclaim-IsSoundRow,
  set_cancelled-IsSoundRow,
}
use tick.Store.Rows.Identity.{
  succeed-IsSameTask, retry_or_bury-IsSameTask, beat-IsSameTask, reclaim-IsSameTask,
  set_cancelled-IsSameTask,
}
use tick.Store.Backoff.{Jitter}
use tick.Store.Claim.{claim, claim_statement}
use tick.Store.Claim.Laws.{claim_statement-IsTable}
use tick.Store.Finish.{complete, fail, succeed, retry_or_bury, message}
use tick.Store.Heartbeat.{heartbeat, beating, beat}
use tick.Store.Recover.{recover_orphans, orphaned, reclaim}
use tick.Store.Cancel.{cancel, cancellable_row, set_cancelled}
use tick.Store.Bulk.{commit}
use tick.Store.Schedules.Laws.{create_schedule_tasks, set_schedule_enabled_tasks, advance_tasks}
use tick.Store.History.{
  Op, Event, perform, run, enqueues, enqueues_bulk, claims, heartbeats, completes, fails, recovers,
  cancels, creates_schedule, enables, advances,
}

finish-IsValid :
    (pg : Postgres) (link : Link) (now : ℕ) (jitter : Jitter) (id : ℕ) (worker_id : Text)
    (exec_err : Option Text) (db : Db)
    → IsValid db
    → IsValid (complete pg link id worker_id db).0
      × IsValid (fail pg link now jitter id worker_id exec_err db).0
unfolding complete fail
finish-IsValid pg link now jitter id worker_id exec_err db v = (
  write-IsValid link (pg.text_ok worker_id) (held id worker_id) succeed db succeed-IsSameTask
      (succeed-IsSoundRow id worker_id) v,
  write-IsValid link (pg.text_ok worker_id && pg.text_ok (message exec_err)) (held id worker_id)
      (retry_or_bury now jitter (message exec_err)) db
      (retry_or_bury-IsSameTask now jitter (message exec_err))
      (retry_or_bury-IsSoundRow now jitter (message exec_err) id worker_id) v,
)

heartbeat-IsValid :
    (pg : Postgres) (link : Link) (now : ℕ) (ids : List ℕ) (worker_id : Text) (db : Db)
    → IsValid db
    → IsValid (heartbeat pg link now ids worker_id db).0
unfolding heartbeat
heartbeat-IsValid pg link now [] worker_id db v = v
heartbeat-IsValid pg link now (i ∷ ids) worker_id db v =
    write-IsValid link (pg.text_ok worker_id) (beating (i ∷ ids) worker_id) (beat now) db
      (beat-IsSameTask now) (beat-IsSoundRow now (i ∷ ids) worker_id) v

pub recover_orphans-IsValid :
    (link : Link) (now : ℕ) (db : Db) → IsValid db → IsValid (recover_orphans link now db).0
unfolding recover_orphans
recover_orphans-IsValid link now db v =
    write-IsValid link true (orphaned now) (reclaim now) db (reclaim-IsSameTask now)
      (reclaim-IsSoundRow now) v

cancel-IsValid :
    (link link' : Link) (id : ℕ) (db : Db)
    → IsValid db
    → IsValid (cancel link link' (λ d. d) id db).0
unfolding cancel
cancel-IsValid link link' id db v =
    let (db', tag) = exec link true (write (cancellable_row id) set_cancelled) db in
    rw (after_update-db link' id db' tag) (
      write-IsValid link true (cancellable_row id) set_cancelled db set_cancelled-IsSameTask
        (set_cancelled-IsSoundRow id) v)

claim-IsValid :
    (pg : Postgres) (locked : ℕ → Bool) (now : ℕ) (queue worker_id : Text) (limit : ℕ) (link : Link)
    (db : Db)
    → IsValid db
    → IsValid (claim pg locked now queue worker_id limit link db).0
unfolding claim
claim-IsValid pg locked now queue worker_id limit link db v =
    exec-IsValid link (pg.text_ok worker_id && pg.text_ok queue)
      (claim_statement pg locked now queue worker_id limit) db v
      (λ _.
        unfold claim_statement in
        claim_statement-IsTable pg locked now queue worker_id limit db db.next_task_id v)

-- Every operation of the store, whatever its arguments and whether or not its reply arrives, keeps
-- the invariant of the tasks table.
pub perform-IsValid :
    (pg : Postgres) (link : Link) (now : ℕ) (op : Op) (db : Db)
    → IsValid db
    → IsValid (perform pg link now op db)
unfolding perform
perform-IsValid pg link now (enqueues t) db v = enqueue-IsValid pg link up now t db v
perform-IsValid pg link now (enqueues_bulk commit ts) db v =
    enqueue_bulk-IsValid pg link commit now ts db v
perform-IsValid pg link now (claims locked queue worker_id limit) db v =
    claim-IsValid pg locked now queue worker_id limit link db v
perform-IsValid pg link now (heartbeats ids worker_id) db v =
    heartbeat-IsValid pg link now ids worker_id db v
perform-IsValid pg link now (completes id worker_id) db v =
    (finish-IsValid pg link now (λ x. x) id worker_id none db v).0
perform-IsValid pg link now (fails jitter id worker_id exec_err) db v =
    (finish-IsValid pg link now jitter id worker_id exec_err db v).1
perform-IsValid pg link now recovers db v = recover_orphans-IsValid link now db v
perform-IsValid pg link now (cancels id) db v = cancel-IsValid link up id db v
perform-IsValid pg link now (creates_schedule sc) db v =
    let same = create_schedule_tasks pg link now sc db in rw (same.0, same.1) v
perform-IsValid pg link now (enables id enabled) db v =
    let same = set_schedule_enabled_tasks link id enabled db in rw (same.0, same.1) v
perform-IsValid pg link now (advances id instant) db v =
    let same = advance_tasks link id instant db in rw (same.0, same.1) v

-- Every history of store operations, whatever their arguments and whether or not a statement or its
-- reply is lost, keeps the invariant of the tasks table.
pub run-IsValid : (pg : Postgres) (es : List Event) (db : Db) → IsValid db → IsValid (run pg es db)
unfolding run
run-IsValid pg [] db v = v
run-IsValid pg (e ∷ es) db v =
    run-IsValid pg es (perform pg e.link e.now e.op db) (perform-IsValid pg e.link e.now e.op db v)
