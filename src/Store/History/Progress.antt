-- ===== src/Store/History/Progress.antt =====
-- Every operation moves each row of the tasks table along the life cycle, and removes none.
use tick.Base.{ℕ, ◌≡◌, refl, Bool, true, ◌&&◌, Option, some, none, List, [], ◌∷◌, arith, Text}
use tick.Base.Rows.{All-find}
use tick.Domain.{Task}
use tick.Database.{Db, Postgres, Link, up, exec}
use tick.Store.{row, has_id, write, held}
use tick.Store.Backoff.{Jitter}
use tick.Store.Claim.{claim, claim_statement, stamp, is_chosen}
use tick.Store.Claim.Laws.{is_chosen-claimable}
use tick.Store.Finish.{complete, fail, succeed, retry_or_bury, message}
use tick.Store.Heartbeat.{heartbeat, beating, beat}
use tick.Store.Recover.{recover_orphans, orphaned, reclaim}
use tick.Store.Cancel.{cancel, cancellable_row, set_cancelled}
use tick.Store.Rows.Identity.{
  stamp-IsSameTask, succeed-IsSameTask, retry_or_bury-IsSameTask, beat-IsSameTask,
  reclaim-IsSameTask, set_cancelled-IsSameTask,
}
use tick.Store.Schedules.{create_schedule, set_schedule_enabled, advance_last_materialized_at}
use tick.Store.Schedules.Laws.{create_schedule_tasks, set_schedule_enabled_tasks, advance_tasks}
use tick.Store.Growth.{enqueue-keeps, enqueue_bulk-keeps}
use tick.Store.History.Valid.{IsValid, after_update-db}
use tick.Store.History.Moves.{
  stays, starts, beats, succeeds, fails, reclaimed, cancels, Follows, exec-Follows, update-Follows,
  write-Follows,
}
use tick.Store.History.{
  Op, perform, enqueues, enqueues_bulk, claims, heartbeats, completes, fails as op_fails, recovers,
  cancels as op_cancels, creates_schedule, enables, advances,
}

held_own :
    (j : ℕ) (worker_id : Text) (t : Task) → held j worker_id t ≡ true → held t.id worker_id t ≡ true
held_own j worker_id t h = ground arith

cancellable_own : (j : ℕ) (t : Task) → cancellable_row j t ≡ true → cancellable_row t.id t ≡ true
cancellable_own j t h = ground arith

module _ (pg : Postgres) (db : Db) (i : ℕ) (t : Task) (found : row i db ≡ some t) where
  claim-Follows :
      (locked : ℕ → Bool) (now : ℕ) (queue worker_id : Text) (limit : ℕ) (link : Link)
      → IsValid db
      → Follows i t (claim pg locked now queue worker_id limit link db).0
  unfolding claim
  claim-Follows locked now queue worker_id limit link v =
      exec-Follows link (pg.text_ok worker_id && pg.text_ok queue)
        (claim_statement pg locked now queue worker_id limit) db i t found
        (unfold claim_statement in
          update-Follows (is_chosen pg locked now queue worker_id limit db) (stamp worker_id now) db
            i t (stamp-IsSameTask worker_id now)
            (λ _ h.
              starts queue worker_id now
                (All-find _ (has_id i) db.tasks
                  (is_chosen-claimable pg locked now queue worker_id limit db db.next_task_id
                    v.ascending)
                  found h).0
                refl)
            found)

  finish-Follows :
      (link : Link) (now : ℕ) (jitter : Jitter) (j : ℕ) (worker_id : Text) (exec_err : Option Text)
      → Follows i t (complete pg link j worker_id db).0
        × Follows i t (fail pg link now jitter j worker_id exec_err db).0
  unfolding complete fail
  finish-Follows link now jitter j worker_id exec_err = (
    write-Follows link (pg.text_ok worker_id) (held j worker_id) succeed db i t succeed-IsSameTask
        (λ _ h. succeeds worker_id (held_own j worker_id t h) refl) found,
    write-Follows link (pg.text_ok worker_id && pg.text_ok (message exec_err)) (held j worker_id)
        (retry_or_bury now jitter (message exec_err)) db i t
        (retry_or_bury-IsSameTask now jitter (message exec_err))
        (λ _ h. fails worker_id (message exec_err) now jitter (held_own j worker_id t h) refl)
        found,
  )

  heartbeat-Follows :
      (link : Link) (now : ℕ) (ids : List ℕ) (worker_id : Text)
      → Follows i t (heartbeat pg link now ids worker_id db).0
  unfolding heartbeat
  heartbeat-Follows link now [] worker_id = (t, found, stays refl)
  heartbeat-Follows link now (j ∷ ids) worker_id =
      write-Follows link (pg.text_ok worker_id) (beating (j ∷ ids) worker_id) (beat now) db i t
        (beat-IsSameTask now) (λ _ h. beats worker_id (j ∷ ids) now h refl) found

  recover_orphans-Follows : (link : Link) (now : ℕ) → Follows i t (recover_orphans link now db).0
  unfolding recover_orphans
  recover_orphans-Follows link now =
      write-Follows link true (orphaned now) (reclaim now) db i t (reclaim-IsSameTask now)
        (λ _ h. reclaimed now h refl) found

  cancel-Follows : (link link' : Link) (j : ℕ) → Follows i t (cancel link link' (λ d. d) j db).0
  unfolding cancel
  cancel-Follows link link' j =
      let (db', tag) = exec link true (write (cancellable_row j) set_cancelled) db in
      rw (after_update-db link' j db' tag) (
        write-Follows link true (cancellable_row j) set_cancelled db i t set_cancelled-IsSameTask
          (λ _ h. cancels (cancellable_own j t h) refl) found)

  same-Follows : (db' : Db) → db'.tasks ≡ db.tasks → Follows i t db'
  same-Follows db' e = (t, rw e found, stays refl)

-- Whatever operation is performed on a valid database, a row of the tasks table stays there and
-- stays as it is or makes one of the moves of its life cycle.
pub perform-Follows :
    (pg : Postgres) (link : Link) (now : ℕ) (op : Op) (db : Db) (i : ℕ) (t : Task)
    → IsValid db
    → row i db ≡ some t
    → Follows i t (perform pg link now op db)
unfolding perform
perform-Follows pg link now (enqueues s) db i t v e =
    (t, enqueue-keeps pg link up now s db (has_id i) t e, stays refl)
perform-Follows pg link now (enqueues_bulk commit ts) db i t v e =
    (t, enqueue_bulk-keeps pg link commit now ts db (has_id i) t e, stays refl)
perform-Follows pg link now (claims locked queue worker_id limit) db i t v e =
    claim-Follows pg db i t e locked now queue worker_id limit link v
perform-Follows pg link now (heartbeats ids worker_id) db i t v e =
    heartbeat-Follows pg db i t e link now ids worker_id
perform-Follows pg link now (completes id worker_id) db i t v e =
    (finish-Follows pg db i t e link now (λ x. x) id worker_id none).0
perform-Follows pg link now (op_fails jitter id worker_id exec_err) db i t v e =
    (finish-Follows pg db i t e link now jitter id worker_id exec_err).1
perform-Follows pg link now recovers db i t v e = recover_orphans-Follows pg db i t e link now
perform-Follows pg link now (op_cancels id) db i t v e = cancel-Follows pg db i t e link up id
perform-Follows pg link now (creates_schedule sc) db i t v e =
    same-Follows pg db i t e (create_schedule pg link now sc db).0
      (create_schedule_tasks pg link now sc db).0
perform-Follows pg link now (enables id enabled) db i t v e =
    same-Follows pg db i t e (set_schedule_enabled link id enabled db).0
      (set_schedule_enabled_tasks link id enabled db).0
perform-Follows pg link now (advances id instant) db i t v e =
    same-Follows pg db i t e (advance_last_materialized_at link id instant db).0
      (advance_tasks link id instant db).0
