-- ===== src/Tests/Submissions.antt =====
-- The theorems on submissions and schedules at concrete inputs.
use tick.Base.{◌≡◌, refl, true, some, none, List, [], ◌∷◌, ◌++◌, map, arith, bytes, find, ◌=?◌}
use tick.Base.Int.{pos}
use tick.Domain.{Task, Schedule, ok}
use tick.Database.{Db, up, down, lost, exec}
use tick.Database.Checks.{checks, conflict, references, has_key}
use tick.Database.Order.{plain_postgres}
use tick.Store.{read}
use tick.Store.Enqueue.{
  enqueue, new_row, sound, insert_statement, insert_task, select_by_key, duplicate,
}
use tick.Store.Enqueue.Laws.{IsAccepted, resubmission_is_idempotent}
use tick.Store.Bulk.{enqueue_bulk, insert_all, fill_all, rollback}
use tick.Store.Bulk.Laws.{enqueue_each, task_of}
use tick.Store.Bulk.Refines.{enqueue_bulk-refines, enqueue_bulk_atomic}
use tick.Base.{false}
use tick.Database.Checks.{has_schedule_id}
use tick.Store.History.{Event, run, advances, enables}
use tick.Store.History.ResumePoints.{IsLaterOf, schedules_never_rewind}
use tick.Samples.{store, email, waiting, default_queue}

abbrev welcome : Task
welcome = record email { idempotency_key = some (bytes "k2") }

abbrev welcome_row : Task
welcome_row = new_row 500 (bytes "{}") welcome 5

welcome-IsAccepted : IsAccepted plain_postgres welcome (bytes "{}") store
unfolding sound checks new_row references find ◌=?◌
welcome-IsAccepted = record {
  parameters = refl;
  json = refl;
  constraints = refl;
  known_schedule = refl;
}

welcome_fresh : find (has_key default_queue (bytes "k2")) store.tasks ≡ none
unfolding find ◌=?◌
welcome_fresh = refl

resubmission_is_idempotent_example :
    let first = enqueue plain_postgres lost up (λ d. d) 500 welcome store in
    let second = enqueue plain_postgres up up (λ d. d) 600 welcome first.0 in
    (first.0.tasks ≡ store.tasks ++ welcome_row ∷ [])
    × (second.0.tasks ≡ first.0.tasks)
    × (second.1 ≡ duplicate welcome_row)
resubmission_is_idempotent_example =
    resubmission_is_idempotent plain_postgres welcome (bytes "{}") (bytes "k2") refl true 500 600
      store welcome-IsAccepted welcome_fresh

-- A new task and a replay.
abbrev batch : List Task
batch = welcome ∷ email ∷ []

abbrev batch_db : Db
batch_db = record store { tasks = store.tasks ++ welcome_row ∷ []; next_task_id = 7 }

batch_run :
    enqueue_bulk plain_postgres up up 500 batch store ≡ (batch_db, ok (welcome_row ∷ waiting ∷ []))
unfolding enqueue_bulk insert_all insert_statement insert_task exec sound checks new_row conflict
    references find ◌=?◌ fill_all select_by_key read rollback
batch_run = refl

enqueue_bulk-refines_example :
    ((enqueue_each plain_postgres 500 batch store).0 ≡ batch_db)
    × (map task_of (enqueue_each plain_postgres 500 batch store).1
        ≡ map some (welcome_row ∷ waiting ∷ []))
enqueue_bulk-refines_example =
    enqueue_bulk-refines plain_postgres 500 batch store batch_db (welcome_row ∷ waiting ∷ [])
      batch_run

enqueue_bulk_atomic_example :
    (enqueue_bulk plain_postgres up down 500 batch store).0.tasks ≡ store.tasks
unfolding enqueue_bulk insert_all insert_statement insert_task exec sound checks new_row conflict
    references find ◌=?◌ fill_all select_by_key read rollback
enqueue_bulk_atomic_example =
    enqueue_bulk_atomic plain_postgres up down 500 batch store (λ h. ground (arith, h)) refl

abbrev pub nightly : Schedule
nightly = record {
  id = 1;
  cron = bytes "0 2 * * *";
  timezone = bytes "UTC";
  queue = default_queue;
  handler = bytes "report";
  payload = bytes "{}";
  priority = pos 0;
  max_attempts = 3;
  enabled = true;
  last_materialized_at = some 20;
  created_at = 5;
}

abbrev pub planned_store : Db
planned_store = record store { schedules = nightly ∷ [] }

-- A pass, a slower pass that is behind it, and a PATCH, of which the second's reply is lost.
abbrev passes : List Event
passes =
    record { link = up; now = 60; op = advances 1 40 }
    ∷ record { link = lost; now = 61; op = advances 1 30 }
    ∷ record { link = up; now = 62; op = enables 1 false }
    ∷ []

schedules_never_rewind_example :
    (s' : Schedule) × (find (has_schedule_id 1) (run plain_postgres passes planned_store).schedules
      ≡ some s')
    × IsLaterOf nightly s'
schedules_never_rewind_example =
    schedules_never_rewind plain_postgres passes planned_store 1 nightly (unfold find in refl)
