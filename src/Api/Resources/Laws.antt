-- ===== src/Api/Resources/Laws.antt =====
-- What the routes on one task and one schedule answer.
use tick.Base.{
  ℕ, ◌≡◌, refl, ◌∙◌, ap, inl, inr, Bool, Option, none, some, [], Text, bytes, find, update,
  Bool-cases, if◌then◌else◌,
}
use tick.Base.Rows.{find-update, find_self}
use tick.Base.Int.{ℤ, pos}
use tick.Domain.{Task, Schedule, cancelled, is_pending}
use tick.Database.{Db, up, exec}
use tick.Database.Checks.{has_schedule_id}
use tick.Store.{row, has_id, read}
use tick.Store.Cancel
use tick.Store.Cancel.Laws.{cancel_lem, cancel_effect, cancel_answer}
use tick.Store.Schedules
use tick.Store.Table.{IsTable, row-update}
use tick.Store.Rows.Identity.{set_cancelled-IsSameTask}
use tick.Api.Resources.{
  Reply, body, empty, failed_with, ErrorDetail, write_error, write_store_error, reply_with, at_id,
  cancel_at, get_task, cancel_task, cancel_reply, get_schedule, update_schedule,
}

abbrev pub task_not_found : ErrorDetail
task_not_found = record { code = bytes "not_found"; message = bytes "task not found"; fields = [] }

abbrev pub too_late : ErrorDetail
too_late = record {
  code = bytes "not_cancellable";
  message = bytes "task is running or already terminal and cannot be cancelled";
  fields = [];
}

-- The answers by the row that the task has.
abbrev pub deleted : Option Task → Reply (Unit {0})
deleted none = failed_with 404 task_not_found
deleted (some t) = if is_pending t.status then empty 204 else failed_with 409 too_late

abbrev pub shown : Option Task → Reply Task
shown none = failed_with 404 task_not_found
shown (some t) = body 200 (if is_pending t.status then record t { status = cancelled } else t)

unfoldable pub shown_row : Option Task → Reply Task
shown_row none = failed_with 404 task_not_found
shown_row (some t) = body 200 t

module _ (parse_int : Text → Option ℤ) (raw : Text) (i : ℕ) where
  pub get_task-row :
      (db : Db)
      → parse_int raw ≡ some (pos i)
      → (get_task parse_int up raw db).1 ≡ shown_row (row i db)
  unfolding get_task shown_row at_id Cancel.get exec read reply_with write_store_error write_error
  get_task-row db e = rw (e, get_task) (by_row (row i db) refl)
    where
      by_row :
          (o : Option Task)
          → row i db ≡ o
          → reply_with (bytes "getting task failed") (λ t. t) (Cancel.get up i db).1 ≡ shown_row o
      by_row none f = rw (f, Cancel.get) refl
      by_row (some t) f = rw (f, Cancel.get) refl

  -- DELETE on the id of a task, on a valid table, answers 204 where the task was pending, 409 where it
  -- was running or terminal and 404 where there was none; a GET right after it shows the task, which
  -- is cancelled exactly where the answer was 204, or answers 404.
  pub cancel_task_lem :
      (db : Db) (next : ℕ)
      → IsTable next db.tasks
      → parse_int raw ≡ some (pos i)
      → let (after, reply) = cancel_task parse_int up up (λ d. d) raw db in
        (reply ≡ deleted (row i db)) × ((get_task parse_int up raw after).1 ≡ shown (row i db))
  unfolding cancel_task cancel_at cancel_reply write_store_error write_error shown_row
      Cancel.set_cancelled
  cancel_task_lem db next v e =
      rw (e, cancel_task) (rw (cancel_lem i db next v) (by_row (row i db) refl))
    where
      by_row :
          (o : Option Task)
          → row i db ≡ o
          → (cancel_reply parse_int (cancel_answer o) ≡ deleted o)
            × ((get_task parse_int up raw (cancel_effect i db o)).1 ≡ shown o)
      by_row none f = (refl, get_task-row db e ∙ ap shown_row f)
      by_row (some t) f = elim (Bool-cases (is_pending t.status)) [
        | inl p ↦
            let after = update (Cancel.cancellable_row i) Cancel.set_cancelled db.tasks in
            let now : find (has_id i) after ≡ some (record t { status = cancelled }) =
              row-update (Cancel.cancellable_row i) Cancel.set_cancelled db.tasks i t
                set_cancelled-IsSameTask f
              ∙ rw (find_self (has_id i) db.tasks t f, p) refl in
            rw p (refl, get_task-row (record db { tasks = after }) e ∙ ap shown_row now)
        | inr n ↦ rw n (refl, get_task-row db e ∙ ap shown_row f)
      ]

  get_schedule-row :
      (db : Db) (s : Schedule)
      → parse_int raw ≡ some (pos i)
      → find (has_schedule_id i) db.schedules ≡ some s
      → (get_schedule parse_int up raw db).1 ≡ body 200 s
  unfolding get_schedule at_id Schedules.get_schedule exec read reply_with Schedules.scan_schedule
  get_schedule-row db s e f = rw (e, get_schedule) (rw (f, Schedules.get_schedule) refl)

  -- A PATCH that sets the flag of an existing schedule answers 200 with the schedule and that flag, the
  -- other columns staying, and leaves every task alone; a GET right after it shows the same schedule.
  pub update_schedule_lem :
      (db : Db) (s : Schedule) (enabled : Bool)
      → parse_int raw ≡ some (pos i)
      → find (has_schedule_id i) db.schedules ≡ some s
      → let (after, reply) = update_schedule parse_int up raw (some enabled) db in
        (reply ≡ body 200 (record s { enabled = enabled }))
        × (after.tasks ≡ db.tasks)
        × ((get_schedule parse_int up raw after).1 ≡ body 200 (record s { enabled = enabled }))
  unfolding update_schedule at_id Schedules.set_schedule_enabled Schedules.set_enabled exec
      Schedules.scan_schedule reply_with
  update_schedule_lem db s enabled e f =
      let after = update (has_schedule_id i) (λ s. record s { enabled = enabled }) db.schedules in
      let now : find (has_schedule_id i) after ≡ some (record s { enabled = enabled }) =
        find-update (has_schedule_id i) (has_schedule_id i) (λ s. record s { enabled = enabled })
          db.schedules (λ a. refl)
        ∙ rw (f, find_self (has_schedule_id i) db.schedules s f) refl in
      rw (e, update_schedule)
        (
          rw (now, Schedules.set_schedule_enabled) refl,
          refl,
          get_schedule-row (record db { schedules = after }) (record s { enabled = enabled }) e now,
        )
