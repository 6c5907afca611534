-- ===== src/System/Requests.antt =====
-- What a request to the API does to the database, as a history of store operations.
use tick.Base.{
  ℕ, ◌≡◌, refl, Option, none, some, List, [], ◌∷◌, Text, Bool, Bool-cases, inl, inr, true, length,
  ltb, subst, sym, ◌∙◌,
}
use tick.Base.Int.{ℤ, pos, negsuc}
use tick.Domain.{Task, Result, ok, err, not_found}
use tick.Domain.Operations.{Clockwork}
use tick.Cron.{Robfig}
use tick.Database.{Db, Postgres, Link, up, down, lost, exec}
use tick.Store.Enqueue.{enqueue, insert_statement}
use tick.Store.{write}
use tick.Store.Bulk.{enqueue_bulk}
use tick.Store.Cancel.{cancel, cancellable_row, set_cancelled}
use tick.Store.History.{perform, enqueues, enqueues_bulk, cancels, creates_schedule, enables}
use tick.Store.History.Valid.{resolve-db, after_update-db}
use tick.Store.History.Runs.{IsHistory, IsHistory-one, IsHistory-refl, IsHistory-same}
use tick.Api.{
  TaskSubmission, ScheduleSubmission, FieldError, validate_submission, submitted_task, submit_task,
  validate_schedule_submission,
}
use tick.Api.ScheduleSubmissions.{submit_schedule, submitted_schedule}
use tick.Api.BulkSubmissions.{
  Triage, triage, respond_bulk, submit_triaged, submit_tasks_bulk, max_bulk_tasks,
}
use tick.Api.Resources.{cancel_task, cancel_at, after_no_update, update_schedule, at_id}

module _ (pg : Postgres) where
  enqueue-IsHistory :
      (link link' : Link) (now : ℕ) (t : Task) (db : Db)
      → IsHistory pg db (enqueue pg link link' (λ d. d) now t db).0
  unfolding enqueue
  enqueue-IsHistory link link' now t db =
      let (db', inserted) = insert_statement pg link now t db in
      subst (IsHistory pg db) (sym (resolve-db pg link' t t.idempotency_key db' inserted)) (
        subst (IsHistory pg db) (resolve-db pg up t t.idempotency_key db' inserted) (
          unfold perform in IsHistory-one pg record { link = link; now = now; op = enqueues t } db))

  pub submit_task-IsHistory :
      (link link' : Link) (now : ℕ) (rfc3339 : Text → Option ℕ) (header : Text)
      (sub : TaskSubmission) (db : Db)
      → IsHistory pg db (submit_task pg link link' (λ d. d) now rfc3339 header sub db).0
  unfolding submit_task
  submit_task-IsHistory link link' now rfc3339 header sub db =
      by_errors (validate_submission rfc3339 sub) refl
    where
      by_errors :
          (errs : List FieldError)
          → validate_submission rfc3339 sub ≡ errs
          → IsHistory pg db (submit_task pg link link' (λ d. d) now rfc3339 header sub db).0
      by_errors [] e =
          rw (e, submit_task)
            (enqueue-IsHistory link link' now (submitted_task rfc3339 header sub) db)
      by_errors (x ∷ errs) e = rw (e, submit_task) (IsHistory-refl pg db)

  respond_bulk-db :
      (start : ℕ) (tri : Triage) (answer : Db × Result (List Task))
      → (respond_bulk start tri answer).0 ≡ answer.0
  unfolding respond_bulk
  respond_bulk-db start tri (db, ok ts) = refl
  respond_bulk-db start tri (db, err e) = refl

  submit_triaged-IsHistory :
      (link commit : Link) (now start : ℕ) (tri : Triage) (ts : List Task) (db : Db)
      → IsHistory pg db (submit_triaged pg link commit now start tri ts db).0
  unfolding submit_triaged
  submit_triaged-IsHistory link commit now start tri [] db = IsHistory-refl pg db
  submit_triaged-IsHistory link commit now start tri (t ∷ ts) db =
      subst (IsHistory pg db)
        (sym (respond_bulk-db start tri (enqueue_bulk pg link commit now (t ∷ ts) db)))
        (unfold perform in
          IsHistory-one pg record { link = link; now = now; op = enqueues_bulk commit (t ∷ ts) } db)

  pub submit_tasks_bulk-IsHistory :
      (link commit : Link) (now start : ℕ) (rfc3339 : Text → Option ℕ) (subs : List TaskSubmission)
      (db : Db)
      → IsHistory pg db (submit_tasks_bulk rfc3339 pg link commit now start subs db).0
  unfolding submit_tasks_bulk
  submit_tasks_bulk-IsHistory link commit now start rfc3339 [] db = IsHistory-refl pg db
  submit_tasks_bulk-IsHistory link commit now start rfc3339 (sub ∷ subs) db =
      elim (Bool-cases (ltb max_bulk_tasks (length (sub ∷ subs)))) [
        | inl many ↦ rw many (IsHistory-refl pg db)
        | inr few ↦
            let tri = triage rfc3339 0 (sub ∷ subs) in
            rw few (submit_triaged-IsHistory link commit now start tri tri.tasks db)
      ]

  pub submit_schedule-IsHistory :
      {Location Spec : Type 0} (go : Clockwork Location) (cron : Robfig Spec)
      (cron_error : Text → Text) (link : Link) (now : ℕ) (sub : ScheduleSubmission) (db : Db)
      → IsHistory pg db (submit_schedule go cron cron_error pg link now sub db).0
  unfolding submit_schedule
  submit_schedule-IsHistory go cron cron_error link now sub db =
      by_errors (validate_schedule_submission go cron cron_error sub) refl
    where
      by_errors :
          (errs : List FieldError)
          → validate_schedule_submission go cron cron_error sub ≡ errs
          → IsHistory pg db (submit_schedule go cron cron_error pg link now sub db).0
      by_errors [] e =
          rw (e, submit_schedule)
            (unfold perform in
              IsHistory-one pg
                record { link = link; now = now; op = creates_schedule (submitted_schedule sub) }
                db)
      by_errors (x ∷ errs) e = rw (e, submit_schedule) (IsHistory-refl pg db)

  -- A statement that matches no row.
  exec-same :
      {A : Type 0} (link : Link) (r : Result A) (db : Db) → (exec link true (λ d. (d, r)) db).0 ≡ db
  unfolding exec
  exec-same up r db = refl
  exec-same down r db = refl
  exec-same lost r db = refl

  cancel-IsHistory :
      (link link' : Link) (i : ℕ) (db : Db) → IsHistory pg db (cancel link link' (λ d. d) i db).0
  unfolding cancel
  cancel-IsHistory link link' i db =
      let (db', tag) = exec link true (write (cancellable_row i) set_cancelled) db in
      subst (IsHistory pg db) (sym (after_update-db link' i db' tag)) (
        subst (IsHistory pg db) (after_update-db up i db' tag)
          (unfold perform in IsHistory-one pg record { link = link; now = 0; op = cancels i } db))

  after_no_update-db :
      (db : Db) (link' : Link) (r : Result ℕ) → (after_no_update link' (λ d. d) db r).0 ≡ db
  after_no_update-db db link' (ok n) = refl
  after_no_update-db db link' (err e) = refl

  pub cancel_task-IsHistory :
      (parse_int : Text → Option ℤ) (link link' : Link) (raw : Text) (db : Db)
      → IsHistory pg db (cancel_task parse_int link link' (λ d. d) raw db).0
  unfolding cancel_task cancel_at
  cancel_task-IsHistory parse_int link link' raw db = by_id (parse_int raw) refl
    where
      by_id :
          (id : Option ℤ)
          → parse_int raw ≡ id
          → IsHistory pg db (cancel_task parse_int link link' (λ d. d) raw db).0
      by_id none e = rw (e, cancel_task) (IsHistory-refl pg db)
      by_id (some (pos i)) e = rw (e, cancel_task) (cancel-IsHistory link link' i db)
      by_id (some (negsuc n)) e =
          rw (e, cancel_task)
            (IsHistory-same pg db _ (
              sym (
                after_no_update-db (exec link true (λ d. (d, ok 0)) db).0 link'
                  (exec link true (λ d. (d, ok 0)) db).1
                ∙ exec-same link (ok 0) db)))

  pub update_schedule-IsHistory :
      (parse_int : Text → Option ℤ) (link : Link) (raw : Text) (enabled : Option Bool) (db : Db)
      → IsHistory pg db (update_schedule parse_int link raw enabled db).0
  unfolding update_schedule at_id
  update_schedule-IsHistory parse_int link raw enabled db = by_id (parse_int raw) enabled refl
    where
      by_id :
          (id : Option ℤ) (b : Option Bool)
          → parse_int raw ≡ id
          → IsHistory pg db (update_schedule parse_int link raw b db).0
      by_id none b e = rw (e, update_schedule) (IsHistory-refl pg db)
      by_id (some id) none e = rw (e, update_schedule) (IsHistory-refl pg db)
      by_id (some (pos i)) (some b) e =
          rw (e, update_schedule)
            (unfold perform in
              IsHistory-one pg record { link = link; now = 0; op = enables i b } db)
      by_id (some (negsuc n)) (some b) e =
          rw (e, update_schedule) (IsHistory-same pg db _ (sym (exec-same link (err not_found) db)))
