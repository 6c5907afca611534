-- ===== src/Api/BulkSubmissions.antt =====
-- internal/api/tasks_bulk.go: POST /tasks/bulk behind the decoding of the body.
--
-- `request_start` is the clock of the API server. The `none` of `fill` is a panic on an index out of
-- range.
pub mod Laws
use tick.Base.{
  ℕ, zero, suc, ◌+◌, ◌≡◌, refl, sym, ◌∙◌, ap, inl, inr, Bool, true, false, ◌&&◌, Option, none, some,
  List, [], ◌∷◌, ◌++◌, Text, bytes, arith, length, map, ltb, leb, is_some, length-append,
  length-map, if◌then◌else◌,
}
use tick.Domain.{Task, Result, ok, err}
use tick.Database.{Db, Postgres, Link, up}
use tick.Store.Enqueue.{enqueue}
use tick.Store.Bulk.{enqueue_bulk}
use tick.Store.Bulk.Laws.{enqueue_each, task_of}
use tick.Store.Bulk.Refines.{enqueue_bulk-refines}
use tick.Api.{TaskSubmission, FieldError, validate_submission, submitted_task}

abbrev pub max_bulk_tasks : ℕ
max_bulk_tasks = 1000

pub record BulkItemResult : Type 0 where
  pub index : ℕ
  pub status : Text
  pub task : Option Task
  pub errors : List FieldError

-- The zero value that make gives every item.
abbrev pub zero_item : BulkItemResult
zero_item = record { index = 0; status = []; task = none; errors = [] }

abbrev pub invalid_item : ℕ → List FieldError → BulkItemResult
invalid_item i errs = record { index = i; status = bytes "invalid"; task = none; errors = errs }

unfoldable pub task_item : ℕ → ℕ → Task → BulkItemResult
task_item request_start i t = record {
  index = i;
  status =
      if is_some t.idempotency_key && ltb t.created_at request_start
      then bytes "duplicate"
      else bytes "created";
  task = some t;
  errors = [];
}

-- What the first loop has made of the submissions: results, tasks and valid.
pub record Triage : Type 0 where
  pub results : List BulkItemResult
  pub tasks : List Task
  pub valid : List ℕ

abbrev pub add_submission : ℕ → Task → List FieldError → Triage → Triage
add_submission i t [] rest = record {
  results = zero_item ∷ rest.results;
  tasks = t ∷ rest.tasks;
  valid = i ∷ rest.valid;
}
add_submission i t (e ∷ errs) rest = record rest {
  results = invalid_item i (e ∷ errs) ∷ rest.results;
}

module _ (rfc3339 : Text → Option ℕ) where
  unfoldable pub triage : ℕ → List TaskSubmission → Triage
  unfolding validate_submission submitted_task
  triage i [] = record { results = []; tasks = []; valid = [] }
  triage i (sub ∷ subs) =
      add_submission i (submitted_task rfc3339 [] sub) (validate_submission rfc3339 sub)
        (triage (i + 1) subs)

-- `results[i] = item`.
unfoldable pub set_item : List BulkItemResult → ℕ → BulkItemResult → Option (List BulkItemResult)
set_item [] i item = none
set_item (x ∷ xs) zero item = some (item ∷ xs)
set_item (x ∷ xs) (suc i) item = elim (set_item xs i item) [ none ↦ none | some ys ↦ some (x ∷ ys) ]

-- The loop over the enqueued tasks.
unfoldable pub fill_items :
    ℕ → List BulkItemResult → List ℕ → List Task → Option (List BulkItemResult)
unfolding set_item task_item
fill_items request_start results valid [] = some results
fill_items request_start results [] (t ∷ ts) = none
fill_items request_start results (i ∷ valid) (t ∷ ts) =
    elim (set_item results i (task_item request_start i t)) [
      | none ↦ none
      | some results' ↦ fill_items request_start results' valid ts
    ]

-- 400, 500 and 200.
pub data BulkResponse : Type 0 where
  bad_batch batch_failed : BulkResponse
  results_of : (results : List BulkItemResult) → BulkResponse

abbrev pub filled : Option (List BulkItemResult) → BulkResponse
filled none = batch_failed
filled (some results) = results_of results

unfoldable pub respond_bulk : ℕ → Triage → Db × Result (List Task) → Db × BulkResponse
unfolding fill_items
respond_bulk request_start triaged (db, err e) = (db, batch_failed)
respond_bulk request_start triaged (db, ok enqueued) =
    (db, filled (fill_items request_start triaged.results triaged.valid enqueued))

unfoldable pub submit_triaged :
    Postgres → Link → Link → ℕ → ℕ → Triage → List Task → Db → Db × BulkResponse
unfolding enqueue_bulk respond_bulk
submit_triaged pg link link' now request_start triaged [] db = (db, results_of triaged.results)
submit_triaged pg link link' now request_start triaged (t ∷ ts) db =
    respond_bulk request_start triaged (enqueue_bulk pg link link' now (t ∷ ts) db)

unfoldable pub submit_tasks_bulk :
    (Text → Option ℕ)
    → Postgres
    → Link
    → Link
    → ℕ
    → ℕ
    → List TaskSubmission
    → Db
    → Db × BulkResponse
unfolding triage submit_triaged
submit_tasks_bulk rfc3339 pg link link' now request_start [] db = (db, bad_batch)
submit_tasks_bulk rfc3339 pg link link' now request_start (sub ∷ subs) db =
    if ltb max_bulk_tasks (length (sub ∷ subs))
    then (db, bad_batch)
    else let triaged = triage rfc3339 0 (sub ∷ subs) in
      submit_triaged pg link link' now request_start triaged triaged.tasks db
