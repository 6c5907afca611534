-- ===== src/Api/Resources.antt =====
-- internal/api: the routes on one task, one schedule and one queue (tasks_get.go, tasks_cancel.go,
-- schedules_get.go, queue_stats.go, health.go) behind the decoding of a body, with their errors
-- (errors.go).
--
-- `parse_int` is strconv.ParseInt in base 10 with 64 bits.
pub mod Laws
use tick.Base.{
  ℕ, ◌≡◌, Bool, true, false, Option, none, some, List, [], ◌∷◌, Text, bytes, ltb, if◌then◌else◌,
}
use tick.Base.Int.{ℤ, pos, negsuc}
use tick.Domain.{Task, Schedule, Result, ok, err, Error, not_found, not_cancellable}
use tick.Database.{Db, Postgres, Link, exec}
use tick.Store.Cancel
use tick.Store.Schedules
use tick.Store.QueueStats.{QueueStats, queue_stats}
use tick.Api.{FieldError}

-- apiErrorDetail.
pub record ErrorDetail : Type 0 where
  pub code : Text
  pub message : Text
  pub fields : List FieldError

-- A response: its status code, and its body.
pub data Reply (A : Type 0) : Type 0 where
  body : (status : ℕ) (value : A) → Reply A
  empty : (status : ℕ) → Reply A
  failed_with : (status : ℕ) (error : ErrorDetail) → Reply A

unfoldable pub write_error : {A : Type 0} → ℕ → Text → Text → List FieldError → Reply A
write_error status code message fields =
    failed_with status (record { code = code; message = message; fields = fields })

unfoldable pub write_json_error : {A : Type 0} → ℕ → Text → Reply A
unfolding write_error
write_json_error status message =
    write_error status (if ltb status 500 then bytes "invalid_request" else bytes "internal")
      message []

unfoldable pub write_validation_error : {A : Type 0} → List FieldError → Reply A
unfolding write_error
write_validation_error errs =
    write_error 400 (bytes "invalid_request") (bytes "request failed validation") errs

-- The loop over sentinelErrors.
unfoldable pub write_store_error : {A : Type 0} → Error → Text → Reply A
unfolding write_error
write_store_error not_found fallback =
    write_error 404 (bytes "not_found") (bytes "task not found") []
write_store_error not_cancellable fallback =
    write_error 409 (bytes "not_cancellable")
      (bytes "task is running or already terminal and cannot be cancelled") []
write_store_error _ fallback = write_error 500 (bytes "internal") fallback []

unfoldable pub bad_id : {A : Type 0} → Reply A
unfolding write_json_error
bad_id = write_json_error 400 (bytes "id: must be an integer")

-- 200 with the value, or what the error becomes.
abbrev pub reply_with : {A B : Type 0} → Text → (A → B) → Result A → Reply B
unfolding write_store_error
reply_with fallback show (ok a) = body 200 (show a)
reply_with fallback show (err e) = write_store_error e fallback

-- A statement about a negative id reaches the database as any other and matches no row.
unfoldable pub at_id : {A : Type 0} → Link → (ℕ → Db → Db × Result A) → ℤ → Db → Db × Result A
unfolding exec
at_id link statement (pos i) db = statement i db
at_id link statement (negsuc n) db = exec link true (λ d. (d, err not_found)) db

abbrev pub after_no_update : Link → (Db → Db) → Db → Result ℕ → Db × Result (Unit {0})
after_no_update link' meanwhile db (err e) = (db, err e)
after_no_update link' meanwhile db (ok n) =
    let later = meanwhile db in
    (later, Cancel.refusal (exec link' true (λ d. (d, err not_found)) later).1)

unfoldable pub cancel_at : Link → Link → (Db → Db) → ℤ → Db → Db × Result (Unit {0})
unfolding Cancel.cancel exec
cancel_at link link' meanwhile (pos i) db = Cancel.cancel link link' meanwhile i db
cancel_at link link' meanwhile (negsuc n) db =
    let (db', tag) = exec link true (λ d. (d, ok 0)) db in after_no_update link' meanwhile db' tag

module _ (parse_int : Text → Option ℤ) where
  unfoldable pub get_task : Link → Text → Db → Db × Reply Task
  unfolding bad_id at_id Cancel.get
  get_task link raw db = elim (parse_int raw) [
    | none ↦ (db, bad_id)
    | some id ↦
        let (db', r) = at_id link (Cancel.get link) id db in
        (db', reply_with (bytes "getting task failed") (λ t. t) r)
  ]

  abbrev pub cancel_reply : Result (Unit {0}) → Reply (Unit {0})
  unfolding write_store_error
  cancel_reply (ok _) = empty 204
  cancel_reply (err e) = write_store_error e (bytes "cancelling task failed")

  unfoldable pub cancel_task : Link → Link → (Db → Db) → Text → Db → Db × Reply (Unit {0})
  unfolding bad_id cancel_at
  cancel_task link link' meanwhile raw db = elim (parse_int raw) [
    | none ↦ (db, bad_id)
    | some id ↦ let (db', r) = cancel_at link link' meanwhile id db in (db', cancel_reply r)
  ]

  unfoldable pub get_schedule : Link → Text → Db → Db × Reply Schedule
  unfolding bad_id at_id Schedules.get_schedule
  get_schedule link raw db = elim (parse_int raw) [
    | none ↦ (db, bad_id)
    | some id ↦
        let (db', r) = at_id link (Schedules.get_schedule link) id db in
        (db', reply_with (bytes "getting schedule failed") (λ s. s) r)
  ]

  abbrev pub enabled_required : FieldError
  enabled_required = record { field = bytes "enabled"; message = bytes "is required" }

  -- The body's enabled is `none` where it is absent.
  unfoldable pub update_schedule : Link → Text → Option Bool → Db → Db × Reply Schedule
  unfolding bad_id at_id write_validation_error Schedules.set_schedule_enabled
  update_schedule link raw enabled db = elim (parse_int raw) [
    | none ↦ (db, bad_id)
    | some id ↦ elim enabled [
      | none ↦ (db, write_validation_error (enabled_required ∷ []))
      | some b ↦
          let (db', r) = at_id link (λ i. Schedules.set_schedule_enabled link i b) id db in
          (db', reply_with (bytes "updating schedule failed") (λ s. s) r)
    ]
  ]

abbrev pub reply_or_500 : {A : Type 0} → Text → Result A → Reply A
unfolding write_json_error
reply_or_500 message (ok a) = body 200 a
reply_or_500 message (err e) = write_json_error 500 message

unfoldable pub list_schedules : Link → Db → Db × Reply (List Schedule)
unfolding Schedules.list_schedules
list_schedules link db =
    let (db', r) = Schedules.list_schedules link db in
    (db', reply_or_500 (bytes "listing schedules failed") r)

unfoldable pub get_queue_stats : Postgres → Link → ℕ → Text → Db → Db × Reply QueueStats
unfolding queue_stats write_json_error
get_queue_stats pg link now [] db = (db, write_json_error 400 (bytes "name: is required"))
get_queue_stats pg link now (c ∷ cs) db =
    let (db', r) = queue_stats pg link now (c ∷ cs) db in
    (db', reply_or_500 (bytes "getting queue stats failed") r)

-- The body is the status text.
abbrev pub healthz : Reply Text
healthz = body 200 (bytes "ok")

-- `ping` is what Ping returns.
abbrev pub readyz : Result (Unit {0}) → Reply Text
unfolding write_error
readyz (ok _) = body 200 (bytes "ok")
readyz (err e) = write_error 503 (bytes "not_ready") (bytes "store is not reachable") []
