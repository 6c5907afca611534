-- ===== src/Api/ScheduleSubmissions.antt =====
-- internal/api/schedules_create.go: POST /schedules behind the decoding of the body. The next fire
-- times that the answer shows are in FireTimes.
use tick.Base.Rows.{append-eq-nil}
use tick.Base.{ℕ, ◌≡◌, refl, true, false, List, [], ◌∷◌, Text, arith, bytes, ◌=?◌, none}
use tick.Base.Int.{pos}
use tick.Domain.{Schedule, Result, ok, err, default_timezone}
use tick.Domain.Operations.{Clockwork}
use tick.Cron.{Robfig}
use tick.Database.{Db, Postgres, Link}
use tick.Database.Checks.{schedule_checks, int4_ok, int4_ok_ℤ}
use tick.Store.Enqueue.{max_attempts_or_default}
use tick.Store.Schedules.{create_schedule, new_schedule, or_default}
use tick.Api.{
  ScheduleSubmission, FieldError, validate_schedule_submission, cron_errors, handler_errors,
  payload_errors, to_nat,
}
use tick.Api.Laws.{handler_required, numbers_fit, limit_positive}

unfoldable pub submitted_schedule : ScheduleSubmission → Schedule
submitted_schedule sub = record {
  id = 0;
  cron = sub.cron;
  timezone = sub.timezone;
  queue = sub.queue;
  handler = sub.handler;
  payload = sub.payload;
  priority = sub.priority;
  max_attempts = to_nat sub.max_attempts;
  enabled = false;
  last_materialized_at = none;
  created_at = 0;
}

-- 400, 500 and 201.
pub data ScheduleResponse : Type 0 where
  invalid_schedule : (errs : List FieldError) → ScheduleResponse
  schedule_failed : ScheduleResponse
  created_schedule : (sc : Schedule) → ScheduleResponse

abbrev pub respond_schedule : Result Schedule → ScheduleResponse
respond_schedule (ok sc) = created_schedule sc
respond_schedule (err e) = schedule_failed

module _ {Location Spec : Type 0} (go : Clockwork Location) (cron : Robfig Spec)
    (cron_error : Text → Text) where
  unfoldable pub submit_schedule :
      Postgres → Link → ℕ → ScheduleSubmission → Db → Db × ScheduleResponse
  unfolding validate_schedule_submission submitted_schedule create_schedule
  submit_schedule pg link now sub db = elim (validate_schedule_submission go cron cron_error sub) [
    | [] ↦
        let (db', answer) = create_schedule pg link now (submitted_schedule sub) db in
        (db', respond_schedule answer)
    | e ∷ errs ↦ (db, invalid_schedule (e ∷ errs))
  ]

  cron_required : (expr : Text) → cron_errors go cron cron_error expr ≡ [] → (expr =? []) ≡ false
  unfolding cron_errors
  cron_required expr e = ground arith

  named :
      (given default : Text) → (default =? []) ≡ false → (or_default given default =? []) ≡ false
  unfolding ◌=?◌
  named [] default h = h
  named (c ∷ cs) default h = refl

  -- A schedule submission without validation errors makes a row that satisfies the CHECK constraints of
  -- schedules, and its numbers fit the INT columns; the number of attempts is passed on as it is.
  pub validate_schedule_submission_lem :
      (sub : ScheduleSubmission) (document : Text) (now id : ℕ)
      → validate_schedule_submission go cron cron_error sub ≡ []
      → let sc = submitted_schedule sub in
        (schedule_checks (new_schedule now document sc id) ≡ true)
        × (int4_ok_ℤ sc.priority ≡ true)
        × (int4_ok (max_attempts_or_default sc.max_attempts) ≡ true)
        × (sub.max_attempts ≡ pos sc.max_attempts)
  unfolding validate_schedule_submission submitted_schedule schedule_checks new_schedule
  validate_schedule_submission_lem sub document now id e =
      let (no_cron_error, rest) = append-eq-nil (cron_errors go cron cron_error sub.cron) _ e in
      let (no_handler_error, rest') =
        append-eq-nil (handler_errors sub.handler) _ (append-eq-nil _ _ rest).1 in
      let fit =
        numbers_fit sub.priority sub.max_attempts
          (append-eq-nil (payload_errors sub.payload) _ rest').1 in
      (
        ground (
          arith,
          cron_required sub.cron no_cron_error,
          handler_required sub.handler no_handler_error,
          limit_positive (to_nat sub.max_attempts),
          named sub.timezone default_timezone (unfold ◌=?◌ in refl),
          named sub.queue (bytes "default") (unfold ◌=?◌ in refl),
        ),
        fit.0,
        fit.1,
        fit.3,
      )
