-- ===== src/Tests/Requests.antt =====
-- The theorems on requests to the API at concrete inputs.
use tick.Base.{◌≤◌, ◌≡◌, refl, true, Option, none, some, [], ◌∷◌, ◌++◌, Text, bytes, ◌=?◌, ℕ, List}
use tick.Base.Int.{pos, negsuc}
use tick.Database.{Db, up, exec}
use tick.Database.Checks.{checks, int4_ok, int4_ok_ℤ, schedule_checks}
use tick.Database.Order.{plain_postgres}
use tick.Domain.{Task, Schedule, ok}
use tick.Cron.{Zone, next_n, parse, trim_space, fields}
use tick.Store.Enqueue.{new_row, max_attempts_or_default}
use tick.Store.Schedules.{new_schedule, create_schedule, insert_schedule, sound_schedule}
use tick.Api.{
  TaskSubmission, ScheduleSubmission, validate_submission, submitted_task, handler_errors,
  payload_errors, number_errors, is_handler_name, is_letter, all_name_bytes, is_name_byte,
  is_json_object, priority_ok, max_attempts_ok, validate_schedule_submission, cron_errors,
}
use tick.Api.Laws.{validate_submission_lem}
use tick.Api.ScheduleSubmissions.{submitted_schedule, submit_schedule, created_schedule}
use tick.Api.FireTimes.{shown_fire_times, created_schedule_fires}
use tick.Samples.{store}
use tick.Tests.Fires.{tens, clockwork}

abbrev pub rfc3339 : Text → Option ℕ
rfc3339 s = some 700

abbrev pub greeting : TaskSubmission
greeting = record {
  queue = [];
  handler = bytes "email.v2";
  payload = bytes " {}";
  priority = negsuc 2;
  run_at = none;
  max_attempts = pos 0;
  idempotency_key = none;
}

abbrev greeting_task : Task
greeting_task = submitted_task rfc3339 (bytes "k9") greeting

pub greeting_valid : validate_submission rfc3339 greeting ≡ []
unfolding validate_submission handler_errors payload_errors number_errors is_handler_name is_letter
    all_name_bytes is_name_byte is_json_object priority_ok max_attempts_ok ◌=?◌
greeting_valid = refl

validate_submission_lem_example :
    (checks (new_row 800 (bytes "{}") greeting_task 5) ≡ true)
    × (int4_ok_ℤ greeting_task.priority ≡ true)
    × (int4_ok (max_attempts_or_default greeting_task.max_attempts) ≡ true)
    × (max_attempts_or_default greeting_task.max_attempts ≤ 100)
    × (greeting.max_attempts ≡ pos greeting_task.max_attempts)
validate_submission_lem_example =
    validate_submission_lem rfc3339 (bytes "k9") (bytes "{}") greeting 800 5 greeting_valid

abbrev tea_time : ScheduleSubmission
tea_time = record {
  cron = bytes " 0 17 * * * ";
  timezone = [];
  queue = [];
  handler = bytes "tea";
  payload = [];
  priority = pos 0;
  max_attempts = pos 3;
}

tea_time_valid : validate_schedule_submission clockwork tens (λ s. s) tea_time ≡ []
unfolding validate_schedule_submission cron_errors parse trim_space fields handler_errors
    payload_errors number_errors is_handler_name is_letter all_name_bytes is_name_byte
    is_json_object priority_ok max_attempts_ok ◌=?◌
tea_time_valid = refl

abbrev tea_row : Schedule
tea_row = new_schedule 800 [] (submitted_schedule tea_time) 1

abbrev tea_store : Db
tea_store = record store { schedules = tea_row ∷ []; next_schedule_id = 2 }

tea_inserted :
    create_schedule plain_postgres up 800 (submitted_schedule tea_time) store
    ≡ (tea_store, ok tea_row)
unfolding create_schedule insert_schedule sound_schedule exec schedule_checks int4_ok int4_ok_ℤ
    max_attempts_or_default submitted_schedule new_schedule ◌=?◌
tea_inserted = refl

tea_time_created :
    submit_schedule clockwork tens (λ s. s) plain_postgres up 800 tea_time store
    ≡ (tea_store, created_schedule tea_row)
unfolding submit_schedule
tea_time_created = rw (tea_time_valid, submit_schedule) (rw tea_inserted refl)

created_schedule_fires_example :
    (spec : Unit {0}) × (loc : Zone) × (parse tens (bytes " 0 17 * * * ") ≡ ok spec)
    × (clockwork.load_location tea_row.timezone ≡ some loc)
    × (shown_fire_times clockwork tens (λ z. z) 20 900 tea_row ≡ next_n tens loc spec 20 900 5)
created_schedule_fires_example =
    created_schedule_fires clockwork tens (λ s. s) refl (λ z. z) plain_postgres up 800 900 20
      tea_time store tea_store tea_row tea_time_created

-- The second item has no handler.
abbrev bulk_request : List TaskSubmission
bulk_request = greeting ∷ record greeting { handler = [] } ∷ []

abbrev bulk_row : Task
bulk_row = new_row 800 (bytes " {}") (submitted_task rfc3339 [] greeting) 5

abbrev bulk_store : Db
bulk_store = record store { tasks = store.tasks ++ bulk_row ∷ []; next_task_id = 6 }
