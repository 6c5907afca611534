-- ===== src/Api.antt =====
-- internal/api: the validation of submissions (validate.go) and the handler of POST /tasks
-- (tasks_submit.go) behind the decoding of the body.
--
-- A Go int is an integer of any size: encoding/json refuses larger ones. The text of a cron error is
-- an argument.
pub mod Laws
pub mod ScheduleSubmissions
pub mod BulkSubmissions
pub mod Resources
pub mod Server
pub mod FireTimes
use tick.Base.{
  ℕ, ◌+◌, ◌^◌, ◌≡◌, Bool, true, false, not, ◌&&◌, ◌||◌, Option, none, some, List, [], ◌∷◌, ◌++◌,
  Text, bytes, ◌=?◌, ◌==◌, leb, if◌then◌else◌, is_some,
}
use tick.Base.Int.{ℤ, pos, negsuc}
use tick.Domain.{Task, Schedule, pending, Result, ok, err}
use tick.Domain.Operations.{Clockwork}
use tick.Cron.{Robfig, parse}
use tick.Database.{Db, Postgres, Link}
use tick.Store.Enqueue.{enqueue, Enqueued, created, duplicate, refused}

pub record TaskSubmission : Type 0 where
  pub queue : Text
  pub handler : Text
  pub payload : Text
  pub priority : ℤ
  pub run_at : Option Text
  pub max_attempts : ℤ
  pub idempotency_key : Option Text

pub record ScheduleSubmission : Type 0 where
  pub cron : Text
  pub timezone : Text
  pub queue : Text
  pub handler : Text
  pub payload : Text
  pub priority : ℤ
  pub max_attempts : ℤ

pub record FieldError : Type 0 where
  pub field : Text
  pub message : Text

unfoldable pub is_letter : ℕ → Bool
is_letter c = (leb 97 c && leb c 122) || (leb 65 c && leb c 90)

-- `[a-zA-Z0-9_.-]`.
unfoldable pub is_name_byte : ℕ → Bool
unfolding is_letter
is_name_byte c = is_letter c || (leb 48 c && leb c 57) || c == 95 || c == 46 || c == 45

unfoldable pub all_name_bytes : Text → Bool
unfolding is_name_byte
all_name_bytes [] = true
all_name_bytes (c ∷ cs) = is_name_byte c && all_name_bytes cs

-- handlerNamePattern.
unfoldable pub is_handler_name : Text → Bool
unfolding is_letter all_name_bytes
is_handler_name [] = false
is_handler_name (c ∷ cs) = is_letter c && all_name_bytes cs

unfoldable pub is_json_object : Text → Bool
is_json_object [] = false
is_json_object (b ∷ raw) =
    let rest = is_json_object raw in
    if b == 32 || b == 9 || b == 10 || b == 13 then rest else b == 123

abbrev pub error_when : Bool → Text → Text → List FieldError
error_when true field message = record { field = field; message = message } ∷ []
error_when false field message = []

-- The shared checks of the handler, the payload and the two numbers.
unfoldable pub handler_errors : Text → List FieldError
unfolding is_handler_name
handler_errors handler =
    if handler =? []
    then error_when true (bytes "handler") (bytes "is required")
    else error_when (not (is_handler_name handler)) (bytes "handler")
        (bytes "must start with a letter and contain only letters, digits, '_', '.' or '-'")

unfoldable pub payload_errors : Text → List FieldError
unfolding is_json_object
payload_errors payload =
    error_when (not (payload =? []) && not (is_json_object payload)) (bytes "payload")
      (bytes "must be a JSON object")

-- From -1000 to 1000.
unfoldable pub priority_ok : ℤ → Bool
priority_ok (pos n) = leb n 1000
priority_ok (negsuc n) = leb n 999

-- 0, which stands for the default, or from 1 to 100.
unfoldable pub max_attempts_ok : ℤ → Bool
max_attempts_ok (pos n) = leb n 100
max_attempts_ok (negsuc n) = false

unfoldable pub number_errors : ℤ → ℤ → List FieldError
unfolding priority_ok max_attempts_ok
number_errors priority max_attempts =
    error_when (not (priority_ok priority)) (bytes "priority")
      (bytes "must be between -1000 and 1000")
    ++ error_when (not (max_attempts_ok max_attempts)) (bytes "max_attempts")
        (bytes "must be between 1 and 100")

-- `rfc3339` is time.Parse with that layout.
abbrev pub is_bad_time : (Text → Option ℕ) → Option Text → Bool
is_bad_time rfc3339 none = false
is_bad_time rfc3339 (some s) = not (is_some (rfc3339 s))

unfoldable pub validate_submission : (Text → Option ℕ) → TaskSubmission → List FieldError
unfolding handler_errors payload_errors number_errors
validate_submission rfc3339 sub =
    handler_errors sub.handler
    ++ (payload_errors sub.payload
        ++ (number_errors sub.priority sub.max_attempts
            ++ error_when (is_bad_time rfc3339 sub.run_at) (bytes "run_at")
                (bytes "must be an RFC3339 timestamp")))

abbrev pub parses : {Spec : Type 0} → Result Spec → Bool
parses (ok spec) = true
parses (err e) = false

module _ {Location Spec : Type 0} (go : Clockwork Location) (cron : Robfig Spec)
    (cron_error : Text → Text) where
  unfoldable pub cron_errors : Text → List FieldError
  unfolding parse
  cron_errors expr =
      if expr =? []
      then error_when true (bytes "cron") (bytes "is required")
      else error_when (not (parses (parse cron expr))) (bytes "cron") (cron_error expr)

  unfoldable pub validate_schedule_submission : ScheduleSubmission → List FieldError
  unfolding cron_errors handler_errors payload_errors number_errors
  validate_schedule_submission sub =
      cron_errors sub.cron
      ++ (error_when (not (sub.timezone =? []) && not (is_some (go.load_location sub.timezone)))
            (bytes "timezone") (bytes "must be a loadable IANA location name")
          ++ (handler_errors sub.handler
              ++ (payload_errors sub.payload ++ number_errors sub.priority sub.max_attempts)))

-- The number as it is passed on. The handlers have validated it before, so none is negative; a negative
-- one, which `CHECK (max_attempts > 0)` refuses, stands here as a number that is too large for the INT
-- column, which the database refuses too, with the same answer.
abbrev pub to_nat : ℤ → ℕ
to_nat (pos n) = n
to_nat (negsuc n) = 2 ^ 63 + n

-- `t.RunAt, _ = time.Parse(…)`; no time is the zero time.
abbrev pub parsed_time : (Text → Option ℕ) → Option Text → ℕ
parsed_time rfc3339 none = 0
parsed_time rfc3339 (some s) = elim (rfc3339 s) [ none ↦ 0 | some t ↦ t ]

-- The body's key takes precedence over the header's; an empty header is none.
abbrev pub key_or_header : Option Text → Text → Option Text
key_or_header (some key) header = some key
key_or_header none [] = none
key_or_header none (c ∷ cs) = some (c ∷ cs)

unfoldable pub submitted_task : (Text → Option ℕ) → Text → TaskSubmission → Task
submitted_task rfc3339 header sub = record {
  id = 0;
  queue = if sub.queue =? [] then bytes "default" else sub.queue;
  handler = sub.handler;
  payload = sub.payload;
  priority = sub.priority;
  status = pending;
  run_at = parsed_time rfc3339 sub.run_at;
  attempts = 0;
  max_attempts = to_nat sub.max_attempts;
  claimed_by = none;
  heartbeat_at = none;
  idempotency_key = key_or_header sub.idempotency_key header;
  schedule_id = none;
  last_error = none;
  created_at = 0;
}

-- The answers of POST /tasks: 400, 500, 201 and 200.
pub data Response : Type 0 where
  invalid : (errs : List FieldError) → Response
  internal_error : Response
  created_task replayed_task : (t : Task) → Response

abbrev pub respond : Enqueued → Response
respond (created t) = created_task t
respond (duplicate t) = replayed_task t
respond (refused e) = internal_error

unfoldable pub submit_task :
    Postgres
    → Link
    → Link
    → (Db → Db)
    → ℕ
    → (Text → Option ℕ)
    → Text
    → TaskSubmission
    → Db
    → Db × Response
unfolding validate_submission submitted_task enqueue
submit_task pg link link' meanwhile now rfc3339 header sub db =
    elim (validate_submission rfc3339 sub) [
      | [] ↦
          let (db', answer) =
            enqueue pg link link' meanwhile now (submitted_task rfc3339 header sub) db in
          (db', respond answer)
      | e ∷ errs ↦ (db, invalid (e ∷ errs))
    ]
