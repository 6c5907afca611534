-- ===== src/Domain.antt =====
-- internal/domain: the vocabulary that every component shares. task.go's Status and Task, schedule.go's
-- Schedule, errors.go's sentinels.
--
-- A Go string is the list of its bytes. A time.Time is the number of microseconds since the zero
-- time, which is 0: microseconds are the precision of the TIMESTAMPTZ columns, and no code sets a
-- time before the zero time. A nil pointer is `none`.
pub mod Operations
pub mod Truncate
use tick.Base.{ℕ, ◌+◌, ◌-◌, ◌*◌, ◌≡◌, Bool, true, false, Option, List, [], ◌∷◌, Text, bytes}
use tick.Base.Int.{ℤ}

-- The status constants. `Valid` is read over the raw text below.
pub data Status : Type 0 where
  pending running succeeded failed dead cancelled : Status

abbrev pub all_statuses : List Status
all_statuses = pending ∷ running ∷ succeeded ∷ failed ∷ dead ∷ cancelled ∷ []

-- The text of a status constant, which is also what `String` returns and the column stores.
abbrev pub status_text : Status → Text
status_text pending = bytes "pending"
status_text running = bytes "running"
status_text succeeded = bytes "succeeded"
status_text failed = bytes "failed"
status_text dead = bytes "dead"
status_text cancelled = bytes "cancelled"

-- A test for one status, as `status = '…'` in SQL and `t.Status == Status…` in Go.
abbrev pub is_pending : Status → Bool
is_pending pending = true
is_pending _ = false

abbrev pub is_running : Status → Bool
is_running running = true
is_running _ = false

unfoldable pub terminal : Status → Bool
terminal succeeded = true
terminal dead = true
terminal cancelled = true
terminal _ = false

pub record Task : Type 0 where
  pub id : ℕ
  pub queue : Text
  pub handler : Text
  pub payload : Text
  pub priority : ℤ
  pub status : Status
  pub run_at : ℕ
  pub attempts : ℕ
  pub max_attempts : ℕ
  pub claimed_by : Option Text
  pub heartbeat_at : Option ℕ
  pub idempotency_key : Option Text
  pub schedule_id : Option ℕ
  pub last_error : Option Text
  pub created_at : ℕ

pub record Schedule : Type 0 where
  pub id : ℕ
  pub cron : Text
  pub timezone : Text
  pub queue : Text
  pub handler : Text
  pub payload : Text
  pub priority : ℤ
  pub max_attempts : ℕ
  pub enabled : Bool
  pub last_materialized_at : Option ℕ
  pub created_at : ℕ

abbrev pub default_timezone : Text
default_timezone = bytes "UTC"

-- The sentinels of errors.go, and three causes that the code passes on wrapped: no row to scan, a
-- statement that the database refused, a statement whose reply did not arrive.
pub data Error : Type 0 where
  not_found duplicate_idempotency_key not_cancellable claim_lost : Error
  unknown_handler invalid_timezone invalid_cron queue_paused : Error
  no_rows rejected unavailable : Error

pub data Result {ℓ} (A : Type ℓ) : Type ℓ where
  ok : A → Result A
  err : Error → Result A

-- One second, in the unit of every time of the model.
abbrev pub second : ℕ
second = 1000000
