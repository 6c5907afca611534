-- ===== src/Domain/Operations.antt =====
-- internal/domain/task.go and schedule.go: the methods of Status, Task and Schedule.
use tick.Base.{
  ℕ, ◌-◌, ◌≡◌, ◌↔◌, Bool, true, false, not, ◌&&◌, ◌||◌, Option, none, some, List, [], ◌∷◌, ◌++◌,
  arith, Text, bytes, ltb, leb, if◌then◌else◌, is_some, ◌=?◌,
}
use tick.Domain.{
  Status, pending, all_statuses, status_text, is_pending, Task, Schedule, default_timezone, Result,
  ok, err, invalid_timezone,
}

any_status : Text → List Status → Bool
any_status s [] = false
any_status s (x ∷ xs) = s =? status_text x || any_status s xs

-- The `switch` of Valid: the text is one of the six constants.
unfoldable pub valid : Text → Bool
unfolding any_status
valid s = any_status s all_statuses

pub cancellable : Task → Bool
cancellable t = is_pending t.status

-- `if n := MaxAttempts - Attempts; n > 0 { return n }; return 0` is the subtraction that stops at 0.
unfoldable pub retries_remaining : Task → ℕ
retries_remaining t =
    let n = t.max_attempts - t.attempts in if ltb t.attempts t.max_attempts then n else 0

unfoldable pub exhausted : Task → Bool
exhausted t = leb t.max_attempts t.attempts

pub recurring : Task → Bool
recurring t = is_some t.schedule_id

-- `!t.RunAt.After(now)`.
unfoldable pub due : Task → ℕ → Bool
due t now = is_pending t.status && not (ltb now t.run_at)

-- Texts and times that the code gets from the Go library: the decimal print of an id, and a time in
-- RFC 3339 at UTC; the zone database.
pub record Clockwork (Location : Type 0) : Type 0 where
  pub decimal : ℕ → Text
  pub rfc3339 : ℕ → Text
  pub load_location : Text → Option Location

module _ {Location : Type 0} (go : Clockwork Location) where
  unfoldable pub idempotency_key_for : ℕ → ℕ → Text
  idempotency_key_for schedule_id run_at = go.decimal schedule_id ++ bytes ":" ++ go.rfc3339 run_at

  unfoldable pub location : Schedule → Result Location
  location s =
      let name = if s.timezone =? [] then default_timezone else s.timezone in
      elim (go.load_location name) [ none ↦ err invalid_timezone | some loc ↦ ok loc ]

  -- The fields that the literal leaves out have Go's zero values.
  unfoldable pub task_for : Schedule → ℕ → Task
  unfolding idempotency_key_for
  task_for s run_at = record {
    id = 0;
    queue = s.queue;
    handler = s.handler;
    payload = s.payload;
    priority = s.priority;
    status = pending;
    run_at = run_at;
    attempts = 0;
    max_attempts = s.max_attempts;
    claimed_by = none;
    heartbeat_at = none;
    idempotency_key = some (idempotency_key_for s.id run_at);
    schedule_id = some s.id;
    last_error = none;
    created_at = 0;
  }

-- A task has retries remaining exactly when it is not exhausted.
pub exhausted_iff_none_remaining : (t : Task) → (exhausted t ≡ true) ↔ (retries_remaining t ≡ 0)
unfolding exhausted retries_remaining
exhausted_iff_none_remaining t = ground arith
