-- ===== src/Store/Finish.antt =====
-- internal/store/postgres/complete.go and fail.go: the two ways in which a worker ends a claim.
pub mod Laws
use tick.Base.{ℕ, zero, suc, ◌+◌, ◌≡◌, Bool, ◌&&◌, Option, none, some, [], Text, ltb, if◌then◌else◌}
use tick.Domain.{Task, succeeded, pending, dead, Result, ok, err, claim_lost}
use tick.Domain.Truncate.{truncate_error}
use tick.Database.{Db, Postgres, Link, exec}
use tick.Store.{held, write}
use tick.Store.Backoff.{capped_seconds, Jitter}

-- `if tag.RowsAffected() == 0 { return ErrClaimLost }`.
abbrev pub affected : Result ℕ → Result (Unit {0})
affected (ok zero) = err claim_lost
affected (ok (suc n)) = ok tt
affected (err e) = err e

unfoldable pub succeed : Task → Task
succeed t = record t { status = succeeded; claimed_by = none; heartbeat_at = none }

unfoldable pub complete : Postgres → Link → ℕ → Text → Db → Db × Result (Unit {0})
unfolding exec write succeed
complete pg link id worker_id db =
    let (db', tag) = exec link (pg.text_ok worker_id) (write (held id worker_id) succeed) db in
    (db', affected tag)

-- The SET clause; both CASEs read the row as it was.
unfoldable pub retry_or_bury : ℕ → Jitter → Text → Task → Task
unfolding capped_seconds
retry_or_bury now jitter msg t = record t {
  status = if ltb t.attempts t.max_attempts then pending else dead;
  run_at =
      if ltb t.attempts t.max_attempts then now + jitter (capped_seconds t.attempts) else t.run_at;
  claimed_by = none;
  heartbeat_at = none;
  last_error = some msg;
}

-- The message of a nil error is empty.
unfoldable pub message : Option Text → Text
message none = []
message (some exec_err) = truncate_error exec_err

unfoldable pub fail :
    Postgres → Link → ℕ → Jitter → ℕ → Text → Option Text → Db → Db × Result (Unit {0})
unfolding exec write retry_or_bury
fail pg link now jitter id worker_id exec_err db =
    let msg = message exec_err in
    let (db', tag) =
      exec link (pg.text_ok worker_id && pg.text_ok msg)
        (write (held id worker_id) (retry_or_bury now jitter msg)) db in
    (db', affected tag)
