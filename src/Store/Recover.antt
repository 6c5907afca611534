-- ===== src/Store/Recover.antt =====
-- internal/store/postgres/recover_orphans.go.
pub mod Laws
pub mod Redelivery
use tick.Base.{ℕ, ◌+◌, ◌*◌, Bool, true, false, ◌&&◌, Option, none, some, bytes, ltb, if◌then◌else◌}
use tick.Domain.{Task, pending, dead, is_running, Result, second}
use tick.Database.{Db, Link, exec}
use tick.Store.{write}
use tick.Store.Backoff.{capped_seconds}

-- `heartbeat_at < now() - interval '90 seconds'`; NULL is not before anything.
abbrev pub silent : ℕ → Option ℕ → Bool
silent now none = false
silent now (some beat) = ltb (beat + 90 * second) now

unfoldable pub orphaned : ℕ → Task → Bool
orphaned now t = is_running t.status && silent now t.heartbeat_at

-- The SET clause. It leaves heartbeat_at as it was.
unfoldable pub reclaim : ℕ → Task → Task
unfolding capped_seconds
reclaim now t = record t {
  status = if ltb t.attempts t.max_attempts then pending else dead;
  run_at =
      if ltb t.attempts t.max_attempts then now + second * capped_seconds t.attempts else t.run_at;
  claimed_by = none;
  last_error = some (bytes "orphaned: heartbeat expired");
}

unfoldable pub recover_orphans : Link → ℕ → Db → Db × Result ℕ
unfolding exec write orphaned reclaim
recover_orphans link now db = exec link true (write (orphaned now) (reclaim now)) db
