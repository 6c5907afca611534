-- ===== src/Store/Rows.antt =====
-- What holds of every row of the tasks table, and that each SET clause keeps it on the rows that its
-- WHERE clause selects.
pub mod Identity
use tick.Base.{
  ℕ, ◌+◌, ◌^◌, ◌≤◌, ◌<◌, ◌≡◌, ◌≢◌, refl, Bool, true, false, Option, some, none, Text, arith,
  is_some, List, =?_iff,
}
use tick.Domain.{
  Task, pending, running, succeeded, failed, dead, cancelled, Status, is_running, is_pending,
  terminal,
}
use tick.Database.{Postgres}
use tick.Database.Checks.{checks}
use tick.Store.{held}
use tick.Store.Backoff.{Jitter}
use tick.Store.Claim.{claimable, stamp}
use tick.Store.Finish.{succeed, retry_or_bury}
use tick.Store.Heartbeat.{beating, beat}
use tick.Store.Recover.{orphaned, reclaim}
use tick.Store.Cancel.{cancellable_row, set_cancelled}
use tick.Store.Enqueue.{new_row, sound}

pub record IsSoundRow (t : Task) : Type 0 where
  pub limited : t.max_attempts < 2 ^ 31
  pub checked : checks t ≡ true
  pub counted : t.attempts ≤ t.max_attempts
  pub spare : t.status ≡ pending → t.attempts < t.max_attempts
  pub owned : is_some t.claimed_by ≡ true → t.status ≡ running
  pub buried : t.status ≡ dead → t.attempts ≡ t.max_attempts
  pub never_failed : t.status ≢ failed

pub stamp-IsSoundRow :
    (queue worker_id : Text) (now now' : ℕ) (t : Task)
    → claimable queue now t ≡ true
    → IsSoundRow t
    → IsSoundRow (stamp worker_id now' t)
unfolding claimable stamp checks
stamp-IsSoundRow queue worker_id now now' t h s = ground arith

pub succeed-IsSoundRow :
    (i : ℕ) (worker_id : Text) (t : Task)
    → held i worker_id t ≡ true
    → IsSoundRow t
    → IsSoundRow (succeed t)
unfolding succeed checks
succeed-IsSoundRow i worker_id t h s = ground arith

pub retry_or_bury-IsSoundRow :
    (now : ℕ) (jitter : Jitter) (msg : Text) (i : ℕ) (worker_id : Text) (t : Task)
    → held i worker_id t ≡ true
    → IsSoundRow t
    → IsSoundRow (retry_or_bury now jitter msg t)
unfolding retry_or_bury checks
retry_or_bury-IsSoundRow now jitter msg i worker_id t h s = ground arith

pub beat-IsSoundRow :
    (now : ℕ) (ids : List ℕ) (worker_id : Text) (t : Task)
    → beating ids worker_id t ≡ true
    → IsSoundRow t
    → IsSoundRow (beat now t)
unfolding beat beating checks
beat-IsSoundRow now ids worker_id t h s = ground arith

pub reclaim-IsSoundRow :
    (now : ℕ) (t : Task) → orphaned now t ≡ true → IsSoundRow t → IsSoundRow (reclaim now t)
unfolding reclaim orphaned checks
reclaim-IsSoundRow now t h s = ground arith

pub set_cancelled-IsSoundRow :
    (i : ℕ) (t : Task) → cancellable_row i t ≡ true → IsSoundRow t → IsSoundRow (set_cancelled t)
unfolding set_cancelled checks
set_cancelled-IsSoundRow i t h s = ground arith

pub new_row-IsSoundRow :
    (pg : Postgres) (now : ℕ) (document : Text) (t : Task) (i : ℕ)
    → sound pg t ≡ true
    → checks (new_row now document t i) ≡ true
    → IsSoundRow (new_row now document t i)
unfolding new_row sound checks
new_row-IsSoundRow pg now document t i h c = ground arith
