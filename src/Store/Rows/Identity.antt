-- ===== src/Store/Rows/Identity.antt =====
-- The columns that a submission fixes: no SET clause of the store writes them.
use tick.Base.{ℕ, ◌≡◌, Text, arith}
use tick.Domain.{Task}
use tick.Store.Backoff.{Jitter}
use tick.Store.Claim.{stamp}
use tick.Store.Finish.{succeed, retry_or_bury}
use tick.Store.Heartbeat.{beat}
use tick.Store.Recover.{reclaim}
use tick.Store.Cancel.{set_cancelled}

pub record IsSameTask (t u : Task) : Type 0 where
  pub same_id : u.id ≡ t.id
  pub same_queue : u.queue ≡ t.queue
  pub same_handler : u.handler ≡ t.handler
  pub same_payload : u.payload ≡ t.payload
  pub same_priority : u.priority ≡ t.priority
  pub same_max : u.max_attempts ≡ t.max_attempts
  pub same_key : u.idempotency_key ≡ t.idempotency_key
  pub same_schedule : u.schedule_id ≡ t.schedule_id
  pub same_created : u.created_at ≡ t.created_at

pub IsSameTask-refl : (t : Task) → IsSameTask t t
IsSameTask-refl t = ground arith

pub IsSameTask-trans : (t u v : Task) → IsSameTask t u → IsSameTask u v → IsSameTask t v
IsSameTask-trans t u v p q = ground arith

pub stamp-IsSameTask :
    (worker_id : Text) (now : ℕ) (t : Task) → IsSameTask t (stamp worker_id now t)
unfolding stamp
stamp-IsSameTask worker_id now t = ground arith

pub succeed-IsSameTask : (t : Task) → IsSameTask t (succeed t)
unfolding succeed
succeed-IsSameTask t = ground arith

pub retry_or_bury-IsSameTask :
    (now : ℕ) (jitter : Jitter) (msg : Text) (t : Task)
    → IsSameTask t (retry_or_bury now jitter msg t)
unfolding retry_or_bury
retry_or_bury-IsSameTask now jitter msg t = ground arith

pub beat-IsSameTask : (now : ℕ) (t : Task) → IsSameTask t (beat now t)
unfolding beat
beat-IsSameTask now t = ground arith

pub reclaim-IsSameTask : (now : ℕ) (t : Task) → IsSameTask t (reclaim now t)
unfolding reclaim
reclaim-IsSameTask now t = ground arith

pub set_cancelled-IsSameTask : (t : Task) → IsSameTask t (set_cancelled t)
unfolding set_cancelled
set_cancelled-IsSameTask t = ground arith
