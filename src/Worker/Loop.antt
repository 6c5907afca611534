-- ===== src/Worker/Loop.antt =====
-- internal/worker/worker.go: the numbers of the claim loop, and the in-flight set of heartbeat.go.
use tick.Base.{ℕ, ◌-◌, ◌*◌, List, [], ◌∷◌, ◌==◌, min, if◌then◌else◌, not, select}
use tick.Domain.{second}

-- `min(cfg.ClaimBatch, cap(sem) - len(sem))`; a semaphore is never over its capacity.
unfoldable pub available_batch : ℕ → ℕ → ℕ → ℕ
available_batch claim_batch capacity busy = min claim_batch (capacity - busy)

abbrev pub idle_backoff_floor : ℕ
idle_backoff_floor = 50000

abbrev pub idle_backoff_ceiling : ℕ
idle_backoff_ceiling = 2 * second

-- The delay after a claim of `n` tasks.
unfoldable pub next_backoff : ℕ → ℕ → ℕ
next_backoff backoff claimed =
    if claimed == 0 then min (backoff * 2) idle_backoff_ceiling else idle_backoff_floor

-- The delay after a sequence of claims.
unfoldable pub backoff_after : List ℕ → ℕ
unfolding next_backoff
backoff_after [] = idle_backoff_floor
backoff_after (n ∷ earlier) = next_backoff (backoff_after earlier) n

-- The ids in flight.
unfoldable pub add : ℕ → List ℕ → List ℕ
add id ids = id ∷ select (λ i. not (i == id)) ids

unfoldable pub remove : ℕ → List ℕ → List ℕ
remove id ids = select (λ i. not (i == id)) ids
