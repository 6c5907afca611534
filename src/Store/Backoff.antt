-- ===== src/Store/Backoff.antt =====
-- The interval that fail.go and recover_orphans.go compute in SQL.
use tick.Base.{ℕ, ◌*◌, ◌^◌, ◌≤◌, ◌≡◌, refl, min}
use tick.Base.Int.{pos}
use tick.Domain.{second}
use tick.Retry.{ceiling, default_config}

-- `least(300, power(2, attempts) * 5)`, in seconds.
unfoldable pub capped_seconds : ℕ → ℕ
capped_seconds attempts = min 300 (2 ^ attempts * 5)

-- `interval '1 second' * (random() * x)` for a ceiling of x seconds.
abbrev pub Jitter : Type 0
Jitter = ℕ → ℕ

-- random() is at least 0 and below 1.
abbrev pub IsJitter : Jitter → Type 0
IsJitter jitter = (x : ℕ) → jitter x ≤ x * second

-- The curve that the SQL computes is the one of internal/retry under DefaultConfig.
pub capped_seconds-eq-ceiling :
    (attempts : ℕ) → capped_seconds attempts ≡ ceiling default_config (pos attempts)
unfolding capped_seconds ceiling
capped_seconds-eq-ceiling attempts = refl
