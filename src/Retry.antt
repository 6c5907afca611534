-- ===== src/Retry.antt =====
-- internal/retry/backoff.go: capped exponential backoff with full jitter.
--
-- Base and Cap are whole seconds. In the double precision of the source `2^attempts * Base` is exact
-- or so large that the cap is taken, as here.
pub mod Curve
use tick.Base.{ℕ, ◌*◌, ◌^◌, min}
use tick.Base.Int.{ℤ, pos, negsuc}

pub record Config : Type 0 where
  pub base : ℕ
  pub cap : ℕ

abbrev pub default_config : Config
default_config = record { base = 5; cap = 300 }

-- `if attempts < 0 { attempts = 0 }`.
abbrev pub clamp_attempts : ℤ → ℕ
clamp_attempts (pos n) = n
clamp_attempts (negsuc n) = 0

unfoldable pub ceiling : Config → ℤ → ℕ
ceiling c attempts = min c.cap (2 ^ clamp_attempts attempts * c.base)

-- `time.Duration(rand.Float64() * x * float64(time.Second))`: `draw x` is that duration for a ceiling
-- of x seconds, in nanoseconds.
abbrev pub Draw : Type 0
Draw = ℕ → ℕ

unfoldable pub backoff_with : Config → Draw → ℤ → ℕ
unfolding ceiling
backoff_with c draw attempts = draw (ceiling c attempts)

unfoldable pub backoff : Draw → ℤ → ℕ
unfolding backoff_with
backoff draw attempts = backoff_with default_config draw attempts
