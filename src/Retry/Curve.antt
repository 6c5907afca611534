-- ===== src/Retry/Curve.antt =====
-- The shape of the backoff curve of internal/retry.
use tick.Base.{ℕ, ◌*◌, ◌≤◌, arith}
use tick.Base.Int.{ℤ, pos, negsuc, ◌≤ℤ◌}
use tick.Retry.{Config, ceiling, clamp_attempts, Draw, backoff_with}
use native.Mathlib.Nat.{pow-le-pow_right, mul-le-mul_right}

clamp_attempts_mono : (m n : ℤ) → m ≤ℤ n → clamp_attempts m ≤ clamp_attempts n
clamp_attempts_mono (pos m) (pos n) h = omega arith
clamp_attempts_mono (pos m) (negsuc n) h = omega arith
clamp_attempts_mono (negsuc m) n h = omega arith

-- The curve never falls as attempts grow, never exceeds the cap, and the drawn delay never exceeds
-- the curve's value, for every draw within [0, ceiling].
pub backoff_bounds :
    (c : Config) (draw : Draw) (m n : ℤ)
    → m ≤ℤ n
    → ((x : ℕ) → draw x ≤ x * 1000000000)
    → (ceiling c m ≤ ceiling c n)
      × (ceiling c n ≤ c.cap)
      × (backoff_with c draw n ≤ c.cap * 1000000000)
unfolding ceiling backoff_with
backoff_bounds c draw m n h bounded =
    let grows =
      mul-le-mul_right c.base
        (pow-le-pow_right {n = 2} (omega arith) (clamp_attempts_mono m n h)) in
    (omega arith, omega arith, omega (arith, bounded (ceiling c n)))
