-- ===== src/Base/Decimal.antt =====
-- The decimal print of a number.
use Prim.Native.Nat.{ℕ, zero, suc, ◌+◌, ◌%◌, ◌/◌, ◌≤◌, ◌<◌}
use mathlib.Core.Path.{◌≡◌, refl}
use mathlib.Core.Bool.{true, false}
use mathlib.Core.List.{[], ◌∷◌, ◌++◌}
use native.Mathlib.Omega.{arith}
use tick.Base.Tests.{Text, ltb, if◌then◌else◌}

-- `%d` of a number with as many digits at most as the fuel.
unfoldable pub decimal : ℕ → ℕ → Text
decimal zero n = []
decimal (suc f) n =
    let rest = decimal f (n / 10) in if ltb n 10 then (48 + n) ∷ [] else rest ++ (48 + n % 10) ∷ []

pub decimal-digit : (f n : ℕ) → n < 10 → decimal (suc f) n ≡ (48 + n) ∷ []
unfolding decimal
decimal-digit f n h = let t : ltb n 10 ≡ true = ground arith in rw t refl

pub decimal-digits :
    (f n : ℕ) → 10 ≤ n → decimal (suc f) n ≡ decimal f (n / 10) ++ (48 + n % 10) ∷ []
unfolding decimal
decimal-digits f n h = let t : ltb n 10 ≡ false = ground arith in rw t refl
