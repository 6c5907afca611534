-- ===== src/Sweeper.antt =====
-- internal/sweeper/sweeper.go: one sweep, and the configuration of the loop around it.
pub mod Laws
pub mod Loop
pub mod Latency
use tick.Base.{ℕ, ◌*◌, ◌≡◌, ◌==◌, zero, suc, if◌then◌else◌, Bool, Option, none, some}
use tick.Base.Int.{ℤ, pos, negsuc}
use tick.Domain.{Result, ok, err, second}
use tick.Database.{Db, Link}
use tick.Store.Recover.{recover_orphans}

abbrev pub default_interval : ℕ
default_interval = 30 * second

-- `if interval <= 0`.
unfoldable pub interval_or_default : ℤ → ℕ
interval_or_default (pos zero) = default_interval
interval_or_default (pos (suc n)) = suc n
interval_or_default (negsuc n) = default_interval

-- What is reported to the metrics: nothing for an error or an empty sweep.
abbrev pub report : Result ℕ → Option ℕ
report (err e) = none
report (ok zero) = none
report (ok (suc n)) = some (suc n)

unfoldable pub sweep_once : Link → ℕ → Db → Db × Option ℕ
unfolding recover_orphans
sweep_once link now db =
    let (db', recovered) = recover_orphans link now db in (db', report recovered)
