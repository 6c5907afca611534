-- ===== src/Materializer/Loop.antt =====
-- internal/materializer/run.go: New and Run.
use tick.Base.{false, ℕ, ◌*◌, zero, suc, Bool, Option, none, some, List}
use tick.Base.Int.{ℤ, pos, negsuc}
use tick.Domain.{second}
use tick.Domain.Operations.{Clockwork}
use tick.Cron.{Robfig, Zone}
use tick.Database.{Db, Postgres, Link}
use tick.Ticker.{Started, if_positive, tick_loop}
use tick.Materializer.{Trip, run_once}

abbrev pub default_interval : ℕ
default_interval = 30 * second

abbrev pub default_horizon : ℕ
default_horizon = 5 * 60 * second

-- Runner, but its store and its log.
pub record Runner : Type 0 where
  pub horizon : ℕ
  pub interval : ℕ

-- `if d <= 0`.
abbrev pub duration_or : ℕ → ℤ → ℕ
duration_or def (pos zero) = def
duration_or def (pos (suc n)) = suc n
duration_or def (negsuc n) = def

abbrev pub new : ℤ → ℤ → Runner
new horizon interval = record {
  horizon = duration_or default_horizon horizon;
  interval = duration_or default_interval interval;
}

-- What a pass meets: the other processes' work since the pass before, the connections, the fuel for
-- NextN, and the node's clock.
pub record Turn : Type 0 where
  pub others : Db → Db
  pub link : Link
  pub trips : ℕ → Trip
  pub fuel : ℕ
  pub now : ℕ

module _ {Location Spec : Type 0} (go : Clockwork Location) (cron : Robfig Spec)
    (zone : Location → Zone) (pg : Postgres) where
  -- `none` is a pass before this one that was out of fuel.
  unfoldable pub pass_at : ℕ → Turn → Option Db → Option Db
  unfolding run_once
  pass_at horizon t none = none
  pass_at horizon t (some db) =
      run_once go cron zone pg t.link t.trips t.fuel t.now horizon (t.others db)

  -- Run: one pass at once, then one at each tick.
  unfoldable pub run : Runner → Turn → List (Option Turn) → Db → Started (Option Db × Bool)
  unfolding pass_at tick_loop
  run r first wakes db =
      let passed = pass_at r.horizon first (some db) in
      if_positive r.interval (passed, false) (tick_loop (pass_at r.horizon) wakes passed)
