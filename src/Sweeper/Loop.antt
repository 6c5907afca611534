-- ===== src/Sweeper/Loop.antt =====
-- internal/sweeper/sweeper.go: New and Run.
use tick.Base.{false, ℕ, ◌%◌, Bool, Option, List}
use tick.Base.Int.{ℤ}
use tick.Database.{Db, Link}
use tick.Ticker.{Started, if_positive, tick_loop}
use tick.Sweeper.{sweep_once, interval_or_default}

-- A tick of the sweeper: what other processes did to the database since the tick before, whether
-- the sweep's statement arrives, and the time.
pub record Tick : Type 0 where
  pub others : Db → Db
  pub link : Link
  pub now : ℕ

unfoldable pub sweep_at : Tick → Db → Db
unfolding sweep_once
sweep_at t db = (sweep_once t.link t.now (t.others db)).0

-- New, whose result is the interval.
abbrev pub new : ℤ → ℕ
new interval = interval_or_default interval

-- rand.Int64N of a positive interval; `draw` is the generator's.
unfoldable pub first_delay : ℕ → ℕ → ℕ
first_delay draw interval = draw % interval

-- Run: the wait for the first tick ends like every other.
unfoldable pub run : ℕ → List (Option Tick) → Db → Started (Db × Bool)
unfolding tick_loop sweep_at
run interval wakes db = if_positive interval (db, false) (tick_loop sweep_at wakes db)
