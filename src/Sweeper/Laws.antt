-- ===== src/Sweeper/Laws.antt =====
-- What one sweep does.
use tick.Base.{ℕ, ◌≡◌, refl, some, length, select, zero, suc, if◌then◌else◌, ◌==◌, arith, none}
use tick.Domain.{ok}
use tick.Database.{Db, Postgres, Link, up, exec}
use tick.Store.{write}
use tick.Store.Recover.{recover_orphans, orphaned}
use tick.Store.History.{perform, recovers}
use tick.Store.History.Runs.{IsHistory, IsHistory-one}
use tick.Sweeper.{sweep_once, report}

report_count : (n : ℕ) → report (ok n) ≡ (if n == 0 then none else some n)
report_count zero = refl
report_count (suc n) = ground arith

-- A sweep does to the database what a history of store operations does, whatever becomes of its
-- statement; when it is answered, the number of tasks reported to the metrics is that of the rows
-- whose owner had fallen silent, if there are any.
pub sweep_once_lem :
    (pg : Postgres) (link : Link) (now : ℕ) (db : Db)
    → IsHistory pg db (sweep_once link now db).0
      × ((sweep_once up now db).1
          ≡ (let n = length (select (orphaned now) db.tasks) in if n == 0 then none else some n))
unfolding sweep_once recover_orphans exec write perform
sweep_once_lem pg link now db = (
  IsHistory-one pg record { link = link; now = now; op = recovers } db,
  report_count (length (select (orphaned now) db.tasks)),
)
