-- ===== src/Materializer.antt =====
-- internal/materializer: schedules become tasks (plan.go, materialize.go, run.go).
--
-- `cron`, `zone` and `go` stand for the cron parser, the zones and the Go library. `none` is the loop
-- of NextN out of fuel.
pub mod Plans
pub mod Pass
pub mod Once
pub mod Loop
use tick.Base.{ℕ, ◌+◌, ◌≡◌, Bool, Option, none, some, List, [], ◌∷◌, map, Text, ltb, if◌then◌else◌}
use tick.Domain.{Schedule, Task, Result, ok, err}
use tick.Domain.Operations.{Clockwork, location, task_for}
use tick.Cron.{Robfig, Zone, parse, next_n}
use tick.Database.{Db, Postgres, Link}
use tick.Store.Bulk.{enqueue_bulk}
use tick.Store.Schedules.{list_enabled_schedules, advance_last_materialized_at}

abbrev pub max_planned_fire_times : ℕ
max_planned_fire_times = 10000

-- The loop that stops at the first candidate after `until`.
unfoldable pub up_to : ℕ → List ℕ → List ℕ
up_to until [] = []
up_to until (c ∷ cs) = let rest = up_to until cs in if ltb until c then [] else c ∷ rest

abbrev pub start : ℕ → Option ℕ → ℕ
start now none = now
start now (some last) = last

abbrev pub last_of : ℕ → List ℕ → ℕ
last_of t [] = t
last_of t (u ∷ us) = last_of u us

-- The connections and the database's clock that a pass over one schedule meets.
pub record Trip : Type 0 where
  pub begin : Link
  pub commit : Link
  pub advance : Link
  pub clock : ℕ

module _ {Location Spec : Type 0} (go : Clockwork Location) (cron : Robfig Spec)
    (zone : Location → Zone) where
  unfoldable pub plan_in : ℕ → Schedule → ℕ → ℕ → Location → Result Spec → Option (Result (List ℕ))
  unfolding next_n up_to
  plan_in fuel s now horizon loc (err e) = some (err e)
  plan_in fuel s now horizon loc (ok spec) =
      elim (next_n cron (zone loc) spec fuel (start now s.last_materialized_at)
        max_planned_fire_times) [
          | none ↦ none
          | some candidates ↦ some (ok (up_to (now + horizon) candidates))
        ]

  unfoldable pub plan_at : ℕ → Schedule → ℕ → ℕ → Result Location → Option (Result (List ℕ))
  unfolding parse plan_in
  plan_at fuel s now horizon (err e) = some (err e)
  plan_at fuel s now horizon (ok loc) = plan_in fuel s now horizon loc (parse cron s.cron)

  unfoldable pub plan : ℕ → Schedule → ℕ → ℕ → Option (Result (List ℕ))
  unfolding location plan_at
  plan fuel s now horizon = plan_at fuel s now horizon (location go s)

  unfoldable pub materialize : Postgres → Trip → Schedule → List ℕ → Db → Db × Result (List Task)
  unfolding task_for enqueue_bulk
  materialize pg trip s [] db = (db, ok [])
  materialize pg trip s (t ∷ ts) db =
      enqueue_bulk pg trip.begin trip.commit trip.clock (map (task_for go s) (t ∷ ts)) db

  unfoldable pub advance_after :
      Trip → Schedule → ℕ → Db × Result (List Task) → Db × Result (Unit {0})
  unfolding advance_last_materialized_at
  advance_after trip s last (db, err e) = (db, err e)
  advance_after trip s last (db, ok ts) = advance_last_materialized_at trip.advance s.id last db

  unfoldable pub materialize_plan :
      Postgres → Trip → Schedule → Db → Result (List ℕ) → Db × Result (Unit {0})
  unfolding materialize
  materialize_plan pg trip s db (err e) = (db, err e)
  materialize_plan pg trip s db (ok []) = (db, ok tt)
  materialize_plan pg trip s db (ok (t ∷ ts)) =
      advance_after trip s (last_of t ts) (materialize pg trip s (t ∷ ts) db)

  unfoldable pub materialize_one :
      Postgres → Trip → ℕ → ℕ → ℕ → Schedule → Db → Option (Db × Result (Unit {0}))
  unfolding plan materialize_plan
  materialize_one pg trip fuel now horizon s db = elim (plan fuel s now horizon) [
    | none ↦ none
    | some planned ↦ some (materialize_plan pg trip s db planned)
  ]

  -- The loop of RunOnce goes on after an error, which it only logs.
  unfoldable pub materialize_each :
      Postgres → (ℕ → Trip) → ℕ → ℕ → ℕ → List Schedule → Db → Option Db
  unfolding materialize_one
  materialize_each pg trips fuel now horizon [] db = some db
  materialize_each pg trips fuel now horizon (s ∷ ss) db =
      elim (materialize_one pg (trips s.id) fuel now horizon s db) [
        | none ↦ none
        | some (db', answer) ↦ materialize_each pg trips fuel now horizon ss db'
      ]

  unfoldable pub run_listed :
      Postgres → (ℕ → Trip) → ℕ → ℕ → ℕ → Db × Result (List Schedule) → Option Db
  unfolding materialize_each
  run_listed pg trips fuel now horizon (db, err e) = some db
  run_listed pg trips fuel now horizon (db, ok schedules) =
      materialize_each pg trips fuel now horizon schedules db

  unfoldable pub run_once : Postgres → Link → (ℕ → Trip) → ℕ → ℕ → ℕ → Db → Option Db
  unfolding list_enabled_schedules run_listed
  run_once pg link trips fuel now horizon db =
      run_listed pg trips fuel now horizon (list_enabled_schedules link db)
