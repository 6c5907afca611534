-- ===== src/Materializer/Pass.antt =====
-- A pass of the materializer, as store operations.
use tick.Base.{ℕ, ◌≡◌, refl, some, List, [], ◌∷◌, map, inl, inr, subst, Option-cases}
use tick.Domain.{Schedule, Task, Result, ok, err}
use tick.Domain.Operations.{Clockwork, task_for}
use tick.Cron.{Robfig, Zone}
use tick.Database.{Db, Postgres, Link, up, down, lost, exec}
use tick.Store.{read}
use tick.Store.Schedules.{list_enabled_schedules, advance_last_materialized_at}
use tick.Store.History.{run, perform, enqueues_bulk, advances}
use tick.Store.History.Runs.{IsHistory, IsHistory-trans, IsHistory-one, IsHistory-same}
use tick.Materializer.{
  Trip, plan, materialize, materialize_plan, advance_after, last_of, materialize_one,
  materialize_each, run_listed, run_once,
}

module _ {Location Spec : Type 0} (go : Clockwork Location) (cron : Robfig Spec)
    (zone : Location → Zone) (pg : Postgres) where
  advance_after-IsHistory :
      (trip : Trip) (s : Schedule) (last : ℕ) (before : Db) (answer : Db × Result (List Task))
      → IsHistory pg before answer.0
      → IsHistory pg before (advance_after go cron zone trip s last answer).0
  unfolding advance_after
  advance_after-IsHistory trip s last before (db, err e) h = h
  advance_after-IsHistory trip s last before (db, ok ts) h =
      IsHistory-trans pg before db (advance_last_materialized_at trip.advance s.id last db).0 h (
        unfold perform in
        IsHistory-one pg record { link = trip.advance; now = trip.clock; op = advances s.id last }
          db)

  materialize_plan-IsHistory :
      (trip : Trip) (s : Schedule) (db : Db) (planned : Result (List ℕ))
      → IsHistory pg db (materialize_plan go cron zone pg trip s db planned).0
  unfolding materialize_plan materialize
  materialize_plan-IsHistory trip s db (err e) = ([], unfold run in refl)
  materialize_plan-IsHistory trip s db (ok []) = ([], unfold run in refl)
  materialize_plan-IsHistory trip s db (ok (t ∷ ts)) =
      advance_after-IsHistory trip s (last_of t ts) db
        (materialize go cron zone pg trip s (t ∷ ts) db)
        (unfold perform in
          IsHistory-one pg
            record {
              link = trip.begin;
              now = trip.clock;
              op = enqueues_bulk trip.commit (map (task_for go s) (t ∷ ts));
            }
            db)

  materialize_each-IsHistory :
      (trips : ℕ → Trip) (fuel now horizon : ℕ) (ss : List Schedule) (db after : Db)
      → materialize_each go cron zone pg trips fuel now horizon ss db ≡ some after
      → IsHistory pg db after
  unfolding materialize_each
  materialize_each-IsHistory trips fuel now horizon [] db after e =
      IsHistory-same pg db after (cc e)
  materialize_each-IsHistory trips fuel now horizon (s ∷ ss) db after e =
      elim (Option-cases (plan go cron zone fuel s now horizon)) [
        | inl out_of_fuel ↦ absurd (cc (rw (out_of_fuel, materialize_each, materialize_one) at e))
        | inr (planned, p) ↦
            let db' = (materialize_plan go cron zone pg (trips s.id) s db planned).0 in
            IsHistory-trans pg db db' after (materialize_plan-IsHistory (trips s.id) s db planned) (
              materialize_each-IsHistory trips fuel now horizon ss db' after
                (rw (p, materialize_each, materialize_one) at e))
      ]

  list_enabled-keeps : (link : Link) (db : Db) → (list_enabled_schedules link db).0 ≡ db
  unfolding list_enabled_schedules exec read
  list_enabled-keeps up db = refl
  list_enabled-keeps down db = refl
  list_enabled-keeps lost db = refl

  run_listed-IsHistory :
      (trips : ℕ → Trip) (fuel now horizon : ℕ) (answer : Db × Result (List Schedule))
      (db after : Db)
      → answer.0 ≡ db
      → run_listed go cron zone pg trips fuel now horizon answer ≡ some after
      → IsHistory pg db after
  unfolding run_listed
  run_listed-IsHistory trips fuel now horizon (d, err x) db after h e =
      IsHistory-same pg db after (cc (h, e))
  run_listed-IsHistory trips fuel now horizon (d, ok ss) db after h e =
      materialize_each-IsHistory trips fuel now horizon ss db after
        (subst (λ x. materialize_each go cron zone pg trips fuel now horizon ss x ≡ some after) h e)

  -- Whatever the plans, the connections and the answers, a pass over the enabled schedules does to the
  -- database what some history of store operations does.
  pub run_once-IsHistory :
      (link : Link) (trips : ℕ → Trip) (fuel now horizon : ℕ) (db after : Db)
      → run_once go cron zone pg link trips fuel now horizon db ≡ some after
      → IsHistory pg db after
  unfolding run_once
  run_once-IsHistory link trips fuel now horizon db after e =
      run_listed-IsHistory trips fuel now horizon (list_enabled_schedules link db) db after
        (list_enabled-keeps link db) e
