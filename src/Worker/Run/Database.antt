-- ===== src/Worker/Run/Database.antt =====
-- What a run of a worker does to the database.
use tick.Base.{ℕ, ◌≡◌, ap, List, Text, subst, Bool, some}
use tick.Domain.{Task, Result}
use tick.Database.{Db, Postgres, Link}
use tick.Store.Claim.{claim}
use tick.Store.History.{perform, claims, fails}
use tick.Store.History.Runs.{IsHistory, IsHistory-trans, IsHistory-one, IsHistory-refl}
use tick.Worker.{Registry, Format, shutdown_message}
use tick.Worker.Laws.{dispatch-IsHistory, heartbeat_once-IsHistory}
use tick.Worker.Run.{
  Config, State, Step, Reach, elsewhere, receive, claim_failed, end_dispatch, send_beats,
  stop_claiming, release, started, later,
}

module _ {Handler : Type 0} (pg : Postgres) (fmt : Format) (registry : Registry Handler)
    (cfg : Config) (worker_id : Text) where
  claim-IsHistory :
      (r : Result (List Task)) (db db' : Db) (locked : ℕ → Bool) (now limit : ℕ) (link : Link)
      → claim pg locked now cfg.queue worker_id limit link db ≡ (db', r)
      → IsHistory pg db db'
  claim-IsHistory r db db' locked now limit link e =
      unfold perform in
      subst (IsHistory pg db) (ap (λ (m : Db × Result (List Task)). m.0) e) (
        IsHistory-one pg
          record { link = link; now = now; op = claims locked cfg.queue worker_id limit } db)

  pub Step-IsHistory :
      {x y : Db × State} → Step pg fmt registry cfg worker_id x y → IsHistory pg x.0 y.0
  Step-IsHistory (elsewhere h) = h
  Step-IsHistory (receive limit tasks locked now link _ e) =
      claim-IsHistory _ _ _ locked now limit link e
  Step-IsHistory (claim_failed limit e locked now link _ h) =
      claim-IsHistory _ _ _ locked now limit link h
  Step-IsHistory (stop_claiming limit e locked now link _ h) =
      claim-IsHistory _ _ _ locked now limit link h
  Step-IsHistory (end_dispatch {db} t _ _ call link now jitter _) =
      dispatch-IsHistory pg fmt call registry link now jitter (λ d. d) worker_id t db
        (IsHistory-refl pg db)
  Step-IsHistory (send_beats {db} {s} link links held_now now _) =
      heartbeat_once-IsHistory pg link links held_now now s.in_flight worker_id db
  Step-IsHistory (release {db} i ids link now jitter _) =
      unfold perform in
      IsHistory-one pg
        record { link = link; now = now; op = fails jitter i worker_id (some shutdown_message) } db
  Step-IsHistory {x} _ = IsHistory-refl pg x.0

  -- Whatever a call of Run has done so far, its claims, dispatches, heartbeats and releases and all
  -- that other processes did in between make one history of store operations on the database that it
  -- found.
  pub run-IsHistory :
      (db : Db) {x : Db × State} → Reach pg fmt registry cfg worker_id db x → IsHistory pg db x.0
  run-IsHistory db started = IsHistory-refl pg db
  run-IsHistory db (later {x} {y} r st) =
      IsHistory-trans pg db x.0 y.0 (run-IsHistory db r) (Step-IsHistory st)
