-- ===== src/Commands/Starts.antt =====
-- What the processes that start can rely on.
use tick.Base.{ℕ, zero, suc, ◌+◌, ◌≤◌, ◌<◌, ◌≡◌, refl, ◌∙◌, sym, ap, subst, arith, Text, length}
use tick.Base.Int.{pos}
use tick.Config.{Config, GoText, Sorter, Lookup}
use tick.Config.Load.{Loaded, loaded, invalid_config, load}
use tick.Config.Laws.{loaded-IsUsable}
use tick.Store.Pool.{Opened, opened, refused_url, no_pool, closed}
use tick.Sweeper.{interval_or_default}
use tick.Database.{Db, Postgres}
use tick.Store.History.Valid.{IsValid}
use tick.Materializer.Loop.{duration_or}
use tick.Worker.{Registry, Format}
use tick.Worker.Run.{State, Reach}
use tick.Worker.Run.Capacity.{run_within_capacity, promised}
use tick.Commands.{
  process, connected, configured, start, microseconds, WorkerProcess, worker_process,
  SchedulerProcess, scheduler_process,
}

-- A process that starts is built from a configuration that Load returns.
start-loaded :
    {P : Type 0} (go : GoText) (sorter : Sorter) (open_store : Text → Opened) (build : Config → P)
    (env : Lookup) (p : P)
    → start go sorter open_store build env ≡ process p
    → (cfg : Config) × (load go sorter env ≡ loaded cfg) × (build cfg ≡ p)
unfolding start
start-loaded {P} go sorter open_store build env p e = by_load (load go sorter env) refl e
  where
    by_store : (cfg : Config) (o : Opened) → connected o (build cfg) ≡ process p → build cfg ≡ p
    by_store cfg opened h = cc h
    by_store cfg refused_url h = absurd (cc)
    by_store cfg no_pool h = absurd (cc)
    by_store cfg (closed ping) h = absurd (cc)

    by_load :
        (l : Loaded)
        → load go sorter env ≡ l
        → configured build open_store l ≡ process p
        → (cfg : Config) × (load go sorter env ≡ loaded cfg) × (build cfg ≡ p)
    by_load (invalid_config fields) h k = absurd (cc)
    by_load (loaded cfg) h k = (cfg, h, by_store cfg (open_store cfg.database_url) k)

microseconds-pos : (n : ℕ) → 0 < n → 0 < microseconds n
unfolding microseconds
microseconds-pos n h = omega arith

interval_kept : (n : ℕ) → 0 < n → interval_or_default (pos n) ≡ n
unfolding interval_or_default
interval_kept zero h = absurd (omega arith)
interval_kept (suc n) h = refl

duration_kept : (def n : ℕ) → 0 < n → duration_or def (pos n) ≡ n
duration_kept def zero h = absurd (omega arith)
duration_kept def (suc n) h = refl

-- A worker that starts, from whatever environment, has a heartbeat interval, a task timeout and a
-- grace period that are positive, so that no ticker panics, and on a valid database it never holds
-- more tasks than the concurrency of its configuration, nor more than 1000, and never asks for more.
pub started_worker_lem :
    {Handler : Type 0} (pg : Postgres) (fmt : Format) (registry : Registry Handler)
    (worker_id : Text) (go : GoText) (sorter : Sorter) (open_store : Text → Opened) (env : Lookup)
    (w : WorkerProcess) (db : Db) {x : Db × State}
    → start go sorter open_store worker_process env ≡ process w
    → IsValid db
    → Reach pg fmt registry w.cfg worker_id db x
    → (0 < w.heartbeat_interval)
      × (0 < w.task_timeout)
      × (0 < w.shutdown_grace)
      × (length x.1.dispatching + x.1.leaving + promised x.1.phase ≤ w.cfg.concurrency)
      × (w.cfg.concurrency ≤ 1000)
started_worker_lem pg fmt registry worker_id go sorter open_store env w db {x} e v r =
    let (cfg, l, same) = start-loaded go sorter open_store worker_process env w e in
    let usable = loaded-IsUsable go sorter env cfg l in
    let within = run_within_capacity pg fmt registry w.cfg worker_id db v r in
    let small = usable.slots.1 in
    (
      subst (λ (q : WorkerProcess). 0 < q.heartbeat_interval) same
          (microseconds-pos cfg.heartbeat_interval usable.beats.0),
      subst (λ (q : WorkerProcess). 0 < q.task_timeout) same
          (microseconds-pos cfg.task_timeout usable.limits.0),
      subst (λ (q : WorkerProcess). 0 < q.shutdown_grace) same
          (microseconds-pos cfg.shutdown_grace usable.limits.1),
      within,
      subst (λ (q : WorkerProcess). q.cfg.concurrency ≤ 1000) same small,
    )

-- A scheduler that starts sweeps and materializes at exactly the intervals and with the horizon of
-- its configuration, rounded up to microseconds, all positive: no default of New takes their place,
-- and neither a ticker nor the draw of the first delay panics.
pub started_scheduler_lem :
    (go : GoText) (sorter : Sorter) (open_store : Text → Opened) (env : Lookup)
    (s : SchedulerProcess)
    → start go sorter open_store scheduler_process env ≡ process s
    → (cfg : Config) × (load go sorter env ≡ loaded cfg)
      × (s.sweep_interval ≡ microseconds cfg.sweep_interval)
      × (s.runner.interval ≡ microseconds cfg.materializer_interval)
      × (s.runner.horizon ≡ microseconds cfg.materializer_horizon)
      × (0 < s.sweep_interval)
      × (0 < s.runner.interval)
      × (0 < s.runner.horizon)
started_scheduler_lem go sorter open_store env s e =
    let (cfg, l, same) = start-loaded go sorter open_store scheduler_process env s e in
    let usable = loaded-IsUsable go sorter env cfg l in
    let sweeps = microseconds-pos cfg.sweep_interval usable.sweeps in
    let turns = microseconds-pos cfg.materializer_interval usable.materializes.0 in
    let ahead = microseconds-pos cfg.materializer_horizon usable.materializes.1 in
    let a = ap (λ (q : SchedulerProcess). q.sweep_interval) (sym same) ∙ interval_kept _ sweeps in
    let b = ap (λ (q : SchedulerProcess). q.runner.interval) (sym same) ∙ duration_kept _ _ turns in
    let c = ap (λ (q : SchedulerProcess). q.runner.horizon) (sym same) ∙ duration_kept _ _ ahead in
    (cfg, l, a, b, c, rw a sweeps, rw b turns, rw c ahead)
