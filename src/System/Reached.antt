-- ===== src/System/Reached.antt =====
-- What holds in every world that the system reaches.
use tick.Base.{◌+◌, ◌≤◌, ◌≡◌, refl, subst, sym, List, [], ◌∷◌, ◌++◌, All, arith, length}
use tick.Base.Rows.{All-append, All-map}
use tick.Store.History.Runs.{IsHistory, IsHistory-trans, IsHistory-refl}
use tick.Store.History.Valid.{IsValid, run-IsValid}
use tick.Materializer.Pass.{run_once-IsHistory}
use tick.Worker.Run.Capacity.{Counts, Step-Counts, promised}
use tick.Worker.Run.Database.{Step-IsHistory}
use tick.System.{
  Node, World, Setting, Step, Reach, here, later, post_task, post_tasks, post_schedule,
  patch_schedule, delete_task, sweep, pass, boot, crash, work,
}
use tick.System.Requests.{
  submit_task-IsHistory, submit_tasks_bulk-IsHistory, submit_schedule-IsHistory,
  cancel_task-IsHistory, update_schedule-IsHistory,
}
use tick.Sweeper.Laws.{sweep_once_lem}

-- Every worker of the world has its counters in order.
abbrev AllCount : List Node → Type 0
AllCount nodes = All (λ n. Counts n.cfg.concurrency n.state) nodes

AllCount-split :
    (before after : List Node) (n : Node)
    → AllCount (before ++ n ∷ after)
    → AllCount before × Counts n.cfg.concurrency n.state × AllCount after
AllCount-split [] after n h = (tt, h.0, h.1)
AllCount-split (b ∷ before) after n h =
    let (front, own, rest) = AllCount-split before after n h.1 in ((h.0, front), own, rest)

module _ {Location Spec Handler : Type 0} (env : Setting Location Spec Handler) where
  Step-IsHistory_of : {x y : World} → Step env x y → IsHistory env.pg x.db y.db
  Step-IsHistory_of (post_task {w} link link' now header sub) =
      submit_task-IsHistory env.pg link link' now env.rfc3339 header sub w.db
  Step-IsHistory_of (post_tasks {w} link commit now start subs) =
      submit_tasks_bulk-IsHistory env.pg link commit now start env.rfc3339 subs w.db
  Step-IsHistory_of (post_schedule {w} link now sub) =
      submit_schedule-IsHistory env.pg env.go env.cron env.cron_error link now sub w.db
  Step-IsHistory_of (patch_schedule {w} link raw enabled) =
      update_schedule-IsHistory env.pg env.parse_int link raw enabled w.db
  Step-IsHistory_of (delete_task {w} link link' raw) =
      cancel_task-IsHistory env.pg env.parse_int link link' raw w.db
  Step-IsHistory_of (sweep {w} link now) = (sweep_once_lem env.pg link now w.db).0
  Step-IsHistory_of (pass {w} {after} link trips fuel now horizon e) =
      run_once-IsHistory env.go env.cron env.zone env.pg link trips fuel now horizon w.db after e
  Step-IsHistory_of (work before after n state' e st) =
      Step-IsHistory env.pg env.fmt env.registry n.cfg n.worker_id st
  Step-IsHistory_of {x} _ = IsHistory-refl env.pg x.db

  -- Whatever the processes of a system do, in whatever order, and whichever of them are killed, is one
  -- history of store operations on the database that it started with.
  pub system-IsHistory : {w x : World} → Reach env w x → IsHistory env.pg w.db x.db
  system-IsHistory {w} here = IsHistory-refl env.pg w.db
  system-IsHistory {w} (later {x} {y} r st) =
      IsHistory-trans env.pg w.db x.db y.db (system-IsHistory r) (Step-IsHistory_of st)

  pub Reach-IsValid : {w x : World} → IsValid w.db → Reach env w x → IsValid x.db
  Reach-IsValid {w} v r =
      let (es, e) = system-IsHistory r in subst IsValid e (run-IsValid env.pg es w.db v)

  Step-AllCount : {x y : World} → Step env x y → IsValid x.db → AllCount x.nodes → AllCount y.nodes
  Step-AllCount (boot worker_id cfg) v h =
      (record { slots = refl; group = refl; room = omega arith }, h)
  Step-AllCount (crash before after n e) v h =
      let (front, own, rest) = AllCount-split before after n (subst AllCount e h) in
      All-append _ before after front rest
  Step-AllCount (work before after n state' e st) v h =
      let (front, own, rest) = AllCount-split before after n (subst AllCount e h) in
      All-append _ before (record n { state = state' } ∷ after) front
        (Step-Counts env.pg env.fmt env.registry n.cfg n.worker_id st v own, rest)
  Step-AllCount _ v h = h

  -- In a system that starts without workers on a valid database, every worker holds at most as many
  -- tasks as its concurrency, those that it dispatches, has claimed, or has asked for, whatever the
  -- other processes do.
  pub workers_within_capacity :
      {w x : World}
      → IsValid w.db
      → w.nodes ≡ []
      → Reach env w x
      → All
          (λ n.
            length n.state.dispatching + n.state.leaving + promised n.state.phase
            ≤ n.cfg.concurrency)
          x.nodes
  workers_within_capacity {w} {x} v none r =
      All-map _ x.nodes (λ n c. omega (arith, c.slots, c.room)) (counts r)
    where
      counts : {y : World} → Reach env w y → AllCount y.nodes
      counts here = subst AllCount (sym none) tt
      counts (later q st) = Step-AllCount st (Reach-IsValid v q) (counts q)
