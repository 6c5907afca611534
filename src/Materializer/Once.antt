-- ===== src/Materializer/Once.antt =====
-- Two passes over the same fire times, by one scheduler or by two.
use tick.Base.{ℕ, ◌≡◌, refl, true, List, [], ◌∷◌, arith, Text, All, map, subst}
use tick.Base.Rows.{All-find, find_self, find_another}
use tick.Domain.{Schedule, Task, ok}
use tick.Domain.Operations.{Clockwork, task_for}
use tick.Cron.{Robfig, Zone}
use tick.Database.{Db, Postgres}
use tick.Database.Checks.{has_key}
use tick.Store.{has_id}
use tick.Store.Table.{find-row}
use tick.Store.Rows.Identity.{IsSameTask}
use tick.Store.History.{run}
use tick.Store.History.Runs.{IsHistory}
use tick.Store.History.Valid.{IsValid}
use tick.Store.History.LifeCycle.{handouts-le-max_attempts}
use tick.Store.Bulk.Lands.{enqueue_bulk-lands}
use tick.Store.Bulk.Repeats.{Taken, Taken-key, Taken-find, HasKey, enqueue_bulk-Taken}
use tick.Materializer.{Trip, materialize}

has_key-same :
    (queue key : Text) (t u : Task)
    → IsSameTask t u
    → has_key queue key t ≡ true
    → has_key queue key u ≡ true
has_key-same queue key t u same h = ground arith

-- No key is ever given up: rows stay, and keep their queue and key.
pub Taken-IsHistory :
    (pg : Postgres) (db later : Db) (t : Task)
    → IsValid db
    → IsHistory pg db later
    → Taken db.tasks t
    → Taken later.tasks t
Taken-IsHistory pg db later t v (es, e) taken =
    let (key, u, k, found) = Taken-key t db.tasks taken in
    let q = has_key t.queue key in
    let here = All-find _ q db.tasks (find-row 0 db.next_task_id db.tasks v.ascending) found in
    let (u', found', same, limit) = handouts-le-max_attempts pg es db u.id u v here in
    let own = has_key-same t.queue key u u' same (find_self q db.tasks u found) in
    let (x, f) = find_another (has_id u.id) q (run pg es db).tasks u' found' own in
    subst (λ (d : Db). Taken d.tasks t) e (Taken-find t key (run pg es db).tasks x k f)

module _ {Location Spec : Type 0} (go : Clockwork Location) (cron : Robfig Spec)
    (zone : Location → Zone) (pg : Postgres) where
  tasks_for-HasKey : (s : Schedule) (ts : List ℕ) → All HasKey (map (task_for go s) ts)
  unfolding task_for
  tasks_for-HasKey s [] = tt
  tasks_for-HasKey s (t ∷ ts) = ((_, refl), tasks_for-HasKey s ts)

  All-Taken :
      (ts : List Task) (db later : Db)
      → IsValid db
      → IsHistory pg db later
      → All (Taken db.tasks) ts
      → All (Taken later.tasks) ts
  All-Taken [] db later v h taken = tt
  All-Taken (t ∷ ts) db later v h taken =
      (Taken-IsHistory pg db later t v h taken.0, All-Taken ts db later v h taken.1)

  -- Once one scheduler has materialized fire times of a schedule with success, no later pass over the
  -- same fire times inserts a task, whichever scheduler makes it, over whatever connections, and
  -- whatever other store operations came between: it leaves the tasks as they are.
  pub materialize_once :
      (trip trip' : Trip) (s : Schedule) (ts : List ℕ) (db after later : Db) (out : List Task)
      → materialize go cron zone pg trip s ts db ≡ (after, ok out)
      → IsValid after
      → IsHistory pg after later
      → (materialize go cron zone pg trip' s ts later).0.tasks ≡ later.tasks
  unfolding materialize
  materialize_once trip trip' s [] db after later out done v h = refl
  materialize_once trip trip' s (t ∷ ts) db after later out done v h =
      let batch = map (task_for go s) (t ∷ ts) in
      enqueue_bulk-Taken pg trip'.begin trip'.commit trip'.clock batch later (
        All-Taken batch after later v h (
          enqueue_bulk-lands pg trip.begin trip.commit trip.clock batch db after out
            (tasks_for-HasKey s (t ∷ ts)) done))
