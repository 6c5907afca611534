-- ===== src/Store/History/LifeCycle.antt =====
-- The life cycle of a task, over one operation and over whole histories.
use tick.Base.{
  ℕ, ◌+◌, ◌≤◌, ◌≡◌, Bool, true, false, not, ◌&&◌, some, none, List, [], ◌∷◌, arith, if◌then◌else◌,
}
use tick.Base.Rows.{All-find}
use tick.Domain.{Task, Status, pending, running, succeeded, dead, cancelled, terminal, is_running}
use tick.Database.{Db, Postgres}
use tick.Store.{row, has_id}
use tick.Store.Claim.{claimable, stamp}
use tick.Store.Finish.{succeed, retry_or_bury}
use tick.Store.Heartbeat.{beating, beat}
use tick.Store.Recover.{orphaned, reclaim}
use tick.Store.Cancel.{set_cancelled}
use tick.Store.Rows.{IsSoundRow}
use tick.Store.Rows.Identity.{
  IsSameTask, IsSameTask-refl, IsSameTask-trans, stamp-IsSameTask, succeed-IsSameTask,
  retry_or_bury-IsSameTask, beat-IsSameTask, reclaim-IsSameTask, set_cancelled-IsSameTask,
}
use tick.Store.History.{Event, perform, run}
use tick.Store.History.Valid.{IsValid, perform-IsValid, run-IsValid}
use tick.Store.History.Moves.{Moves, stays, starts, beats, succeeds, fails, reclaimed, cancels}
use tick.Store.History.Progress.{perform-Follows}

-- The edges of the state diagram that the comments on the status constants describe.
pub data Edge : Status → Status → Type 0 where
  idle : {s : Status} → Edge s s
  claim_edge : Edge pending running
  complete_edge : Edge running succeeded
  retry_edge : Edge running pending
  bury_edge : Edge running dead
  cancel_edge : Edge pending cancelled

ruleset edges = (idle, claim_edge, complete_edge, retry_edge, bury_edge, cancel_edge)

Moves-Edge : (t u : Task) → IsSoundRow t → Moves t u → Edge t.status u.status
unfolding claimable beating orphaned stamp beat succeed retry_or_bury reclaim set_cancelled
Moves-Edge t u s (stays e) = grind (arith, edges)
Moves-Edge t u s (starts queue worker_id now h e) = grind (arith, edges)
Moves-Edge t u s (beats worker_id ids now h e) = grind (arith, edges)
Moves-Edge t u s (succeeds worker_id h e) = grind (arith, edges)
Moves-Edge t u s (fails worker_id msg now jitter h e) = grind (arith, edges)
Moves-Edge t u s (reclaimed now h e) = grind (arith, edges)
Moves-Edge t u s (cancels h e) = grind (arith, edges)

Moves-IsSameTask : (t u : Task) → Moves t u → IsSameTask t u
Moves-IsSameTask t u (stays e) = rw e (IsSameTask-refl t)
Moves-IsSameTask t u (starts queue worker_id now h e) = rw e (stamp-IsSameTask worker_id now t)
Moves-IsSameTask t u (beats worker_id ids now h e) = rw e (beat-IsSameTask now t)
Moves-IsSameTask t u (succeeds worker_id h e) = rw e (succeed-IsSameTask t)
Moves-IsSameTask t u (fails worker_id msg now jitter h e) =
    rw e (retry_or_bury-IsSameTask now jitter msg t)
Moves-IsSameTask t u (reclaimed now h e) = rw e (reclaim-IsSameTask now t)
Moves-IsSameTask t u (cancels h e) = rw e (set_cancelled-IsSameTask t)

-- A terminal row makes no move.
Moves-terminal : (t u : Task) → IsSoundRow t → terminal t.status ≡ true → Moves t u → u ≡ t
unfolding terminal claimable beating orphaned
Moves-terminal t u s h (stays e) = e
Moves-terminal t u s h (starts queue worker_id now c e) = ground arith
Moves-terminal t u s h (beats worker_id ids now c e) = ground arith
Moves-terminal t u s h (succeeds worker_id c e) = ground arith
Moves-terminal t u s h (fails worker_id msg now jitter c e) = ground arith
Moves-terminal t u s h (reclaimed now c e) = ground arith
Moves-terminal t u s h (cancels c e) = ground arith

abbrev running_count : Task → ℕ
running_count t = if is_running t.status then 1 else 0

-- A move hands the task to a worker exactly when it counts an attempt.
Moves-attempts :
    (t u : Task)
    → IsSoundRow t
    → Moves t u
    → u.attempts ≡ t.attempts + (if is_running u.status && not (is_running t.status) then 1 else 0)
unfolding claimable beating orphaned stamp beat succeed retry_or_bury reclaim set_cancelled
Moves-attempts t u s (stays e) = ground arith
Moves-attempts t u s (starts queue worker_id now c e) = ground arith
Moves-attempts t u s (beats worker_id ids now c e) = ground arith
Moves-attempts t u s (succeeds worker_id c e) = ground arith
Moves-attempts t u s (fails worker_id msg now jitter c e) = ground arith
Moves-attempts t u s (reclaimed now c e) = ground arith
Moves-attempts t u s (cancels c e) = ground arith

-- How often a task was handed to a worker in a history: the operations after which its row is running
-- and before which it was not.
is_running_at : ℕ → Db → Bool
is_running_at i db = elim (row i db) [ none ↦ false | some t ↦ is_running t.status ]

handed : ℕ → Db → Db → ℕ
unfolding is_running_at
handed i db db' = if is_running_at i db' && not (is_running_at i db) then 1 else 0

pub handouts : Postgres → ℕ → List Event → Db → ℕ
handouts pg i [] db = 0
handouts pg i (e ∷ es) db =
    let db' = perform pg e.link e.now e.op db in handouts pg i es db' + handed i db db'

handed-row :
    (i : ℕ) (db db' : Db) (t u : Task)
    → row i db ≡ some t
    → row i db' ≡ some u
    → IsSoundRow t
    → Moves t u
    → u.attempts ≡ t.attempts + handed i db db'
unfolding handed
handed-row i db db' t u e e' s m = ground (arith, Moves-attempts t u s m)

pub row-IsSoundRow : (db : Db) (i : ℕ) (t : Task) → IsValid db → row i db ≡ some t → IsSoundRow t
row-IsSoundRow db i t v e = All-find IsSoundRow (has_id i) db.tasks v.rows e

-- A task that is in a valid database stays there through every history, keeps what was submitted,
-- and has been handed out as often as its attempts were counted.
history_of_row :
    (pg : Postgres) (es : List Event) (db : Db) (i : ℕ) (t : Task)
    → IsValid db
    → row i db ≡ some t
    → (u : Task) × (row i (run pg es db) ≡ some u)
      × IsSameTask t u
      × (u.attempts ≡ t.attempts + handouts pg i es db)
unfolding run handouts
history_of_row pg [] db i t v e = (t, e, IsSameTask-refl t, omega arith)
history_of_row pg (ev ∷ es) db i t v e =
    let (t', e', m) = perform-Follows pg ev.link ev.now ev.op db i t v e in
    let (u, f, same, counted) =
      history_of_row pg es (perform pg ev.link ev.now ev.op db) i t'
        (perform-IsValid pg ev.link ev.now ev.op db v) e' in
    (
      u,
      f,
      IsSameTask-trans t t' u (Moves-IsSameTask t t' m) same,
      omega (
        arith,
        counted,
        handed-row i db (perform pg ev.link ev.now ev.op db) t t' e e' (row-IsSoundRow db i t v e)
            m,
      ),
    )

-- However many workers, sweepers and servers act on a valid database, and whatever statements or
-- replies are lost: a task is never removed, what was submitted never changes, and the number of
-- times it is handed to a worker, together with the attempts it had, never exceeds max_attempts.
pub handouts-le-max_attempts :
    (pg : Postgres) (es : List Event) (db : Db) (i : ℕ) (t : Task)
    → IsValid db
    → row i db ≡ some t
    → (u : Task) × (row i (run pg es db) ≡ some u)
      × IsSameTask t u
      × (t.attempts + handouts pg i es db ≤ t.max_attempts)
handouts-le-max_attempts pg es db i t v e =
    let (u, f, same, counted) = history_of_row pg es db i t v e in
    let s = row-IsSoundRow (run pg es db) i u (run-IsValid pg es db v) f in
    (u, f, same, omega (arith, counted, s.counted, same.same_max))

-- A succeeded, dead or cancelled task is never written again: its row is the same after any history.
pub terminal_is_final :
    (pg : Postgres) (es : List Event) (db : Db) (i : ℕ) (t : Task)
    → IsValid db
    → row i db ≡ some t
    → terminal t.status ≡ true
    → row i (run pg es db) ≡ some t
unfolding run
terminal_is_final pg [] db i t v e h = e
terminal_is_final pg (ev ∷ es) db i t v e h =
    let (t', e', m) = perform-Follows pg ev.link ev.now ev.op db i t v e in
    let same = Moves-terminal t t' (row-IsSoundRow db i t v e) h m in
    terminal_is_final pg es (perform pg ev.link ev.now ev.op db) i t
      (perform-IsValid pg ev.link ev.now ev.op db v) (rw same at e') h

-- Every operation moves the status of every task along an edge of the state diagram, or leaves it.
pub perform-Edge :
    (pg : Postgres) (e : Event) (db : Db) (i : ℕ) (t : Task)
    → IsValid db
    → row i db ≡ some t
    → (u : Task) × (row i (perform pg e.link e.now e.op db) ≡ some u) × Edge t.status u.status
perform-Edge pg ev db i t v e =
    let (u, e', m) = perform-Follows pg ev.link ev.now ev.op db i t v e in
    (u, e', Moves-Edge t u (row-IsSoundRow db i t v e) m)
