-- ===== src/Store/QueueStats.antt =====
-- internal/store/postgres/queue_stats.go.
use tick.Base.{
  ℕ, ◌+◌, ◌-◌, ◌*◌, ◌≤◌, ◌≡◌, refl, Bool, true, ◌&&◌, Option, none, some, List, [], ◌∷◌, Text,
  arith, ◌=?◌, leb, ltb, length, select, if◌then◌else◌,
}
use tick.Domain.{
  Task, Status, Result, ok, pending, running, succeeded, failed, dead, cancelled, status_text,
  is_pending, second,
}
use tick.Database.{Db, Postgres, Link, exec}
use tick.Store.{read}

pub record QueueStats : Type 0 where
  pub queue : Text
  pub depth : Status → ℕ
  pub oldest_pending_age : ℕ
  pub completed_last_minute : ℕ
  pub completed_last_hour : ℕ
  pub completed_last_day : ℕ

-- `count(*) FILTER (WHERE …)`.
unfoldable pub count : (Task → Bool) → List Task → ℕ
count p ts = length (select p ts)

unfoldable pub has_status : Status → Task → Bool
has_status s t = status_text t.status =? status_text s

unfoldable pub overdue : ℕ → Task → Bool
overdue now t = is_pending t.status && leb t.run_at now

-- `status = 'succeeded' AND created_at >= now() - interval '…'`.
unfoldable pub completed_within : ℕ → ℕ → Task → Bool
unfolding has_status
completed_within now span t = has_status succeeded t && leb now (t.created_at + span)

-- `min(run_at)`, NULL of no rows.
unfoldable pub min_run_at : List Task → Option ℕ
min_run_at [] = none
min_run_at (t ∷ ts) = elim (min_run_at ts) [
  | none ↦ some t.run_at
  | some m ↦ some (if ltb t.run_at m then t.run_at else m)
]

-- The age, in the model's unit; a NULL age leaves the field 0.
abbrev pub age : ℕ → Option ℕ → ℕ
age now none = 0
age now (some oldest) = now - oldest

unfoldable pub stats : ℕ → Text → List Task → QueueStats
unfolding count has_status overdue completed_within min_run_at
stats now queue ts = record {
  queue = queue;
  depth = λ s. count (has_status s) ts;
  oldest_pending_age = age now (min_run_at (select (overdue now) ts));
  completed_last_minute = count (completed_within now (60 * second)) ts;
  completed_last_hour = count (completed_within now (3600 * second)) ts;
  completed_last_day = count (completed_within now (86400 * second)) ts;
}

unfoldable pub queue_stats : Postgres → Link → ℕ → Text → Db → Db × Result QueueStats
unfolding exec read stats
queue_stats pg link now queue db =
    exec link (pg.text_ok queue)
      (read (λ d. ok (stats now queue (select (λ t. t.queue =? queue) d.tasks)))) db

depth_sum :
    (ts : List Task)
    → count (has_status pending) ts
        + count (has_status running) ts
        + count (has_status succeeded) ts
        + count (has_status failed) ts
        + count (has_status dead) ts
        + count (has_status cancelled) ts
      ≡ length ts
unfolding count has_status select ◌=?◌
depth_sum [] = refl
depth_sum (t ∷ ts) = ground (arith, depth_sum ts)

count_mono :
    (p q : Task → Bool)
    → ((t : Task) → p t ≡ true → q t ≡ true)
    → (ts : List Task) → count p ts ≤ count q ts
unfolding count select
count_mono p q h [] = omega arith
count_mono p q h (t ∷ ts) = ground (arith, count_mono p q h ts, h t)

completed_mono :
    (now a b : ℕ) (t : Task)
    → a ≤ b
    → completed_within now a t ≡ true
    → completed_within now b t ≡ true
unfolding completed_within
completed_mono now a b t h e = ground arith

completed-succeeded :
    (now a : ℕ) (t : Task) → completed_within now a t ≡ true → has_status succeeded t ≡ true
unfolding completed_within
completed-succeeded now a t e = ground arith

-- The depths of a queue, over all six statuses, add up to its number of rows; no window counts more
-- than the succeeded rows, and a longer window counts no less than a shorter one.
pub stats_lem :
    (now : ℕ) (queue : Text) (ts : List Task)
    → let st = stats now queue ts in
      (st.depth pending
          + st.depth running
          + st.depth succeeded
          + st.depth failed
          + st.depth dead
          + st.depth cancelled
        ≡ length ts)
      × (st.completed_last_minute ≤ st.completed_last_hour)
      × (st.completed_last_hour ≤ st.completed_last_day)
      × (st.completed_last_day ≤ st.depth succeeded)
unfolding stats
stats_lem now queue ts = (
  depth_sum ts,
  count_mono _ _ (λ t. completed_mono now (60 * second) (3600 * second) t (omega arith)) ts,
  count_mono _ _ (λ t. completed_mono now (3600 * second) (86400 * second) t (omega arith)) ts,
  count_mono _ _ (λ t. completed-succeeded now (86400 * second) t) ts,
)
