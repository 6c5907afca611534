-- ===== src/Store/Claim.antt =====
-- internal/store/postgres/claim.go.
pub mod Laws
pub mod Exclusive
pub mod Choice
pub mod Returned
use tick.Base.{
  ℕ, ◌+◌, ◌≡◌, Bool, true, false, not, ◌&&◌, ◌||◌, some, List, [], ◌∷◌, map, Text, ◌==◌, ◌=?◌, leb,
  take, select, update,
}
use tick.Domain.{Task, is_pending, running, Result, ok}
use tick.Database.{Db, Postgres, Link, exec}

unfoldable pub contains : List ℕ → ℕ → Bool
contains [] i = false
contains (j ∷ js) i = i == j || contains js i

-- `queue = $2 AND status = 'pending' AND run_at <= now()`.
unfoldable pub claimable : Text → ℕ → Task → Bool
claimable queue now t = t.queue =? queue && is_pending t.status && leb t.run_at now

-- The SET clause.
unfoldable pub stamp : Text → ℕ → Task → Task
stamp worker_id now t = record t {
  status = running;
  claimed_by = some worker_id;
  heartbeat_at = some now;
  attempts = t.attempts + 1;
}

module _ (pg : Postgres) (locked : ℕ → Bool) (now : ℕ) (queue worker_id : Text) (limit : ℕ) where
  -- The subquery. The ordered rows are locked one after another; a row that another transaction has
  -- locked is skipped, and the scan ends at the limit.
  unfoldable pub chosen : Db → List Task
  unfolding claimable
  chosen db =
      take limit
        (select (λ t. not (locked t.id)) (pg.order_by (select (claimable queue now) db.tasks)))

  unfoldable pub chosen_ids : Db → List ℕ
  unfolding chosen
  chosen_ids db = map (λ t. t.id) (chosen db)

  -- `WHERE id IN (…)`.
  unfoldable pub is_chosen : Db → Task → Bool
  unfolding chosen_ids contains
  is_chosen db t = contains (chosen_ids db) t.id

  -- The UPDATE, and the outer SELECT that orders the rows that it returns.
  unfoldable pub claim_statement : Db → Db × Result (List Task)
  unfolding is_chosen stamp
  claim_statement db =
      let after = update (is_chosen db) (stamp worker_id now) db.tasks in
      (record db { tasks = after }, ok (pg.order_by (select (is_chosen db) after)))

  unfoldable pub claim : Link → Db → Db × Result (List Task)
  unfolding claim_statement exec
  claim link db = exec link (pg.text_ok worker_id && pg.text_ok queue) claim_statement db
