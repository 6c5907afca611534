-- ===== src/Store/Heartbeat.antt =====
-- internal/store/postgres/heartbeat.go.
use tick.Base.{ℕ, Bool, ◌&&◌, some, List, [], ◌∷◌, Text, ◌=??◌}
use tick.Domain.{Task, is_running, Result, ok}
use tick.Database.{Db, Postgres, Link, exec}
use tick.Store.{write}
use tick.Store.Claim.{contains}

-- `id = ANY($1) AND claimed_by = $2 AND status = 'running'`.
unfoldable pub beating : List ℕ → Text → Task → Bool
beating ids worker_id t = contains ids t.id && t.claimed_by =?? worker_id && is_running t.status

unfoldable pub beat : ℕ → Task → Task
beat now t = record t { heartbeat_at = some now }

unfoldable pub heartbeat : Postgres → Link → ℕ → List ℕ → Text → Db → Db × Result ℕ
unfolding exec write beating beat
heartbeat pg link now [] worker_id db = (db, ok 0)
heartbeat pg link now (i ∷ ids) worker_id db =
    exec link (pg.text_ok worker_id) (write (beating (i ∷ ids) worker_id) (beat now)) db
