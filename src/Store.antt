-- ===== src/Store.antt =====
-- internal/store/postgres: every operation of the store, as an SQL statement on the tables.
--
-- Each operation takes the statement's `Link`; `now` is the statement's now().
pub mod Backoff
pub mod Claim
pub mod Finish
pub mod Heartbeat
pub mod Recover
pub mod Cancel
pub mod Enqueue
pub mod Bulk
pub mod Schedules
pub mod QueueStats
pub mod Rows
pub mod Table
pub mod History
pub mod Growth
pub mod Pool
use tick.Base.{ℕ, ◌≡◌, Bool, ◌&&◌, Option, List, Text, length, select, update, find, ◌==◌, ◌=??◌}
use tick.Domain.{Task, Result, ok, err, Error}
use tick.Database.{Db}

-- `WHERE id = $1`.
abbrev pub has_id : ℕ → Task → Bool
has_id i t = t.id == i

-- `WHERE id = $1 AND claimed_by = $2`.
abbrev pub held : ℕ → Text → Task → Bool
held i worker_id t = t.id == i && t.claimed_by =?? worker_id

abbrev pub row : ℕ → Db → Option Task
row i db = find (has_id i) db.tasks

-- An UPDATE of tasks, with the number of rows it affected.
unfoldable pub write : (Task → Bool) → (Task → Task) → Db → Db × Result ℕ
write p f db = (record db { tasks = update p f db.tasks }, ok (length (select p db.tasks)))

-- A SELECT.
unfoldable pub read {ℓ} : {A : Type ℓ} → (Db → Result A) → Db → Db × Result A
read query db = (db, query db)
