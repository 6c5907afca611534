-- ===== src/Store/Enqueue.antt =====
-- internal/store/postgres/enqueue.go.
pub mod Laws
pub mod Created
use tick.Base.{
  ℕ, ◌+◌, ◌≡◌, Bool, true, false, ◌&&◌, Option, none, some, List, [], ◌∷◌, ◌++◌, Text, ◌==◌, find,
  is_some, if◌then◌else◌,
}
use tick.Domain.{
  Task, pending, Error, Result, ok, err, no_rows, rejected, duplicate_idempotency_key,
}
use tick.Database.{Db, Postgres, Link, exec, all_ok}
use tick.Database.Checks.{checks, int4_ok, int4_ok_ℤ, has_key, conflict, references}
use tick.Store.{read}
use tick.Store.Cancel.{scan_task}

-- `if !t.RunAt.IsZero() { runAt = &t.RunAt }`, then `COALESCE($5, now())`.
abbrev pub run_at_or_now : ℕ → ℕ → ℕ
run_at_or_now now run_at = if run_at == 0 then now else run_at

-- `if maxAttempts == 0 { maxAttempts = 5 }`.
abbrev pub max_attempts_or_default : ℕ → ℕ
max_attempts_or_default n = if n == 0 then 5 else n

abbrev pub key_texts : Option Text → List Text
key_texts none = []
key_texts (some key) = key ∷ []

-- The parameters that the database takes: texts in its encoding, numbers of 32 bits.
unfoldable pub sound : Postgres → Task → Bool
sound pg t =
    all_ok pg.text_ok (t.queue ∷ t.handler ∷ key_texts t.idempotency_key)
    && int4_ok_ℤ t.priority
    && int4_ok (max_attempts_or_default t.max_attempts)

-- The row of the VALUES list, with the defaults of the table.
unfoldable pub new_row : ℕ → Text → Task → ℕ → Task
new_row now document t id = record {
  id = id;
  queue = t.queue;
  handler = t.handler;
  payload = document;
  priority = t.priority;
  status = pending;
  run_at = run_at_or_now now t.run_at;
  attempts = 0;
  max_attempts = max_attempts_or_default t.max_attempts;
  claimed_by = none;
  heartbeat_at = none;
  idempotency_key = t.idempotency_key;
  schedule_id = t.schedule_id;
  last_error = none;
  created_at = now;
}

-- What the INSERT does with a row: `none` where ON CONFLICT DO NOTHING skips it.
abbrev pub place : Task → Bool → Option Task → Bool → Result (Option Task)
place r false found referenced = err rejected
place r true (some existing) referenced = ok none
place r true none false = err rejected
place r true none true = ok (some r)

abbrev pub rows_after : List Task → Result (Option Task) → List Task
rows_after ts (ok (some r)) = ts ++ r ∷ []
rows_after ts _ = ts

-- The id is drawn from the sequence first, and is used up whatever follows.
unfoldable pub insert_task : ℕ → Text → Task → Db → Db × Result (Option Task)
unfolding new_row checks conflict references
insert_task now document t db =
    let r = new_row now document t db.next_task_id in
    let placed = place r (checks r) (conflict r db.tasks) (references r db.schedules) in
    (record db { tasks = rows_after db.tasks placed; next_task_id = db.next_task_id + 1 }, placed)

-- The INSERT as one statement; a payload that is no JSON is refused before it.
unfoldable pub insert_statement : Postgres → Link → ℕ → Task → Db → Db × Result (Option Task)
unfolding exec insert_task sound
insert_statement pg link now t db = elim (pg.to_jsonb t.payload) [
  | none ↦ exec link false (λ d. (d, err rejected)) db
  | some document ↦ exec link (sound pg t) (insert_task now document t) db
]

-- `WHERE queue = $1 AND idempotency_key = $2`.
unfoldable pub select_by_key : Postgres → Link → Text → Text → Db → Db × Result Task
unfolding exec read
select_by_key pg link queue key db =
    exec link (all_ok pg.text_ok (queue ∷ key ∷ []))
      (read (λ d. scan_task (find (has_key queue key) d.tasks))) db

-- The pair of a task and an error that Enqueue returns.
pub data Enqueued : Type 0 where
  created : Task → Enqueued
  duplicate : Task → Enqueued
  refused : Error → Enqueued

abbrev pub as_duplicate : Result Task → Enqueued
as_duplicate (ok existing) = duplicate existing
as_duplicate (err e) = refused e

-- What Enqueue does after the INSERT. `meanwhile` is what other connections do before the SELECT.
abbrev pub resolve :
    Postgres → Link → (Db → Db) → Task → Option Text → Db → Result (Option Task) → Db × Enqueued
unfolding select_by_key
resolve pg link meanwhile t key db (ok (some inserted)) = (db, created inserted)
resolve pg link meanwhile t none db (ok none) = (db, refused no_rows)
resolve pg link meanwhile t (some key) db (ok none) =
    let later = meanwhile db in (later, as_duplicate (select_by_key pg link t.queue key later).1)
resolve pg link meanwhile t key db (err e) = (db, refused e)

unfoldable pub enqueue : Postgres → Link → Link → (Db → Db) → ℕ → Task → Db → Db × Enqueued
unfolding insert_statement resolve
enqueue pg link link' meanwhile now t db =
    let (db', inserted) = insert_statement pg link now t db in
    resolve pg link' meanwhile t t.idempotency_key db' inserted
