-- ===== src/Store/Growth.antt =====
-- Inserts only append: a row that a query finds is found after any submission.
use tick.Base.{
  ℕ, ◌≡◌, inl, inr, Bool, true, false, Option, some, none, List, [], ◌∷◌, Text, Option-cases, find,
}
use tick.Base.Rows.{find-append}
use tick.Domain.{Task, Result, ok, err, rejected}
use tick.Database.{Db, Postgres, Link, up, down, lost, exec}
use tick.Database.Checks.{checks, conflict, references}
use tick.Store.Enqueue.{insert_statement, insert_task, new_row, place, rows_after, sound, enqueue}
use tick.Store.Bulk.{
  enqueue_bulk, insert_all, fill_all, next_slot, cons_slot, slot, rollback, finish_batch,
  finish_fill,
}
use tick.Store.History.Valid.{resolve-db}

-- An insert appends.
insert_task-keeps :
    (now : ℕ) (document : Text) (t : Task) (db : Db) (q : Task → Bool) (u : Task)
    → find q db.tasks ≡ some u
    → find q (insert_task now document t db).0.tasks ≡ some u
unfolding insert_task
insert_task-keeps now document t db q u e =
    let r = new_row now document t db.next_task_id in
    placed r (checks r) (conflict r db.tasks) (references r db.schedules)
  where
    placed :
        (r : Task) (b : Bool) (found : Option Task) (referenced : Bool)
        → find q (rows_after db.tasks (place r b found referenced)) ≡ some u
    placed r false found referenced = e
    placed r true (some existing) referenced = e
    placed r true none false = e
    placed r true none true = find-append q db.tasks (r ∷ []) u e

exec-keeps {ℓ} :
    {A : Type ℓ} (link : Link) (fine : Bool) (statement : Db → Db × Result A) (db : Db)
    (q : Task → Bool) (u : Task)
    → find q db.tasks ≡ some u
    → find q (statement db).0.tasks ≡ some u
    → find q (exec link fine statement db).0.tasks ≡ some u
unfolding exec
exec-keeps up true statement db q u e h = h
exec-keeps up false statement db q u e h = e
exec-keeps down fine statement db q u e h = e
exec-keeps lost true statement db q u e h = h
exec-keeps lost false statement db q u e h = e

pub insert_statement-keeps :
    (pg : Postgres) (link : Link) (now : ℕ) (t : Task) (db : Db) (q : Task → Bool) (u : Task)
    → find q db.tasks ≡ some u
    → find q (insert_statement pg link now t db).0.tasks ≡ some u
unfolding insert_statement
insert_statement-keeps pg link now t db q u e = elim (Option-cases (pg.to_jsonb t.payload)) [
  | inl n ↦ rw (n, insert_statement) (exec-keeps link false (λ d. (d, err rejected)) db q u e e)
  | inr (document, s) ↦
      rw (s, insert_statement)
        (exec-keeps link (sound pg t) (insert_task now document t) db q u e
          (insert_task-keeps now document t db q u e))
]

pub insert_all-keeps :
    (pg : Postgres) (now : ℕ) (ts : List Task) (db : Db) (q : Task → Bool) (u : Task)
    → find q db.tasks ≡ some u
    → find q (insert_all pg now ts db).0.tasks ≡ some u
unfolding insert_all
insert_all-keeps pg now [] db q u e = e
insert_all-keeps pg now (t ∷ ts) db q u e =
    let (db', inserted) = insert_statement pg up now t db in
    next (slot t inserted) db' (insert_statement-keeps pg up now t db q u e)
      (λ d f. insert_all-keeps pg now ts d q u f)
  where
    kept :
        (s : Option Task) (r : Db × Result (List (Option Task)))
        → find q r.0.tasks ≡ some u
        → find q (cons_slot s r).0.tasks ≡ some u
    kept s (d, ok slots) f = f
    kept s (d, err x) f = f

    next :
        (s : Result (Option Task)) (d : Db)
        → find q d.tasks ≡ some u
        → ((d' : Db) → find q d'.tasks ≡ some u → find q (insert_all pg now ts d').0.tasks ≡ some u)
        → find q (next_slot d s (insert_all pg now ts)).0.tasks ≡ some u
    next (ok s) d f rest = kept s (insert_all pg now ts d) (rest d f)
    next (err x) d f rest = f

finish_batch-keeps :
    (pg : Postgres) (link : Link) (before : Db) (ts : List Task)
    (r : Db × Result (List (Option Task))) (q : Task → Bool) (u : Task)
    → find q before.tasks ≡ some u
    → find q r.0.tasks ≡ some u
    → find q (finish_batch pg link before ts r).0.tasks ≡ some u
unfolding fill_all rollback
finish_batch-keeps pg link before ts (after, err x) q u e f = e
finish_batch-keeps pg link before ts (after, ok slots) q u e f =
    filled link (fill_all pg after ts slots)
  where
    filled :
        (link : Link) (r : Result (List Task))
        → find q (finish_fill link before after r).0.tasks ≡ some u
    filled up (ok ts') = f
    filled lost (ok ts') = f
    filled down (ok ts') = e
    filled link (err x) = e

pub enqueue_bulk-keeps :
    (pg : Postgres) (link link' : Link) (now : ℕ) (ts : List Task) (db : Db) (q : Task → Bool)
    (u : Task)
    → find q db.tasks ≡ some u
    → find q (enqueue_bulk pg link link' now ts db).0.tasks ≡ some u
unfolding enqueue_bulk
enqueue_bulk-keeps pg link link' now [] db q u e = e
enqueue_bulk-keeps pg up link' now (t ∷ ts) db q u e =
    finish_batch-keeps pg link' db (t ∷ ts) (insert_all pg now (t ∷ ts) db) q u e
      (insert_all-keeps pg now (t ∷ ts) db q u e)
enqueue_bulk-keeps pg down link' now (t ∷ ts) db q u e = e
enqueue_bulk-keeps pg lost link' now (t ∷ ts) db q u e = e

pub enqueue-keeps :
    (pg : Postgres) (link link' : Link) (now : ℕ) (t : Task) (db : Db) (q : Task → Bool) (u : Task)
    → find q db.tasks ≡ some u
    → find q (enqueue pg link link' (λ d. d) now t db).0.tasks ≡ some u
unfolding enqueue
enqueue-keeps pg link link' now t db q u e =
    let (db', inserted) = insert_statement pg link now t db in
    rw (resolve-db pg link' t t.idempotency_key db' inserted)
      (insert_statement-keeps pg link now t db q u e)
