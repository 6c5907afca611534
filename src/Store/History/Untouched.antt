-- ===== src/Store/History/Untouched.antt =====
-- The operations on tasks leave the schedules alone.
use tick.Base.{
  ℕ, ◌≡◌, refl, ◌∙◌, ap, inl, inr, Bool, true, false, ◌&&◌, Option, List, [], ◌∷◌, Text,
  Option-cases,
}
use tick.Domain.{Task, Result, ok, err, rejected}
use tick.Database.{Db, Postgres, Link, up, down, lost, exec}
use tick.Store.{write, held}
use tick.Store.Backoff.{Jitter}
use tick.Store.Claim.{claim, claim_statement}
use tick.Store.Finish.{complete, fail, succeed, retry_or_bury, message}
use tick.Store.Heartbeat.{heartbeat, beating, beat}
use tick.Store.Recover.{recover_orphans, orphaned, reclaim}
use tick.Store.Cancel.{cancel, cancellable_row, set_cancelled}
use tick.Store.Enqueue.{insert_task, insert_statement, sound, enqueue}
use tick.Store.Bulk.{
  enqueue_bulk, insert_all, fill_all, next_slot, cons_slot, slot, rollback, finish_batch,
  finish_fill,
}
use tick.Store.History.Inserts.{resolve-db, after_update-db}

abbrev pub SameSchedules : Db → Db → Type 0
SameSchedules db db' = db'.schedules ≡ db.schedules

exec-SameSchedules {ℓ} :
    {A : Type ℓ} (link : Link) (fine : Bool) (statement : Db → Db × Result A) (db : Db)
    → SameSchedules db (statement db).0
    → SameSchedules db (exec link fine statement db).0
unfolding exec
exec-SameSchedules up true statement db h = h
exec-SameSchedules up false statement db h = refl
exec-SameSchedules down fine statement db h = refl
exec-SameSchedules lost true statement db h = h
exec-SameSchedules lost false statement db h = refl

write-SameSchedules :
    (link : Link) (fine : Bool) (p : Task → Bool) (f : Task → Task) (db : Db)
    → SameSchedules db (exec link fine (write p f) db).0
unfolding write
write-SameSchedules link fine p f db = exec-SameSchedules link fine (write p f) db refl

insert_statement-SameSchedules :
    (pg : Postgres) (link : Link) (now : ℕ) (t : Task) (db : Db)
    → SameSchedules db (insert_statement pg link now t db).0
unfolding insert_statement insert_task
insert_statement-SameSchedules pg link now t db = elim (Option-cases (pg.to_jsonb t.payload)) [
  | inl n ↦
      rw (n, insert_statement) (exec-SameSchedules link false (λ d. (d, err rejected)) db refl)
  | inr (document, s) ↦
      rw (s, insert_statement)
        (exec-SameSchedules link (sound pg t) (insert_task now document t) db refl)
]

insert_all-SameSchedules :
    (pg : Postgres) (now : ℕ) (ts : List Task) (db : Db)
    → SameSchedules db (insert_all pg now ts db).0
unfolding insert_all
insert_all-SameSchedules pg now [] db = refl
insert_all-SameSchedules pg now (t ∷ ts) db =
    let (db', inserted) = insert_statement pg up now t db in
    next (slot t inserted) db' (λ d. insert_all-SameSchedules pg now ts d)
    ∙ insert_statement-SameSchedules pg up now t db
  where
    kept :
        (s : Option Task) (d : Db) (r : Db × Result (List (Option Task)))
        → SameSchedules d r.0
        → SameSchedules d (cons_slot s r).0
    kept s d (d', ok slots) h = h
    kept s d (d', err e) h = h

    next :
        (s : Result (Option Task)) (d : Db)
        → ((d' : Db) → SameSchedules d' (insert_all pg now ts d').0)
        → SameSchedules d (next_slot d s (insert_all pg now ts)).0
    next (ok s) d rest = kept s d (insert_all pg now ts d) (rest d)
    next (err e) d rest = refl

finish_batch-SameSchedules :
    (pg : Postgres) (link : Link) (before : Db) (ts : List Task)
    (r : Db × Result (List (Option Task)))
    → SameSchedules before r.0
    → SameSchedules before (finish_batch pg link before ts r).0
unfolding fill_all rollback
finish_batch-SameSchedules pg link before ts (after, err e) h = refl
finish_batch-SameSchedules pg link before ts (after, ok slots) h =
    filled link (fill_all pg after ts slots)
  where
    filled :
        (l : Link) (r : Result (List Task)) → SameSchedules before (finish_fill l before after r).0
    filled up (ok ts') = h
    filled lost (ok ts') = h
    filled down (ok ts') = refl
    filled l (err e) = refl

pub enqueue_bulk-SameSchedules :
    (pg : Postgres) (link link' : Link) (now : ℕ) (ts : List Task) (db : Db)
    → SameSchedules db (enqueue_bulk pg link link' now ts db).0
unfolding enqueue_bulk
enqueue_bulk-SameSchedules pg link link' now [] db = refl
enqueue_bulk-SameSchedules pg up link' now (t ∷ ts) db =
    finish_batch-SameSchedules pg link' db (t ∷ ts) (insert_all pg now (t ∷ ts) db)
      (insert_all-SameSchedules pg now (t ∷ ts) db)
enqueue_bulk-SameSchedules pg down link' now (t ∷ ts) db = refl
enqueue_bulk-SameSchedules pg lost link' now (t ∷ ts) db = refl

pub enqueue-SameSchedules :
    (pg : Postgres) (link link' : Link) (now : ℕ) (t : Task) (db : Db)
    → SameSchedules db (enqueue pg link link' (λ d. d) now t db).0
unfolding enqueue
enqueue-SameSchedules pg link link' now t db =
    let (db', inserted) = insert_statement pg link now t db in
    ap (λ (d : Db). d.schedules) (resolve-db pg link' t t.idempotency_key db' inserted)
    ∙ insert_statement-SameSchedules pg link now t db

pub claim-SameSchedules :
    (pg : Postgres) (locked : ℕ → Bool) (now : ℕ) (queue worker_id : Text) (limit : ℕ) (link : Link)
    (db : Db)
    → SameSchedules db (claim pg locked now queue worker_id limit link db).0
unfolding claim claim_statement
claim-SameSchedules pg locked now queue worker_id limit link db =
    exec-SameSchedules link (pg.text_ok worker_id && pg.text_ok queue)
      (claim_statement pg locked now queue worker_id limit) db refl

pub heartbeat-SameSchedules :
    (pg : Postgres) (link : Link) (now : ℕ) (ids : List ℕ) (worker_id : Text) (db : Db)
    → SameSchedules db (heartbeat pg link now ids worker_id db).0
unfolding heartbeat
heartbeat-SameSchedules pg link now [] worker_id db = refl
heartbeat-SameSchedules pg link now (i ∷ ids) worker_id db =
    write-SameSchedules link (pg.text_ok worker_id) (beating (i ∷ ids) worker_id) (beat now) db

pub complete-SameSchedules :
    (pg : Postgres) (link : Link) (id : ℕ) (worker_id : Text) (db : Db)
    → SameSchedules db (complete pg link id worker_id db).0
unfolding complete
complete-SameSchedules pg link id worker_id db =
    write-SameSchedules link (pg.text_ok worker_id) (held id worker_id) succeed db

pub fail-SameSchedules :
    (pg : Postgres) (link : Link) (now : ℕ) (jitter : Jitter) (id : ℕ) (worker_id : Text)
    (exec_err : Option Text) (db : Db)
    → SameSchedules db (fail pg link now jitter id worker_id exec_err db).0
unfolding fail
fail-SameSchedules pg link now jitter id worker_id exec_err db =
    write-SameSchedules link (pg.text_ok worker_id && pg.text_ok (message exec_err))
      (held id worker_id) (retry_or_bury now jitter (message exec_err)) db

pub recover_orphans-SameSchedules :
    (link : Link) (now : ℕ) (db : Db) → SameSchedules db (recover_orphans link now db).0
unfolding recover_orphans
recover_orphans-SameSchedules link now db =
    write-SameSchedules link true (orphaned now) (reclaim now) db

pub cancel-SameSchedules :
    (link link' : Link) (id : ℕ) (db : Db) → SameSchedules db (cancel link link' (λ d. d) id db).0
unfolding cancel
cancel-SameSchedules link link' id db =
    let (db', tag) = exec link true (write (cancellable_row id) set_cancelled) db in
    rw (after_update-db link' id db' tag)
      (write-SameSchedules link true (cancellable_row id) set_cancelled db)
