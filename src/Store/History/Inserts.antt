-- ===== src/Store/History/Inserts.antt =====
-- The invariant of the tasks table, and the operations that insert.
use tick.Base.{
  ℕ, ◌+◌, ◌≤◌, ◌≡◌, zero, suc, refl, Bool, true, false, Option, some, none, List, [], ◌∷◌, arith,
  Text, inl, inr, Option-cases,
}
use tick.Domain.{Task, Result, ok, err, rejected}
use tick.Database.{Db, Postgres, Link, up, down, lost, exec}
use tick.Database.Checks.{checks, conflict, references}
use tick.Store.{write}
use tick.Store.Rows.{IsSoundRow, new_row-IsSoundRow}
use tick.Store.Rows.Identity.{IsSameTask}
use tick.Store.Cancel.{get, after_update}
use tick.Store.Bulk.{
  enqueue_bulk, insert_all, fill_all, next_slot, cons_slot, slot, rollback, finish_batch,
  finish_fill,
}
use tick.Store.Table.{IsTable, update-IsTable, insert-IsTable, IsTable-le}
use tick.Store.Enqueue.{
  insert_task, insert_statement, new_row, sound, place, rows_after, resolve, enqueue, select_by_key,
}

abbrev pub IsValid : Db → Type 0
IsValid db = IsTable db.next_task_id db.tasks

pub exec-IsValid {ℓ} :
    {A : Type ℓ} (link : Link) (fine : Bool) (statement : Db → Db × Result A) (db : Db)
    → IsValid db
    → (fine ≡ true → IsValid (statement db).0)
    → IsValid (exec link fine statement db).0
unfolding exec
exec-IsValid up true statement db v h = h refl
exec-IsValid up false statement db v h = v
exec-IsValid down fine statement db v h = v
exec-IsValid lost true statement db v h = h refl
exec-IsValid lost false statement db v h = v

exec-le {ℓ} :
    {A : Type ℓ} (link : Link) (fine : Bool) (statement : Db → Db × Result A) (db : Db)
    → db.next_task_id ≤ (statement db).0.next_task_id
    → db.next_task_id ≤ (exec link fine statement db).0.next_task_id
unfolding exec
exec-le up true statement db h = h
exec-le up false statement db h = omega arith
exec-le down fine statement db h = omega arith
exec-le lost true statement db h = h
exec-le lost false statement db h = omega arith

pub write-IsValid :
    (link : Link) (fine : Bool) (p : Task → Bool) (f : Task → Task) (db : Db)
    → ((t : Task) → IsSameTask t (f t))
    → ((t : Task) → p t ≡ true → IsSoundRow t → IsSoundRow (f t))
    → IsValid db
    → IsValid (exec link fine (write p f) db).0
write-IsValid link fine p f db keep sound v =
    exec-IsValid link fine (write p f) db v
      (λ _. unfold write in update-IsTable p f db.next_task_id db.tasks keep sound v)

insert_task-IsValid :
    (pg : Postgres) (now : ℕ) (document : Text) (t : Task) (db : Db)
    → sound pg t ≡ true
    → IsValid db
    → IsValid (insert_task now document t db).0
unfolding insert_task
insert_task-IsValid pg now document t db s v =
    let r = new_row now document t db.next_task_id in
    placed r refl (checks r) (λ c. new_row-IsSoundRow pg now document t db.next_task_id s c)
      (conflict r db.tasks) (references r db.schedules) refl
  where
    placed :
        (r : Task)
        → r.id ≡ db.next_task_id
        → (b : Bool) → (b ≡ true → IsSoundRow r)
        → (found : Option Task) (referenced : Bool) → conflict r db.tasks ≡ found
        → IsTable (db.next_task_id + 1) (rows_after db.tasks (place r b found referenced))
    placed r e false k found referenced c =
        IsTable-le db.next_task_id (db.next_task_id + 1) db.tasks (omega arith) v
    placed r e true k (some existing) referenced c =
        IsTable-le db.next_task_id (db.next_task_id + 1) db.tasks (omega arith) v
    placed r e true k none false c =
        IsTable-le db.next_task_id (db.next_task_id + 1) db.tasks (omega arith) v
    placed r e true k none true c = insert-IsTable db.next_task_id db.tasks r e (k refl) c v

pub insert_statement-IsValid :
    (pg : Postgres) (link : Link) (now : ℕ) (t : Task) (db : Db)
    → IsValid db
    → IsValid (insert_statement pg link now t db).0
unfolding insert_statement
insert_statement-IsValid pg link now t db v = elim (Option-cases (pg.to_jsonb t.payload)) [
  | inl e ↦ rw (e, insert_statement) (exec-IsValid link false _ db v (λ absurdity. cc))
  | inr (document, e) ↦
      rw (e, insert_statement)
        (exec-IsValid link (sound pg t) (insert_task now document t) db v
          (λ s. insert_task-IsValid pg now document t db s v))
]

-- What follows the INSERT only reads.
pub resolve-db :
    (pg : Postgres) (link : Link) (t : Task) (key : Option Text) (db : Db)
    (r : Result (Option Task))
    → (resolve pg link (λ d. d) t key db r).0 ≡ db
unfolding select_by_key
resolve-db pg link t key db (ok (some inserted)) = refl
resolve-db pg link t none db (ok none) = refl
resolve-db pg link t (some key) db (ok none) = refl
resolve-db pg link t key db (err e) = refl

pub enqueue-IsValid :
    (pg : Postgres) (link link' : Link) (now : ℕ) (t : Task) (db : Db)
    → IsValid db
    → IsValid (enqueue pg link link' (λ d. d) now t db).0
unfolding enqueue
enqueue-IsValid pg link link' now t db v =
    let (db', inserted) = insert_statement pg link now t db in
    rw (resolve-db pg link' t t.idempotency_key db' inserted)
      (insert_statement-IsValid pg link now t db v)

pub after_update-db :
    (link : Link) (id : ℕ) (db : Db) (r : Result ℕ) → (after_update link (λ d. d) id db r).0 ≡ db
unfolding get
after_update-db link id db (ok zero) = refl
after_update-db link id db (ok (suc n)) = refl
after_update-db link id db (err e) = refl

-- A valid database whose sequence has not gone back.
abbrev IsLater : Db → Db → Type 0
IsLater before after = IsValid after × (before.next_task_id ≤ after.next_task_id)

insert_task-next :
    (now : ℕ) (document : Text) (t : Task) (db : Db)
    → (insert_task now document t db).0.next_task_id ≡ db.next_task_id + 1
unfolding insert_task
insert_task-next now document t db = refl

pub insert_statement-next :
    (pg : Postgres) (link : Link) (now : ℕ) (t : Task) (db : Db)
    → db.next_task_id ≤ (insert_statement pg link now t db).0.next_task_id
unfolding insert_statement
insert_statement-next pg link now t db = elim (Option-cases (pg.to_jsonb t.payload)) [
  | inl e ↦ rw (e, insert_statement) (exec-le link false (λ d. (d, err rejected)) db (omega arith))
  | inr (document, e) ↦
      rw (e, insert_statement)
        (exec-le link (sound pg t) (insert_task now document t) db
          (omega (arith, insert_task-next now document t db)))
]

insert_all-IsLater :
    (pg : Postgres) (now : ℕ) (ts : List Task) (db : Db)
    → IsValid db
    → IsLater db (insert_all pg now ts db).0
unfolding insert_all
insert_all-IsLater pg now [] db v = (v, omega arith)
insert_all-IsLater pg now (t ∷ ts) db v =
    let (db', inserted) = insert_statement pg up now t db in
    next (slot t inserted) db' (insert_statement-IsValid pg up now t db v)
      (insert_statement-next pg up now t db) (λ d w. insert_all-IsLater pg now ts d w)
  where
    kept :
        (s : Option Task) (r : Db × Result (List (Option Task)))
        → IsLater db r.0
        → IsLater db (cons_slot s r).0
    kept s (d, ok slots) w = w
    kept s (d, err e) w = w

    next :
        (s : Result (Option Task)) (d : Db)
        → IsValid d
        → db.next_task_id ≤ d.next_task_id
        → ((d' : Db) → IsValid d' → IsLater d' (insert_all pg now ts d').0)
        → IsLater db (next_slot d s (insert_all pg now ts)).0
    next (ok s) d w le rest =
        let later = rest d w in kept s (insert_all pg now ts d) (later.0, omega arith)
    next (err e) d w le rest = (w, le)

rollback-IsValid :
    (before after : Db) → IsValid before → IsLater before after → IsValid (rollback before after)
unfolding rollback
rollback-IsValid before after v later =
    IsTable-le before.next_task_id after.next_task_id before.tasks later.1 v

finish_batch-IsValid :
    (pg : Postgres) (link : Link) (before : Db) (ts : List Task)
    (r : Db × Result (List (Option Task)))
    → IsValid before
    → IsLater before r.0
    → IsValid (finish_batch pg link before ts r).0
unfolding fill_all rollback
finish_batch-IsValid pg link before ts (after, err e) v later =
    rollback-IsValid before after v later
finish_batch-IsValid pg link before ts (after, ok slots) v later =
    filled link (fill_all pg after ts slots)
  where
    filled : (link : Link) (r : Result (List Task)) → IsValid (finish_fill link before after r).0
    filled up (ok ts') = later.0
    filled lost (ok ts') = later.0
    filled down (ok ts') = rollback-IsValid before after v later
    filled link (err e) = rollback-IsValid before after v later

pub enqueue_bulk-IsValid :
    (pg : Postgres) (link link' : Link) (now : ℕ) (ts : List Task) (db : Db)
    → IsValid db
    → IsValid (enqueue_bulk pg link link' now ts db).0
unfolding enqueue_bulk
enqueue_bulk-IsValid pg link link' now [] db v = v
enqueue_bulk-IsValid pg up link' now (t ∷ ts) db v =
    finish_batch-IsValid pg link' db (t ∷ ts) (insert_all pg now (t ∷ ts) db) v
      (insert_all-IsLater pg now (t ∷ ts) db v)
enqueue_bulk-IsValid pg down link' now (t ∷ ts) db v = v
enqueue_bulk-IsValid pg lost link' now (t ∷ ts) db v = v
