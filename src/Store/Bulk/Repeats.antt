-- ===== src/Store/Bulk/Repeats.antt =====
-- A bulk submission whose keys are all taken.
use tick.Base.{
  ℕ, ◌≡◌, refl, ◌∙◌, ap, inl, inr, Bool, true, false, Option, some, none, List, [], ◌∷◌, Text, find,
  All, Bool-cases, Option-cases,
}
use tick.Domain.{Task, Result, ok, err}
use tick.Database.{Db, Postgres, Link, up, down, lost, exec}
use tick.Database.Checks.{checks, has_key, conflict, references}
use tick.Store.Enqueue.{sound, new_row, place, rows_after, insert_task, insert_statement}
use tick.Store.Bulk.{
  insert_all, fill_all, enqueue_bulk, slot, next_slot, cons_slot, rollback, finish_batch,
  finish_fill,
}

-- Some row has the queue and the key of the task.
abbrev pub Taken : List Task → Task → Type 0
Taken rows t = (u : Task) × (conflict t rows ≡ some u)

pub conflict-new_row :
    (now id : ℕ) (document : Text) (t : Task) (rows : List Task)
    → conflict (new_row now document t id) rows ≡ conflict t rows
unfolding conflict new_row
conflict-new_row now id document t rows = refl

place-taken :
    (rows : List Task) (r : Task) (b : Bool) (found : Option Task) (f : Bool) (u : Task)
    → found ≡ some u
    → rows_after rows (place r b found f) ≡ rows
place-taken rows r false found f u e = refl
place-taken rows r true (some x) f u e = refl
place-taken rows r true none f u e = absurd (cc)

insert_task-Taken :
    (now : ℕ) (document : Text) (t : Task) (db : Db)
    → Taken db.tasks t
    → (insert_task now document t db).0.tasks ≡ db.tasks
unfolding insert_task
insert_task-Taken now document t db (u, e) =
    let r = new_row now document t db.next_task_id in
    place-taken db.tasks r (checks r) (conflict r db.tasks) (references r db.schedules) u
      (conflict-new_row now db.next_task_id document t db.tasks ∙ e)

insert_statement-Taken :
    (pg : Postgres) (now : ℕ) (t : Task) (db : Db)
    → Taken db.tasks t
    → (insert_statement pg up now t db).0.tasks ≡ db.tasks
unfolding insert_statement exec
insert_statement-Taken pg now t db taken = elim (Option-cases (pg.to_jsonb t.payload)) [
  | inl n ↦ rw (n, insert_statement) refl
  | inr (document, j) ↦ elim (Bool-cases (sound pg t)) [
    | inl s ↦ rw (j, insert_statement) (rw s (insert_task-Taken now document t db taken))
    | inr s ↦ rw (j, insert_statement) (rw s refl)
  ]
]

cons_slot-tasks : (s : Option Task) (r : Db × Result (List (Option Task))) → (cons_slot s r).0 ≡ r.0
cons_slot-tasks s (d, ok slots) = refl
cons_slot-tasks s (d, err e) = refl

insert_all-Taken :
    (pg : Postgres) (now : ℕ) (ts rows : List Task) (db : Db)
    → All (Taken rows) ts
    → db.tasks ≡ rows
    → (insert_all pg now ts db).0.tasks ≡ rows
unfolding insert_all
insert_all-Taken pg now [] rows db taken e = e
insert_all-Taken pg now (t ∷ ts) rows db taken e =
    let (db', inserted) = insert_statement pg up now t db in
    let same : (insert_statement pg up now t db).0.tasks ≡ rows =
      insert_statement-Taken pg now t db (rw e taken.0) ∙ e in
    next (slot t inserted) db' same (λ d f. insert_all-Taken pg now ts rows d taken.1 f)
  where
    next :
        (s : Result (Option Task)) (d : Db)
        → d.tasks ≡ rows
        → ((d' : Db) → d'.tasks ≡ rows → (insert_all pg now ts d').0.tasks ≡ rows)
        → (next_slot d s (insert_all pg now ts)).0.tasks ≡ rows
    next (ok s) d f rest =
        ap (λ (d' : Db). d'.tasks) (cons_slot-tasks s (insert_all pg now ts d)) ∙ rest d f
    next (err x) d f rest = f

finish_batch-tasks :
    (pg : Postgres) (link : Link) (before : Db) (ts : List Task)
    (r : Db × Result (List (Option Task)))
    → r.0.tasks ≡ before.tasks
    → (finish_batch pg link before ts r).0.tasks ≡ before.tasks
unfolding fill_all rollback
finish_batch-tasks pg link before ts (after, err x) e = refl
finish_batch-tasks pg link before ts (after, ok slots) e = filled link (fill_all pg after ts slots)
  where
    filled :
        (link : Link) (r : Result (List Task))
        → (finish_fill link before after r).0.tasks ≡ before.tasks
    filled up (ok ts') = e
    filled lost (ok ts') = e
    filled down (ok ts') = refl
    filled link (err x) = refl

-- Whatever its links and its answer, a batch whose keys are all taken leaves the tasks as they are.
pub enqueue_bulk-Taken :
    (pg : Postgres) (link link' : Link) (now : ℕ) (ts : List Task) (db : Db)
    → All (Taken db.tasks) ts
    → (enqueue_bulk pg link link' now ts db).0.tasks ≡ db.tasks
unfolding enqueue_bulk
enqueue_bulk-Taken pg link link' now [] db taken = refl
enqueue_bulk-Taken pg up link' now (t ∷ ts) db taken =
    finish_batch-tasks pg link' db (t ∷ ts) (insert_all pg now (t ∷ ts) db)
      (insert_all-Taken pg now (t ∷ ts) db.tasks db taken refl)
enqueue_bulk-Taken pg down link' now (t ∷ ts) db taken = refl
enqueue_bulk-Taken pg lost link' now (t ∷ ts) db taken = refl

abbrev pub HasKey : Task → Type 0
HasKey t = (key : Text) × (t.idempotency_key ≡ some key)

pub Taken-find :
    (t : Task) (key : Text) (rows : List Task) (u : Task)
    → t.idempotency_key ≡ some key
    → find (has_key t.queue key) rows ≡ some u
    → Taken rows t
unfolding conflict
Taken-find t key rows u k e = (u, rw (k, conflict) e)

pub Taken-key :
    (t : Task) (rows : List Task)
    → Taken rows t
    → (key : Text) × (u : Task) × (t.idempotency_key ≡ some key)
      × (find (has_key t.queue key) rows ≡ some u)
unfolding conflict
Taken-key t rows (u, e) = elim (Option-cases t.idempotency_key) [
  | inl k ↦ absurd (cc (rw (k, conflict) at e))
  | inr (key, k) ↦ (key, u, k, rw (k, conflict) at e)
]
