-- ===== src/Store/Bulk.antt =====
-- internal/store/postgres/enqueue_bulk.go: many inserts in one transaction.
pub mod Laws
pub mod Refines
pub mod Repeats
pub mod Lands
use tick.Base.{ℕ, ◌≡◌, Bool, true, false, ◌&&◌, Option, none, some, List, [], ◌∷◌, Text, find}
use tick.Domain.{Task, Result, ok, err, Error, no_rows, unavailable}
use tick.Database.{Db, Postgres, Link, up, down, lost}
use tick.Store.Enqueue.{insert_statement, select_by_key}

-- The answer of one insert of the batch: an inserted row, a duplicate that is put off (none), or the
-- error that ends the loop.
abbrev pub slot : Task → Result (Option Task) → Result (Option Task)
slot t (ok (some inserted)) = ok (some inserted)
slot t (ok none) = elim t.idempotency_key [ none ↦ err no_rows | some key ↦ ok none ]
slot t (err e) = err e

abbrev pub cons_slot :
    Option Task → Db × Result (List (Option Task)) → Db × Result (List (Option Task))
cons_slot s (db, ok slots) = (db, ok (s ∷ slots))
cons_slot s (db, err e) = (db, err e)

abbrev pub next_slot :
    Db
    → Result (Option Task)
    → (Db → Db × Result (List (Option Task)))
    → Db × Result (List (Option Task))
next_slot db (ok s) rest = cons_slot s (rest db)
next_slot db (err e) rest = (db, err e)

-- The loop over the batch's results.
unfoldable pub insert_all : Postgres → ℕ → List Task → Db → Db × Result (List (Option Task))
unfolding insert_statement
insert_all pg now [] db = (db, ok [])
insert_all pg now (t ∷ ts) db =
    let (db', inserted) = insert_statement pg up now t db in
    next_slot db' (slot t inserted) (insert_all pg now ts)

abbrev pub cons_result : Result Task → Result (List Task) → Result (List Task)
cons_result (ok t) (ok ts) = ok (t ∷ ts)
cons_result (ok t) (err e) = err e
cons_result (err e) rest = err e

-- The loop over the duplicates, put back in their places.
abbrev pub fill : Postgres → Db → Task → Option Task → Option Text → Result Task
unfolding select_by_key
fill pg db t (some inserted) key = ok inserted
fill pg db t none (some key) = (select_by_key pg up t.queue key db).1
fill pg db t none none = err no_rows

unfoldable pub fill_all : Postgres → Db → List Task → List (Option Task) → Result (List Task)
unfolding fill
fill_all pg db (t ∷ ts) (s ∷ slots) =
    cons_result (fill pg db t s t.idempotency_key) (fill_all pg db ts slots)
fill_all pg db _ _ = ok []

-- Rollback restores the tables; the sequence stays where it is.
unfoldable pub rollback : Db → Db → Db
rollback before after = record before { next_task_id = after.next_task_id }

abbrev pub commit : Link → Db → Db → List Task → Db × Result (List Task)
unfolding rollback
commit up before after ts = (after, ok ts)
commit down before after ts = (rollback before after, err unavailable)
commit lost before after ts = (after, err unavailable)

abbrev pub finish_fill : Link → Db → Db → Result (List Task) → Db × Result (List Task)
unfolding commit
finish_fill link before after (ok ts) = commit link before after ts
finish_fill link before after (err e) = (rollback before after, err e)

abbrev pub finish_batch :
    Postgres → Link → Db → List Task → Db × Result (List (Option Task)) → Db × Result (List Task)
unfolding finish_fill fill_all
finish_batch pg link before ts (after, ok slots) =
    finish_fill link before after (fill_all pg after ts slots)
finish_batch pg link before ts (after, err e) = (rollback before after, err e)

-- `link` is that of Begin, `link'` that of Commit; a connection that breaks in between is a Commit
-- that never arrives.
unfoldable pub enqueue_bulk : Postgres → Link → Link → ℕ → List Task → Db → Db × Result (List Task)
unfolding finish_batch insert_all
enqueue_bulk pg link link' now [] db = (db, ok [])
enqueue_bulk pg up link' now (t ∷ ts) db =
    finish_batch pg link' db (t ∷ ts) (insert_all pg now (t ∷ ts) db)
enqueue_bulk pg _ link' now (t ∷ ts) db = (db, err unavailable)
