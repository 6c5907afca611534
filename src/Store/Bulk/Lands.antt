-- ===== src/Store/Bulk/Lands.antt =====
-- The keys that a bulk submission leaves taken.
use tick.Base.{
  ℕ, ◌≡◌, refl, sym, ◌∙◌, ap, subst, inl, inr, Bool, true, false, Option, some, none, List, [], ◌∷◌,
  ◌++◌, arith, Text, All, ◌=?◌, ◌=??◌, =?-refl, =??-some, Bool-cases, Option-cases,
}
use tick.Domain.{Task, Result, ok, err}
use tick.Database.{Db, Postgres, Link, up, down, lost}
use tick.Database.Checks.{checks, has_key, conflict, references}
use tick.Store.Growth.{insert_all-keeps}
use tick.Store.Bulk.Laws.{not-ok}
use tick.Store.Enqueue.Laws.{find-snoc}
use tick.Store.Enqueue.{sound, new_row, place, rows_after, insert_task, insert_statement}
use tick.Store.Bulk.{
  insert_all, fill_all, enqueue_bulk, slot, next_slot, cons_slot, finish_batch, finish_fill,
}
use tick.Store.Bulk.Repeats.{Taken, Taken-key, Taken-find, HasKey, conflict-new_row}

place-lands :
    (rows : List Task) (r t : Task) (b : Bool) (found : Option Task) (f : Bool) (o : Option Task)
    → HasKey t
    → conflict t rows ≡ found
    → r.queue ≡ t.queue
    → r.idempotency_key ≡ t.idempotency_key
    → place r b found f ≡ ok o
    → Taken (rows_after rows (place r b found f)) t
unfolding conflict
place-lands rows r t false found f o k c q i e = absurd (cc)
place-lands rows r t true (some x) f o k c q i e = (x, c)
place-lands rows r t true none false o k c q i e = absurd (cc)
place-lands rows r t true none true o (key, k) c q i e =
    let same_queue : (r.queue =? t.queue) ≡ true =
      subst (λ x. (x =? t.queue) ≡ true) (sym q) (=?-refl t.queue) in
    let same_key : (r.idempotency_key =?? key) ≡ true = =??-some r.idempotency_key key (i ∙ k) in
    Taken-find t key (rows ++ r ∷ []) r k
      (find-snoc (has_key t.queue key) rows r (rw (k, conflict) at c) (ground arith))

insert_task-lands :
    (now : ℕ) (document : Text) (t : Task) (db d : Db) (o : Option Task)
    → HasKey t
    → insert_task now document t db ≡ (d, ok o)
    → Taken d.tasks t
unfolding insert_task new_row
insert_task-lands now document t db d o k e =
    let r = new_row now document t db.next_task_id in
    let found = conflict t db.tasks in
    let answer : place r (checks r) (conflict r db.tasks) (references r db.schedules) ≡ ok o =
      ap (λ (m : Db × Result (Option Task)). m.1) e in
    let same : rows_after db.tasks
          (place r (checks r) (conflict r db.tasks) (references r db.schedules))
        ≡ d.tasks =
      ap (λ (m : Db × Result (Option Task)). m.0.tasks) e in
    subst (λ rows. Taken rows t) same
      (place-lands db.tasks r t (checks r) (conflict r db.tasks) (references r db.schedules) o k
        (sym (conflict-new_row now db.next_task_id document t db.tasks)) refl refl answer)

insert_statement-lands :
    (pg : Postgres) (now : ℕ) (t : Task) (db d : Db) (o : Option Task)
    → HasKey t
    → insert_statement pg up now t db ≡ (d, ok o)
    → Taken d.tasks t
unfolding insert_statement
insert_statement-lands pg now t db d o k e = elim (Option-cases (pg.to_jsonb t.payload)) [
  | inl n ↦ absurd (not-ok (rw (n, insert_statement) at e))
  | inr (document, j) ↦ elim (Bool-cases (sound pg t)) [
    | inl s ↦ insert_task-lands now document t db d o k (rw s at (rw (j, insert_statement) at e))
    | inr s ↦ absurd (not-ok (rw s at (rw (j, insert_statement) at e)))
  ]
]

cons_slot-ok :
    (s : Option Task) (r : Db × Result (List (Option Task))) (after : Db)
    (slots : List (Option Task))
    → cons_slot s r ≡ (after, ok slots)
    → (rest : List (Option Task)) × (r ≡ (after, ok rest))
cons_slot-ok s (d, ok rest) after slots e =
    (rest, ap (λ (x : Db). (x, ok rest)) (ap (λ (m : Db × Result (List (Option Task))). m.0) e))
cons_slot-ok s (d, err x) after slots e = absurd (not-ok e)

next_slot-ok :
    (d : Db) (s : Result (Option Task)) (rest : Db → Db × Result (List (Option Task))) (after : Db)
    (slots : List (Option Task))
    → next_slot d s rest ≡ (after, ok slots)
    → (slots' : List (Option Task)) × (rest d ≡ (after, ok slots'))
next_slot-ok d (ok s) rest after slots e = cons_slot-ok s (rest d) after slots e
next_slot-ok d (err x) rest after slots e = absurd (not-ok e)

Taken-insert_all :
    (pg : Postgres) (now : ℕ) (ts : List Task) (t : Task) (db : Db)
    → Taken db.tasks t
    → Taken (insert_all pg now ts db).0.tasks t
Taken-insert_all pg now ts t db taken =
    let (key, u, k, e) = Taken-key t db.tasks taken in
    Taken-find t key (insert_all pg now ts db).0.tasks u k
      (insert_all-keeps pg now ts db (has_key t.queue key) u e)

insert_all-lands :
    (pg : Postgres) (now : ℕ) (ts : List Task) (db after : Db) (slots : List (Option Task))
    → All HasKey ts
    → insert_all pg now ts db ≡ (after, ok slots)
    → All (Taken after.tasks) ts
unfolding insert_all
insert_all-lands pg now [] db after slots keyed e = tt
insert_all-lands pg now (t ∷ ts) db after slots keyed e =
    let (d, inserted) = insert_statement pg up now t db in
    step d inserted refl e (λ d' rest f. insert_all-lands pg now ts d' after rest keyed.1 f)
  where
    step :
        (d : Db) (inserted : Result (Option Task))
        → insert_statement pg up now t db ≡ (d, inserted)
        → next_slot d (slot t inserted) (insert_all pg now ts) ≡ (after, ok slots)
        → ((d' : Db) (rest : List (Option Task))
            → insert_all pg now ts d' ≡ (after, ok rest)
            → All (Taken after.tasks) ts)
        → All (Taken after.tasks) (t ∷ ts)
    step d (err x) i g ih = absurd (not-ok g)
    step d (ok o) i g ih =
        let (rest, f) = next_slot-ok d (slot t (ok o)) (insert_all pg now ts) after slots g in
        (
          subst (λ (x : Db). Taken x.tasks t) (ap (λ (m : Db × Result (List (Option Task))). m.0) f)
              (Taken-insert_all pg now ts t d (insert_statement-lands pg now t db d o keyed.0 i)),
          ih d rest f,
        )

-- A keyed batch that succeeds leaves each of its keys taken.
pub enqueue_bulk-lands :
    (pg : Postgres) (link link' : Link) (now : ℕ) (ts : List Task) (db after : Db) (out : List Task)
    → All HasKey ts
    → enqueue_bulk pg link link' now ts db ≡ (after, ok out)
    → All (Taken after.tasks) ts
unfolding enqueue_bulk
enqueue_bulk-lands pg link link' now [] db after out keyed e = tt
enqueue_bulk-lands pg down link' now (t ∷ ts) db after out keyed e = absurd (not-ok e)
enqueue_bulk-lands pg lost link' now (t ∷ ts) db after out keyed e = absurd (not-ok e)
enqueue_bulk-lands pg up link' now (t ∷ ts) db after out keyed e =
    let (d, slots) = insert_all pg now (t ∷ ts) db in batch d slots refl e
  where
    filled :
        (link : Link) (d : Db) (r : Result (List Task))
        → finish_fill link db d r ≡ (after, ok out)
        → d ≡ after
    filled up d (ok ts') g = ap (λ (m : Db × Result (List Task)). m.0) g
    filled down d (ok ts') g = absurd (not-ok g)
    filled lost d (ok ts') g = absurd (not-ok g)
    filled link d (err x) g = absurd (not-ok g)

    batch :
        (d : Db) (slots : Result (List (Option Task)))
        → insert_all pg now (t ∷ ts) db ≡ (d, slots)
        → finish_batch pg link' db (t ∷ ts) (d, slots) ≡ (after, ok out)
        → All (Taken after.tasks) (t ∷ ts)
    batch d (err x) i g = absurd (not-ok g)
    batch d (ok slots) i g =
        let same = filled link' d (fill_all pg d (t ∷ ts) slots) g in
        insert_all-lands pg now (t ∷ ts) db after slots keyed
          (i ∙ ap (λ (x : Db). (x, ok slots)) same)
