-- ===== src/Store/Bulk/Laws.antt =====
-- EnqueueBulk against one Enqueue for each task.
use tick.Base.{
  ℕ, ◌≡◌, refl, sym, ◌∙◌, ap, inl, inr, Bool, true, false, Option, some, none, List, [], ◌∷◌, map,
  Text, find, Bool-cases, Option-cases,
}
use tick.Domain.{Task, Result, ok, err, Error}
use tick.Database.{Db, Postgres, up, all_ok}
use tick.Database.Checks.{checks, has_key, conflict, references}
use tick.Store.Enqueue.{
  sound, new_row, place, rows_after, insert_task, insert_statement, select_by_key, Enqueued,
  created, duplicate, refused, enqueue,
}
use tick.Store.Enqueue.Laws.{key-sound, conflict-key}
use tick.Store.Bulk.{fill_all}

-- One Enqueue after the other.
unfoldable pub enqueue_each : Postgres → ℕ → List Task → Db → Db × List Enqueued
enqueue_each pg now [] db = (db, [])
enqueue_each pg now (t ∷ ts) db =
    let (db', answer) = enqueue pg up up (λ d. d) now t db in
    let (db'', answers) = enqueue_each pg now ts db' in (db'', answer ∷ answers)

-- The task that an answer carries.
abbrev pub task_of : Enqueued → Option Task
task_of (created t) = some t
task_of (duplicate t) = some t
task_of (refused e) = none

place-none :
    (r : Task) (b : Bool) (found : Option Task) (f : Bool)
    → place r b found f ≡ ok none
    → (x : Task) × (found ≡ some x)
place-none r false found f e = absurd (cc)
place-none r true (some x) f e = (x, refl)
place-none r true none true e = absurd (cc)
place-none r true none false e = absurd (cc)

pub not-ok :
    {A : Type 0} {d d' : Db} {e : Error} {a : A} → ◌≡◌ {A = Db × Result A} (d', err e) (d, ok a) → ⊥
not-ok {A} h = cc (ap (λ (m : Db × Result A). m.1) h)

-- Where the INSERT is skipped, a row has the key.
insert_task-skips :
    (now : ℕ) (document key : Text) (t : Task) (db d : Db)
    → t.idempotency_key ≡ some key
    → insert_task now document t db ≡ (d, ok none)
    → (x : Task) × (find (has_key t.queue key) d.tasks ≡ some x)
unfolding insert_task
insert_task-skips now document key t db d k e =
    let r = new_row now document t db.next_task_id in
    let skipped : place r (checks r) (conflict r db.tasks) (references r db.schedules) ≡ ok none =
      ap (λ (m : Db × Result (Option Task)). m.1) e in
    let (x, met) =
      place-none r (checks r) (conflict r db.tasks) (references r db.schedules) skipped in
    let same : d.tasks ≡ db.tasks =
      sym (ap (λ (m : Db × Result (Option Task)). m.0.tasks) e)
      ∙ ap (rows_after db.tasks) skipped in
    (
      x,
      ap (find (has_key t.queue key)) same
          ∙ sym (conflict-key now db.next_task_id document key t db.tasks k)
          ∙ met,
    )

-- A skipped INSERT leaves a row that the query by key finds, now and in every database that keeps it.
pub insert_statement-skips :
    (pg : Postgres) (now : ℕ) (t : Task) (key : Text) (db d : Db)
    → t.idempotency_key ≡ some key
    → insert_statement pg up now t db ≡ (d, ok none)
    → (x : Task) × (find (has_key t.queue key) d.tasks ≡ some x)
      × (all_ok pg.text_ok (t.queue ∷ key ∷ []) ≡ true)
unfolding insert_statement
insert_statement-skips pg now t key db d k e = elim (Option-cases (pg.to_jsonb t.payload)) [
  | inl n ↦ absurd (not-ok (rw (n, insert_statement) at e))
  | inr (document, j) ↦ elim (Bool-cases (sound pg t)) [
    | inl s ↦
        let (x, found) =
          insert_task-skips now document key t db d k (rw s at (rw (j, insert_statement) at e)) in
        (x, found, key-sound pg t key k s)
    | inr u ↦ absurd (not-ok (rw u at (rw (j, insert_statement) at e)))
  ]
]

pub select-kept :
    (pg : Postgres) (queue key : Text) (d : Db) (x : Task)
    → all_ok pg.text_ok (queue ∷ key ∷ []) ≡ true
    → find (has_key queue key) d.tasks ≡ some x
    → (select_by_key pg up queue key d).1 ≡ ok x
unfolding select_by_key
select-kept pg queue key d x fine e = rw (fine, e) refl

-- `d` has every row that a query finds in `db`.
abbrev pub Keeps : Db → Db → Type 0
Keeps db d = (q : Task → Bool) (x : Task) → find q db.tasks ≡ some x → find q d.tasks ≡ some x

-- What the loops of EnqueueBulk make of the tasks, against one Enqueue for each.
abbrev pub Agrees : Postgres → ℕ → List Task → Db → Db → List (Option Task) → Db → Type 0
Agrees pg now ts db after slots final =
    (out : List Task) × ((enqueue_each pg now ts db).0 ≡ after)
    × (fill_all pg final ts slots ≡ ok out)
    × (map task_of (enqueue_each pg now ts db).1 ≡ map some out)
