-- ===== src/Store/Enqueue/Created.antt =====
-- The row of a task that Enqueue reports as created.
use tick.Base.{
  ℕ, ◌≡◌, refl, sym, ◌∙◌, ap, subst, inl, inr, Bool, true, false, Option, none, some, List, [], ◌∷◌,
  ◌++◌, Text, Bool-cases, Option-cases,
}
use mathlib.Core.Path.{ap₂}
use tick.Base.Members.{In, All-In}
use tick.Domain.{Task, Result, ok, err}
use tick.Database.{Db, Postgres, up}
use tick.Database.Checks.{checks, conflict, references}
use tick.Store.{row}
use tick.Store.Table.{find-row}
use tick.Store.Bulk.Laws.{not-ok}
use tick.Store.History.Valid.{IsValid, enqueue-IsValid}
use tick.Store.Enqueue.{
  new_row, sound, place, rows_after, insert_task, insert_statement, Enqueued, created, as_duplicate,
  resolve, enqueue,
}

as_duplicate-created : (r : Result Task) (t : Task) → as_duplicate r ≡ created t → ⊥
as_duplicate-created (ok x) t e = cc
as_duplicate-created (err x) t e = cc

resolve-created :
    (pg : Postgres) (t : Task) (key : Option Text) (d after : Db) (inserted : Result (Option Task))
    (r : Task)
    → resolve pg up (λ x. x) t key d inserted ≡ (after, created r)
    → (d ≡ after) × (inserted ≡ ok (some r))
unfolding resolve
resolve-created pg t key d after (ok (some x)) r e =
    let same : x ≡ r = cc (ap (λ (m : Db × Enqueued). m.1) e) in
    (ap (λ (m : Db × Enqueued). m.0) e, ap (λ y. ok (some y)) same)
resolve-created pg t none d after (ok none) r e = absurd (cc (ap (λ (m : Db × Enqueued). m.1) e))
resolve-created pg t (some key) d after (ok none) r e =
    absurd (as_duplicate-created _ r (ap (λ (m : Db × Enqueued). m.1) e))
resolve-created pg t key d after (err x) r e = absurd (cc (ap (λ (m : Db × Enqueued). m.1) e))

place-some :
    (r x : Task) (b : Bool) (found : Option Task) (f : Bool)
    → place r b found f ≡ ok (some x)
    → r ≡ x
place-some r x false found f e = absurd (cc)
place-some r x true (some y) f e = absurd (cc)
place-some r x true none false e = absurd (cc)
place-some r x true none true e = cc e

-- The new row, at the end of the table.
abbrev pub IsNew : ℕ → Task → Db → Db → Task → Type 0
IsNew now t db after r =
    (document : Text) × (r ≡ new_row now document t db.next_task_id)
    × (after.tasks ≡ db.tasks ++ r ∷ [])

insert_task-IsNew :
    (now : ℕ) (document : Text) (t : Task) (db after : Db) (r : Task)
    → insert_task now document t db ≡ (after, ok (some r))
    → IsNew now t db after r
unfolding insert_task
insert_task-IsNew now document t db after r e =
    let n = new_row now document t db.next_task_id in
    let placed : place n (checks n) (conflict n db.tasks) (references n db.schedules)
        ≡ ok (some r) =
      ap (λ (m : Db × Result (Option Task)). m.1) e in
    (
      document,
      sym (place-some n r (checks n) (conflict n db.tasks) (references n db.schedules) placed),
      sym (ap (λ (m : Db × Result (Option Task)). m.0.tasks) e) ∙ ap (rows_after db.tasks) placed,
    )

insert_statement-IsNew :
    (pg : Postgres) (now : ℕ) (t : Task) (db after : Db) (r : Task)
    → insert_statement pg up now t db ≡ (after, ok (some r))
    → IsNew now t db after r
unfolding insert_statement
insert_statement-IsNew pg now t db after r e = elim (Option-cases (pg.to_jsonb t.payload)) [
  | inl n ↦ absurd (not-ok (rw (n, insert_statement) at e))
  | inr (document, j) ↦ elim (Bool-cases (sound pg t)) [
    | inl s ↦ insert_task-IsNew now document t db after r (rw s at (rw (j, insert_statement) at e))
    | inr s ↦ absurd (not-ok (rw s at (rw (j, insert_statement) at e)))
  ]
]

In-last : (r : Task) (ts : List Task) → In r (ts ++ r ∷ [])
In-last r [] = inl refl
In-last r (t ∷ ts) = inr (In-last r ts)

-- A task that Enqueue reports as created, on a valid database, is the new row of the submission and is
-- the row that has its id.
pub enqueue-created :
    (pg : Postgres) (now : ℕ) (t : Task) (db : Db) (r : Task)
    → IsValid db
    → (enqueue pg up up (λ d. d) now t db).1 ≡ created r
    → let after = (enqueue pg up up (λ d. d) now t db).0 in
      IsNew now t db after r × (row r.id after ≡ some r)
enqueue-created pg now t db r v e =
    let after = (enqueue pg up up (λ d. d) now t db).0 in
    let whole : enqueue pg up up (λ d. d) now t db ≡ (after, created r) =
      ap (λ (x : Enqueued). (after, x)) e in
    let (d, inserted) = insert_statement pg up now t db in
    let (same, placed) =
      resolve-created pg t t.idempotency_key d after inserted r (unfold enqueue in whole) in
    let new =
      insert_statement-IsNew pg now t db after r
        (ap₂ (λ (x : Db) (y : Result (Option Task)). (x, y)) same placed) in
    let there : In r after.tasks = subst (In r) (sym new.2) (In-last r db.tasks) in
    let valid = enqueue-IsValid pg up up now t db v in
    (new, All-In _ r after.tasks (find-row 0 after.next_task_id after.tasks valid.ascending) there)
