-- ===== src/Store/Enqueue/Laws.antt =====
-- Idempotent submission.
use tick.Base.{
  ℕ, ◌+◌, ◌≡◌, refl, ◌∙◌, ap, Bool, true, false, Option, some, none, List, [], ◌∷◌, ◌++◌, arith,
  Text, find, =?-refl, =??-some, ◌=??◌, if◌then◌else◌,
}
use tick.Domain.{Task, Result, ok}
use tick.Database.{Db, Postgres, up, lost, all_ok}
use tick.Database.Checks.{checks, has_key, conflict, references}
use tick.Store.History.Valid.{resolve-db}
use tick.Store.Enqueue.{
  sound, new_row, place, rows_after, insert_statement, select_by_key, duplicate, resolve, enqueue,
  as_duplicate,
}

-- A submission that the database accepts: its parameters, its payload as JSONB, the CHECK
-- constraints and the foreign key.
pub record IsAccepted (pg : Postgres) (t : Task) (document : Text) (db : Db) : Type 0 where
  pub parameters : sound pg t ≡ true
  pub json : pg.to_jsonb t.payload ≡ some document
  pub constraints : checks (new_row 0 document t 0) ≡ true
  pub known_schedule : references t db.schedules ≡ true

pub key-sound :
    (pg : Postgres) (t : Task) (key : Text)
    → t.idempotency_key ≡ some key
    → sound pg t ≡ true
    → all_ok pg.text_ok (t.queue ∷ key ∷ []) ≡ true
unfolding sound
key-sound pg t key k h = ground arith

pub find-snoc :
    (q : Task → Bool) (ts : List Task) (r : Task)
    → find q ts ≡ none
    → q r ≡ true
    → find q (ts ++ r ∷ []) ≡ some r
unfolding find
find-snoc q [] r n h = rw h
find-snoc q (t ∷ ts) r n h = ground (arith, find-snoc q ts r)

-- The constraints and the foreign key do not depend on the clock or on the id.
checks-new_row :
    (now id : ℕ) (document : Text) (t : Task)
    → checks (new_row now document t id) ≡ checks (new_row 0 document t 0)
unfolding checks new_row
checks-new_row now id document t = refl

references-new_row :
    (now id : ℕ) (document : Text) (t : Task) (db : Db)
    → references (new_row now document t id) db.schedules ≡ references t db.schedules
unfolding references new_row
references-new_row now id document t db = refl

pub conflict-key :
    (now id : ℕ) (document key : Text) (t : Task) (ts : List Task)
    → t.idempotency_key ≡ some key
    → conflict (new_row now document t id) ts ≡ find (has_key t.queue key) ts
unfolding conflict new_row
conflict-key now id document key t ts e = rw e refl

new_row-has_key :
    (now id : ℕ) (document key : Text) (t : Task)
    → t.idempotency_key ≡ some key
    → has_key t.queue key (new_row now document t id) ≡ true
unfolding new_row
new_row-has_key now id document key t e =
    let own : (t.idempotency_key =?? key) ≡ true = =??-some t.idempotency_key key e in
    rw (=?-refl t.queue, own) refl

-- `insert_task` by what its three tests answer.
outcome : Db → Task → Bool → Option Task → Bool → Db × Result (Option Task)
outcome db r b o f =
    let placed = place r b o f in
    (record db { tasks = rows_after db.tasks placed; next_task_id = db.next_task_id + 1 }, placed)

module _ (pg : Postgres) (t : Task) (document key : Text)
    (keyed : t.idempotency_key ≡ some key) where
  insert-outcome :
      (now : ℕ) (db : Db) (found : Option Task)
      → IsAccepted pg t document db
      → find (has_key t.queue key) db.tasks ≡ found
      → insert_statement pg up now t db
        ≡ outcome db (new_row now document t db.next_task_id) true found true
  unfolding outcome insert_statement
  insert-outcome now db found a e =
      let r = new_row now document t db.next_task_id in
      let c = checks-new_row now db.next_task_id document t ∙ a.constraints in
      let k = conflict-key now db.next_task_id document key t db.tasks keyed ∙ e in
      let f = references-new_row now db.next_task_id document t db ∙ a.known_schedule in
      rw (a.json, insert_statement)
        (rw a.parameters (
          ap (λ b. outcome db r b (conflict r db.tasks) (references r db.schedules)) c
          ∙ ap (λ o. outcome db r true o (references r db.schedules)) k
          ∙ ap (λ b. outcome db r true found b) f))

  -- A first submission is inserted; with the reply or without it, the table is the same.
  insert-dropped :
      (dropped : Bool) (now : ℕ) (db : Db)
      → IsAccepted pg t document db
      → (insert_statement pg (if dropped then lost else up) now t db).0
        ≡ (insert_statement pg up now t db).0
  unfolding insert_statement
  insert-dropped true now db a = rw (a.json, insert_statement) (rw a.parameters refl)
  insert-dropped false now db a = refl

  select-found :
      (db : Db) (r : Task)
      → IsAccepted pg t document db
      → find (has_key t.queue key) db.tasks ≡ some r
      → (select_by_key pg up t.queue key db).1 ≡ ok r
  unfolding select_by_key
  select-found db r a e = rw (key-sound pg t key keyed a.parameters) (rw e refl)

  -- A submission whose key is taken returns the row that has the key, and inserts nothing.
  pub enqueue-taken :
      (now : ℕ) (db : Db) (r : Task)
      → IsAccepted pg t document db
      → find (has_key t.queue key) db.tasks ≡ some r
      → enqueue pg up up (λ d. d) now t db
        ≡ (record db { next_task_id = db.next_task_id + 1 }, duplicate r)
  unfolding enqueue outcome
  enqueue-taken now db r a e =
      let later = record db { next_task_id = db.next_task_id + 1 } in
      ap (λ (m : Db × Result (Option Task)). resolve pg up (λ d. d) t t.idempotency_key m.0 m.1)
        (insert-outcome now db (some r) a e)
      ∙ ap (λ k. resolve pg up (λ d. d) t k later (ok none)) keyed
      ∙ ap (λ m. (later, as_duplicate m)) (select-found later r (later_accepts db a) e)
    where
      later_accepts :
          (db : Db)
          → IsAccepted pg t document db
          → IsAccepted pg t document (record db { next_task_id = db.next_task_id + 1 })
      later_accepts db a = record {
        parameters = a.parameters;
        json = a.json;
        constraints = a.constraints;
        known_schedule = a.known_schedule;
      }

  enqueue-fresh :
      (dropped : Bool) (now : ℕ) (db : Db)
      → IsAccepted pg t document db
      → find (has_key t.queue key) db.tasks ≡ none
      → (enqueue pg (if dropped then lost else up) up (λ d. d) now t db).0 ≡ record db {
        tasks = db.tasks ++ new_row now document t db.next_task_id ∷ [];
        next_task_id = db.next_task_id + 1;
      }
  unfolding enqueue outcome
  enqueue-fresh dropped now db a e =
      let link = if dropped then lost else up in
      let (db', inserted) = insert_statement pg link now t db in
      resolve-db pg up t t.idempotency_key db' inserted
      ∙ insert-dropped dropped now db a
      ∙ ap (λ (m : Db × Result (Option Task)). m.0) (insert-outcome now db none a e)

  -- A client that submits a task with an idempotency key again, whether or not it received the reply
  -- to its first submission, gets the task that the first submission created, as a duplicate, and no
  -- second task is inserted.
  pub resubmission_is_idempotent :
      (dropped : Bool) (now now' : ℕ) (db : Db)
      → IsAccepted pg t document db
      → find (has_key t.queue key) db.tasks ≡ none
      → let r = new_row now document t db.next_task_id in
        let first = enqueue pg (if dropped then lost else up) up (λ d. d) now t db in
        let second = enqueue pg up up (λ d. d) now' t first.0 in
        (first.0.tasks ≡ db.tasks ++ r ∷ [])
        × (second.0.tasks ≡ first.0.tasks)
        × (second.1 ≡ duplicate r)
  resubmission_is_idempotent dropped now now' db a fresh =
      let r = new_row now document t db.next_task_id in
      let db' = record db { tasks = db.tasks ++ r ∷ []; next_task_id = db.next_task_id + 1 } in
      let found =
        find-snoc (has_key t.queue key) db.tasks r fresh
          (new_row-has_key now db.next_task_id document key t keyed) in
      rw (enqueue-fresh dropped now db a fresh)
        (rw (enqueue-taken now' db' r (grown_accepts db r a) found) (refl, refl, refl))
    where
      grown_accepts :
          (db : Db) (r : Task)
          → IsAccepted pg t document db
          → IsAccepted pg t document
              (record db { tasks = db.tasks ++ r ∷ []; next_task_id = db.next_task_id + 1 })
      grown_accepts db r a = record {
        parameters = a.parameters;
        json = a.json;
        constraints = a.constraints;
        known_schedule = a.known_schedule;
      }
