-- ===== src/Store/Bulk/Refines.antt =====
-- EnqueueBulk as a sequence of Enqueue calls, and its transaction.
use tick.Base.{
  ℕ, ◌≡◌, ◌≢◌, refl, sym, ◌∙◌, ap, inl, inr, Bool, true, false, Option, some, none, List, [], ◌∷◌,
  map, Text, Option-cases,
}
use mathlib.Core.Path.{ap₂}
use tick.Domain.{Task, Result, ok, err, Error}
use tick.Database.{Db, Postgres, Link, up, down, lost}
use tick.Database.Checks.{has_key}
use tick.Store.Growth.{insert_all-keeps}
use tick.Store.Enqueue.{
  insert_statement, select_by_key, Enqueued, created, duplicate, resolve, enqueue, as_duplicate,
}
use tick.Store.Bulk.{
  insert_all, fill_all, enqueue_bulk, slot, next_slot, cons_slot, fill, finish_batch, finish_fill,
  rollback,
}
use tick.Store.Bulk.Laws.{
  enqueue_each, task_of, insert_statement-skips, select-kept, Keeps, Agrees, not-ok,
}

pub ok-injective : {A : Type 0} {a b : A} → ok a ≡ ok b → a ≡ b
ok-injective e = cc

fill-nil : (pg : Postgres) (db : Db) (slots : List (Option Task)) → fill_all pg db [] slots ≡ ok []
unfolding fill_all
fill-nil pg db [] = refl
fill-nil pg db (s ∷ slots) = refl

cons_slot-inverse :
    (s : Option Task) (m : Db × Result (List (Option Task))) (after : Db)
    (slots : List (Option Task))
    → cons_slot s m ≡ (after, ok slots)
    → (rest : List (Option Task)) × (m ≡ (after, ok rest)) × (slots ≡ s ∷ rest)
cons_slot-inverse s (d, ok rest) after slots e = (
  rest,
  ap (λ (m : Db × Result (List (Option Task))). (m.0, ok rest)) e,
  ok-injective (sym (ap (λ (m : Db × Result (List (Option Task))). m.1) e)),
)
cons_slot-inverse s (d, err x) after slots e = absurd (not-ok e)

module _ (pg : Postgres) (now : ℕ) (final : Db) where
  -- One task, whose Enqueue answers `a` and whose place in the batch is filled with the same task.
  one_more :
      (t : Task) (ts : List Task) (db d after : Db) (a : Enqueued) (s : Option Task) (x : Task)
      (slots : List (Option Task))
      → enqueue pg up up (λ e. e) now t db ≡ (d, a)
      → task_of a ≡ some x
      → fill pg final t s t.idempotency_key ≡ ok x
      → cons_slot s (insert_all pg now ts d) ≡ (after, ok slots)
      → ((rest : List (Option Task))
          → insert_all pg now ts d ≡ (after, ok rest)
          → Agrees pg now ts d after rest final)
      → Agrees pg now (t ∷ ts) db after slots final
  unfolding enqueue_each fill_all
  one_more t ts db d after a s x slots answered carries filled e ih =
      let (rest, inserted, shape) = cons_slot-inverse s (insert_all pg now ts d) after slots e in
      let (out, same, full, agree) = ih rest inserted in
      (
        x ∷ out,
        rw answered same,
        rw shape (rw (filled, full) refl),
        rw answered (ap₂ ◌∷◌ carries agree),
      )

  enqueue-by :
      (t : Task) (db d : Db) (inserted : Result (Option Task)) (key : Option Text)
      → insert_statement pg up now t db ≡ (d, inserted)
      → t.idempotency_key ≡ key
      → enqueue pg up up (λ e. e) now t db ≡ resolve pg up (λ e. e) t key d inserted
  unfolding enqueue
  enqueue-by t db d inserted key i k =
      ap (λ (m : Db × Result (Option Task)). resolve pg up (λ e. e) t t.idempotency_key m.0 m.1) i
      ∙ ap (λ o. resolve pg up (λ e. e) t o d inserted) k

  -- One turn of the batch, by the answer of its INSERT.
  batch_step :
      (t : Task) (ts : List Task) (db after : Db) (slots : List (Option Task))
      → Keeps after final
      → ((d : Db) (rest : List (Option Task))
          → insert_all pg now ts d ≡ (after, ok rest)
          → Agrees pg now ts d after rest final)
      → (d : Db) (inserted : Result (Option Task)) → insert_statement pg up now t db ≡ (d, inserted)
      → next_slot d (slot t inserted) (insert_all pg now ts) ≡ (after, ok slots)
      → Agrees pg now (t ∷ ts) db after slots final
  unfolding select_by_key
  batch_step t ts db after slots keeps ih d (ok (some r)) i f =
      one_more t ts db d after (created r) (some r) r slots
        (enqueue-by t db d (ok (some r)) t.idempotency_key i refl) refl refl f (ih d)
  batch_step t ts db after slots keeps ih d (ok none) i f = elim (Option-cases t.idempotency_key) [
    | inl n ↦ absurd (not-ok (rw n at f))
    | inr (key, k) ↦
        let (x, found, fine) = insert_statement-skips pg now t key db d k i in
        let g = rw k at f in
        let (rest, inserted, _) = cons_slot-inverse none (insert_all pg now ts d) after slots g in
        let grown = insert_all-keeps pg now ts d (has_key t.queue key) x found in
        let grown' = rw inserted at grown in
        let last = keeps (has_key t.queue key) x grown' in
        one_more t ts db d after (duplicate x) none x slots
          (enqueue-by t db d (ok none) (some key) i k
            ∙ ap (λ m. (d, as_duplicate m)) (select-kept pg t.queue key d x fine found))
          refl (rw k (select-kept pg t.queue key final x fine last)) g (ih d)
  ]
  batch_step t ts db after slots keeps ih d (err x) i f = absurd (not-ok f)

  insert_all-Agrees :
      (ts : List Task) (db after : Db) (slots : List (Option Task))
      → insert_all pg now ts db ≡ (after, ok slots)
      → Keeps after final
      → Agrees pg now ts db after slots final
  unfolding insert_all enqueue enqueue_each fill_all
  insert_all-Agrees [] db after slots e keeps =
      ([], ap (λ (m : Db × Result (List (Option Task))). m.0) e, fill-nil pg final slots, refl)
  insert_all-Agrees (t ∷ ts) db after slots e keeps =
      let (d, inserted) = insert_statement pg up now t db in
      batch_step t ts db after slots keeps (λ d' rest f. insert_all-Agrees ts d' after rest f keeps)
        d inserted refl e

enqueue_bulk-done :
    (pg : Postgres) (now : ℕ) (t : Task) (ts : List Task) (db after : Db)
    (slots : List (Option Task))
    → insert_all pg now (t ∷ ts) db ≡ (after, ok slots)
    → (out : List Task) × (enqueue_bulk pg up up now (t ∷ ts) db ≡ (after, ok out))
      × ((enqueue_each pg now (t ∷ ts) db).0 ≡ after)
      × (map task_of (enqueue_each pg now (t ∷ ts) db).1 ≡ map some out)
unfolding enqueue_bulk
enqueue_bulk-done pg now t ts db after slots e =
    let (out, same, full, agree) =
      insert_all-Agrees pg now after (t ∷ ts) db after slots e (λ q x f. f) in
    (out, rw e (rw full refl), same, agree)

enqueue_bulk-failed :
    (pg : Postgres) (now : ℕ) (t : Task) (ts : List Task) (db d : Db) (x : Error)
    → insert_all pg now (t ∷ ts) db ≡ (d, err x)
    → enqueue_bulk pg up up now (t ∷ ts) db ≡ (rollback db d, err x)
unfolding enqueue_bulk
enqueue_bulk-failed pg now t ts db d x e = rw e refl

-- A bulk submission that succeeds commits exactly the tables that one Enqueue for each task, in
-- order, would leave, and returns the tasks that those would return, in submission order and the
-- originals of duplicates included.
pub enqueue_bulk-refines :
    (pg : Postgres) (now : ℕ) (ts : List Task) (db after : Db) (out : List Task)
    → enqueue_bulk pg up up now ts db ≡ (after, ok out)
    → ((enqueue_each pg now ts db).0 ≡ after)
      × (map task_of (enqueue_each pg now ts db).1 ≡ map some out)
enqueue_bulk-refines pg now [] db after out e =
    unfold enqueue_bulk enqueue_each in
    (
      ap (λ (m : Db × Result (List Task)). m.0) e,
      ap (map some) (ok-injective (ap (λ (m : Db × Result (List Task)). m.1) e)),
    )
enqueue_bulk-refines pg now (t ∷ ts) db after out e =
    let (d, slots) = insert_all pg now (t ∷ ts) db in by_batch d slots refl
  where
    by_batch :
        (d : Db) (slots : Result (List (Option Task)))
        → insert_all pg now (t ∷ ts) db ≡ (d, slots)
        → ((enqueue_each pg now (t ∷ ts) db).0 ≡ after)
          × (map task_of (enqueue_each pg now (t ∷ ts) db).1 ≡ map some out)
    by_batch d (ok slots) f =
        let (out', done, same, agree) = enqueue_bulk-done pg now t ts db d slots f in
        let equal = sym done ∙ e in
        (
          same ∙ ap (λ (m : Db × Result (List Task)). m.0) equal,
          agree ∙ ap (map some) (ok-injective (ap (λ (m : Db × Result (List Task)). m.1) equal)),
        )
    by_batch d (err x) f = absurd (not-ok (sym (enqueue_bulk-failed pg now t ts db d x f) ∙ e))

abbrev is_ok : Result (List Task) → Bool
is_ok (ok ts) = true
is_ok (err e) = false

-- A bulk submission that is refused, or whose commit does not arrive, leaves the tasks as they were.
pub enqueue_bulk_atomic :
    (pg : Postgres) (link link' : Link) (now : ℕ) (ts : List Task) (db : Db)
    → link' ≢ lost
    → is_ok (enqueue_bulk pg link link' now ts db).1 ≡ false
    → (enqueue_bulk pg link link' now ts db).0.tasks ≡ db.tasks
unfolding enqueue_bulk
enqueue_bulk_atomic pg link link' now [] db arrives h = refl
enqueue_bulk_atomic pg up link' now (t ∷ ts) db arrives h =
    let (d, slots) = insert_all pg now (t ∷ ts) db in by_slots d slots h
  where
    by_link :
        (l : Link) (d : Db) (r : Result (List Task))
        → l ≢ lost
        → is_ok (finish_fill l db d r).1 ≡ false
        → (finish_fill l db d r).0.tasks ≡ db.tasks
    by_link l d (err x) a g = unfold rollback in refl
    by_link up d (ok out) a g = cc
    by_link down d (ok out) a g = unfold rollback in refl
    by_link lost d (ok out) a g = absurd (a refl)

    by_slots :
        (d : Db) (slots : Result (List (Option Task)))
        → is_ok (finish_batch pg link' db (t ∷ ts) (d, slots)).1 ≡ false
        → (finish_batch pg link' db (t ∷ ts) (d, slots)).0.tasks ≡ db.tasks
    by_slots d (ok slots) g = by_link link' d (fill_all pg d (t ∷ ts) slots) arrives g
    by_slots d (err x) g = unfold rollback in refl
enqueue_bulk_atomic pg down link' now (t ∷ ts) db arrives h = refl
enqueue_bulk_atomic pg lost link' now (t ∷ ts) db arrives h = refl
