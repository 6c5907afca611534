-- ===== src/Store/Cancel/Laws.antt =====
-- What Cancel answers, in each state of the task.
use tick.Base.{
  ℕ, ◌≡◌, refl, ◌∙◌, ap, inl, inr, Option, none, some, List, [], ◌∷◌, select, update, length,
  if◌then◌else◌, Bool-cases,
}
use mathlib.Core.Path.{ap₂}
use tick.Base.Rows.{update-select_nil}
use tick.Domain.{Task, Result, ok, err, not_found, not_cancellable, is_pending}
use tick.Database.{Db, up}
use tick.Store.{row}
use tick.Store.Finish.Laws.{select-row, at_most_one}
use tick.Store.Table.{IsTable}
use tick.Store.Cancel.{cancel, cancellable_row, set_cancelled, after_update}

-- What the caller is told, by the row that has the id.
abbrev pub cancel_answer : Option Task → Result (Unit {0})
cancel_answer none = err not_found
cancel_answer (some t) = if is_pending t.status then ok tt else err not_cancellable

-- The tables after it.
abbrev pub cancel_effect : ℕ → Db → Option Task → Db
cancel_effect i db none = db
cancel_effect i db (some t) =
    if is_pending t.status
    then record db { tasks = update (cancellable_row i) set_cancelled db.tasks }
    else db

cancel-none :
    (i : ℕ) (db : Db)
    → select (cancellable_row i) db.tasks ≡ []
    → cancel up up (λ d. d) i db ≡ after_update up (λ d. d) i db (ok 0)
unfolding cancel
cancel-none i db chosen =
    let same = update-select_nil (cancellable_row i) set_cancelled db.tasks chosen in
    ap₂ (λ (ts : List Task) (n : ℕ). after_update up (λ d. d) i (record db { tasks = ts }) (ok n))
      same (ap length chosen)

cancel-one :
    (i : ℕ) (db : Db) (t : Task)
    → select (cancellable_row i) db.tasks ≡ t ∷ []
    → cancel up up (λ d. d) i db
      ≡ (record db { tasks = update (cancellable_row i) set_cancelled db.tasks }, ok tt)
unfolding cancel
cancel-one i db t chosen =
    ap
      (λ (n : ℕ).
        after_update up (λ d. d) i
          (record db { tasks = update (cancellable_row i) set_cancelled db.tasks }) (ok n))
      (ap length chosen)

-- Cancel cancels a pending task and nothing else: it answers ErrNotFound where no task has the id,
-- and ErrNotCancellable where the task is running or terminal, and then leaves the tables alone.
pub cancel_lem :
    (i : ℕ) (db : Db) (next : ℕ)
    → IsTable next db.tasks
    → cancel up up (λ d. d) i db ≡ (cancel_effect i db (row i db), cancel_answer (row i db))
unfolding cancel
cancel_lem i db next v = answered (row i db) refl
  where
    answered :
        (o : Option Task)
        → row i db ≡ o
        → cancel up up (λ d. d) i db ≡ (cancel_effect i db o, cancel_answer o)
    answered none e =
        let chosen =
          select-row (λ (t : Task). is_pending t.status) i 0 next db.tasks v.ascending
          ∙ ap (at_most_one (λ (t : Task). is_pending t.status)) e in
        cancel-none i db chosen ∙ rw e refl
    answered (some t) e =
        let chosen =
          select-row (λ (t : Task). is_pending t.status) i 0 next db.tasks v.ascending
          ∙ ap (at_most_one (λ (t : Task). is_pending t.status)) e in
        elim (Bool-cases (is_pending t.status)) [
          | inl p ↦ rw p (cancel-one i db t (chosen ∙ rw p refl))
          | inr n ↦ rw n (cancel-none i db (chosen ∙ rw n refl) ∙ rw e refl)
        ]
