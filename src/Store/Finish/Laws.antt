-- ===== src/Store/Finish/Laws.antt =====
-- What Complete and Fail answer, and what they leave of a claim that was lost.
use tick.Base.{
  ℕ, ◌+◌, ◌≤◌, ◌≡◌, refl, ◌∙◌, ap, inl, inr, Bool, true, false, ◌&&◌, Option, some, none, List, [],
  ◌∷◌, arith, Text, Bool-cases, find, select, update, length, if◌then◌else◌, All, ◌==◌, ◌=??◌,
}
use tick.Base.Rows.{update-select_nil}
use tick.Domain.{Task, Result, ok, err, rejected, claim_lost}
use tick.Database.{Db, Postgres, up}
use tick.Store.{has_id, row, held, write}
use tick.Store.Backoff.{Jitter}
use tick.Store.Finish.{complete, fail, succeed, retry_or_bury, message, affected}
use tick.Store.Table.{IsTable, IsAscending, IsAscending-lo}
use mathlib.Core.Path.{ap₂}

-- The rows that a query by id and one more test selects.
abbrev pub at_most_one : (Task → Bool) → Option Task → List Task
at_most_one q none = []
at_most_one q (some t) = if q t then t ∷ [] else []

select-later :
    (q : Task → Bool) (i : ℕ) (ts : List Task)
    → All (λ t. i + 1 ≤ t.id) ts
    → select (λ t. t.id == i && q t) ts ≡ []
unfolding select
select-later q i [] h = refl
select-later q i (t ∷ ts) h = ground (arith, select-later q i ts)

-- An id names at most one row.
pub select-row :
    (q : Task → Bool) (i lo next : ℕ) (ts : List Task)
    → IsAscending lo next ts
    → select (λ t. t.id == i && q t) ts ≡ at_most_one q (find (has_id i) ts)
unfolding select find
select-row q i lo next [] h = refl
select-row q i lo next (t ∷ ts) h = elim (Bool-cases (t.id == i)) [
  | inl e ↦
      ground
        (arith, select-later q i ts (IsAscending-lo (t.id + 1) (i + 1) next ts (ground arith) h.2))
  | inr e ↦ ground (arith, select-row q i (t.id + 1) next ts h.2)
]

-- The worker holds the claim on the row.
unfoldable pub holds : ℕ → Text → Db → Bool
holds i worker_id db = elim (row i db) [ none ↦ false | some t ↦ t.claimed_by =?? worker_id ]

-- The tables with one claim settled by a SET clause, and the reply of a settled or a lost claim.
abbrev pub settle : ℕ → Text → (Task → Task) → Db → Db × Result (Unit {0})
settle i worker_id f db =
    if holds i worker_id db
    then (record db { tasks = update (held i worker_id) f db.tasks }, ok tt)
    else (db, err claim_lost)

abbrev reply : Db × Result ℕ → Db × Result (Unit {0})
reply r = (r.0, affected r.1)

at_most_one-holds :
    (q : Task → Bool) (o : Option Task)
    → affected (ok (length (at_most_one q o)))
      ≡ (if elim o [ none ↦ false | some t ↦ q t ] then ok tt else err claim_lost)
at_most_one-holds q none = refl
at_most_one-holds q (some t) = ground arith

at_most_one-nil :
    (q : Task → Bool) (o : Option Task)
    → elim o [ none ↦ false | some t ↦ q t ] ≡ false
    → at_most_one q o ≡ []
at_most_one-nil q none h = refl
at_most_one-nil q (some t) h = rw h

-- The number of rows affected tells whether the worker holds the claim.
reply-write :
    (i : ℕ) (worker_id : Text) (f : Task → Task) (db : Db) (next : ℕ)
    → IsTable next db.tasks
    → reply (write (held i worker_id) f db) ≡ settle i worker_id f db
unfolding write holds
reply-write i worker_id f db next v =
    let q = λ (t : Task). t.claimed_by =?? worker_id in
    let p = held i worker_id in
    let chosen = select-row q i 0 next db.tasks v.ascending in
    let count : affected (ok (length (select p db.tasks)))
        ≡ (if holds i worker_id db then ok tt else err claim_lost) =
      ap (λ l. affected (ok (length l))) chosen ∙ at_most_one-holds q (row i db) in
    elim (Bool-cases (holds i worker_id db)) [
      | inl h ↦ rw h (ap (λ r. (record db { tasks = update p f db.tasks }, r)) (rw h at count))
      | inr h ↦
          let same = update-select_nil p f db.tasks (chosen ∙ at_most_one-nil q (row i db) h) in
          rw h (ap₂ (λ ts r. (record db { tasks = ts }, r)) same (rw h at count))
    ]

module _ (pg : Postgres) (i : ℕ) (worker_id : Text) (db : Db) (next : ℕ) (v : IsTable next db.tasks)
    (sound : pg.text_ok worker_id ≡ true) where
  -- Complete settles the task exactly for the holder of the claim: its row alone becomes succeeded
  -- and is released. Anybody else gets ErrClaimLost and changes nothing.
  pub complete_lem : complete pg up i worker_id db ≡ settle i worker_id succeed db
  unfolding complete
  complete_lem = rw sound (reply-write i worker_id succeed db next v)

  -- Fail settles the task exactly for the holder of the claim: its row alone is retried or buried.
  -- Anybody else gets ErrClaimLost and changes nothing. If the database refuses the message, the
  -- tables stay as they are, claim included, and the caller gets an error that is not ErrClaimLost.
  pub fail_lem :
      (now : ℕ) (jitter : Jitter) (exec_err : Option Text)
      → fail pg up now jitter i worker_id exec_err db ≡ (
          if pg.text_ok (message exec_err)
          then settle i worker_id (retry_or_bury now jitter (message exec_err)) db
          else (db, err rejected))
  unfolding fail
  fail_lem now jitter exec_err =
      let f = retry_or_bury now jitter (message exec_err) in
      elim (Bool-cases (pg.text_ok (message exec_err))) [
        | inl fine ↦ rw (sound, fine) (reply-write i worker_id f db next v)
        | inr broken ↦ rw (sound, broken) refl
      ]
