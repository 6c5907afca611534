-- ===== src/Store/Claim/Returned.antt =====
-- What the claim statement returns.
use tick.Base.{
  ℕ, ◌≤◌, ◌≡◌, refl, Bool, true, false, not, ◌&&◌, Option, none, some, List, [], ◌∷◌, arith, Text,
  All, find, select, update, length, ◌==◌, length-take, length-map, ap, sym, ◌∙◌,
}
use tick.Base.Rows.{update-marks, All-select, select-All, All-both, All-perm, All-map}
use tick.Base.Members.{In, In-perm, In-select, In-find, length-perm, length-select_or}
use tick.Domain.{Task, running, Result, ok, err, Error}
use tick.Database.{Db, Postgres, IsOrdered, Link, up, down, lost, exec}
use tick.Store.{row, has_id}
use tick.Store.Finish.Laws.{select-row, at_most_one}
use tick.Store.Claim.{
  contains, claimable, stamp, chosen, chosen_ids, is_chosen, claim_statement, claim,
}
use tick.Store.Claim.Laws.{claim_statement-IsTable}
use tick.Store.Rows.Identity.{stamp-IsSameTask}
use tick.Store.Table.{IsTable, IsAscending, find-row, row-update}

select-and_true : (p : Task → Bool) (ts : List Task) → select (λ t. p t && true) ts ≡ select p ts
unfolding select
select-and_true p [] = refl
select-and_true p (t ∷ ts) = ground (arith, select-and_true p ts)

at_most_one-le : (q : Task → Bool) (o : Option Task) → length (at_most_one q o) ≤ 1
at_most_one-le q none = omega arith
at_most_one-le q (some t) = ground arith

-- An id selects one row at most, so a list of ids selects no more rows than it has ids.
select-one :
    (i next : ℕ) (ts : List Task) → IsAscending 0 next ts → length (select (has_id i) ts) ≤ 1
select-one i next ts h = omega (
  arith,
  ap length (sym (select-and_true (has_id i) ts) ∙ select-row (λ _. true) i 0 next ts h),
  at_most_one-le (λ _. true) (find (has_id i) ts),
)

select-none : (ts : List Task) → select (λ t. false) ts ≡ []
unfolding select
select-none [] = refl
select-none (t ∷ ts) = select-none ts

length-select_ids :
    (ids : List ℕ) (next : ℕ) (ts : List Task)
    → IsAscending 0 next ts
    → length (select (λ t. contains ids t.id) ts) ≤ length ids
unfolding contains
length-select_ids [] next ts h = omega (arith, ap length (select-none ts))
length-select_ids (i ∷ ids) next ts h = omega (
  arith,
  length-select_or (λ (t : Task). t.id == i) (λ t. contains ids t.id) ts,
  select-one i next ts h,
  length-select_ids ids next ts h,
)

chosen_ids-le :
    (pg : Postgres) (locked : ℕ → Bool) (now : ℕ) (queue worker_id : Text) (limit : ℕ) (db : Db)
    → length (chosen_ids pg locked now queue worker_id limit db) ≤ limit
unfolding chosen_ids chosen
chosen_ids-le pg locked now queue worker_id limit db = omega (
  arith,
  length-map (λ (t : Task). t.id) (chosen pg locked now queue worker_id limit db),
  length-take limit (
      select (λ (t : Task). not (locked t.id))
        (pg.order_by (select (claimable queue now) db.tasks))),
)

abbrev pub returned : {A : Type 0} → Result (List A) → List A
returned (ok xs) = xs
returned _ = []

length-is_chosen :
    (pg : Postgres) (locked : ℕ → Bool) (now : ℕ) (queue worker_id : Text) (limit : ℕ) (db : Db)
    (next : ℕ) (ts : List Task)
    → IsAscending 0 next ts
    → length (select (is_chosen pg locked now queue worker_id limit db) ts) ≤ limit
unfolding is_chosen
length-is_chosen pg locked now queue worker_id limit db next ts h = omega (
  arith,
  length-select_ids (chosen_ids pg locked now queue worker_id limit db) next ts h,
  chosen_ids-le pg locked now queue worker_id limit db,
)

stamp-is_chosen :
    (pg : Postgres) (locked : ℕ → Bool) (now : ℕ) (queue worker_id : Text) (limit : ℕ) (db : Db)
    (t : Task)
    → is_chosen pg locked now queue worker_id limit db t ≡ true
    → is_chosen pg locked now queue worker_id limit db (stamp worker_id now t) ≡ true
unfolding is_chosen stamp
stamp-is_chosen pg locked now queue worker_id limit db t h = h

-- The rows that an UPDATE by the claim's SET clause wrote.
claimed_rows :
    (p : Task → Bool) (worker_id : Text) (now : ℕ) (ts : List Task)
    → All
        (λ u. find (has_id u.id) (update p (stamp worker_id now) ts) ≡ some u)
        (update p (stamp worker_id now) ts)
    → All
        (λ u.
          (u.status ≡ running)
          × (u.claimed_by ≡ some worker_id)
          × (find (has_id u.id) (update p (stamp worker_id now) ts) ≡ some u))
        (select p (update p (stamp worker_id now) ts))
unfolding stamp
claimed_rows p worker_id now ts found =
    let after = update p (stamp worker_id now) ts in
    let marked =
      update-marks (λ u. (u.status ≡ running) × (u.claimed_by ≡ some worker_id)) p
        (stamp worker_id now) ts (λ t. (refl, refl)) in
    All-map _ (select p after)
      (λ u
          (known : (p u ≡ true)
            × ((p u ≡ true → (u.status ≡ running) × (u.claimed_by ≡ some worker_id))
                × (find (has_id u.id) after ≡ some u))).
        let own = known.1.0 known.0 in (own.0, own.1, known.1.1))
      (All-both _ _ (select p after) (select-All p after)
        (All-select _ p after (All-both _ _ after marked found)))

not-err :
    {A : Type 0} {d d' : Db} {e : Error} {a : A} → ◌≡◌ {A = Db × Result A} (d, err e) (d', ok a) → ⊥
not-err {A} h = cc (ap (λ (m : Db × Result A). m.1) h)

-- No answer to a claim has more tasks than its limit.
pub claim-le :
    (pg : Postgres) (locked : ℕ → Bool) (now : ℕ) (queue worker_id : Text) (limit : ℕ) (link : Link)
    (db db' : Db) (next : ℕ) (ts : List Task)
    → IsTable next db.tasks
    → claim pg locked now queue worker_id limit link db ≡ (db', ok ts)
    → length ts ≤ limit
unfolding claim exec claim_statement
claim-le pg locked now queue worker_id limit link db db' next ts v e =
    by_link link (pg.text_ok worker_id && pg.text_ok queue) e
  where
    after : List Task
    after = update (is_chosen pg locked now queue worker_id limit db) (stamp worker_id now) db.tasks

    rows : List Task
    rows = select (is_chosen pg locked now queue worker_id limit db) after

    same :
        ◌≡◌ {A = Db × Result (List Task)}
          (record db { tasks = after }, ok (pg.order_by rows))
          (db', ok ts)
        → pg.order_by rows ≡ ts
    same h = ap (λ r. returned r) (ap (λ (m : Db × Result (List Task)). m.1) h)

    by_link :
        (l : Link) (b : Bool)
        → exec l b (claim_statement pg locked now queue worker_id limit) db ≡ (db', ok ts)
        → length ts ≤ limit
    by_link up true h = omega (
      arith,
      ap length (same h),
      length-perm (pg.order_by-perm rows),
      length-is_chosen pg locked now queue worker_id limit db next after (
          unfold claim_statement in
          (claim_statement-IsTable pg locked now queue worker_id limit db next v).ascending),
    )
    by_link up false h = absurd (not-err h)
    by_link down b h = absurd (not-err h)
    by_link lost true h = absurd (not-err h)
    by_link lost false h = absurd (not-err h)

module _ (pg : Postgres) (locked : ℕ → Bool) (now : ℕ) (queue worker_id : Text) (limit : ℕ)
    (db : Db) (next : ℕ) (v : IsTable next db.tasks) where
  abbrev pub reply_rows : List Task
  reply_rows = returned (claim_statement pg locked now queue worker_id limit db).1

  -- A claim returns at most `limit` tasks, in the order of the claim; each is a row of the table after the claim,
  -- running and owned by the worker; and a task that was chosen is among them, with one attempt more.
  pub claim_returns :
      (i : ℕ) (t : Task)
      → row i db ≡ some t
      → is_chosen pg locked now queue worker_id limit db t ≡ true
      → (length reply_rows ≤ limit)
        × IsOrdered reply_rows
        × All
            (λ u.
              (u.status ≡ running)
              × (u.claimed_by ≡ some worker_id)
              × (row u.id (claim_statement pg locked now queue worker_id limit db).0 ≡ some u))
            reply_rows
        × In (stamp worker_id now t) reply_rows
  unfolding claim_statement
  claim_returns i t e h =
      let p = is_chosen pg locked now queue worker_id limit db in
      let after = update p (stamp worker_id now) db.tasks in
      let rows = pg.order_by-perm (select p after) in
      let after_v = claim_statement-IsTable pg locked now queue worker_id limit db next v in
      (
        omega (
          arith,
          length-perm rows,
          length-is_chosen pg locked now queue worker_id limit db next after after_v.ascending,
        ),
        pg.order_by-IsOrdered (select p after),
        All-perm _ rows
            (claimed_rows p worker_id now db.tasks (find-row 0 next after after_v.ascending)),
        In-perm (stamp worker_id now t) rows (
            In-select p (stamp worker_id now t) after
              (stamp-is_chosen pg locked now queue worker_id limit db t h)
              (In-find (has_id i) (stamp worker_id now t) after (
                rw h at (
                  row-update p (stamp worker_id now) db.tasks i t (stamp-IsSameTask worker_id now)
                    e)))),
      )
