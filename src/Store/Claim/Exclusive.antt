-- ===== src/Store/Claim/Exclusive.antt =====
-- Two claims that follow or overlap each other.
use tick.Base.{ℕ, ◌≡◌, Bool, true, false, ◌||◌, some, arith, Text, Bool-cases, inl, inr}
use tick.Base.Rows.{All-find}
use tick.Domain.{Task}
use tick.Database.{Db, Postgres}
use tick.Store.{row, has_id}
use tick.Store.Claim.{contains, claimable, stamp, chosen_ids, is_chosen, claim_statement}
use tick.Store.Claim.Laws.{is_chosen-claimable, claim_statement-IsTable}
use tick.Store.Rows.Identity.{stamp-IsSameTask}
use tick.Store.Table.{IsTable, row-update}

module _ (pg : Postgres) (db : Db) (next : ℕ) (v : IsTable next db.tasks) where
  -- What is known of a row that a claim chooses.
  chosen-row :
      (locked : ℕ → Bool) (now : ℕ) (queue worker_id : Text) (limit : ℕ) (i : ℕ) (t : Task)
      → row i db ≡ some t
      → is_chosen pg locked now queue worker_id limit db t ≡ true
      → (claimable queue now t ≡ true) × (locked t.id ≡ false)
  chosen-row locked now queue worker_id limit i t e =
      All-find _ (has_id i) db.tasks
        (is_chosen-claimable pg locked now queue worker_id limit db next v.ascending) e

held_lock :
    (pg : Postgres) (locked locked' : ℕ → Bool) (now : ℕ) (queue worker_id : Text) (limit : ℕ)
    (db : Db) (t : Task)
    → is_chosen pg locked now queue worker_id limit db t ≡ true
    → (locked' t.id || contains (chosen_ids pg locked now queue worker_id limit db) t.id) ≡ false
    → ⊥
unfolding is_chosen
held_lock pg locked locked' now queue worker_id limit db t h free = ground arith

claimed-row :
    (pg : Postgres) (locked : ℕ → Bool) (now : ℕ) (queue worker_id : Text) (limit : ℕ) (db : Db)
    (i : ℕ) (t : Task)
    → row i db ≡ some t
    → is_chosen pg locked now queue worker_id limit db t ≡ true
    → row i (claim_statement pg locked now queue worker_id limit db).0
      ≡ some (stamp worker_id now t)
unfolding claim_statement
claimed-row pg locked now queue worker_id limit db i t e h = rw h at (
    row-update (is_chosen pg locked now queue worker_id limit db) (stamp worker_id now) db.tasks i t
      (stamp-IsSameTask worker_id now) e)

clash : {b : Bool} → b ≡ false → b ≡ true → ⊥
clash p q = cc

not-running_claimable :
    (queue worker_id : Text) (now now' : ℕ) (t : Task)
    → claimable queue now (stamp worker_id now' t) ≡ false
unfolding claimable stamp
not-running_claimable queue worker_id now now' t = ground arith

module _ (pg : Postgres) (locked locked' : ℕ → Bool) (now now' : ℕ)
    (queue queue' worker_id worker_id' : Text) (limit limit' : ℕ) where
  -- Of two claims, whatever their queues, workers and limits, the second does not choose a task that
  -- the first has chosen: neither while the first holds its row locks and has not committed, nor
  -- after it has.
  pub claims_exclude :
      (db : Db) (next : ℕ) (i : ℕ) (t : Task)
      → IsTable next db.tasks
      → row i db ≡ some t
      → is_chosen pg locked now queue worker_id limit db t ≡ true
      → (is_chosen pg
            (λ j. locked' j || contains (chosen_ids pg locked now queue worker_id limit db) j)
            now'
            queue'
            worker_id'
            limit'
            db
            t
          ≡ false)
        × (row i (claim_statement pg locked now queue worker_id limit db).0
            ≡ some (stamp worker_id now t))
        × (is_chosen pg locked' now' queue' worker_id' limit'
              (claim_statement pg locked now queue worker_id limit db).0
              (stamp worker_id now t)
            ≡ false)
  claims_exclude db next i t v e h = (concurrent, stamped, committed)
    where
      holding : ℕ → Bool
      holding = λ j. locked' j || contains (chosen_ids pg locked now queue worker_id limit db) j

      concurrent : is_chosen pg holding now' queue' worker_id' limit' db t ≡ false
      concurrent = elim (Bool-cases (is_chosen pg holding now' queue' worker_id' limit' db t)) [
        | inl again ↦
            let free =
              (chosen-row pg db next v holding now' queue' worker_id' limit' i t e again).1 in
            absurd (held_lock pg locked locked' now queue worker_id limit db t h free)
        | inr never ↦ never
      ]

      after : Db
      after = (claim_statement pg locked now queue worker_id limit db).0

      stamped : row i after ≡ some (stamp worker_id now t)
      stamped = claimed-row pg locked now queue worker_id limit db i t e h

      committed :
          is_chosen pg locked' now' queue' worker_id' limit' after (stamp worker_id now t) ≡ false
      committed =
          elim (Bool-cases
            (is_chosen pg locked' now' queue' worker_id' limit' after (stamp worker_id now t))) [
              | inl again ↦
                  let due =
                    (chosen-row pg after next
                      (claim_statement-IsTable pg locked now queue worker_id limit db next v)
                      locked' now' queue' worker_id' limit' i (stamp worker_id now t) stamped
                      again).0 in
                  absurd (clash (not-running_claimable queue' worker_id now' now t) due)
              | inr never ↦ never
            ]
