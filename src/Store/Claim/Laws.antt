-- ===== src/Store/Claim/Laws.antt =====
-- What the claim statement chooses, and that it keeps the invariant.
use tick.Base.{
  ℕ, ◌≡◌, refl, Bool, true, false, not, some, List, [], ◌∷◌, map, Text, All, inl, inr, subst,
  Bool-cases, find, select, ◌==◌, ==_iff,
}
use tick.Base.Rows.{All-map, All-take, All-perm, All-select, select-All, All-both}
use tick.Domain.{Task}
use tick.Database.{Db, Postgres}
use tick.Store.{has_id}
use tick.Store.Rows.{stamp-IsSoundRow}
use tick.Store.Rows.Identity.{stamp-IsSameTask}
use tick.Store.Table.{IsTable, IsAscending, find-row, update-IsTable_in}
use tick.Store.Claim.{contains, claimable, stamp, chosen, chosen_ids, is_chosen, claim_statement}

-- A row of the table that a claim may take.
abbrev pub IsCandidate : (ℕ → Bool) → Text → ℕ → List Task → Task → Type 0
IsCandidate locked queue now ts t =
    (claimable queue now t ≡ true) × (locked t.id ≡ false) × (find (has_id t.id) ts ≡ some t)

not-true : (b : Bool) → not b ≡ true → b ≡ false
not-true true h = cc
not-true false h = refl

contains-row :
    (P : Task → Type 0) (ts cs : List Task) (t : Task)
    → find (has_id t.id) ts ≡ some t
    → All (λ c. P c × (find (has_id c.id) ts ≡ some c)) cs
    → contains (map (λ c. c.id) cs) t.id ≡ true
    → P t
unfolding contains
contains-row P ts [] t f h e = cc
contains-row P ts (c ∷ cs) t f h e = elim (Bool-cases (t.id == c.id)) [
  | inl same ↦
      let id_eq : t.id ≡ c.id = (==_iff t.id c.id).0 same in
      let found : find (has_id t.id) ts ≡ some c = rw id_eq h.0.1 in
      let row_eq : c ≡ t = cc (found, f) in subst P row_eq h.0.0
  | inr other ↦ contains-row P ts cs t f h.1 (rw other at e)
]

module _ (pg : Postgres) (locked : ℕ → Bool) (now : ℕ) (queue worker_id : Text) (limit : ℕ)
    (db : Db) where
  -- Every chosen row is a row of the table, due in the queue, and not locked.
  pub chosen-IsCandidate :
      (next : ℕ)
      → IsAscending 0 next db.tasks
      → All (IsCandidate locked queue now db.tasks) (chosen pg locked now queue worker_id limit db)
  unfolding chosen
  chosen-IsCandidate next h =
      let due = select (claimable queue now) db.tasks in
      let due_rows =
        All-both _ _ due (select-All (claimable queue now) db.tasks)
          (All-select _ (claimable queue now) db.tasks (find-row 0 next db.tasks h)) in
      let open_rows = pg.order_by due in
      let free = select (λ t. not (locked t.id)) open_rows in
      let open_free : All (λ t. not (locked t.id) ≡ true) free =
        select-All (λ t. not (locked t.id)) open_rows in
      All-take _ limit free (
        All-map _ free (λ t both. regroup t both.0 both.1)
          (All-both _ _ free open_free (
            All-select _ (λ t. not (locked t.id)) open_rows
              (All-perm _ (pg.order_by-perm due) due_rows))))
    where
      regroup :
          (t : Task)
          → not (locked t.id) ≡ true
          → (claimable queue now t ≡ true) × (find (has_id t.id) db.tasks ≡ some t)
          → IsCandidate locked queue now db.tasks t
      regroup t free due = (due.0, not-true (locked t.id) free, due.1)

  -- A row of the table whose id is chosen is a row that may be taken.
  pub is_chosen-claimable :
      (next : ℕ)
      → IsAscending 0 next db.tasks
      → All
          (λ t.
            is_chosen pg locked now queue worker_id limit db t ≡ true
            → (claimable queue now t ≡ true) × (locked t.id ≡ false))
          db.tasks
  unfolding is_chosen chosen_ids
  is_chosen-claimable next h =
      let cs = chosen pg locked now queue worker_id limit db in
      let facts = All-map _ cs (λ t c. ((c.0, c.1), c.2)) (chosen-IsCandidate next h) in
      All-map _ db.tasks
        (λ t (found : find (has_id t.id) db.tasks ≡ some t) e.
          contains-row (λ c. (claimable queue now c ≡ true) × (locked c.id ≡ false)) db.tasks cs t
            found facts e)
        (find-row 0 next db.tasks h)

  pub claim_statement-IsTable :
      (next : ℕ)
      → IsTable next db.tasks
      → IsTable next (claim_statement pg locked now queue worker_id limit db).0.tasks
  unfolding claim_statement
  claim_statement-IsTable next h =
      update-IsTable_in (is_chosen pg locked now queue worker_id limit db) (stamp worker_id now)
        next db.tasks (stamp-IsSameTask worker_id now)
        (All-map _ db.tasks
          (λ t known e s. stamp-IsSoundRow queue worker_id now now t (known e).0 s)
          (is_chosen-claimable next h.ascending))
        h
