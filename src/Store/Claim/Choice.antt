-- ===== src/Store/Claim/Choice.antt =====
-- Which due tasks a claim takes, and in what order it returns them.
use tick.Base.{
  ℕ, zero, suc, ◌≡◌, refl, inl, inr, Bool, true, false, not, some, List, [], ◌∷◌, map, arith, Text,
  All, select, take, length, Bool-cases, ap,
}
use tick.Base.Rows.{All-select}
use tick.Base.Members.{In, In-perm, In-select, In-find, All-In}
use tick.Domain.{Task}
use tick.Database.{Db, Postgres, Precedes, IsOrdered}
use tick.Store.{row, has_id}
use tick.Store.Claim.{contains, claimable, chosen, chosen_ids, is_chosen}

-- A selection of ordered rows is ordered.
IsOrdered-select : (q : Task → Bool) (ts : List Task) → IsOrdered ts → IsOrdered (select q ts)
unfolding select
IsOrdered-select q [] h = tt
IsOrdered-select q (t ∷ ts) h = elim (Bool-cases (q t)) [
  | inl e ↦ rw e (All-select (Precedes t) q ts h.0, IsOrdered-select q ts h.1)
  | inr e ↦ rw e (IsOrdered-select q ts h.1)
]

contains-head : (j i : ℕ) (js : List ℕ) → i ≡ j → contains (j ∷ js) i ≡ false → ⊥
unfolding contains
contains-head j i js e h = ground arith

contains-tail : (j i : ℕ) (js : List ℕ) → contains (j ∷ js) i ≡ false → contains js i ≡ false
unfolding contains
contains-tail j i js h = ground arith

-- A row that a LIMIT cuts off stands behind all that it lets through.
take-best :
    (n : ℕ) (ts : List Task) (t : Task)
    → IsOrdered ts
    → In t ts
    → contains (map (λ u. u.id) (take n ts)) t.id ≡ false
    → (length (take n ts) ≡ n) × All (λ c. Precedes c t) (take n ts)
unfolding take contains
take-best zero ts t o m h = (refl, tt)
take-best (suc n) [] t o m h = absurd m
take-best (suc n) (x ∷ xs) t o (inl e) h =
    absurd (contains-head x.id t.id (map (λ u. u.id) (take n xs)) (ap (λ (u : Task). u.id) e) h)
take-best (suc n) (x ∷ xs) t o (inr m) h =
    let cut = contains-tail x.id t.id (map (λ u. u.id) (take n xs)) h in
    let rest = take-best n xs t o.1 m cut in
    (omega (arith, rest.0), (All-In (Precedes x) t xs o.0 m, rest.1))

module _ (pg : Postgres) (locked : ℕ → Bool) (now : ℕ) (queue worker_id : Text) (limit : ℕ)
    (db : Db) where
  -- A due task of the queue that is not locked is passed over only if the claim takes as many tasks
  -- as its limit allows, and each of those has a higher priority, or the same and was due no later.
  pub passed_over_only_for_better :
      (i : ℕ) (t : Task)
      → row i db ≡ some t
      → claimable queue now t ≡ true
      → locked t.id ≡ false
      → is_chosen pg locked now queue worker_id limit db t ≡ false
      → (length (chosen pg locked now queue worker_id limit db) ≡ limit)
        × All (λ c. Precedes c t) (chosen pg locked now queue worker_id limit db)
  unfolding is_chosen chosen_ids chosen
  passed_over_only_for_better i t e due free h =
      let waiting = select (claimable queue now) db.tasks in
      let listed =
        In-select (claimable queue now) t db.tasks due (In-find (has_id i) t db.tasks e) in
      let open_row : not (locked t.id) ≡ true = rw free refl in
      take-best limit (select (λ u. not (locked u.id)) (pg.order_by waiting)) t
        (IsOrdered-select (λ u. not (locked u.id)) (pg.order_by waiting)
          (pg.order_by-IsOrdered waiting))
        (In-select (λ u. not (locked u.id)) t (pg.order_by waiting) open_row
          (In-perm t (pg.order_by-perm waiting) listed))
        h
