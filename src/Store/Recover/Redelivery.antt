-- ===== src/Store/Recover/Redelivery.antt =====
-- From a silent owner to the next one: a sweep, and a claim after the back-off.
use tick.Base.{
  ℕ, zero, suc, ◌+◌, ◌*◌, ◌≤◌, ◌<◌, ◌≡◌, refl, inl, inr, ap, ◌∙◌, Bool, true, false, not, some,
  List, [], ◌∷◌, map, arith, Text, select, take, length, =?-refl, ltb,
}
use tick.Base.Rows.{length-select}
use tick.Base.Members.{In, In-perm, In-select, In-find, length-perm}
use tick.Domain.{Task, ok, second}
use tick.Database.{Db, Postgres, up}
use tick.Store.{row, has_id}
use tick.Store.Backoff.{capped_seconds}
use tick.Store.Claim.{contains, claimable, chosen, chosen_ids, is_chosen, stamp, claim}
use tick.Store.Claim.Returned.{claim_returns}
use tick.Store.Recover.{recover_orphans, orphaned, reclaim}
use tick.Store.Recover.Laws.{recover_orphans-row}
use tick.Store.History.Valid.{IsValid, recover_orphans-IsValid}

-- A LIMIT that all rows fit in cuts none off.
contains-take :
    (n : ℕ) (ts : List Task) (t : Task)
    → length ts ≤ n
    → In t ts
    → contains (map (λ u. u.id) (take n ts)) t.id ≡ true
unfolding take contains
contains-take n [] t h m = absurd m
contains-take zero (x ∷ xs) t h m = absurd (omega arith)
contains-take (suc n) (x ∷ xs) t h (inl e) =
    let same : t.id ≡ x.id = ap (λ (u : Task). u.id) e in ground arith
contains-take (suc n) (x ∷ xs) t h (inr m) = ground (arith, contains-take n xs t (omega arith) m)

module _ (pg : Postgres) (locked : ℕ → Bool) (now : ℕ) (queue worker_id : Text) (limit : ℕ)
    (db : Db) where
  -- A due task of the queue that is not locked is taken by a claim whose limit all due tasks fit in.
  chosen_with_room :
      (i : ℕ) (t : Task)
      → row i db ≡ some t
      → claimable queue now t ≡ true
      → locked t.id ≡ false
      → length (select (claimable queue now) db.tasks) ≤ limit
      → is_chosen pg locked now queue worker_id limit db t ≡ true
  unfolding is_chosen chosen_ids chosen
  chosen_with_room i t e due free room =
      let waiting = select (claimable queue now) db.tasks in
      let listed =
        In-select (claimable queue now) t db.tasks due (In-find (has_id i) t db.tasks e) in
      let open_row : not (locked t.id) ≡ true = rw free refl in
      contains-take limit (select (λ u. not (locked u.id)) (pg.order_by waiting)) t
        (omega (
          arith,
          room,
          length-select (λ u. not (locked u.id)) (pg.order_by waiting),
          length-perm (pg.order_by-perm waiting),
        ))
        (In-select (λ u. not (locked u.id)) t (pg.order_by waiting) open_row
          (In-perm t (pg.order_by-perm waiting) listed))

reclaimed-claimable :
    (now after : ℕ) (t : Task)
    → t.attempts < t.max_attempts
    → now + second * capped_seconds t.attempts ≤ after
    → claimable t.queue after (reclaim now t) ≡ true
unfolding claimable reclaim
reclaimed-claimable now after t left due =
    let more : ltb t.attempts t.max_attempts ≡ true = ground arith in
    rw (more, =?-refl t.queue) (ground arith)

-- A task of a valid database whose owner has fallen silent, and that has attempts left, is handed to
-- another worker: after a sweep that is answered, an answered claim on its queue that comes once the
-- back-off is over, that does not find its row locked and whose limit all due tasks of the queue fit
-- in, returns it, running, owned by the claiming worker, and with one attempt more.
pub redelivered :
    (pg : Postgres) (locked : ℕ → Bool) (now after limit : ℕ) (worker_id : Text) (db : Db) (i : ℕ)
    (t : Task)
    → IsValid db
    → pg.text_ok worker_id ≡ true
    → pg.text_ok t.queue ≡ true
    → row i db ≡ some t
    → orphaned now t ≡ true
    → t.attempts < t.max_attempts
    → now + second * capped_seconds t.attempts ≤ after
    → locked t.id ≡ false
    → length (select (claimable t.queue after) (recover_orphans up now db).0.tasks) ≤ limit
    → let swept = (recover_orphans up now db).0 in
      (tasks : List Task) × ((claim pg locked after t.queue worker_id limit up swept).1 ≡ ok tasks)
      × In (stamp worker_id after (reclaim now t)) tasks
unfolding claim
redelivered pg locked now after limit worker_id db i t v sound fine e orphan left due free room =
    let swept = (recover_orphans up now db).0 in
    let v' = recover_orphans-IsValid up now db v in
    let e' : row i swept ≡ some (reclaim now t) =
      recover_orphans-row now db i t e ∙ rw orphan refl in
    let taken =
      chosen_with_room pg locked after t.queue worker_id limit swept i (reclaim now t) e'
        (reclaimed-claimable now after t left due) (unfold reclaim in free) room in
    let (_, _, _, member) =
      claim_returns pg locked after t.queue worker_id limit swept swept.next_task_id v' i
        (reclaim now t) e' taken in
    (_, rw (sound, fine) refl, member)
