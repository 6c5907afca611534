-- ===== src/Store/Recover/Laws.antt =====
-- The sweep: whom it reclaims from, whom a heartbeat protects, and what is left to the old owner.
use tick.Base.{
  ℕ, ◌+◌, ◌*◌, ◌≤◌, ◌≡◌, refl, ◌∙◌, true, false, Option, some, List, ◌∷◌, arith, Text, find,
  if◌then◌else◌, ==_iff, ◌=??◌, =??-some, inl, inr, Bool-cases,
}
use tick.Base.Rows.{find_self}
use tick.Domain.{Task, err, claim_lost, rejected, running, second}
use tick.Database.{Db, Postgres, up}
use tick.Store.{has_id, row}
use tick.Store.Claim.{contains}
use tick.Store.Finish.{complete, fail, message}
use tick.Store.Finish.Laws.{holds, complete_lem, fail_lem}
use tick.Store.Backoff.{Jitter}
use tick.Store.Heartbeat.{heartbeat, beating, beat}
use tick.Store.Recover.{recover_orphans, orphaned, reclaim}
use tick.Store.Table.{row-update}
use tick.Store.Rows.Identity.{beat-IsSameTask, reclaim-IsSameTask}
use tick.Store.History.Valid.{IsValid, recover_orphans-IsValid}

-- The sweep changes a row exactly if it is orphaned.
pub recover_orphans-row :
    (now : ℕ) (db : Db) (i : ℕ) (t : Task)
    → row i db ≡ some t
    → row i (recover_orphans up now db).0 ≡ some (if orphaned now t then reclaim now t else t)
unfolding recover_orphans
recover_orphans-row now db i t e =
    row-update (orphaned now) (reclaim now) db.tasks i t (reclaim-IsSameTask now) e

heartbeat-row :
    (pg : Postgres) (now : ℕ) (i : ℕ) (js : List ℕ) (worker_id : Text) (db : Db) (k : ℕ) (t : Task)
    → pg.text_ok worker_id ≡ true
    → row k db ≡ some t
    → row k (heartbeat pg up now (i ∷ js) worker_id db).0
      ≡ some (if beating (i ∷ js) worker_id t then beat now t else t)
unfolding heartbeat
heartbeat-row pg now i js worker_id db k t sound e =
    rw sound
      (row-update (beating (i ∷ js) worker_id) (beat now) db.tasks k t (beat-IsSameTask now) e)

has_id-eq : (ts : List Task) (k : ℕ) (t : Task) → find (has_id k) ts ≡ some t → t.id ≡ k
has_id-eq ts k t e = (==_iff t.id k).0 (find_self (has_id k) ts t e)

beating-own :
    (ids : List ℕ) (worker_id : Text) (k : ℕ) (t : Task)
    → t.id ≡ k
    → contains ids k ≡ true
    → t.claimed_by ≡ some worker_id
    → t.status ≡ running
    → beating ids worker_id t ≡ true
unfolding beating
beating-own ids worker_id k t i c m r =
    let mine : (t.claimed_by =?? worker_id) ≡ true = =??-some t.claimed_by worker_id m in
    rw (i, c, mine, r) refl

beat-not_orphaned :
    (now later : ℕ) (t : Task) → later ≤ now + 90 * second → orphaned later (beat now t) ≡ false
unfolding orphaned beat
beat-not_orphaned now later t soon = ground arith

reclaimed-holds :
    (now : ℕ) (worker_id : Text) (db : Db) (i : ℕ) (t : Task)
    → row i db ≡ some (reclaim now t)
    → holds i worker_id db ≡ false
unfolding holds reclaim
reclaimed-holds now worker_id db i t e = ground arith

-- A task whose owner sent a heartbeat that named it is not reclaimed by any sweep of the next 90
-- seconds: the row is then the one that the heartbeat left.
pub heartbeat_protects :
    (pg : Postgres) (now later : ℕ) (i : ℕ) (js : List ℕ) (worker_id : Text) (db : Db) (k : ℕ)
    (t : Task)
    → pg.text_ok worker_id ≡ true
    → row k db ≡ some t
    → contains (i ∷ js) k ≡ true
    → t.claimed_by ≡ some worker_id
    → t.status ≡ running
    → later ≤ now + 90 * second
    → row k (recover_orphans up later (heartbeat pg up now (i ∷ js) worker_id db).0).0
      ≡ some (beat now t)
heartbeat_protects pg now later i js worker_id db k t sound e listed mine runs soon =
    let id_eq = has_id-eq db.tasks k t e in
    let beats = beating-own (i ∷ js) worker_id k t id_eq listed mine runs in
    let beaten = rw beats at (heartbeat-row pg now i js worker_id db k t sound e) in
    rw (beat-not_orphaned now later t soon) at (
      recover_orphans-row later (heartbeat pg up now (i ∷ js) worker_id db).0 k (beat now t) beaten)

-- On the database that an answered sweep of a valid one has left, a worker whose id the database takes
-- as a text can neither complete nor fail a task that the sweep has reclaimed: either call, when it is
-- answered, changes nothing and returns ErrClaimLost, or, if it is Fail and the database does not take
-- its message as a text, the database's error.
pub reclaim_locks_out :
    (pg : Postgres) (now now' : ℕ) (jitter : Jitter) (exec_err : Option Text) (worker_id : Text)
    (db : Db) (i : ℕ) (t : Task)
    → IsValid db
    → pg.text_ok worker_id ≡ true
    → row i db ≡ some t
    → orphaned now t ≡ true
    → (complete pg up i worker_id (recover_orphans up now db).0
        ≡ ((recover_orphans up now db).0, err claim_lost))
      × (fail pg up now' jitter i worker_id exec_err (recover_orphans up now db).0 ≡ (
        (recover_orphans up now db).0,
        err (if pg.text_ok (message exec_err) then claim_lost else rejected),
      ))
reclaim_locks_out pg now now' jitter exec_err worker_id db i t v sound e orphan =
    let db' = (recover_orphans up now db).0 in
    let v' = recover_orphans-IsValid up now db v in
    let lost =
      reclaimed-holds now worker_id db' i t (rw orphan at (recover_orphans-row now db i t e)) in
    (
      complete_lem pg i worker_id db' db'.next_task_id v' sound ∙ rw lost refl,
      fail_lem pg i worker_id db' db'.next_task_id v' sound now' jitter exec_err
          ∙ rw lost (elim (Bool-cases (pg.text_ok (message exec_err))) [
            | inl fine ↦ rw fine refl
            | inr broken ↦ rw broken refl
          ]),
    )
