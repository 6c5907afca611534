-- ===== src/Store/History/Moves.antt =====
-- What one operation does to one row of the tasks table.
use tick.Base.{
  ℕ, ◌≡◌, refl, inl, inr, Bool, true, false, some, List, Text, Bool-cases, update, ==_iff,
}
use tick.Base.Rows.{find_self}
use tick.Domain.{Task, Result}
use tick.Database.{Db, Link, up, down, lost, exec}
use tick.Store.{row, has_id, write, held}
use tick.Store.Backoff.{Jitter}
use tick.Store.Claim.{claimable, stamp}
use tick.Store.Finish.{succeed, retry_or_bury}
use tick.Store.Heartbeat.{beating, beat}
use tick.Store.Recover.{orphaned, reclaim}
use tick.Store.Cancel.{cancellable_row, set_cancelled}
use tick.Store.Table.{row-update}
use tick.Store.Rows.Identity.{IsSameTask}

-- One row before and after one operation: nothing, a claim of a due pending row, a heartbeat, a
-- completion or a failure that its owner reports, a reclaim after the heartbeat went silent, or the
-- cancellation of a pending row.
pub data Moves (t u : Task) : Type 0 where
  stays : u ≡ t → Moves t u
  starts :
      (queue worker_id : Text) (now : ℕ)
      → claimable queue now t ≡ true
      → u ≡ stamp worker_id now t
      → Moves t u
  beats :
      (worker_id : Text) (ids : List ℕ) (now : ℕ)
      → beating ids worker_id t ≡ true
      → u ≡ beat now t
      → Moves t u
  succeeds : (worker_id : Text) → held t.id worker_id t ≡ true → u ≡ succeed t → Moves t u
  fails :
      (worker_id msg : Text) (now : ℕ) (jitter : Jitter)
      → held t.id worker_id t ≡ true
      → u ≡ retry_or_bury now jitter msg t
      → Moves t u
  reclaimed : (now : ℕ) → orphaned now t ≡ true → u ≡ reclaim now t → Moves t u
  cancels : cancellable_row t.id t ≡ true → u ≡ set_cancelled t → Moves t u

-- The row `i` is still there, and has made one of these moves.
abbrev pub Follows : ℕ → Task → Db → Type 0
Follows i t db = (u : Task) × (row i db ≡ some u) × Moves t u

pub exec-Follows {ℓ} :
    {A : Type ℓ} (link : Link) (fine : Bool) (statement : Db → Db × Result A) (db : Db) (i : ℕ)
    (t : Task)
    → row i db ≡ some t
    → Follows i t (statement db).0
    → Follows i t (exec link fine statement db).0
unfolding exec
exec-Follows up true statement db i t e h = h
exec-Follows up false statement db i t e h = (t, e, stays refl)
exec-Follows down fine statement db i t e h = (t, e, stays refl)
exec-Follows lost true statement db i t e h = h
exec-Follows lost false statement db i t e h = (t, e, stays refl)

-- `moved` is asked only of the row in question.
pub update-Follows :
    (p : Task → Bool) (f : Task → Task) (db : Db) (i : ℕ) (t : Task)
    → ((u : Task) → IsSameTask u (f u))
    → (t.id ≡ i → p t ≡ true → Moves t (f t))
    → row i db ≡ some t
    → Follows i t (record db { tasks = update p f db.tasks })
update-Follows p f db i t keep moved e = elim (Bool-cases (p t)) [
  | inl h ↦
      let id_eq : t.id ≡ i = (==_iff t.id i).0 (find_self (has_id i) db.tasks t e) in
      (f t, rw h at (row-update p f db.tasks i t keep e), moved id_eq h)
  | inr h ↦ (t, rw h at (row-update p f db.tasks i t keep e), stays refl)
]

pub write-Follows :
    (link : Link) (fine : Bool) (p : Task → Bool) (f : Task → Task) (db : Db) (i : ℕ) (t : Task)
    → ((u : Task) → IsSameTask u (f u))
    → (t.id ≡ i → p t ≡ true → Moves t (f t))
    → row i db ≡ some t
    → Follows i t (exec link fine (write p f) db).0
write-Follows link fine p f db i t keep moved e =
    exec-Follows link fine (write p f) db i t e
      (unfold write in update-Follows p f db i t keep moved e)
