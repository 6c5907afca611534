-- ===== src/Store/Schedules/Laws.antt =====
-- The operations on schedules: they leave the tasks alone, and the resume point never moves back.
use tick.Base.{
  ℕ, ◌≡◌, refl, ◌∙◌, ap, inl, inr, Option, none, some, List, [], ◌∷◌, ltb, find, update, arith,
  if◌then◌else◌, Bool, true, false, Text, Bool-cases, Option-cases,
}
use tick.Domain.{Schedule, Result, err, rejected}
use tick.Database.{Db, Postgres, Link, up, down, lost, exec}
use tick.Base.Rows.{find-update, find_self}
use mathlib.Core.Option
use tick.Database.Checks.{schedule_checks, has_schedule_id}
use tick.Store.Schedules.{
  create_schedule, insert_schedule, sound_schedule, set_schedule_enabled, set_enabled,
  advance_last_materialized_at, new_schedule, behind, advance_to,
}

-- Disabling a schedule, or any other write to the schedules, touches no task.
abbrev pub SameTasks : Db → Db → Type 0
SameTasks db db' = (db'.tasks ≡ db.tasks) × (db'.next_task_id ≡ db.next_task_id)

exec-SameTasks {ℓ} :
    {A : Type ℓ} (link : Link) (fine : Bool) (statement : Db → Db × Result A) (db : Db)
    → SameTasks db (statement db).0
    → SameTasks db (exec link fine statement db).0
unfolding exec
exec-SameTasks up true statement db h = h
exec-SameTasks up false statement db h = (refl, refl)
exec-SameTasks down fine statement db h = (refl, refl)
exec-SameTasks lost true statement db h = h
exec-SameTasks lost false statement db h = (refl, refl)

insert_schedule_tasks :
    (now : ℕ) (document : Text) (sc : Schedule) (db : Db)
    → SameTasks db (insert_schedule now document sc db).0
unfolding insert_schedule
insert_schedule_tasks now document sc db =
    elim (Bool-cases (schedule_checks (new_schedule now document sc db.next_schedule_id))) [
      | inl e ↦ rw e (refl, refl)
      | inr e ↦ rw e (refl, refl)
    ]

pub create_schedule_tasks :
    (pg : Postgres) (link : Link) (now : ℕ) (sc : Schedule) (db : Db)
    → SameTasks db (create_schedule pg link now sc db).0
unfolding create_schedule
create_schedule_tasks pg link now sc db = elim (Option-cases (pg.to_jsonb sc.payload)) [
  | inl e ↦
      rw (e, create_schedule) (exec-SameTasks link false (λ d. (d, err rejected)) db (refl, refl))
  | inr (document, e) ↦
      rw (e, create_schedule)
        (exec-SameTasks link (sound_schedule pg sc) (insert_schedule now document sc) db
          (insert_schedule_tasks now document sc db))
]

pub set_schedule_enabled_tasks :
    (link : Link) (id : ℕ) (enabled : Bool) (db : Db)
    → SameTasks db (set_schedule_enabled link id enabled db).0
unfolding set_schedule_enabled
set_schedule_enabled_tasks link id enabled db =
    exec-SameTasks link true (set_enabled id enabled) db (refl, refl)

pub advance_tasks :
    (link : Link) (id instant : ℕ) (db : Db)
    → SameTasks db (advance_last_materialized_at link id instant db).0
unfolding advance_last_materialized_at
advance_tasks link id instant db = exec-SameTasks link true _ db (refl, refl)

-- The later of a resume point and an instant.
abbrev pub latest : Option ℕ → ℕ → ℕ
latest none instant = instant
latest (some last) instant = if ltb last instant then instant else last

-- Two writes of the resume point, on the list of schedules.
advance : ℕ → ℕ → List Schedule → List Schedule
advance id instant = update (behind id instant) (advance_to instant)

advance_comm :
    (id a b : ℕ) (ss : List Schedule)
    → advance id b (advance id a ss) ≡ advance id a (advance id b ss)
unfolding advance update behind advance_to
advance_comm id a b [] = refl
advance_comm id a b (s ∷ ss) = ground (arith, advance_comm id a b ss)

advanced :
    (id instant : ℕ) (s : Schedule)
    → has_schedule_id id s ≡ true
    → (if behind id instant s then advance_to instant s else s)
      ≡ record s { last_materialized_at = some (latest s.last_materialized_at instant) }
unfolding behind advance_to
advanced id instant s h = ground arith

-- The resume point of a schedule becomes the later of what it was and the given instant, so it never
-- moves back; the other columns stay. Two materializers that write it leave the same tables in
-- either order.
pub advance_lem :
    (id a b : ℕ) (db : Db) (s : Schedule)
    → find (has_schedule_id id) db.schedules ≡ some s
    → let write = λ (instant : ℕ) (d : Db). (advance_last_materialized_at up id instant d).0 in
      (find (has_schedule_id id) (write a db).schedules
        ≡ some (record s { last_materialized_at = some (latest s.last_materialized_at a) }))
      × (write b (write a db) ≡ write a (write b db))
unfolding advance_last_materialized_at advance
advance_lem id a b db s e = (
  find-update (has_schedule_id id) (behind id a) (advance_to a) db.schedules
        (λ r. unfold advance_to in refl)
      ∙ ap (Option.map (λ r. if behind id a r then advance_to a r else r)) e
      ∙ ap some (advanced id a s (find_self (has_schedule_id id) db.schedules s e)),
  ap (λ ss. record db { schedules = ss }) (advance_comm id a b db.schedules),
)
