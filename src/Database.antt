-- ===== src/Database.antt =====
-- The database that internal/store/postgres speaks to: the two tables of
-- internal/migrate/sql/0001_tasks.sql and 0002_schedules.sql, the statements' transport, and what the
-- SQL uses of PostgreSQL as a parameter.
pub mod Order
pub mod Checks
use tick.Base.{
  ℕ, ◌+◌, ◌≤◌, ◌≡◌, ◌⊎◌, Bool, true, false, ◌&&◌, Option, none, some, List, [], ◌∷◌, Permᴰ, Text,
  All, if◌then◌else◌, refl, inl, inr,
}
use tick.Base.Int.{◌<ℤ◌}
use tick.Domain.{Task, Schedule, Error, Result, ok, err, rejected, unavailable}

-- Both tables, their rows in the order of insertion, and the sequences behind BIGSERIAL.
pub record Db : Type 0 where
  pub tasks : List Task
  pub next_task_id : ℕ
  pub schedules : List Schedule
  pub next_schedule_id : ℕ

-- `ORDER BY priority DESC, run_at`: `t` may stand before `u`.
abbrev pub Precedes : Task → Task → Type 0
Precedes t u = (u.priority <ℤ t.priority) ⊎ ((t.priority ≡ u.priority) × (t.run_at ≤ u.run_at))

abbrev pub IsOrdered : List Task → Type 0
IsOrdered [] = Unit
IsOrdered (t ∷ ts) = All (Precedes t) ts × IsOrdered ts

-- What the statements rely on: which texts a TEXT column takes (encoding), how JSONB stores a
-- document (`none` if it is no JSON), and a sort whose order among equal keys is not specified.
pub record Postgres : Type 0 where
  pub text_ok : Text → Bool
  pub to_jsonb : Text → Option Text
  pub order_by : List Task → List Task
  pub order_by-perm : (ts : List Task) → Permᴰ (order_by ts) ts
  pub order_by-IsOrdered : (ts : List Task) → IsOrdered (order_by ts)

-- What happens to one statement: it is executed and its reply arrives, it never reaches the
-- database, or it is executed and the reply is lost.
pub data Link : Type 0 where
  up down lost : Link

-- `sound` is false if the database refuses a parameter before it executes anything.
unfoldable pub exec {ℓ} : {A : Type ℓ} → Link → Bool → (Db → Db × Result A) → Db → Db × Result A
exec up sound statement db = if sound then statement db else (db, err rejected)
exec down sound statement db = (db, err unavailable)
exec lost sound statement db =
    if sound then ((statement db).0, err unavailable) else (db, err unavailable)

abbrev pub all_ok : (Text → Bool) → List Text → Bool
all_ok text_ok [] = true
all_ok text_ok (t ∷ ts) = text_ok t && all_ok text_ok ts

-- A statement has its whole effect or none.
pub exec_effect {ℓ} :
    {A : Type ℓ} (link : Link) (sound : Bool) (statement : Db → Db × Result A) (db : Db)
    → ((exec link sound statement db).0 ≡ db)
      ⊎ ((exec link sound statement db).0 ≡ (statement db).0)
unfolding exec
exec_effect up true statement db = inr refl
exec_effect up false statement db = inl refl
exec_effect down sound statement db = inl refl
exec_effect lost true statement db = inr refl
exec_effect lost false statement db = inl refl
