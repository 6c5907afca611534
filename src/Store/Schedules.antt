-- ===== src/Store/Schedules.antt =====
-- internal/store/postgres/schedule.go.
pub mod Laws
use tick.Base.{
  ℕ, ◌+◌, ◌≡◌, Bool, true, false, ◌&&◌, Option, none, some, List, [], ◌∷◌, ◌++◌, Text, bytes, ◌=?◌,
  ltb, find, select, update, if◌then◌else◌,
}
use tick.Domain.{Schedule, Result, ok, err, no_rows, rejected, default_timezone}
use tick.Database.{Db, Postgres, Link, exec, all_ok}
use tick.Database.Checks.{schedule_checks, int4_ok, int4_ok_ℤ, has_schedule_id}
use tick.Store.{read}
use tick.Store.Cancel.{no_rows_as_not_found}
use tick.Store.Enqueue.{max_attempts_or_default}

abbrev pub or_default : Text → Text → Text
or_default given default = if given =? [] then default else given

unfoldable pub scan_schedule : Option Schedule → Result Schedule
scan_schedule none = err no_rows
scan_schedule (some s) = ok s

-- The row of the VALUES list, with the defaults of the code and of the table.
unfoldable pub new_schedule : ℕ → Text → Schedule → ℕ → Schedule
new_schedule now document sc id = record {
  id = id;
  cron = sc.cron;
  timezone = or_default sc.timezone default_timezone;
  queue = or_default sc.queue (bytes "default");
  handler = sc.handler;
  payload = document;
  priority = sc.priority;
  max_attempts = max_attempts_or_default sc.max_attempts;
  enabled = true;
  last_materialized_at = none;
  created_at = now;
}

unfoldable pub insert_schedule : ℕ → Text → Schedule → Db → Db × Result Schedule
unfolding new_schedule schedule_checks
insert_schedule now document sc db =
    let s = new_schedule now document sc db.next_schedule_id in
    let db' = record db { next_schedule_id = db.next_schedule_id + 1 } in
    if schedule_checks s
    then (record db' { schedules = db.schedules ++ s ∷ [] }, ok s)
    else (db', err rejected)

unfoldable pub sound_schedule : Postgres → Schedule → Bool
sound_schedule pg sc =
    all_ok pg.text_ok (sc.cron ∷ sc.timezone ∷ sc.queue ∷ sc.handler ∷ [])
    && int4_ok_ℤ sc.priority
    && int4_ok (max_attempts_or_default sc.max_attempts)

unfoldable pub create_schedule : Postgres → Link → ℕ → Schedule → Db → Db × Result Schedule
unfolding exec insert_schedule sound_schedule
create_schedule pg link now sc db = elim (pg.to_jsonb sc.payload) [
  | none ↦ exec link false (λ d. (d, err rejected)) db
  | some document ↦ exec link (sound_schedule pg sc) (insert_schedule now document sc) db
]

unfoldable pub get_schedule : Link → ℕ → Db → Db × Result Schedule
unfolding exec read scan_schedule
get_schedule link id db =
    let (db', r) =
      exec link true (read (λ d. scan_schedule (find (has_schedule_id id) d.schedules))) db in
    (db', no_rows_as_not_found r)

-- Rows stand in the order of their ids, which is the ORDER BY.
unfoldable pub list_schedules : Link → Db → Db × Result (List Schedule)
unfolding exec read
list_schedules link db = exec link true (read (λ d. ok d.schedules)) db

unfoldable pub list_enabled_schedules : Link → Db → Db × Result (List Schedule)
unfolding exec read
list_enabled_schedules link db =
    exec link true (read (λ d. ok (select (λ s. s.enabled) d.schedules))) db

unfoldable pub set_enabled : ℕ → Bool → Db → Db × Result Schedule
unfolding scan_schedule
set_enabled id enabled db =
    let after = update (has_schedule_id id) (λ s. record s { enabled = enabled }) db.schedules in
    (record db { schedules = after }, scan_schedule (find (has_schedule_id id) after))

unfoldable pub set_schedule_enabled : Link → ℕ → Bool → Db → Db × Result Schedule
unfolding exec set_enabled
set_schedule_enabled link id enabled db =
    let (db', r) = exec link true (set_enabled id enabled) db in (db', no_rows_as_not_found r)

-- `last_materialized_at IS NULL OR last_materialized_at < $2`.
abbrev pub is_behind : ℕ → Option ℕ → Bool
is_behind instant none = true
is_behind instant (some last) = ltb last instant

unfoldable pub behind : ℕ → ℕ → Schedule → Bool
behind id instant s = has_schedule_id id s && is_behind instant s.last_materialized_at

unfoldable pub advance_to : ℕ → Schedule → Schedule
advance_to instant s = record s { last_materialized_at = some instant }

unfoldable pub advance_last_materialized_at : Link → ℕ → ℕ → Db → Db × Result (Unit {0})
unfolding exec behind advance_to
advance_last_materialized_at link id instant db =
    exec link true
      (λ d. (
        record d { schedules = update (behind id instant) (advance_to instant) d.schedules },
        ok tt,
      ))
      db
